-- ===== src/Prelude/Decimal/RoundTrip.antt =====
-- A number that `{}` prints is read back by `str::parse`.
use akiro.Prelude.Tests.{leb, ltb, if◌then◌else◌, Bool-cases, ◌==◌}
use akiro.Prelude.Lists.{All, All-append}
use akiro.Prelude.Text.{Text, is_digit, parse_digits, parse_unsigned}
use akiro.Prelude.Decimal.{decimal_digits, decimal}
use Prim.Native.Nat.{ℕ, zero, suc, ◌+◌, ◌-◌, ◌*◌, ◌/◌, ◌%◌, ◌<◌, ◌≤◌}
use mathlib.Core.Path.{◌≡◌, refl, ◌∙◌}
use mathlib.Core.Logic.{◌≢◌, inl, inr}
use mathlib.Core.Bool.{true, false, ◌&&◌}
use mathlib.Core.Option.{Option, none, some}
use mathlib.Core.List.{[], ◌∷◌, ◌++◌}
use native.Mathlib.Omega.{arith}

abbrev pub IsDigit : ℕ → Type 0
IsDigit c = is_digit c ≡ true

-- A digit more, after what was read.
abbrev read_digit : ℕ → ℕ → Option ℕ → Option ℕ
read_digit bound c none = none
read_digit bound c (some acc) =
    if is_digit c && leb (acc * 10 + (c - b'0')) bound then some (acc * 10 + (c - b'0')) else none

parse_digits-append :
    (bound acc : ℕ) (s : Text) (c : ℕ)
    → parse_digits bound acc (s ++ c ∷ []) ≡ read_digit bound c (parse_digits bound acc s)
parse_digits-append bound acc [] c = ground arith
parse_digits-append bound acc (d ∷ s) c =
    elim (Bool-cases (is_digit d && leb (acc * 10 + (d - b'0')) bound)) [
      | inl ok ↦ rw ok (parse_digits-append bound (acc * 10 + (d - b'0')) s c)
      | inr bad ↦ rw bad refl
    ]

abbrev pub power10 : ℕ → ℕ
power10 zero = 1
power10 (suc n) = 10 * power10 n

parse_digits-decimal_digits :
    (fuel n bound : ℕ)
    → n < power10 fuel
    → n ≤ bound
    → parse_digits bound 0 (decimal_digits fuel n) ≡ some n
unfolding decimal_digits
parse_digits-decimal_digits zero n bound h k = ground arith
parse_digits-decimal_digits (suc fuel) n bound h k = elim (Bool-cases (ltb n 10)) [
  | inl one ↦ rw one (ground arith)
  | inr more ↦
      let front = parse_digits-decimal_digits fuel (n / 10) bound (omega arith) (omega arith) in
      rw more (
        parse_digits-append bound 0 (decimal_digits fuel (n / 10)) (b'0' + n % 10)
        ∙ rw front (ground arith))
]

pub decimal_digits-IsDigit : (fuel n : ℕ) → All IsDigit (decimal_digits fuel n)
unfolding decimal_digits
decimal_digits-IsDigit zero n = tt
decimal_digits-IsDigit (suc fuel) n = elim (Bool-cases (ltb n 10)) [
  | inl one ↦ rw one (ground arith, tt)
  | inr more ↦ rw more (
      All-append IsDigit (decimal_digits fuel (n / 10)) ((b'0' + n % 10) ∷ [])
        (decimal_digits-IsDigit fuel (n / 10)) (ground arith, tt))
]

pub decimal-IsDigit : (n : ℕ) → All IsDigit (decimal n)
unfolding decimal
decimal-IsDigit n = decimal_digits-IsDigit 20 n

-- `+` is no digit, so `parse` reads them all.
pub parse_unsigned-digits :
    (bound : ℕ) (s : Text)
    → All IsDigit s
    → s ≢ []
    → parse_unsigned bound s ≡ parse_digits bound 0 s
parse_unsigned-digits bound [] h k = absurd (k refl)
parse_unsigned-digits bound (c ∷ []) h k = refl
parse_unsigned-digits bound (c ∷ d ∷ s) (h, hs) k =
    let other : (c == b'+') ≡ false = ground arith in rw other refl

append-ne-nil : (s : Text) (c : ℕ) → s ++ c ∷ [] ≢ []
append-ne-nil [] c h = cc
append-ne-nil (d ∷ s) c h = cc

decimal_digits-ne-nil : (fuel n : ℕ) → decimal_digits (suc fuel) n ≢ []
unfolding decimal_digits
decimal_digits-ne-nil fuel n = elim (Bool-cases (ltb n 10)) [
  | inl one ↦ rw one (λ e. cc)
  | inr more ↦ rw more (append-ne-nil _ _)
]

pub decimal-ne-nil : (n : ℕ) → decimal n ≢ []
unfolding decimal
decimal-ne-nil n = decimal_digits-ne-nil 19 n

-- What `{}` prints of a u64 is parsed back, by a type that holds it.
pub parse_unsigned-decimal :
    (bound n : ℕ) → n ≤ bound → n ≤ 18446744073709551615 → parse_unsigned bound (decimal n) ≡ some n
unfolding decimal
parse_unsigned-decimal bound n h k =
    parse_unsigned-digits bound (decimal n) (decimal-IsDigit n) (decimal-ne-nil n)
    ∙ parse_digits-decimal_digits 20 n bound (omega arith) h
