-- ===== src/Api/Auth/Bytes.antt =====
-- src/api/mod.rs: `secret_eq` is equality, though it looks at every byte.
use akiro.Prelude.{
  ℕ, zero, suc, ◌*◌, ◌/◌, ◌%◌, ◌<◌, ◌≡◌, refl, subst, ◌↔◌, true, List, [], ◌∷◌, length, All, arith,
}
use akiro.Api.Auth.{xor_bits, or_bits, difference, secret_eq}

abbrev pub IsByte : ℕ → Type 0
IsByte b = b < 256

abbrev power : ℕ → ℕ
power zero = 1
power (suc n) = 2 * power n

xor_bits_sound : (n a b : ℕ) → a < power n → b < power n → xor_bits n a b ≡ 0 → a ≡ b
unfolding xor_bits
xor_bits_sound zero a b h k e = omega arith
xor_bits_sound (suc n) a b h k e =
    let tail : xor_bits n (a / 2) (b / 2) ≡ 0 = ground arith in
    let halves = xor_bits_sound n (a / 2) (b / 2) (omega arith) (omega arith) tail in
    let parity : a % 2 ≡ b % 2 = ground arith in omega arith

xor_bits_self : (n a : ℕ) → xor_bits n a a ≡ 0
unfolding xor_bits
xor_bits_self zero a = refl
xor_bits_self (suc n) a = ground (arith, xor_bits_self n (a / 2))

or_bits_zero : (n a b : ℕ) → a < power n → b < power n → or_bits n a b ≡ 0 → (a ≡ 0) × (b ≡ 0)
unfolding or_bits
or_bits_zero zero a b h k e = (omega arith, omega arith)
or_bits_zero (suc n) a b h k e =
    let tail : or_bits n (a / 2) (b / 2) ≡ 0 = ground arith in
    let (x, y) = or_bits_zero n (a / 2) (b / 2) (omega arith) (omega arith) tail in
    (ground arith, ground arith)

xor_bits_bound : (n a b : ℕ) → xor_bits n a b < power n
unfolding xor_bits
xor_bits_bound zero a b = omega arith
xor_bits_bound (suc n) a b = let less = xor_bits_bound n (a / 2) (b / 2) in ground arith

or_bits_bound : (n a b : ℕ) → or_bits n a b < power n
unfolding or_bits
or_bits_bound zero a b = omega arith
or_bits_bound (suc n) a b = let less = or_bits_bound n (a / 2) (b / 2) in ground arith

difference_sound :
    (diff : ℕ) (xs ys : List ℕ)
    → diff < 256
    → All IsByte xs
    → All IsByte ys
    → length xs ≡ length ys
    → difference diff xs ys ≡ 0
    → (diff ≡ 0) × (xs ≡ ys)
unfolding difference
difference_sound diff [] [] d h k n e = (e, refl)
difference_sound diff [] (y ∷ ys) d h k n e = absurd (omega arith)
difference_sound diff (x ∷ xs) [] d h k n e = absurd (omega arith)
difference_sound diff (x ∷ xs) (y ∷ ys) d (h, hs) (k, ks) n e =
    let (both, rest) =
      difference_sound (or_bits 8 diff (xor_bits 8 x y)) xs ys
        (or_bits_bound 8 diff (xor_bits 8 x y)) hs ks (omega arith) e in
    let (old, new) = or_bits_zero 8 diff (xor_bits 8 x y) d (xor_bits_bound 8 x y) both in
    (old, cc (xor_bits_sound 8 x y h k new, rest))

difference_self : (xs : List ℕ) → difference 0 xs xs ≡ 0
unfolding difference
difference_self [] = refl
difference_self (x ∷ xs) = rw (xor_bits_self 8 x) (difference_self xs)

secret_eq_self : (xs : List ℕ) → secret_eq xs xs ≡ true
unfolding secret_eq
secret_eq_self xs = ground (arith, difference_self xs)

-- On bytes, `secret_eq` says whether two sequences are equal.
pub secret_eq_iff :
    (xs ys : List ℕ) → All IsByte xs → All IsByte ys → (secret_eq xs ys ≡ true) ↔ (xs ≡ ys)
unfolding secret_eq
secret_eq_iff xs ys h k = (
  (λ e. (difference_sound 0 xs ys (omega arith) h k (ground arith) (ground arith)).1),
  λ e. subst (λ l. secret_eq xs l ≡ true) e (secret_eq_self xs),
)
