-- ===== src/Prelude/Decimal.antt =====
-- Numbers as `{}` prints them. 20 digits are enough for every u64.
pub mod RoundTrip
use akiro.Prelude.Tests.{ltb, if◌then◌else◌}
use akiro.Prelude.Text.{Text}
use Prim.Native.Nat.{ℕ, zero, suc, ◌+◌, ◌/◌, ◌%◌}
use mathlib.Core.List.{[], ◌∷◌, ◌++◌}

pub decimal_digits : ℕ → ℕ → Text
decimal_digits zero n = []
decimal_digits (suc fuel) n =
    let front = decimal_digits fuel (n / 10) in
    if ltb n 10 then (b'0' + n) ∷ [] else front ++ (b'0' + n % 10) ∷ []

unfoldable pub decimal : ℕ → Text
unfolding decimal_digits
decimal n = decimal_digits 20 n
