-- ===== src/Prelude/Word.antt =====
-- Machine integers: values are native numbers, and each operation writes out what the source's
-- release build does at the bound (it wraps; `saturating_*` stops).
use Prim.Native.Nat.{ℕ, ◌+◌, ◌-◌, ◌*◌, ◌%◌, min}

abbrev pub u64_max : ℕ
u64_max = 18446744073709551615

abbrev pub u32_max : ℕ
u32_max = 4294967295

-- `a + b` and `a * b` on u64.
abbrev pub add64 : ℕ → ℕ → ℕ
add64 a b = (a + b) % 18446744073709551616

-- `a - b` on u64, for `b` at most 2 ^ 64.
abbrev pub sub64 : ℕ → ℕ → ℕ
sub64 a b = (a + 18446744073709551616 - b) % 18446744073709551616

abbrev pub mul64 : ℕ → ℕ → ℕ
mul64 a b = (a * b) % 18446744073709551616

-- `x as u32`.
abbrev pub as_u32 : ℕ → ℕ
as_u32 n = n % 4294967296

abbrev pub saturating_add : ℕ → ℕ → ℕ
saturating_add a b = min (a + b) u64_max

abbrev pub saturating_mul : ℕ → ℕ → ℕ
saturating_mul a b = min (a * b) u64_max

-- Unsigned `saturating_sub`: the native subtraction stops at 0.
abbrev pub saturating_sub : ℕ → ℕ → ℕ
saturating_sub a b = a - b

abbrev pub mebibytes : ℕ → ℕ
mebibytes n = n * 1048576
