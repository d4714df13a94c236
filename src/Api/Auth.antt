-- ===== src/Api/Auth.antt =====
-- src/api/mod.rs: the secret of the API and the middleware that asks for it. `HeaderValue::to_str` is
-- a parameter; a byte is a number below 256.
pub mod Bytes
pub mod Admits
use akiro.Prelude.{
  ℕ, zero, suc, ◌+◌, ◌*◌, ◌/◌, ◌%◌, Bool, true, false, not, Option, none, some, List, [], ◌∷◌, ◌==◌,
  ◌||◌, if◌then◌else◌, length,
}
use akiro.Prelude.Text.{Text, codes, as_bytes, trim, strip_prefix}

-- `^` and `|` on the lowest bits.
unfoldable pub xor_bits : ℕ → ℕ → ℕ → ℕ
xor_bits zero a b = 0
xor_bits (suc n) a b = (if a % 2 == b % 2 then 0 else 1) + 2 * xor_bits n (a / 2) (b / 2)

unfoldable pub or_bits : ℕ → ℕ → ℕ → ℕ
or_bits zero a b = 0
or_bits (suc n) a b = (if a % 2 == 1 || b % 2 == 1 then 1 else 0) + 2 * or_bits n (a / 2) (b / 2)

-- The loop over the zipped bytes, on a `u8`.
unfoldable pub difference : ℕ → List ℕ → List ℕ → ℕ
unfolding xor_bits or_bits
difference diff [] bs = diff
difference diff (a ∷ rest) [] = diff
difference diff (a ∷ rest) (b ∷ bs) = difference (or_bits 8 diff (xor_bits 8 a b)) rest bs

unfoldable pub secret_eq : List ℕ → List ℕ → Bool
unfolding difference
secret_eq provided expected =
    if length provided == length expected then difference 0 provided expected == 0 else false

abbrev pub is_blank : Text → Bool
is_blank s = elim (trim s) [ [] ↦ true | c ∷ cs ↦ false ]

unfoldable pub normalize_secret : Option Text → Option Text
normalize_secret none = none
normalize_secret (some s) = if is_blank s then none else some s

-- The two headers that are read, as bytes.
pub record Headers : Type 0 where
  pub x_judge_secret : Option (List ℕ)
  pub authorization : Option (List ℕ)

abbrev pub and_then {ℓ κ} : {A : Type ℓ} {B : Type κ} → Option A → (A → Option B) → Option B
and_then none f = none
and_then (some a) f = f a

abbrev pub or_else {ℓ} : {A : Type ℓ} → Option A → Option A → Option A
or_else none other = other
or_else (some a) other = some a

unfoldable pub provided : (List ℕ → Option Text) → Headers → Option Text
provided to_str h =
    or_else (and_then h.x_judge_secret to_str)
      (and_then (and_then h.authorization to_str) (strip_prefix (codes "Bearer ")))

abbrev pub authorized : Option Text → Text → Bool
authorized none expected = false
authorized (some p) expected = secret_eq (as_bytes p) (as_bytes expected)

-- Whether the request goes on to its handler.
unfoldable pub auth_middleware : (List ℕ → Option Text) → Option Text → Headers → Bool
unfolding provided secret_eq
auth_middleware to_str none h = true
auth_middleware to_str (some expected) h = authorized (provided to_str h) expected
