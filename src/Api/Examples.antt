-- ===== src/Api/Examples.antt =====
-- src/api/mod.rs: the theorems at concrete secrets.
use mathlib.Core.Option.{some-injective, none-ne-some}
use akiro.Prelude.{
  false, ℕ, ◌≡◌, refl, sym, ◌∙◌, subst, Bool-cases, inl, inr, if◌then◌else◌, ◌↔◌, ◌⊎◌, true, Option,
  none, some, List, [], ◌∷◌, arith, ltb,
}
use akiro.Prelude.Text.{Text, codes}
use akiro.Api.Auth.{Headers, normalize_secret, is_blank, auth_middleware}
use akiro.Api.Auth.Admits.{IsText, Knows, auth_middleware_iff}

abbrev given : List ℕ
given = 115 ∷ 51 ∷ []

abbrev wanted : List ℕ
wanted = 115 ∷ 52 ∷ []

-- A header of one visible byte is read as it is, and no other.
abbrev pub one_byte : List ℕ → Option Text
one_byte [] = none
one_byte (b ∷ []) = if ltb b 127 then some (b ∷ []) else none
one_byte (b ∷ c ∷ bs) = none

pub one_byte-IsText : (b : List ℕ) (s : Text) → one_byte b ≡ some s → IsText s
one_byte-IsText [] s e = absurd (none-ne-some _ e)
one_byte-IsText (b ∷ []) s e = elim (Bool-cases (ltb b 127)) [
  | inl low ↦ subst IsText (some-injective _ _ (sym (on_low low) ∙ e)) (ground arith, tt)
  | inr high ↦ absurd (none-ne-some _ (sym (on_high high) ∙ e))
]
  where
    on_low : ltb b 127 ≡ true → one_byte (b ∷ []) ≡ some (b ∷ [])
    on_low low = rw low refl

    on_high : ltb b 127 ≡ false → one_byte (b ∷ []) ≡ none
    on_high high = rw high refl
one_byte-IsText (b ∷ c ∷ bs) s e = absurd (none-ne-some _ e)

abbrev pub headers : Headers
headers = record { x_judge_secret = some (115 ∷ []); authorization = none }

auth_middleware_iff_example :
    (auth_middleware one_byte (normalize_secret (some (codes "s"))) headers ≡ true)
    ↔ ((is_blank (codes "s") ≡ true) ⊎ Knows one_byte headers (codes "s"))
auth_middleware_iff_example =
    auth_middleware_iff one_byte one_byte-IsText (codes "s") headers (omega arith, tt)
