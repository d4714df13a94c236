-- ===== src/Prelude/Result.antt =====
-- `Result<T, E>` with the error first.
pub data Result {ℓ κ} (E : Type ℓ) (A : Type κ) : Type (ℓ ⊔ κ) where
  ok : A → Result E A
  err : E → Result E A

infixl 5 ◌>>=◌
abbrev pub ◌>>=◌ {ℓ κ ρ} :
    {E : Type ℓ} {A : Type κ} {B : Type ρ} → Result E A → (A → Result E B) → Result E B
ok a >>= f = f a
err e >>= f = err e
