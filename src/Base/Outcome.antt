-- ===== src/Base/Outcome.antt =====
-- What a call that can fail gives: a value, an error, or a run-time panic. Which error is not told.

pub data Outcome {ℓ} (A : Type ℓ) : Type ℓ where
  returns : A → Outcome A
  fails : Outcome A
  panics : Outcome A

infixl 5 ◌>>=◌
abbrev pub ◌>>=◌ {ℓ κ} : {A : Type ℓ} {B : Type κ} → Outcome A → (A → Outcome B) → Outcome B
returns a >>= f = f a
fails >>= f = fails
panics >>= f = panics
