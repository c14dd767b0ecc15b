-- ===== src/Prelude/Outcome.antt =====
-- A call that returns or that panics.

pub data Outcome {ℓ} (A : Type ℓ) : Type ℓ where
  returns : A → Outcome A
  panics : Outcome A

module _ {ℓ κ} {A : Type ℓ} {B : Type κ} where
  -- The rest of the caller's body.
  abbrev pub after_call : Outcome A → (A → Outcome B) → Outcome B
  after_call (returns a) f = f a
  after_call panics f = panics

-- The empty type of any universe.
pub data Never {κ} : Type κ where

-- The call returns, with what holds of its result.
abbrev pub Yields {ℓ κ} : {A : Type ℓ} → (A → Type κ) → Outcome A → Type κ
Yields P (returns a) = P a
Yields P panics = Never {κ}

module _ {ℓ κ μ ν} {A : Type ℓ} {B : Type κ} (Q : B → Type μ) where
  pub after_call-Yields :
      (P : A → Type ν) (m : Outcome A) (f : A → Outcome B)
      → Yields P m
      → ((a : A) → P a → Yields Q (f a))
      → Yields Q (after_call m f)
  after_call-Yields P (returns a) f h k = k a h
  after_call-Yields P panics f h k = elim h [ ]
