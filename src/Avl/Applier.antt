-- ===== src/Avl/Applier.antt =====
-- Calls of language functions from avl.go (eval.Applier, eval.CapEnv): a call gets the capability
-- environment, and gives a value or an error with the environment after it. The evaluator behind the
-- interface is a parameter, and so is the type `C` of environments and the type `E` of its errors.
use gicel.Prelude.{[], ◌∷◌, if◌then◌else◌, Ordering}
use gicel.Budget.{LimitError}
use gicel.Prelude.Bytes.{Bytes, bytes_eq}
use Prim.Native.Nat.Ordering.{lt, eq, gt}

-- An error of a call, one of the two that `compareKeys` makes of a reply, or one of a primitive: an
-- argument that it cannot use, or a charge that reached a limit.
pub data Fault (E : Type 0) : Type 0 where
  raised : E → Fault E
  expected_ordering : Fault E
  malformed : Bytes → Fault E
  bad_argument : Fault E
  limited : LimitError → Fault E

-- `(a, ce, nil)` and `(_, ce, err)`.
pub data Answer {ℓ} (C E : Type 0) (A : Type ℓ) : Type ℓ where
  ok : A → C → Answer C E A
  err : Fault E → C → Answer C E A

module _ {ℓ κ} {C E : Type 0} {A : Type ℓ} {B : Type κ} where
  -- `if err != nil { return …, ce, err }` with `ce` the environment before the call.
  abbrev pub or_restore : C → Answer C E A → (A → C → Answer C E B) → Answer C E B
  or_restore ce (ok a c) f = f a c
  or_restore ce (err e c) f = err e ce

  -- The same where the call has assigned `ce`.
  abbrev pub and_then : Answer C E A → (A → C → Answer C E B) → Answer C E B
  and_then (ok a c) f = f a c
  and_then (err e c) f = err e c

-- A constructor value by its name, or a value of another kind.
pub data Value : Type 0 where
  con_val : Bytes → Value
  other_val : Value

abbrev pub order_lt : Bytes
order_lt = b'L' ∷ b'T' ∷ []

abbrev pub order_eq : Bytes
order_eq = b'E' ∷ b'Q' ∷ []

abbrev pub order_gt : Bytes
order_gt = b'G' ∷ b'T' ∷ []

abbrev pub bool_true : Bytes
bool_true = b'T' ∷ b'r' ∷ b'u' ∷ b'e' ∷ []

module _ {C E : Type 0} where
  -- The `switch` on the constructor's name. The Go results -1, 0 and 1 are `lt`, `eq` and `gt`.
  abbrev pub read_ordering : Value → C → Answer C E Ordering
  read_ordering other_val c = err expected_ordering c
  read_ordering (con_val name) c =
      if bytes_eq name order_lt
      then ok lt c
      else if bytes_eq name order_eq
      then ok eq c
      else if bytes_eq name order_gt
      then ok gt c
      else err (malformed name) c

  -- `compare` calls the language's comparison.
  unfoldable pub compare_keys {ℓ} :
      {K : Type ℓ} → (K → K → C → Answer C E Value) → K → K → C → Answer C E Ordering
  compare_keys compare a b ce = or_restore ce (compare a b ce) read_ordering

-- What holds of the answer, if there is one, and that there is one.
abbrev pub Ensures {ℓ} : {C E : Type 0} {A : Type ℓ} → (A → Type 0) → Answer C E A → Type 0
Ensures P (ok a c) = P a
Ensures P (err e c) = Unit

abbrev pub Returns {ℓ} : {C E : Type 0} {A : Type ℓ} → (A → Type 0) → Answer C E A → Type 0
Returns P (ok a c) = P a
Returns P (err e c) = ⊥

module _ {ℓ κ} {C E : Type 0} {A : Type ℓ} {B : Type κ} (Q : B → Type 0) where
  pub or_restore-Ensures :
      (P : A → Type 0) (ce : C) (m : Answer C E A) (f : A → C → Answer C E B)
      → Ensures P m
      → ((a : A) (c : C) → P a → Ensures Q (f a c))
      → Ensures Q (or_restore ce m f)
  or_restore-Ensures P ce (ok a c) f h k = k a c h
  or_restore-Ensures P ce (err e c) f h k = tt

  pub or_restore-any :
      (ce : C) (m : Answer C E A) (f : A → C → Answer C E B)
      → ((a : A) (c : C) → Ensures Q (f a c))
      → Ensures Q (or_restore ce m f)
  or_restore-any ce (ok a c) f k = k a c
  or_restore-any ce (err e c) f k = tt

  pub or_restore-Returns :
      (P : A → Type 0) (ce : C) (m : Answer C E A) (f : A → C → Answer C E B)
      → Returns P m
      → ((a : A) (c : C) → P a → Returns Q (f a c))
      → Returns Q (or_restore ce m f)
  or_restore-Returns P ce (ok a c) f h k = k a c h
  or_restore-Returns P ce (err e c) f h k = absurd h

module _ {ℓ κ} {C E : Type 0} {A : Type ℓ} {B : Type κ} (Q : B → Type 0) where
  pub and_then-Returns :
      (P : A → Type 0) (m : Answer C E A) (f : A → C → Answer C E B)
      → Returns P m
      → ((a : A) (c : C) → P a → Returns Q (f a c))
      → Returns Q (and_then m f)
  and_then-Returns P (ok a c) f h k = k a c h
  and_then-Returns P (err e c) f h k = absurd h

pub Returns-imp {ℓ} :
    {C E : Type 0} {A : Type ℓ} (P Q : A → Type 0) (m : Answer C E A)
    → ((a : A) → P a → Q a)
    → Returns P m
    → Returns Q m
Returns-imp P Q (ok a c) f h = f a h
Returns-imp P Q (err e c) f h = h
