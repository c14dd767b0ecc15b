-- ===== src/Ir/Deps.antt =====
-- internal/lang/ir/deps.go: the sorting of bindings by their dependencies. The name of a binding and the
-- keys of the free variables of its expression are parameters.
pub mod Sums
mod Relax
mod Rounds
pub mod Sorted
mod Tests
use gicel.Prelude.{
  ℕ, zero, suc, ◌+◌, ◌-◌, ◌==◌, Bool, true, false, ◌&&◌, ◌||◌, not, Option, none, some, List, [],
  ◌∷◌, ◌++◌, length, leb, if◌then◌else◌, get_elem?,
}
use gicel.Prelude.Bytes.{Bytes, bytes_eq}

-- The positions of a slice with n elements.
abbrev pub range : ℕ → List ℕ
range zero = []
range (suc n) = range n ++ n ∷ []

abbrev pub filter {ℓ} : {A : Type ℓ} → (A → Bool) → List A → List A
filter p [] = []
filter p (x ∷ xs) = if p x then x ∷ filter p xs else filter p xs

abbrev pub any {ℓ} : {A : Type ℓ} → (A → Bool) → List A → Bool
any p [] = false
any p (x ∷ xs) = p x || any p xs

abbrev pub is_at : ℕ → Option ℕ → Bool
is_at j none = false
is_at j (some i) = i == j

-- A variable with the module that qualifies it, empty for none.
pub record VarKey : Type 0 where
  pub key_module : Bytes
  pub var_name : Bytes

module _ {B : Type 0} (name : B → Bytes) (free_vars : B → List VarKey) where
  -- A later binding takes the place of an earlier one of the same name.
  abbrev pub name_idx : ℕ → List B → Bytes → Option ℕ
  name_idx i [] x = none
  name_idx i (b ∷ bs) x = elim (name_idx (suc i) bs x) [
    | some j ↦ some j
    | none ↦ if bytes_eq (name b) x then some i else none
  ]

  -- Whether the set `deps[i]` has j.
  unfoldable pub depends_on : List B → ℕ → ℕ → Bool
  depends_on bs i j = elim (get_elem? bs i) [
    | none ↦ false
    | some b ↦ not (j == i) && any (λ key. is_at j (name_idx 0 bs (key.var_name))) (free_vars b)
  ]

-- The variables of the loop. `result` has positions.
pub record Kahn : Type 0 where
  pub queue : List ℕ
  pub in_deg : ℕ → ℕ
  pub emitted : ℕ → Bool
  pub result : List ℕ

abbrev pub update {ℓ} : {A : Type ℓ} → (ℕ → A) → ℕ → A → ℕ → A
update f j v i = if i == j then v else f i

-- The loop over the reverse edges. A count that becomes 0 was 1.
abbrev pub relax : List ℕ → (ℕ → ℕ) → List ℕ → (ℕ → ℕ) × List ℕ
relax [] in_deg queue = (in_deg, queue)
relax (j ∷ js) in_deg queue =
    relax js (update in_deg j (in_deg j - 1)) (if in_deg j == 1 then queue ++ j ∷ [] else queue)

module _ (n : ℕ) (dep : ℕ → ℕ → Bool) where
  abbrev pub rdeps : ℕ → List ℕ
  rdeps j = filter (λ i. dep i j) (range n)

  abbrev pub start_deg : ℕ → ℕ
  start_deg i = length (filter (dep i) (range n))

  unfoldable pub kahn_start : Kahn
  kahn_start = record {
    queue = filter (λ i. start_deg i == 0) (range n);
    in_deg = start_deg;
    emitted = λ i. false;
    result = [];
  }

  -- One round of the loop, with `idx` from the front of the queue.
  unfoldable pub kahn_step : ℕ → List ℕ → Kahn → Kahn
  kahn_step idx rest st =
      let (in_deg, queue) = relax (rdeps idx) st.in_deg rest in
      record {
        queue = queue;
        in_deg = in_deg;
        emitted = update st.emitted idx true;
        result = st.result ++ idx ∷ [];
      }

  -- On fuel: `none` when it runs out. The queue is passed beside the state.
  unfoldable pub kahn_loop : ℕ → List ℕ → Kahn → Option Kahn
  unfolding kahn_step
  kahn_loop fuel [] st = some st
  kahn_loop zero (idx ∷ rest) st = none
  kahn_loop (suc fuel) (idx ∷ rest) st =
      let next = kahn_step idx rest st in kahn_loop fuel next.queue next

  -- The positions in the order of the result: those emitted, then the members of cycles.
  unfoldable pub sort_order : ℕ → Option (List ℕ)
  unfolding kahn_start kahn_loop
  sort_order fuel = elim (kahn_loop fuel kahn_start.queue kahn_start) [
    | none ↦ none
    | some st ↦ some (st.result ++ filter (λ i. not (st.emitted i)) (range n))
  ]

abbrev pub pick {ℓ} : {A : Type ℓ} → List A → List ℕ → List A
pick bs [] = []
pick bs (i ∷ is) = elim (get_elem? bs i) [ none ↦ pick bs is | some b ↦ b ∷ pick bs is ]

module _ {B : Type 0} (name : B → Bytes) (free_vars : B → List VarKey) where
  unfoldable pub sort_bindings : List B → Option (List B)
  unfolding sort_order depends_on
  sort_bindings bs =
      if leb (length bs) 1
      then some bs
      else elim (sort_order (length bs) (depends_on name free_vars bs) (length bs)) [
        | none ↦ none
        | some order ↦ some (pick bs order)
      ]
