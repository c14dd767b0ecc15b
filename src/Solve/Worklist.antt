-- ===== src/Solve/Worklist.antt =====
-- internal/compiler/check/solve/worklist.go: the solver's queue of constraints, two buffers.
-- A slice is a list from its first element on. The constraints are of any type `Ct`. A popped slot
-- of `back` is overwritten with nil in the source, which is not observable behind the cursor, so the
-- slot keeps its element here.
pub mod Queue
pub mod Client
mod Tests
use gicel.Prelude.{
  ℕ, zero, suc, ◌+◌, ◌-◌, Bool, Option, none, some, List, [], ◌∷◌, ◌++◌, ◌&&◌, reverse, length,
  get_elem?, take, drop, ltb, leb, ◌==◌, if◌then◌else◌,
}

pub record Worklist {ℓ} (Ct : Type ℓ) : Type ℓ where
  pub front : List Ct
  pub back : List Ct
  pub back_head : ℕ

module _ {ℓ} {Ct : Type ℓ} where
  unfoldable pub push : Worklist Ct → Ct → Worklist Ct
  push w ct = record w { back = w.back ++ ct ∷ [] }

  -- The loop of `PushFront`, from the last of `cts` to the first.
  unfoldable pub push_reversed : List Ct → List Ct → List Ct
  push_reversed front [] = front
  push_reversed front (ct ∷ cts) = push_reversed front cts ++ ct ∷ []

  unfoldable pub push_front : Worklist Ct → List Ct → Worklist Ct
  unfolding push_reversed
  push_front w [] = w
  push_front w cts = record w { front = push_reversed w.front cts }

  unfoldable pub pop : Worklist Ct → Option Ct × Worklist Ct
  pop w =
      let n = length w.front in
      if ltb 0 n
      then (get_elem? w.front (n - 1), record w { front = take (n - 1) w.front })
      else if ltb w.back_head (length w.back)
      then (get_elem? w.back w.back_head, record w { back_head = w.back_head + 1 })
      else (none, w)

  unfoldable pub len : Worklist Ct → ℕ
  len w = length w.front + length w.back - w.back_head

  unfoldable pub empty : Worklist Ct → Bool
  empty w = length w.front == 0 && leb (length w.back) w.back_head

  unfoldable pub reset : Worklist Ct → Worklist Ct
  reset w = record { front = []; back = []; back_head = 0 }

  unfoldable pub drain : Worklist Ct → List Ct × Worklist Ct
  unfolding len reset
  drain w =
      if len w == 0 then ([], reset w) else (reverse w.front ++ drop w.back_head w.back, reset w)

  -- The source keeps the slice of the caller, in which later calls write nil; here the list is copied.
  unfoldable pub load : Worklist Ct → List Ct → Worklist Ct
  load w cts = record { front = []; back = cts; back_head = 0 }
