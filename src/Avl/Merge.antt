-- ===== src/Avl/Merge.antt =====
-- The merge-join of avl.go: sorted slices, the two-pointer merge, and a tree built from a slice. A
-- slice is a list; the two cursors of the merge are the lists that are left.
pub mod Join
pub mod Build
use gicel.Prelude.{
  ℕ, zero, suc, ◌+◌, ◌-◌, ◌/◌, Option, none, some, List, [], ◌∷◌, ◌++◌, length, get_elem?, ltb,
  if◌then◌else◌, Bool, true, false, Ordering,
}
use Prim.Native.Nat.Ordering.{lt, eq, gt}
use gicel.Avl.Applier.{Answer, ok, err, or_restore, Value, compare_keys}
use gicel.Avl.Tree.{AvlNode, nil, node, avl_update_height, avl_to_slice}

pub data MergeOp : Type 0 where
  merge_keep merge_skip : MergeOp

module _ {ℓ κ} {K : Type ℓ} {V : Type κ} where
  abbrev pub kept : MergeOp → List (K × V) → List (K × V)
  kept merge_keep xs = xs
  kept merge_skip xs = []

module _ {ℓ κ} {K : Type ℓ} {V : Type κ} {C E : Type 0} (compare : K → K → C → Answer C E Value)
    (on_left on_right on_both : MergeOp) where
  -- The loop, with the result so far, on fuel; `none` means that the fuel ran out.
  unfoldable pub merge_loop :
      ℕ → List (K × V) → List (K × V) → List (K × V) → C → Option (Answer C E (List (K × V)))
  merge_loop zero left right result ce = none
  merge_loop (suc n) [] right result ce = some (ok (result ++ kept on_right right) ce)
  merge_loop (suc n) (a ∷ left) [] result ce = some (ok (result ++ kept on_left (a ∷ left)) ce)
  merge_loop (suc n) (a ∷ left) (b ∷ right) result ce = elim (compare_keys compare a.0 b.0 ce) [
    | err e _ ↦ some (err e ce)
    | ok ord ce' ↦ elim ord [
      | lt ↦ merge_loop n left (b ∷ right) (result ++ kept on_left (a ∷ [])) ce'
      | gt ↦ merge_loop n (a ∷ left) right (result ++ kept on_right (b ∷ [])) ce'
      | eq ↦ merge_loop n left right (result ++ kept on_both (a ∷ [])) ce'
    ]
  ]

  -- Each round moves a cursor, so the lengths bound the rounds.
  unfoldable pub avl_merge_sorted :
      List (K × V) → List (K × V) → C → Option (Answer C E (List (K × V)))
  unfolding merge_loop
  avl_merge_sorted left right ce = merge_loop (suc (length left + length right)) left right [] ce

module _ {ℓ κ} {K : Type ℓ} {V : Type κ} {C E : Type 0}
    (compare : K → K → C → Answer C E Value) where
  unfoldable pub avl_merge_intersect :
      AvlNode K V → AvlNode K V → C → Option (Answer C E (List (K × V)))
  unfolding avl_merge_sorted avl_to_slice
  avl_merge_intersect a b ce =
      avl_merge_sorted compare merge_skip merge_skip merge_keep (avl_to_slice a) (avl_to_slice b) ce

  unfoldable pub avl_merge_difference :
      AvlNode K V → AvlNode K V → C → Option (Answer C E (List (K × V)))
  unfolding avl_merge_sorted avl_to_slice
  avl_merge_difference a b ce =
      avl_merge_sorted compare merge_keep merge_skip merge_skip (avl_to_slice a) (avl_to_slice b) ce

  unfoldable pub avl_merge_union :
      AvlNode K V → AvlNode K V → C → Option (Answer C E (List (K × V)))
  unfolding avl_merge_sorted avl_to_slice
  avl_merge_union a b ce =
      avl_merge_sorted compare merge_keep merge_keep merge_keep (avl_to_slice a) (avl_to_slice b) ce

module _ {ℓ κ} {K : Type ℓ} {V : Type κ} where
  abbrev root_of : Option (K × V) → AvlNode K V → AvlNode K V → AvlNode K V
  root_of none l r = nil
  root_of (some (k, v)) l r = avl_update_height (node k v l r 0)

  -- The range `[lo, hi)`; `mid` lies inside, so the access does not fault. On fuel, which is the
  -- length of the range.
  unfoldable pub sorted_to_avl_range : ℕ → List (K × V) → ℕ → ℕ → AvlNode K V
  sorted_to_avl_range zero entries lo hi = nil
  sorted_to_avl_range (suc n) entries lo hi =
      let mid = lo + (hi - lo) / 2 in
      let built =
        root_of (get_elem? entries mid) (sorted_to_avl_range n entries lo mid)
          (sorted_to_avl_range n entries (mid + 1) hi) in
      if ltb lo hi then built else nil

  unfoldable pub sorted_to_avl : List (K × V) → AvlNode K V
  unfolding sorted_to_avl_range
  sorted_to_avl entries = sorted_to_avl_range (length entries) entries 0 (length entries)
