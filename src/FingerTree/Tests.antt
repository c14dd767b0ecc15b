-- ===== src/FingerTree/Tests.antt =====
-- Runs of the finger tree with numbers for values.
use gicel.Prelude.{ℕ, ◌≡◌, refl, List, [], ◌∷◌, ◌++◌, some, arith}
use gicel.Prelude.Outcome.{returns, Yields}
use gicel.FingerTree.Node.{leaf, mk_node3, FTree, ft_single, mk_deep, items, IsFt, Holds}
use gicel.FingerTree.Ends.{ft_cons, ft_uncons}
use gicel.FingerTree.Ends.Laws.{Unconsed, ft_uncons-Yields}
use gicel.FingerTree.Concat.{ft_append}
use gicel.FingerTree.Concat.Laws.{ft_append-Holds}
use gicel.FingerTree.Index.{ft_index}
use gicel.FingerTree.Index.Laws.{leaf_at, ft_index-eq}
use gicel.FingerTree.Walk.{ft_to_list, ft_from_list}
use gicel.FingerTree.Walk.Laws.{values, ft_to_list-ft_from_list}

-- A full left digit over a spine of one node.
abbrev full : FTree ℕ
full =
    mk_deep (leaf 1 ∷ leaf 2 ∷ leaf 3 ∷ leaf 4 ∷ [])
      (ft_single (mk_node3 (leaf 5) (leaf 6) (leaf 7))) (leaf 8 ∷ [])

full-IsFt : IsFt 0 full
full-IsFt = (
  refl,
  (omega arith, omega arith, (tt, (tt, (tt, (tt, tt))))),
  (refl, tt, tt, tt),
  (omega arith, omega arith, (tt, tt)),
)

index_in_spine : ft_index full 5 ≡ returns (some (leaf 6))
unfolding ft_index
index_in_spine = refl

pushed : items (ft_cons (leaf 0) full) ≡ 0 ∷ 1 ∷ 2 ∷ 3 ∷ 4 ∷ 5 ∷ 6 ∷ 7 ∷ 8 ∷ []
unfolding ft_cons
pushed = refl

ft_uncons-Yields_example : Yields (Unconsed 0 (items full)) (ft_uncons full)
ft_uncons-Yields_example = ft_uncons-Yields 0 full full-IsFt

ft_append-Holds_example : Holds 0 (items full ++ items full) (ft_append full full)
ft_append-Holds_example = ft_append-Holds 0 full full full-IsFt full-IsFt

ft_index-eq_example : ft_index full 7 ≡ returns (leaf_at (items full) 7)
ft_index-eq_example = ft_index-eq full 7 full-IsFt

abbrev five : List ℕ
five = 1 ∷ 2 ∷ 3 ∷ 4 ∷ 5 ∷ []

ft_to_list-ft_from_list_example : ft_to_list (ft_from_list (values five)) ≡ returns (values five)
ft_to_list-ft_from_list_example = ft_to_list-ft_from_list five
