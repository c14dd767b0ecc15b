-- ===== src/Avl/Tests.antt =====
-- Runs of the search tree with numbers for keys. The comparison counts its calls in the environment.
use gicel.Prelude.{ℕ, ◌≡◌, refl, List, [], ◌∷◌, true, arith}
use gicel.Avl.Applier.{ok, compare_keys, Ensures, Returns}
use gicel.Avl.Tree.{AvlNode, nil, node, avl_height, avl_new_node, avl_rebalance, avl_min_node}
use gicel.Avl.Tree.Balance.{IsAvl}
use gicel.Avl.Ints.{compare_ints, int_order, ints}
use gicel.Avl.Tree.Entries.{entries}
use gicel.Avl.Sorted.{IsSorted}
use gicel.Avl.Search.{avl_insert, avl_delete}
use gicel.Avl.Search.Balance.{GrownFrom, ShrunkFrom, avl_insert-Grown, avl_delete-Shrunk}
use gicel.Avl.Search.Refinement.{InsertedInto, DeletedFrom, avl_insert-Returns, avl_delete-Returns}
use gicel.Avl.Merge.{merge_keep, avl_merge_sorted, sorted_to_avl}
use gicel.Avl.Merge.Join.{Joined, avl_merge_sorted-Joined}
use gicel.Avl.Merge.Build.{IsHeight, sorted_to_avl_builds}

abbrev three : AvlNode ℕ ℕ
three = node 3 30 (node 1 10 nil nil 1) (node 5 50 nil nil 1) 2

-- The third key in a row needs a rotation.
abbrev ascending : AvlNode ℕ ℕ
ascending = node 1 10 nil (node 2 20 nil nil 1) 2

rotated :
    avl_insert compare_ints ascending 3 30 0
    ≡ ok (node 2 20 (node 1 10 nil nil 1) (node 3 30 nil nil 1) 2, true) 2
unfolding avl_insert compare_keys avl_new_node avl_rebalance
rotated = refl

deleted_root :
    avl_delete compare_ints three 3 0 ≡ ok (node 5 50 (node 1 10 nil nil 1) nil 2, true) 2
unfolding avl_delete compare_keys avl_rebalance avl_min_node
deleted_root = refl

avl_insert-Grown_example :
    Ensures (GrownFrom compare_ints three) (avl_insert compare_ints three 4 40 0)
unfolding avl_height
avl_insert-Grown_example = avl_insert-Grown compare_ints three 4 40 0 (omega arith)

avl_delete-Shrunk_example :
    Ensures (ShrunkFrom compare_ints three) (avl_delete compare_ints three 3 0)
unfolding avl_height
avl_delete-Shrunk_example = avl_delete-Shrunk compare_ints three 3 0 (omega arith)

three-IsSorted : IsSorted int_order (entries three)
three-IsSorted = ((refl, (refl, tt)), ((refl, tt), (tt, tt)))

avl_insert-Returns_example :
    Returns
      (InsertedInto compare_ints int_order ints 4 40 (entries three))
      (avl_insert compare_ints three 4 40 0)
avl_insert-Returns_example =
    avl_insert-Returns compare_ints int_order ints three 4 40 0 three-IsSorted

avl_delete-Returns_example :
    Returns
      (DeletedFrom compare_ints int_order ints 3 (entries three))
      (avl_delete compare_ints three 3 0)
avl_delete-Returns_example = avl_delete-Returns compare_ints int_order ints three 3 0 three-IsSorted

abbrev evens : List (ℕ × ℕ)
evens = (2, 20) ∷ (4, 40) ∷ []

abbrev small : List (ℕ × ℕ)
small = (1, 1) ∷ (2, 2) ∷ []

avl_merge_sorted-Joined_example :
    Joined compare_ints int_order ints merge_keep merge_keep merge_keep evens small []
      (avl_merge_sorted compare_ints merge_keep merge_keep merge_keep evens small 0)
avl_merge_sorted-Joined_example =
    avl_merge_sorted-Joined compare_ints int_order ints merge_keep merge_keep merge_keep evens small
      0 ((refl, tt), (tt, tt)) ((refl, tt), (tt, tt))

sorted_to_avl_builds_example :
    (entries (sorted_to_avl evens) ≡ evens)
    × IsAvl (sorted_to_avl evens)
    × IsHeight 2 (avl_height (sorted_to_avl evens))
sorted_to_avl_builds_example = sorted_to_avl_builds evens
