-- ===== src/Containers/Tests.antt =====
-- Runs of the primitives with numbers for keys, and a budget that admits every charge.
use gicel.Prelude.{
  ◌+◌, ℕ, ◌≡◌, refl, ◌↔◌, true, ◌&&◌, ◌||◌, not, List, [], ◌∷◌, Option, none, arith,
}
use gicel.Prelude.Int.{ℤ, pos}
use gicel.Budget.{LimitError}
use gicel.Avl.Applier.{Answer, ok, Returns}
use gicel.Avl.Tree.{nil, node, avl_height}
use gicel.Avl.Ints.{compare_ints, int_order, ints}
use gicel.Avl.Tree.Entries.{entries}
use gicel.Avl.Sorted.{list_insert, list_lookup, list_member}
use gicel.Containers.MapVal.{MapVal, map_arg}
use gicel.Containers.MapVal.Laws.{IsMap, HasEntries}
use gicel.Containers.Map.{map_insert, map_lookup, map_member, map_from_list}
use gicel.Containers.Map.Laws.{
  last_binding, pairs_val, map_insert-Returns, map_lookup-Returns, map_from_list-Returns,
}
use gicel.Containers.Map.Combine.{map_union_with, map_intersection_with}
use gicel.Containers.Map.Entry.{Computes}
use gicel.Containers.Map.Union.{either_value, map_union_with-Returns}
use gicel.Containers.Map.Intersection.{common_value, map_intersection_with-Returns}
use gicel.Containers.Set.{SetVal, set_union, set_intersection, set_difference, set_is_subset_of}
use gicel.Containers.Set.Algebra.{Finishes, HasMembers, member_of, set_algebra}
use gicel.Containers.Set.Subset.{set_is_subset_of-Returns}

abbrev free : ℤ → Option LimitError
free cost = none

abbrev all_free : ℕ → ℤ → Option LimitError
all_free n cost = none

abbrev two : MapVal ℕ ℕ ℕ ⊥
two = record { root = node 3 30 (node 1 10 nil nil 1) nil 2; cmp = compare_ints; size = pos 2 }

two-IsMap : IsMap int_order two
unfolding avl_height
two-IsMap = record {
  ordered = ints;
  sorted = ((refl, tt), (tt, tt));
  balanced = omega arith;
  counted = refl;
}

abbrev odd : SetVal ℕ ℕ ⊥
odd = record { root = node 3 tt (node 1 tt nil nil 1) nil 2; cmp = compare_ints; size = pos 2 }

odd-IsMap : IsMap int_order odd
unfolding avl_height
odd-IsMap = record {
  ordered = ints;
  sorted = ((refl, tt), (tt, tt));
  balanced = omega arith;
  counted = refl;
}

abbrev three_only : SetVal ℕ ℕ ⊥
three_only = record { root = node 3 tt nil nil 1; cmp = compare_ints; size = pos 1 }

three_only-IsMap : IsMap int_order three_only
unfolding avl_height
three_only-IsMap = record {
  ordered = ints;
  sorted = (tt, tt);
  balanced = omega arith;
  counted = refl;
}

map_insert-Returns_example :
    Returns
      (HasEntries int_order (list_insert int_order 2 20 (entries two.root)))
      (map_insert free 2 20 (map_arg two) 0)
map_insert-Returns_example = map_insert-Returns int_order free 2 20 two 0 refl two-IsMap

map_lookup-Returns_example :
    Returns
      (λ found. found ≡ list_lookup int_order 3 (entries two.root))
      (map_lookup 3 (map_arg two) 0)
    × Returns
        (λ found. found ≡ list_member int_order 3 (entries two.root))
        (map_member 3 (map_arg two) 0)
map_lookup-Returns_example = map_lookup-Returns int_order 3 two 0 two-IsMap

abbrev pairs : List (ℕ × ℕ)
pairs = (2, 20) ∷ (1, 10) ∷ (2, 21) ∷ []

map_from_list-Returns_example :
    Returns
      (λ m.
        IsMap int_order m
        × ((j : ℕ)
            → list_lookup int_order j (entries m.root) ≡ last_binding int_order j pairs none))
      (map_from_list all_free compare_ints (pairs_val pairs) 0)
map_from_list-Returns_example =
    map_from_list-Returns int_order all_free compare_ints pairs 0 (λ i. refl) ints

abbrev keys : List ℕ
keys = 5 ∷ 1 ∷ 5 ∷ []

set_algebra_example :
    Finishes
      (HasMembers int_order λ j. member_of int_order odd j || member_of int_order three_only j)
      (set_union (map_arg odd) (map_arg three_only) 0)
    × Finishes
        (HasMembers int_order λ j. member_of int_order odd j && member_of int_order three_only j)
        (set_intersection (map_arg odd) (map_arg three_only) 0)
    × Finishes
        (HasMembers int_order
          λ j. member_of int_order odd j && not (member_of int_order three_only j))
        (set_difference (map_arg odd) (map_arg three_only) 0)
set_algebra_example = set_algebra int_order odd three_only 0 odd-IsMap three_only-IsMap

set_is_subset_of-Returns_example :
    Returns
      (λ b. (b ≡ true) ↔ (
        (k : ℕ)
        → list_member int_order k (entries three_only.root) ≡ true
        → list_member int_order k (entries odd.root) ≡ true))
      (set_is_subset_of (map_arg three_only) (map_arg odd) 0)
set_is_subset_of-Returns_example =
    set_is_subset_of-Returns int_order three_only odd 0 three_only-IsMap odd-IsMap

-- Addition in the language, which counts its calls.
abbrev add_values : ℕ → ℕ → ℕ → Answer ℕ ⊥ ℕ
add_values v w calls = ok (v + w) (calls + 1)

abbrev adds : Computes add_values (λ v w. v + w)
adds = record { after = λ v w calls. calls + 1; computes = λ v w c. refl }

map_union_with-Returns_example :
    Returns
      (λ m.
        IsMap int_order m
        × ((j : ℕ)
            → list_lookup int_order j (entries m.root)
              ≡ either_value int_order
                  (λ v w. v + w)
                  (list_lookup int_order j (entries two.root))
                  (list_lookup int_order j (entries two.root))))
      (map_union_with all_free add_values (map_arg two) (map_arg two) 0)
map_union_with-Returns_example =
    map_union_with-Returns int_order add_values (λ v w. v + w) adds all_free (λ i. refl) two two 0
      two-IsMap two-IsMap

map_intersection_with-Returns_example :
    Returns
      (λ m.
        IsMap int_order m
        × ((j : ℕ)
            → list_lookup int_order j (entries m.root)
              ≡ common_value int_order
                  (λ v w. v + w)
                  (list_lookup int_order j (entries two.root))
                  (list_lookup int_order j (entries two.root))
                  none))
      (map_intersection_with all_free add_values (map_arg two) (map_arg two) 0)
map_intersection_with-Returns_example =
    map_intersection_with-Returns int_order add_values (λ v w. v + w) adds all_free (λ i. refl) two
      two 0 two-IsMap two-IsMap
