-- ===== src/Containers/Set.antt =====
-- The primitives of Data.Set. A set is a map whose values are the unit.
pub mod Laws
pub mod Algebra
pub mod Subset
use gicel.Prelude.{ℕ, suc, ◌+◌, Bool, true, false, Option, none, some, List, length, if◌then◌else◌}
use gicel.Prelude.Int.{ℤ, pos, ◌*ℤ◌, ltb_ℤ}
use gicel.Budget.{LimitError}
use gicel.Avl.Applier.{Answer, ok, err, bad_argument, or_restore, and_then, Value}
use gicel.Avl.Tree.{AvlNode, nil, node}
use gicel.Avl.Search.{avl_insert, avl_lookup, avl_delete}
use gicel.Avl.Walk.{avl_keys_to_cons_list}
use gicel.Avl.Merge.{avl_merge_union, avl_merge_intersect, avl_merge_difference, sorted_to_avl}
use gicel.Containers.MapVal.{
  MapVal, HostArg, ListVal, nil_val, cons_val, other_list, cost_cons_node, cost_avl_node,
  as_map_val, when_charged, grown, shrunk, empty_map,
}
use gicel.Containers.Map.{min_of, max_of, is_some}

-- `Set k`, with the unit value in the place of `unitVal`.
abbrev pub SetVal : Type 0 → Type 0 → Type 0 → Type 0
SetVal K C E = MapVal K (Unit {0}) C E

abbrev pub SetArg : Type 0 → Type 0 → Type 0 → Type 0
SetArg K C E = HostArg K (Unit {0}) C E

-- `err != nil || !ok` of the left child: false or the error, with the environment from before. The
-- right child is a call that the rest makes.
abbrev pub all_left : {C E : Type 0} → C → Answer C E Bool → (C → Answer C E Bool) → Answer C E Bool
all_left ce (ok true c) rest = rest c
all_left ce (ok false c) rest = ok false ce
all_left ce (err e c) rest = err e ce

abbrev pub all_found :
    {C E : Type 0} → Option (Unit {0}) → C → (C → Answer C E Bool) → Answer C E Bool
all_found none c rest = ok false c
all_found (some _) c rest = rest c

abbrev key_of : {K : Type 0} → Option (K × Unit {0}) → Option K
key_of none = none
key_of (some (k, _)) = some k

module _ {K C E : Type 0} where
  unfoldable pub set_empty : (K → K → C → Answer C E Value) → C → Answer C E (SetVal K C E)
  set_empty cmp ce = ok (empty_map cmp) ce

  unfoldable pub set_insert :
      (ℤ → Option LimitError) → K → SetArg K C E → C → Answer C E (SetVal K C E)
  unfolding avl_insert
  set_insert charge key arg ce = and_then (as_map_val arg ce) λ m _.
      when_charged (charge cost_avl_node) ce
        (or_restore ce (avl_insert m.cmp m.root key tt ce) λ r c. ok (grown m r) c)

  unfoldable pub set_delete :
      (ℤ → Option LimitError) → K → SetArg K C E → C → Answer C E (SetVal K C E)
  unfolding avl_delete
  set_delete charge key arg ce = and_then (as_map_val arg ce) λ m _.
      when_charged (charge cost_avl_node) ce
        (or_restore ce (avl_delete m.cmp m.root key ce) λ r c. ok (shrunk m r) c)

  unfoldable pub set_to_list : (ℤ → Option LimitError) → SetArg K C E → C → Answer C E (List K)
  unfolding avl_keys_to_cons_list ◌*ℤ◌
  set_to_list charge arg ce = and_then (as_map_val arg ce) λ m _.
      when_charged (charge (m.size *ℤ cost_cons_node)) ce (ok (avl_keys_to_cons_list m.root) ce)

  unfoldable pub set_from_list_loop :
      (ℕ → ℤ → Option LimitError) → ℕ → SetVal K C E → ListVal K → C → Answer C E (SetVal K C E)
  unfolding avl_insert
  set_from_list_loop charge n m nil_val ce = ok m ce
  set_from_list_loop charge n m other_list ce = err bad_argument ce
  set_from_list_loop charge n m (cons_val key list) ce = when_charged (charge n cost_avl_node) ce (
      and_then (avl_insert m.cmp m.root key tt ce)
        λ r c. set_from_list_loop charge (suc n) (grown m r) list c)

  unfoldable pub set_from_list :
      (ℕ → ℤ → Option LimitError)
      → (K → K → C → Answer C E Value)
      → ListVal K
      → C
      → Answer C E (SetVal K C E)
  unfolding set_from_list_loop
  set_from_list charge cmp list ce = set_from_list_loop charge 0 (empty_map cmp) list ce

  -- The set of the merged entries, with the comparison of the first set. `none` comes of no fuel.
  abbrev pub joined : SetVal K C E → List (K × Unit {0}) → SetVal K C E
  joined s1 entries = record {
    root = sorted_to_avl entries;
    cmp = s1.cmp;
    size = pos (length entries);
  }

  -- An error of the merge has assigned the environment.
  abbrev pub join :
      (SetVal K C E → SetVal K C E → Option (Answer C E (List (K × Unit {0}))))
      → SetArg K C E
      → SetArg K C E
      → C
      → Option (Answer C E (SetVal K C E))
  join merge arg1 arg2 ce = elim (as_map_val arg1 ce) [
    | err e c ↦ some (err e c)
    | ok s1 _ ↦ elim (as_map_val arg2 ce) [
      | err e c ↦ some (err e c)
      | ok s2 _ ↦ elim (merge s1 s2) [
        | none ↦ none
        | some answer ↦ some (and_then answer λ entries c. ok (joined s1 entries) c)
      ]
    ]
  ]

  unfoldable pub set_union : SetArg K C E → SetArg K C E → C → Option (Answer C E (SetVal K C E))
  unfolding avl_merge_union sorted_to_avl
  set_union arg1 arg2 ce = join (λ s1 s2. avl_merge_union s1.cmp s1.root s2.root ce) arg1 arg2 ce

  unfoldable pub set_intersection :
      SetArg K C E → SetArg K C E → C → Option (Answer C E (SetVal K C E))
  unfolding avl_merge_intersect sorted_to_avl
  set_intersection arg1 arg2 ce =
      join (λ s1 s2. avl_merge_intersect s1.cmp s1.root s2.root ce) arg1 arg2 ce

  unfoldable pub set_difference :
      SetArg K C E → SetArg K C E → C → Option (Answer C E (SetVal K C E))
  unfolding avl_merge_difference sorted_to_avl
  set_difference arg1 arg2 ce =
      join (λ s1 s2. avl_merge_difference s1.cmp s1.root s2.root ce) arg1 arg2 ce

  -- Every key of the tree is in the target.
  unfoldable pub avl_all_member : SetVal K C E → AvlNode K (Unit {0}) → C → Answer C E Bool
  unfolding avl_lookup
  avl_all_member target nil ce = ok true ce
  avl_all_member target (node k v l r h) ce = all_left ce (avl_all_member target l ce) λ c1.
      or_restore ce (avl_lookup target.cmp target.root k c1)
        λ found c2. all_found found c2 (avl_all_member target r)

  unfoldable pub set_is_subset_of : SetArg K C E → SetArg K C E → C → Answer C E Bool
  unfolding avl_all_member
  set_is_subset_of arg1 arg2 ce = and_then (as_map_val arg1 ce) λ s1 _.
      and_then (as_map_val arg2 ce) λ s2 _.
        if ltb_ℤ s2.size s1.size
        then ok false ce
        else or_restore ce (avl_all_member s2 s1.root ce) λ result c. ok result c

  unfoldable pub set_find_min : SetArg K C E → C → Answer C E (Option K)
  set_find_min arg ce = and_then (as_map_val arg ce) λ m _. ok (key_of (min_of m.root)) ce

  unfoldable pub set_find_max : SetArg K C E → C → Answer C E (Option K)
  set_find_max arg ce = and_then (as_map_val arg ce) λ m _. ok (key_of (max_of m.root)) ce
