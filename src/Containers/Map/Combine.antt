-- ===== src/Containers/Map/Combine.antt =====
-- Union and intersection of two maps in map.go, which walk one tree and insert into a result.
use gicel.Prelude.{ℕ, suc, Option, none, some}
use gicel.Prelude.Int.{ℤ}
use gicel.Budget.{LimitError}
use gicel.Avl.Applier.{Answer, ok, or_restore, and_then}
use gicel.Avl.Tree.{AvlNode, nil, node}
use gicel.Avl.Search.{avl_insert, avl_lookup}
use gicel.Containers.MapVal.{
  MapVal, HostArg, cost_avl_node, as_map_val, when_charged, grown, empty_map,
}

-- The value of an entry that the result has is combined with the new one.
abbrev pub combined :
    {V C E : Type 0} → (V → V → C → Answer C E V) → Option V → V → C → Answer C E V
combined f none value ce = ok value ce
combined f (some existing) value ce = f existing value ce

-- The result so far and the number of charges so far.
module _ {K V C E : Type 0} where
  -- A charge, and the insertion of an entry into the result.
  unfoldable pub add_entry :
      (ℕ → ℤ → Option LimitError) → K → V → MapVal K V C E × ℕ → C → Answer C E (MapVal K V C E × ℕ)
  unfolding avl_insert
  add_entry charge key value (result, n) ce = when_charged (charge n cost_avl_node) ce (
      and_then (avl_insert result.cmp result.root key value ce) λ r c. ok (grown result r, suc n) c)

  unfoldable pub avl_walk_merge :
      (ℕ → ℤ → Option LimitError)
      → (V → V → C → Answer C E V)
      → AvlNode K V
      → MapVal K V C E × ℕ
      → C
      → Answer C E (MapVal K V C E × ℕ)
  unfolding avl_lookup add_entry
  avl_walk_merge charge f nil acc ce = ok acc ce
  avl_walk_merge charge f (node k v l r h) acc ce =
      and_then (avl_walk_merge charge f l acc ce) λ (m1, n1) c1.
        or_restore c1 (avl_lookup m1.cmp m1.root k c1) λ found c2.
          and_then (combined f found v c2)
            λ value c3. and_then (add_entry charge k value (m1, n1) c3) (avl_walk_merge charge f r)

  unfoldable pub map_union_with :
      (ℕ → ℤ → Option LimitError)
      → (V → V → C → Answer C E V)
      → HostArg K V C E
      → HostArg K V C E
      → C
      → Answer C E (MapVal K V C E)
  unfolding avl_walk_merge
  map_union_with charge f arg1 arg2 ce = and_then (as_map_val arg1 ce) λ m1 _.
      and_then (as_map_val arg2 ce)
        λ m2 _. and_then (avl_walk_merge charge f m2.root (m1, 0) ce) λ acc c. ok acc.0 c

module _ {K V W X C E : Type 0} where
  -- An entry of both maps is combined and added.
  unfoldable pub add_common :
      (ℕ → ℤ → Option LimitError)
      → (V → W → C → Answer C E X)
      → K
      → V
      → Option W
      → MapVal K X C E × ℕ
      → C
      → Answer C E (MapVal K X C E × ℕ)
  unfolding add_entry
  add_common charge f k v none acc ce = ok acc ce
  add_common charge f k v (some w) acc ce =
      or_restore ce (f v w ce) λ merged c. add_entry charge k merged acc c

  unfoldable pub avl_intersect_walk :
      (ℕ → ℤ → Option LimitError)
      → (V → W → C → Answer C E X)
      → AvlNode K V
      → MapVal K W C E
      → MapVal K X C E × ℕ
      → C
      → Answer C E (MapVal K X C E × ℕ)
  unfolding avl_lookup add_common
  avl_intersect_walk charge f nil m2 acc ce = ok acc ce
  avl_intersect_walk charge f (node k v l r h) m2 acc ce =
      and_then (avl_intersect_walk charge f l m2 acc ce) λ acc1 c1.
        or_restore c1 (avl_lookup m2.cmp m2.root k c1) λ found c2.
          and_then (add_common charge f k v found acc1 c2) (avl_intersect_walk charge f r m2)

  unfoldable pub map_intersection_with :
      (ℕ → ℤ → Option LimitError)
      → (V → W → C → Answer C E X)
      → HostArg K V C E
      → HostArg K W C E
      → C
      → Answer C E (MapVal K X C E)
  unfolding avl_intersect_walk
  map_intersection_with charge f arg1 arg2 ce = and_then (as_map_val arg1 ce) λ m1 _.
      and_then (as_map_val arg2 ce) λ m2 _.
        and_then (avl_intersect_walk charge f m1.root m2 (empty_map m1.cmp, 0) ce)
          λ acc c. ok acc.0 c
