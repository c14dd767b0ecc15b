-- ===== src/Containers/Map.antt =====
-- The primitives of Data.Map. `Maybe` values are options, and tuples are pairs.
pub mod Laws
pub mod Combine
pub mod Extremes
pub mod Entry
pub mod Union
pub mod Intersection
use gicel.Prelude.{ℕ, suc, ◌+◌, Bool, true, false, Option, none, some, List, if◌then◌else◌}
use gicel.Prelude.Int.{ℤ, pos, ◌*ℤ◌, ◌+ℤ◌}
use gicel.Budget.{LimitError}
use gicel.Avl.Applier.{Answer, ok, err, bad_argument, limited, or_restore, and_then, Value}
use gicel.Avl.Tree.{AvlNode, nil, node, avl_min_node, avl_max_node}
use gicel.Avl.Search.{avl_insert, avl_lookup, avl_delete, avl_insert_with, avl_filter_with_key}
use gicel.Avl.Walk.{
  avl_map_with_key, avl_map_values, avl_foldr_with_key, avl_foldl_with_key, avl_to_cons_list,
  avl_keys_to_cons_list, avl_vals_to_cons_list,
}
use gicel.Containers.MapVal.{
  MapVal, HostArg, map_arg, other_arg, ListVal, nil_val, cons_val, other_list, PairVal, pair_val,
  other_pair, cost_cons_node, cost_tuple_node, cost_avl_node, as_map_val, when_charged, grown,
  shrunk, empty_map,
}

abbrev pub is_some {ℓ} : {A : Type ℓ} → Option A → Bool
is_some none = false
is_some (some a) = true

-- The least entry of a map, and the greatest.
unfoldable pub min_of : {K V : Type 0} → AvlNode K V → Option (K × V)
unfolding avl_min_node
min_of nil = none
min_of (node k v l r h) = some (avl_min_node k v l)

unfoldable pub max_of : {K V : Type 0} → AvlNode K V → Option (K × V)
unfolding avl_max_node
max_of nil = none
max_of (node k v l r h) = some (avl_max_node k v r)

module _ {K V C E : Type 0} where
  unfoldable pub map_empty : (K → K → C → Answer C E Value) → C → Answer C E (MapVal K V C E)
  map_empty cmp ce = ok (empty_map cmp) ce

  unfoldable pub map_insert :
      (ℤ → Option LimitError) → K → V → HostArg K V C E → C → Answer C E (MapVal K V C E)
  unfolding avl_insert
  map_insert charge key value arg ce = and_then (as_map_val arg ce) λ m _.
      when_charged (charge cost_avl_node) ce
        (or_restore ce (avl_insert m.cmp m.root key value ce) λ r c. ok (grown m r) c)

  unfoldable pub map_lookup : K → HostArg K V C E → C → Answer C E (Option V)
  unfolding avl_lookup
  map_lookup key arg ce =
      and_then (as_map_val arg ce)
        λ m _. or_restore ce (avl_lookup m.cmp m.root key ce) λ found c. ok found c

  unfoldable pub map_delete :
      (ℤ → Option LimitError) → K → HostArg K V C E → C → Answer C E (MapVal K V C E)
  unfolding avl_delete
  map_delete charge key arg ce = and_then (as_map_val arg ce) λ m _.
      when_charged (charge cost_avl_node) ce
        (or_restore ce (avl_delete m.cmp m.root key ce) λ r c. ok (shrunk m r) c)

  unfoldable pub map_size : HostArg K V C E → C → Answer C E ℤ
  map_size arg ce = and_then (as_map_val arg ce) λ m _. ok m.size ce

  unfoldable pub map_member : K → HostArg K V C E → C → Answer C E Bool
  unfolding avl_lookup
  map_member key arg ce =
      and_then (as_map_val arg ce)
        λ m _. or_restore ce (avl_lookup m.cmp m.root key ce) λ found c. ok (is_some found) c

  unfoldable pub map_to_list :
      (ℤ → Option LimitError) → HostArg K V C E → C → Answer C E (List (K × V))
  unfolding avl_to_cons_list ◌*ℤ◌
  map_to_list charge arg ce = and_then (as_map_val arg ce) λ m _.
      when_charged (charge (m.size *ℤ (cost_tuple_node +ℤ cost_cons_node))) ce
        (ok (avl_to_cons_list m.root) ce)

  unfoldable pub map_keys : (ℤ → Option LimitError) → HostArg K V C E → C → Answer C E (List K)
  unfolding avl_keys_to_cons_list ◌*ℤ◌
  map_keys charge arg ce = and_then (as_map_val arg ce) λ m _.
      when_charged (charge (m.size *ℤ cost_cons_node)) ce (ok (avl_keys_to_cons_list m.root) ce)

  unfoldable pub map_values : (ℤ → Option LimitError) → HostArg K V C E → C → Answer C E (List V)
  unfolding avl_vals_to_cons_list ◌*ℤ◌
  map_values charge arg ce = and_then (as_map_val arg ce) λ m _.
      when_charged (charge (m.size *ℤ cost_cons_node)) ce (ok (avl_vals_to_cons_list m.root) ce)

  -- The loop, with the number of charges so far.
  unfoldable pub map_from_list_loop :
      (ℕ → ℤ → Option LimitError)
      → ℕ
      → MapVal K V C E
      → ListVal (PairVal K V)
      → C
      → Answer C E (MapVal K V C E)
  unfolding avl_insert
  map_from_list_loop charge n m nil_val ce = ok m ce
  map_from_list_loop charge n m other_list ce = err bad_argument ce
  map_from_list_loop charge n m (cons_val other_pair list) ce = err bad_argument ce
  map_from_list_loop charge n m (cons_val (pair_val key value) list) ce =
      when_charged (charge n cost_avl_node) ce (
        and_then (avl_insert m.cmp m.root key value ce)
          λ r c. map_from_list_loop charge (suc n) (grown m r) list c)

  unfoldable pub map_from_list :
      (ℕ → ℤ → Option LimitError)
      → (K → K → C → Answer C E Value)
      → ListVal (PairVal K V)
      → C
      → Answer C E (MapVal K V C E)
  unfolding map_from_list_loop
  map_from_list charge cmp list ce = map_from_list_loop charge 0 (empty_map cmp) list ce

  unfoldable pub map_foldl_with_key :
      {A : Type 0} → (A → K → V → C → Answer C E A) → A → HostArg K V C E → C → Answer C E A
  unfolding avl_foldl_with_key
  map_foldl_with_key f acc arg ce =
      and_then (as_map_val arg ce) λ m _. avl_foldl_with_key f m.root acc ce

  unfoldable pub map_foldr_with_key :
      {A : Type 0} → (K → V → A → C → Answer C E A) → A → HostArg K V C E → C → Answer C E A
  unfolding avl_foldr_with_key
  map_foldr_with_key f acc arg ce =
      and_then (as_map_val arg ce) λ m _. avl_foldr_with_key f m.root acc ce

  unfoldable pub map_insert_with :
      (ℤ → Option LimitError)
      → (V → V → C → Answer C E V)
      → K
      → V
      → HostArg K V C E
      → C
      → Answer C E (MapVal K V C E)
  unfolding avl_insert_with
  map_insert_with charge f key value arg ce = and_then (as_map_val arg ce) λ m _.
      when_charged (charge cost_avl_node) ce
        (or_restore ce (avl_insert_with m.cmp f m.root key value ce) λ r c. ok (grown m r) c)

  abbrev filtered : MapVal K V C E → AvlNode K V × ℕ → MapVal K V C E
  filtered m (root, size) = record { root = root; cmp = m.cmp; size = pos size }

  unfoldable pub map_filter_with_key :
      (ℤ → Option LimitError)
      → (K → V → C → Answer C E Value)
      → HostArg K V C E
      → C
      → Answer C E (MapVal K V C E)
  unfolding avl_filter_with_key ◌*ℤ◌
  map_filter_with_key charge pred arg ce = and_then (as_map_val arg ce) λ m _.
      when_charged (charge (m.size *ℤ cost_avl_node)) ce (
        or_restore ce (avl_filter_with_key m.cmp pred m.root (nil, 0) ce)
          λ r c. ok (filtered m r) c)

  unfoldable pub map_find_min : HostArg K V C E → C → Answer C E (Option (K × V))
  map_find_min arg ce = and_then (as_map_val arg ce) λ m _. ok (min_of m.root) ce

  unfoldable pub map_find_max : HostArg K V C E → C → Answer C E (Option (K × V))
  map_find_max arg ce = and_then (as_map_val arg ce) λ m _. ok (max_of m.root) ce

-- The new values are of another type, and so is the comparison's home: the map keeps it.
module _ {K V W C E : Type 0} where
  abbrev revalued : MapVal K V C E → AvlNode K W → MapVal K W C E
  revalued m root = record { root = root; cmp = m.cmp; size = m.size }

  unfoldable pub map_map_values :
      (ℤ → Option LimitError)
      → (V → C → Answer C E W)
      → HostArg K V C E
      → C
      → Answer C E (MapVal K W C E)
  unfolding avl_map_values ◌*ℤ◌
  map_map_values charge f arg ce = and_then (as_map_val arg ce) λ m _.
      when_charged (charge (m.size *ℤ cost_avl_node)) ce
        (or_restore ce (avl_map_values f m.root ce) λ root c. ok (revalued m root) c)

  unfoldable pub map_map_with_key :
      (ℤ → Option LimitError)
      → (K → V → C → Answer C E W)
      → HostArg K V C E
      → C
      → Answer C E (MapVal K W C E)
  unfolding avl_map_with_key ◌*ℤ◌
  map_map_with_key charge f arg ce = and_then (as_map_val arg ce) λ m _.
      when_charged (charge (m.size *ℤ cost_avl_node)) ce
        (or_restore ce (avl_map_with_key f m.root ce) λ root c. ok (revalued m root) c)
