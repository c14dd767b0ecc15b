-- ===== src/Containers/Map/Laws.antt =====
-- The primitives of Data.Map against the sorted list of entries. The budget is assumed to admit the
-- charges.
use gicel.Prelude.{ℕ, suc, ◌≡◌, refl, sym, ap, ◌∙◌, Bool, List, [], ◌∷◌, Option, none, some, arith}
use Prim.Native.Nat.Ordering.{eq}
use gicel.Prelude.Int.{ℤ}
use gicel.Budget.{LimitError}
use gicel.Avl.Applier.{
  Answer, ok, err, or_restore, and_then, Value, Returns, Returns-imp, or_restore-Returns,
}
use gicel.Avl.Tree.{AvlNode}
use gicel.Avl.Tree.Entries.{entries}
use gicel.Avl.Sorted.{LawfulOrder, Decides, list_insert, list_delete, list_lookup, list_member}
use gicel.Avl.Sorted.Laws.{list_lookup-list_insert}
use gicel.Avl.Search.{avl_insert, avl_lookup}
use gicel.Avl.Search.Refinement.{avl_lookup-Returns}
use gicel.Containers.MapVal.{
  MapVal, map_arg, ListVal, nil_val, cons_val, PairVal, pair_val, cost_avl_node, grown, empty_map,
}
use gicel.Containers.MapVal.Laws.{
  IsMap, HasEntries, grown-HasEntries, shrunk-HasEntries, empty_map-HasEntries,
}
use gicel.Containers.Map.{
  is_some, map_insert, map_lookup, map_delete, map_member, map_from_list, map_from_list_loop,
}

module _ {K V : Type 0} (o : LawfulOrder K) where
  -- The value of the last pair with a key, or else what was there before.
  abbrev pub last_binding : K → List (K × V) → Option V → Option V
  last_binding j [] before = before
  last_binding j ((k, v) ∷ xs) before =
      last_binding j xs (elim (o.order j k) [ eq ↦ some v | _ ↦ before ])

  abbrev pub insert_all : List (K × V) → List (K × V) → List (K × V)
  insert_all [] acc = acc
  insert_all ((k, v) ∷ xs) acc = insert_all xs (list_insert o k v acc)

  pub list_lookup-insert_all :
      (j : K) (xs acc : List (K × V))
      → list_lookup o j (insert_all xs acc) ≡ last_binding j xs (list_lookup o j acc)
  list_lookup-insert_all j [] acc = refl
  list_lookup-insert_all j ((k, v) ∷ xs) acc =
      list_lookup-insert_all j xs (list_insert o k v acc)
      ∙ ap (last_binding j xs) (list_lookup-list_insert o k j v acc)

  pub list_member-list_lookup :
      (key : K) (xs : List (K × V)) → is_some (list_lookup o key xs) ≡ list_member o key xs
  unfolding list_lookup list_member
  list_member-list_lookup key [] = refl
  list_member-list_lookup key ((k, v) ∷ xs) = ground (arith, list_member-list_lookup key xs)

-- A list of tuples as a value.
abbrev pub pairs_val : {K V : Type 0} → List (K × V) → ListVal (PairVal K V)
pairs_val [] = nil_val
pairs_val ((k, v) ∷ xs) = cons_val (pair_val k v) (pairs_val xs)

module _ {K V C E : Type 0} (o : LawfulOrder K) where
  -- Where the charge is admitted, insertion into a well-formed map returns a well-formed map with the entry inserted, also where the key was there.
  pub map_insert-Returns :
      (charge : ℤ → Option LimitError) (key : K) (value : V) (m : MapVal K V C E) (ce : C)
      → charge cost_avl_node ≡ none
      → IsMap o m
      → Returns
          (HasEntries o (list_insert o key value (entries m.root)))
          (map_insert charge key value (map_arg m) ce)
  unfolding map_insert
  map_insert-Returns charge key value m ce free h = rw free (grown-HasEntries o m key value ce h)

  -- Where the charge is admitted, deletion from a well-formed map returns a well-formed map without the key, also where it was not there.
  pub map_delete-Returns :
      (charge : ℤ → Option LimitError) (key : K) (m : MapVal K V C E) (ce : C)
      → charge cost_avl_node ≡ none
      → IsMap o m
      → Returns
          (HasEntries o (list_delete o key (entries m.root)))
          (map_delete charge key (map_arg m) ce)
  unfolding map_delete
  map_delete-Returns charge key m ce free h = rw free (shrunk-HasEntries o m key ce h)

  -- Lookup in a well-formed map returns what the entries have at the key, and the membership test whether they
  -- have it.
  pub map_lookup-Returns :
      (key : K) (m : MapVal K V C E) (ce : C)
      → IsMap o m
      → Returns
          (λ found. found ≡ list_lookup o key (entries m.root))
          (map_lookup key (map_arg m) ce)
        × Returns
            (λ found. found ≡ list_member o key (entries m.root))
            (map_member key (map_arg m) ce)
  unfolding map_lookup map_member
  map_lookup-Returns key m ce h =
      let looked = avl_lookup-Returns m.cmp o h.ordered m.root key ce h.sorted in
      (
        or_restore-Returns _ (λ found. found ≡ list_lookup o key (entries m.root)) ce
            (avl_lookup m.cmp m.root key ce) (λ found c. ok found c) looked (λ found c e. e),
        or_restore-Returns _ (λ found. found ≡ list_lookup o key (entries m.root)) ce
            (avl_lookup m.cmp m.root key ce) (λ found c. ok (is_some found) c) looked
            (λ found c e. ap is_some e ∙ list_member-list_lookup o key (entries m.root)),
      )

  -- Insertion into a map inside a loop, which keeps the environment of an error.
  pub inserted-Returns :
      (m : MapVal K V C E) (key : K) (value : V) (ce : C) (Q : MapVal K V C E → Type 0)
      (rest : MapVal K V C E → C → Answer C E (MapVal K V C E))
      → IsMap o m
      → ((m' : MapVal K V C E) (c : C)
          → HasEntries o (list_insert o key value (entries m.root)) m'
          → Returns Q (rest m' c))
      → Returns Q (and_then (avl_insert m.cmp m.root key value ce) λ r c. rest (grown m r) c)
  inserted-Returns m key value ce Q rest h k =
      continued (avl_insert m.cmp m.root key value ce) (grown-HasEntries o m key value ce h)
    where
      continued :
          (answer : Answer C E (AvlNode K V × Bool))
          → Returns
              (HasEntries o (list_insert o key value (entries m.root)))
              (or_restore ce answer λ r c. ok (grown m r) c)
          → Returns Q (and_then answer λ r c. rest (grown m r) c)
      continued (ok r c) g = k (grown m r) c g
      continued (err e c) g = absurd g

  map_from_list_loop-Returns :
      (charge : ℕ → ℤ → Option LimitError) (n : ℕ) (m : MapVal K V C E) (xs : List (K × V)) (ce : C)
      → ((i : ℕ) → charge i cost_avl_node ≡ none)
      → IsMap o m
      → Returns
          (HasEntries o (insert_all o xs (entries m.root)))
          (map_from_list_loop charge n m (pairs_val xs) ce)
  unfolding map_from_list_loop
  map_from_list_loop-Returns charge n m [] ce free h = (h, refl)
  map_from_list_loop-Returns charge n m ((k, v) ∷ xs) ce free h = rw (free n) (
      inserted-Returns m k v ce _ (λ m' c. map_from_list_loop charge (suc n) m' (pairs_val xs) c) h
        λ m' c g. rw (sym g.1) (map_from_list_loop-Returns charge (suc n) m' xs c free g.0))

  -- Where the charges are admitted and the comparison always returns and decides a lawful order, a map
  -- made from a list of pairs is returned, is well formed, and has at each key the value of the last pair
  -- with that key.
  pub map_from_list-Returns :
      (charge : ℕ → ℤ → Option LimitError) (cmp : K → K → C → Answer C E Value) (xs : List (K × V))
      (ce : C)
      → ((i : ℕ) → charge i cost_avl_node ≡ none)
      → Decides cmp o
      → Returns
          (λ m. IsMap o m × ((j : K) → list_lookup o j (entries m.root) ≡ last_binding o j xs none))
          (map_from_list charge cmp (pairs_val xs) ce)
  unfolding map_from_list list_lookup
  map_from_list-Returns charge cmp xs ce free d =
      Returns-imp (HasEntries o (insert_all o xs [])) _ _
        (λ m g. (g.0, λ j. ap (list_lookup o j) g.1 ∙ list_lookup-insert_all o j xs []))
        (map_from_list_loop-Returns charge 0 (empty_map cmp) xs ce free
          (empty_map-HasEntries o cmp d).0)
