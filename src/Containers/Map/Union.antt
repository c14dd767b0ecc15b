-- ===== src/Containers/Map/Union.antt =====
-- Union and intersection of maps with a function, by their lookups. The function is assumed to return
-- a value of its arguments alone.
use gicel.Prelude.{ℕ, ◌≡◌, refl, sym, ap, ◌∙◌, List, [], ◌∷◌, ◌++◌, Option, none, some, Ordering}
use Prim.Native.Nat.Ordering.{lt, eq, gt}
use gicel.Prelude.Int.{ℤ}
use gicel.Budget.{LimitError}
use gicel.Avl.Applier.{Answer, Returns, Returns-imp, or_restore-Returns, and_then-Returns}
use gicel.Avl.Tree.{AvlNode, nil, node}
use gicel.Avl.Tree.Entries.{entries}
use gicel.Avl.Sorted.{LawfulOrder, IsSorted, list_insert, list_lookup, list_lookup-absent}
use gicel.Avl.Sorted.Laws.{list_lookup-list_insert}
use gicel.Avl.Search.{avl_lookup}
use gicel.Avl.Search.Refinement.{avl_lookup-Returns}
use gicel.Containers.MapVal.{MapVal, map_arg, cost_avl_node}
use gicel.Containers.MapVal.Laws.{IsMap}
use gicel.Containers.Map.Entry.{ResultHas, add_entry-Returns, Computes}
use gicel.Containers.Map.Combine.{combined, add_entry, avl_walk_merge, map_union_with}

module _ {K V : Type 0} (o : LawfulOrder K) (g : V → V → V) where
  -- The value of a key that the result may have.
  abbrev pub merged_value : Option V → V → V
  merged_value none v = v
  merged_value (some w) v = g w v

  -- What the union has at a key.
  abbrev pub either_value : Option V → Option V → Option V
  either_value a none = a
  either_value a (some v) = some (merged_value a v)

  -- An entry of the other map inserted.
  abbrev merge_one : K → V → List (K × V) → List (K × V)
  merge_one k v acc = list_insert o k (merged_value (list_lookup o k acc) v) acc

  abbrev merge_all : List (K × V) → List (K × V) → List (K × V)
  merge_all [] acc = acc
  merge_all ((k, v) ∷ xs) acc = merge_all xs (merge_one k v acc)

  merge_all-append :
      (xs ys acc : List (K × V)) → merge_all (xs ++ ys) acc ≡ merge_all ys (merge_all xs acc)
  merge_all-append [] ys acc = refl
  merge_all-append ((k, v) ∷ xs) ys acc = merge_all-append xs ys (merge_one k v acc)

  list_lookup-merge_all :
      (j : K) (xs acc : List (K × V))
      → IsSorted o xs
      → list_lookup o j (merge_all xs acc) ≡ either_value (list_lookup o j acc) (list_lookup o j xs)
  unfolding list_lookup
  list_lookup-merge_all j [] acc s = refl
  list_lookup-merge_all j ((k, v) ∷ xs) acc s =
      let w = merged_value (list_lookup o k acc) v in
      list_lookup-merge_all j xs (list_insert o k w acc) s.1
      ∙ ap (λ a. either_value a (list_lookup o j xs)) (list_lookup-list_insert o k j w acc)
      ∙ by_order (o.order j k) refl
    where
      by_order :
          (ord : Ordering)
          → o.order j k ≡ ord
          → either_value
              (elim ord [
                | eq ↦ some (merged_value (list_lookup o k acc) v)
                | _ ↦ list_lookup o j acc
              ])
              (list_lookup o j xs)
            ≡ either_value (list_lookup o j acc) (elim ord [ eq ↦ some v | _ ↦ list_lookup o j xs ])
      by_order lt e = refl
      by_order gt e = refl
      by_order eq e =
          let same = o.eq_of_order j k e in
          ap (either_value (some (merged_value (list_lookup o k acc) v)))
            (ap (λ x. list_lookup o x xs) same ∙ (list_lookup-absent o k xs s.0).0)
          ∙ ap (λ x. some (merged_value (list_lookup o x acc) v)) (sym same)

module _ {K V C E : Type 0} (o : LawfulOrder K) (f : V → V → C → Answer C E V) (g : V → V → V)
    (p : Computes f g) (charge : ℕ → ℤ → Option LimitError)
    (free : (i : ℕ) → charge i cost_avl_node ≡ none) where
  combined-Returns :
      (found : Option V) (v : V) (c : C)
      → Returns (λ x. x ≡ merged_value o g found v) (combined f found v c)
  combined-Returns none v c = refl
  combined-Returns (some w) v c = rw (p.computes w v c) refl

  avl_walk_merge-Returns :
      (t : AvlNode K V) (m : MapVal K V C E) (n : ℕ) (ce : C)
      → IsMap o m
      → Returns
          (ResultHas o (merge_all o g (entries t) (entries m.root)))
          (avl_walk_merge charge f t (m, n) ce)
  unfolding avl_walk_merge
  avl_walk_merge-Returns nil m n ce h = (h, refl)
  avl_walk_merge-Returns (node k v l r ht) m n ce h =
      let before = merge_all o g (entries l) (entries m.root) in
      let Q = ResultHas o (merge_all o g (entries r) (merge_one o g k v before)) in
      rw (merge_all-append o g (entries l) ((k, v) ∷ entries r) (entries m.root)) (
        and_then-Returns Q (ResultHas o before) (avl_walk_merge charge f l (m, n) ce) _
          (avl_walk_merge-Returns l m n ce h)
          λ (m1, n1) c1 h1.
            or_restore-Returns Q (λ found. found ≡ list_lookup o k (entries m1.root)) c1
              (avl_lookup m1.cmp m1.root k c1) _
              (avl_lookup-Returns m1.cmp o h1.0.ordered m1.root k c1 h1.0.sorted)
              λ found c2 e.
                and_then-Returns Q (λ x. x ≡ merged_value o g found v) (combined f found v c2) _
                  (combined-Returns found v c2)
                  λ x c3 ex.
                    and_then-Returns Q (ResultHas o (list_insert o k x (entries m1.root)))
                      (add_entry charge k x (m1, n1) c3) (avl_walk_merge charge f r)
                      (add_entry-Returns o charge free k x m1 n1 c3 h1.0)
                      λ (m2, n2) c4 h2.
                        Returns-imp (ResultHas o (merge_all o g (entries r) (entries m2.root))) Q _
                          (λ acc w. (
                            w.0,
                            w.1
                                ∙ ap (merge_all o g (entries r)) (
                                    h2.1
                                    ∙ ap (λ y. list_insert o k y (entries m1.root))
                                        (ex ∙ ap (λ fo. merged_value o g fo v) e)
                                    ∙ ap (merge_one o g k v) h1.1),
                          ))
                          (avl_walk_merge-Returns r m2 n2 c4 h2.0))

  -- Where the charges are admitted and the function returns `g` of its arguments, the union of two
  -- maps that are well formed for one lawful order is returned, is well formed, and has at each key the value of the one
  -- map that has it, or `g` of both values, the first map's first.
  pub map_union_with-Returns :
      (m1 m2 : MapVal K V C E) (ce : C)
      → IsMap o m1
      → IsMap o m2
      → Returns
          (λ m.
            IsMap o m
            × ((j : K)
                → list_lookup o j (entries m.root)
                  ≡ either_value o g
                      (list_lookup o j (entries m1.root))
                      (list_lookup o j (entries m2.root))))
          (map_union_with charge f (map_arg m1) (map_arg m2) ce)
  unfolding map_union_with
  map_union_with-Returns m1 m2 ce h1 h2 =
      and_then-Returns _ (ResultHas o (merge_all o g (entries m2.root) (entries m1.root)))
        (avl_walk_merge charge f m2.root (m1, 0) ce) _ (avl_walk_merge-Returns m2.root m1 0 ce h1)
        λ acc c w. (
          w.0,
          λ j.
              ap (list_lookup o j) w.1
              ∙ list_lookup-merge_all o g j (entries m2.root) (entries m1.root) h2.sorted,
        )
