-- ===== src/Containers/Map/Intersection.antt =====
-- Intersection of maps with a function, by its lookups. The function is assumed to return a value of
-- its arguments alone.
use gicel.Prelude.{ℕ, ◌≡◌, refl, sym, ap, ◌∙◌, List, [], ◌∷◌, ◌++◌, Option, none, some, Ordering}
use Prim.Native.Nat.Ordering.{lt, eq, gt}
use gicel.Prelude.Int.{ℤ}
use gicel.Budget.{LimitError}
use gicel.Avl.Applier.{Answer, Returns, Returns-imp, or_restore-Returns, and_then-Returns}
use gicel.Avl.Tree.{AvlNode, nil, node}
use gicel.Avl.Tree.Entries.{entries}
use gicel.Avl.Sorted.{LawfulOrder, IsSorted, list_insert, list_lookup, list_lookup-absent}
use gicel.Avl.Sorted.Laws.{list_lookup-list_insert}
use gicel.Avl.Search.{avl_lookup}
use gicel.Avl.Search.Refinement.{avl_lookup-Returns}
use gicel.Containers.MapVal.{MapVal, map_arg, cost_avl_node, empty_map}
use gicel.Containers.MapVal.Laws.{IsMap, empty_map-HasEntries}
use gicel.Containers.Map.Entry.{ResultHas, add_entry-Returns, Computes}
use gicel.Containers.Map.Combine.{add_common, avl_intersect_walk, map_intersection_with}

unmoved : {A : Type 0} (ord : Ordering) (a : A) → a ≡ elim ord [ eq ↦ a | _ ↦ a ]
unmoved lt a = refl
unmoved eq a = refl
unmoved gt a = refl

module _ {K V W X : Type 0} (o : LawfulOrder K) (g : V → W → X) where
  -- What a key of both maps gives, or else what was there before.
  abbrev pub common_value : Option V → Option W → Option X → Option X
  common_value none b before = before
  common_value (some v) none before = before
  common_value (some v) (some w) before = some (g v w)

  abbrev pub common_one : K → V → Option W → List (K × X) → List (K × X)
  common_one k v none acc = acc
  common_one k v (some w) acc = list_insert o k (g v w) acc

  abbrev common_all : List (K × V) → List (K × W) → List (K × X) → List (K × X)
  common_all [] ys acc = acc
  common_all ((k, v) ∷ xs) ys acc = common_all xs ys (common_one k v (list_lookup o k ys) acc)

  common_all-append :
      (xs zs : List (K × V)) (ys : List (K × W)) (acc : List (K × X))
      → common_all (xs ++ zs) ys acc ≡ common_all zs ys (common_all xs ys acc)
  common_all-append [] zs ys acc = refl
  common_all-append ((k, v) ∷ xs) zs ys acc =
      common_all-append xs zs ys (common_one k v (list_lookup o k ys) acc)

  list_lookup-common_one :
      (j k : K) (v : V) (found : Option W) (acc : List (K × X))
      → list_lookup o j (common_one k v found acc) ≡ elim (o.order j k) [
        | eq ↦ common_value (some v) found (list_lookup o j acc)
        | _ ↦ list_lookup o j acc
      ]
  list_lookup-common_one j k v none acc = unmoved (o.order j k) (list_lookup o j acc)
  list_lookup-common_one j k v (some w) acc = list_lookup-list_insert o k j (g v w) acc

  list_lookup-common_all :
      (j : K) (xs : List (K × V)) (ys : List (K × W)) (acc : List (K × X))
      → IsSorted o xs
      → list_lookup o j (common_all xs ys acc)
        ≡ common_value (list_lookup o j xs) (list_lookup o j ys) (list_lookup o j acc)
  unfolding list_lookup
  list_lookup-common_all j [] ys acc s = refl
  list_lookup-common_all j ((k, v) ∷ xs) ys acc s =
      list_lookup-common_all j xs ys (common_one k v (list_lookup o k ys) acc) s.1
      ∙ ap (common_value (list_lookup o j xs) (list_lookup o j ys))
          (list_lookup-common_one j k v (list_lookup o k ys) acc)
      ∙ by_order (o.order j k) refl
    where
      by_order :
          (ord : Ordering)
          → o.order j k ≡ ord
          → common_value (list_lookup o j xs) (list_lookup o j ys) (elim ord [
            | eq ↦ common_value (some v) (list_lookup o k ys) (list_lookup o j acc)
            | _ ↦ list_lookup o j acc
          ])
            ≡ common_value
                (elim ord [ eq ↦ some v | _ ↦ list_lookup o j xs ])
                (list_lookup o j ys)
                (list_lookup o j acc)
      by_order lt e = refl
      by_order gt e = refl
      by_order eq e =
          let same = o.eq_of_order j k e in
          ap
            (λ a.
              common_value a (list_lookup o j ys)
                (common_value (some v) (list_lookup o k ys) (list_lookup o j acc)))
            (ap (λ x. list_lookup o x xs) same ∙ (list_lookup-absent o k xs s.0).0)
          ∙ ap (λ x. common_value (some v) (list_lookup o x ys) (list_lookup o j acc)) (sym same)

module _ {K V W X C E : Type 0} (o : LawfulOrder K) (f : V → W → C → Answer C E X) (g : V → W → X)
    (p : Computes f g) (charge : ℕ → ℤ → Option LimitError)
    (free : (i : ℕ) → charge i cost_avl_node ≡ none) where
  add_common-Returns :
      (k : K) (v : V) (found : Option W) (m : MapVal K X C E) (n : ℕ) (ce : C)
      → IsMap o m
      → Returns
          (ResultHas o (common_one o g k v found (entries m.root)))
          (add_common charge f k v found (m, n) ce)
  unfolding add_common
  add_common-Returns k v none m n ce h = (h, refl)
  add_common-Returns k v (some w) m n ce h =
      rw (p.computes v w ce) (add_entry-Returns o charge free k (g v w) m n (p.after v w ce) h)

  avl_intersect_walk-Returns :
      (t : AvlNode K V) (m2 : MapVal K W C E) (m : MapVal K X C E) (n : ℕ) (ce : C)
      → IsMap o m2
      → IsMap o m
      → Returns
          (ResultHas o (common_all o g (entries t) (entries m2.root) (entries m.root)))
          (avl_intersect_walk charge f t m2 (m, n) ce)
  unfolding avl_intersect_walk
  avl_intersect_walk-Returns nil m2 m n ce h2 h = (h, refl)
  avl_intersect_walk-Returns (node k v l r ht) m2 m n ce h2 h =
      let ys = entries m2.root in
      let before = common_all o g (entries l) ys (entries m.root) in
      let Q =
        ResultHas o
          (common_all o g (entries r) ys (common_one o g k v (list_lookup o k ys) before)) in
      rw (common_all-append o g (entries l) ((k, v) ∷ entries r) ys (entries m.root)) (
        and_then-Returns Q (ResultHas o before) (avl_intersect_walk charge f l m2 (m, n) ce) _
          (avl_intersect_walk-Returns l m2 m n ce h2 h)
          λ (m1, n1) c1 h1.
            or_restore-Returns Q (λ found. found ≡ list_lookup o k ys) c1
              (avl_lookup m2.cmp m2.root k c1) _
              (avl_lookup-Returns m2.cmp o h2.ordered m2.root k c1 h2.sorted)
              λ found c2 e.
                and_then-Returns Q (ResultHas o (common_one o g k v found (entries m1.root)))
                  (add_common charge f k v found (m1, n1) c2)
                  (λ acc c. avl_intersect_walk charge f r m2 acc c)
                  (add_common-Returns k v found m1 n1 c2 h1.0)
                  λ (m3, n3) c3 h3.
                    Returns-imp (ResultHas o (common_all o g (entries r) ys (entries m3.root))) Q _
                      (λ acc w. (
                        w.0,
                        w.1
                            ∙ ap (common_all o g (entries r) ys) (
                                h3.1
                                ∙ ap (λ fo. common_one o g k v fo (entries m1.root)) e
                                ∙ ap (common_one o g k v (list_lookup o k ys)) h1.1),
                      ))
                      (avl_intersect_walk-Returns r m2 m3 n3 c3 h2 h3.0))

  -- Where the charges are admitted and the function returns `g` of its arguments, the intersection of
  -- two maps that are well formed for one lawful order is returned, is well formed, and has `g` of both values at each
  -- key of both maps, and nothing at others.
  pub map_intersection_with-Returns :
      (m1 : MapVal K V C E) (m2 : MapVal K W C E) (ce : C)
      → IsMap o m1
      → IsMap o m2
      → Returns
          (λ m.
            IsMap o m
            × ((j : K)
                → list_lookup o j (entries m.root)
                  ≡ common_value o g
                      (list_lookup o j (entries m1.root))
                      (list_lookup o j (entries m2.root))
                      none))
          (map_intersection_with charge f (map_arg m1) (map_arg m2) ce)
  unfolding map_intersection_with list_lookup
  map_intersection_with-Returns m1 m2 ce h1 h2 =
      and_then-Returns _ (ResultHas o (common_all o g (entries m1.root) (entries m2.root) []))
        (avl_intersect_walk charge f m1.root m2 (empty_map m1.cmp, 0) ce) _
        (avl_intersect_walk-Returns m1.root m2 (empty_map m1.cmp) 0 ce h2
          (empty_map-HasEntries o m1.cmp h1.ordered).0)
        λ acc c w. (
          w.0,
          λ j.
              ap (list_lookup o j) w.1
              ∙ list_lookup-common_all o g j (entries m1.root) (entries m2.root) [] h1.sorted,
        )
