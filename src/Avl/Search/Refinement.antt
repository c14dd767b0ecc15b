-- ===== src/Avl/Search/Refinement.antt =====
-- Insert, lookup and delete are the operations of the same names on the sorted list of entries.
use gicel.Prelude.{
  ℕ, ◌≡◌, refl, sym, ap, ◌∙◌, List, ◌∷◌, ◌++◌, append-nil, Bool, true, false, not, arith, Ordering,
}
use Prim.Native.Nat.Ordering.{lt, eq, gt}
use gicel.Avl.Applier.{Answer, ok, or_restore, Value, Returns, or_restore-Returns, Returns-imp}
use gicel.Avl.Tree.{AvlNode, nil, node, avl_new_node, avl_min_node}
use gicel.Avl.Tree.Entries.{entries, entries-avl_rebalance}
use gicel.Avl.Sorted.{
  LawfulOrder, Decides, IsSorted, IsSorted-around, list_insert, list_delete, list_lookup,
  list_member, list_lookup-around, list_insert-around, list_member-around, list_delete-around,
}
use gicel.Avl.Sorted.Laws.{list_delete_absent}
use gicel.Avl.Search.{
  avl_insert, avl_lookup, avl_delete, with_left, with_right, deleted_left, deleted_right, replaced,
  delete_here,
}

module _ {K V C E : Type 0} (compare : K → K → C → Answer C E Value) (o : LawfulOrder K)
    (d : Decides compare o) where
  -- Lookup returns what the sorted list has at the key.
  pub avl_lookup-Returns :
      (t : AvlNode K V) (key : K) (ce : C)
      → IsSorted o (entries t)
      → Returns (λ found. found ≡ list_lookup o key (entries t)) (avl_lookup compare t key ce)
  unfolding avl_lookup list_lookup
  avl_lookup-Returns nil key ce s = refl
  avl_lookup-Returns (node k v l r h) key ce s =
      let a = IsSorted-around o (entries l) k v (entries r) s in
      rw (d.decides key k ce) (
        ground (
          arith,
          avl_lookup-Returns l key (d.after key k ce) a.left,
          avl_lookup-Returns r key (d.after key k ce) a.right,
          list_lookup-around o key k v (entries l) (entries r) a,
        ))

  abbrev pub InsertedInto : K → V → List (K × V) → AvlNode K V × Bool → Type 0
  InsertedInto key value xs r =
      (entries r.0 ≡ list_insert o key value xs) × (r.1 ≡ not (list_member o key xs))

  -- Insertion inserts into the sorted list, and reports whether the key was new.
  pub avl_insert-Returns :
      (t : AvlNode K V) (key : K) (value : V) (ce : C)
      → IsSorted o (entries t)
      → Returns (InsertedInto key value (entries t)) (avl_insert compare t key value ce)
  unfolding avl_insert
  avl_insert-Returns nil key value ce s =
      unfold avl_new_node list_insert list_member in (refl, refl)
  avl_insert-Returns (node k v l r h) key value ce s =
      let a = IsSorted-around o (entries l) k v (entries r) s in
      let c' = d.after key k ce in
      rw (d.decides key k ce) (
        Returns-imp (Goal (o.order key k)) (InsertedInto key value (entries (node k v l r h))) _
          (λ r' g. (
            g.0 ∙ sym (list_insert-around o key k value v (entries l) (entries r) a),
            g.1 ∙ ap not (sym (list_member-around o key k v (entries l) (entries r) a)),
          ))
          (by_order c' (avl_insert-Returns l key value c' a.left)
            (avl_insert-Returns r key value c' a.right) (o.order key k)))
    where
      Goal : Ordering → AvlNode K V × Bool → Type 0
      Goal ord r' =
          (entries r'.0 ≡ elim ord [
            | lt ↦ list_insert o key value (entries l) ++ (k, v) ∷ (entries r)
            | gt ↦ entries l ++ (k, v) ∷ list_insert o key value (entries r)
            | eq ↦ entries l ++ (k, value) ∷ entries r
          ])
          × (r'.1
              ≡ not (elim ord [
                | lt ↦ list_member o key (entries l)
                | gt ↦ list_member o key (entries r)
                | eq ↦ true
              ]))

      by_order :
          (c : C)
          → Returns (InsertedInto key value (entries l)) (avl_insert compare l key value c)
          → Returns (InsertedInto key value (entries r)) (avl_insert compare r key value c)
          → (ord : Ordering)
          → Returns (Goal ord) (elim ord [
            | lt ↦ or_restore ce (avl_insert compare l key value c) (with_left compare k v r h)
            | gt ↦ or_restore ce (avl_insert compare r key value c) (with_right compare k v l h)
            | eq ↦ ok (node k value l r h, false) c
          ])
      by_order c in_left in_right lt =
          or_restore-Returns (Goal lt) (InsertedInto key value (entries l)) ce
            (avl_insert compare l key value c) (with_left compare k v r h) in_left
            (λ r' c g. (
              entries-avl_rebalance (node k v r'.0 r h) ∙ ap (λ t. t ++ (k, v) ∷ entries r) g.0,
              g.1,
            ))
      by_order c in_left in_right gt =
          or_restore-Returns (Goal gt) (InsertedInto key value (entries r)) ce
            (avl_insert compare r key value c) (with_right compare k v l h) in_right
            (λ r' c g. (
              entries-avl_rebalance (node k v l r'.0 h) ∙ ap (λ t. entries l ++ (k, v) ∷ t) g.0,
              g.1,
            ))
      by_order c in_left in_right eq = (refl, refl)

  abbrev pub DeletedFrom : K → List (K × V) → AvlNode K V × Bool → Type 0
  DeletedFrom key xs r = (entries r.0 ≡ list_delete o key xs) × (r.1 ≡ list_member o key xs)

  abbrev DeleteGoal : AvlNode K V → AvlNode K V → K → V → K → Ordering → AvlNode K V × Bool → Type 0
  DeleteGoal l r k v key ord r' =
      (entries r'.0 ≡ elim ord [
        | lt ↦ list_delete o key (entries l) ++ (k, v) ∷ entries r
        | gt ↦ entries l ++ (k, v) ∷ list_delete o key (entries r)
        | eq ↦ entries l ++ entries r
      ])
      × (r'.1 ≡ elim ord [
        | lt ↦ list_member o key (entries l)
        | gt ↦ list_member o key (entries r)
        | eq ↦ true
      ])

  deleted_left-Returns :
      (k key : K) (v : V) (l r : AvlNode K V) (h : ℕ) (r' : AvlNode K V × Bool) (c : C)
      → DeletedFrom key (entries l) r'
      → Returns (DeleteGoal l r k v key lt) (deleted_left compare k v l r h r' c)
  deleted_left-Returns k key v l r h (l', true) c g =
      (entries-avl_rebalance (node k v l' r h) ∙ ap (λ t. t ++ (k, v) ∷ entries r) g.0, g.1)
  deleted_left-Returns k key v l r h (l', false) c g = (
    ap (λ t. t ++ (k, v) ∷ entries r) (sym (list_delete_absent o key (entries l) (sym g.1))),
    g.1,
  )

  deleted_right-Returns :
      (k key : K) (v : V) (l r : AvlNode K V) (h : ℕ) (r' : AvlNode K V × Bool) (c : C)
      → DeletedFrom key (entries r) r'
      → Returns (DeleteGoal l r k v key gt) (deleted_right compare k v l r h r' c)
  deleted_right-Returns k key v l r h (r', true) c g =
      (entries-avl_rebalance (node k v l r' h) ∙ ap (λ t. entries l ++ (k, v) ∷ t) g.0, g.1)
  deleted_right-Returns k key v l r h (r', false) c g = (
    ap (λ t. entries l ++ (k, v) ∷ t) (sym (list_delete_absent o key (entries r) (sym g.1))),
    g.1,
  )

  -- The successor is the first entry of the right child.
  min_first :
      (k : K) (v : V) (l r : AvlNode K V)
      → (rest : List (K × V)) × (entries l ++ (k, v) ∷ entries r ≡ avl_min_node k v l ∷ rest)
  unfolding avl_min_node
  min_first k v nil r = (entries r, refl)
  min_first k v (node lk lv ll lr lh) r =
      let (rest, e) = min_first lk lv ll lr in
      (rest ++ (k, v) ∷ entries r, ap (λ t. t ++ (k, v) ∷ entries r) e)

  list_delete_first : (k : K) (v : V) (rest : List (K × V)) → list_delete o k ((k, v) ∷ rest) ≡ rest
  unfolding list_delete
  list_delete_first k v rest = rw (o.order_refl k, list_delete)

  delete_here-Returns :
      (k key : K) (v : V) (l r : AvlNode K V) (h : ℕ) (ce c : C)
      (delete_right : K → C → Answer C E (AvlNode K V × Bool))
      → ((q : K) (c : C) → Returns (DeletedFrom q (entries r)) (delete_right q c))
      → Returns (DeleteGoal l r k v key eq) (delete_here compare ce c delete_right l r h)
  delete_here-Returns k key v nil r h ce c d ih = (refl, refl)
  delete_here-Returns k key v (node lk lv ll lr lh) nil h ce c d ih =
      (sym (append-nil (entries (node lk lv ll lr lh))), refl)
  delete_here-Returns k key v (node lk lv ll lr lh) (node rk rv rl rr rh) h ce c d ih =
      let l = node lk lv ll lr lh in
      let r = node rk rv rl rr rh in
      let s = avl_min_node rk rv rl in
      let (rest, first) = min_first rk rv rl rr in
      or_restore-Returns (DeleteGoal l r k v key eq) (DeletedFrom s.0 (entries r)) ce (d s.0 c)
        (replaced compare s l h) (ih s.0 c)
        (λ r' c' g. (
          entries-avl_rebalance (node s.0 s.1 l r'.0 h)
              ∙ ap (λ t. entries l ++ s ∷ t)
                  (g.0 ∙ ap (list_delete o s.0) first ∙ list_delete_first s.0 s.1 rest)
              ∙ ap (λ t. entries l ++ t) (sym first),
          refl,
        ))

  -- Deletion deletes from the sorted list, and reports whether the key was there.
  pub avl_delete-Returns :
      (t : AvlNode K V) (key : K) (ce : C)
      → IsSorted o (entries t)
      → Returns (DeletedFrom key (entries t)) (avl_delete compare t key ce)
  unfolding avl_delete
  avl_delete-Returns nil key ce s = unfold list_delete list_member in (refl, refl)
  avl_delete-Returns (node k v l r h) key ce s =
      let a = IsSorted-around o (entries l) k v (entries r) s in
      let c' = d.after key k ce in
      rw (d.decides key k ce) (
        Returns-imp (DeleteGoal l r k v key (o.order key k))
          (DeletedFrom key (entries (node k v l r h))) _
          (λ r' g. (
            g.0 ∙ sym (list_delete-around o key k v (entries l) (entries r) a),
            g.1 ∙ sym (list_member-around o key k v (entries l) (entries r) a),
          ))
          (by_order c' (avl_delete-Returns l key c' a.left)
            (λ q c. avl_delete-Returns r q c a.right) (o.order key k)))
    where
      by_order :
          (c : C)
          → Returns (DeletedFrom key (entries l)) (avl_delete compare l key c)
          → ((q : K) (c : C) → Returns (DeletedFrom q (entries r)) (avl_delete compare r q c))
          → (ord : Ordering)
          → Returns (DeleteGoal l r k v key ord) (elim ord [
            | lt ↦ or_restore ce (avl_delete compare l key c) (deleted_left compare k v l r h)
            | gt ↦ or_restore ce (avl_delete compare r key c) (deleted_right compare k v l r h)
            | eq ↦ delete_here compare ce c (avl_delete compare r) l r h
          ])
      by_order c in_left in_right lt =
          or_restore-Returns (DeleteGoal l r k v key lt) (DeletedFrom key (entries l)) ce
            (avl_delete compare l key c) (deleted_left compare k v l r h) in_left
            (deleted_left-Returns k key v l r h)
      by_order c in_left in_right gt =
          or_restore-Returns (DeleteGoal l r k v key gt) (DeletedFrom key (entries r)) ce
            (avl_delete compare r key c) (deleted_right compare k v l r h) (in_right key c)
            (deleted_right-Returns k key v l r h)
      by_order c in_left in_right eq =
          delete_here-Returns k key v l r h ce c (avl_delete compare r) in_right
