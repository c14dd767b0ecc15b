-- ===== src/Avl/Search/Balance.antt =====
-- Whatever the comparison answers, the trees stay balanced: no law is asked of it.
use gicel.Prelude.{ℕ, ◌+◌, ◌≤◌, Bool, true, false, arith, Ordering}
use Prim.Native.Nat.Ordering.{lt, eq, gt}
use gicel.Avl.Applier.{
  Answer, ok, or_restore, Value, compare_keys, Ensures, or_restore-Ensures, or_restore-any,
}
use gicel.Avl.Tree.{AvlNode, nil, node, avl_height, avl_new_node, avl_rebalance, avl_min_node}
use gicel.Avl.Tree.Balance.{IsAvl, avl_rebalance-Rebalanced}
use gicel.Avl.Search.{
  avl_insert, avl_delete, with_left, with_right, deleted_left, deleted_right, replaced, delete_here,
}

module _ {ℓ κ} {K : Type ℓ} {V : Type κ} where
  -- A balanced tree at most one higher than `t`, and not lower.
  pub record Grown (t t' : AvlNode K V) : Type 0 where
    pub balanced : IsAvl t'
    pub not_lower : avl_height t ≤ avl_height t'
    pub at_most : avl_height t' ≤ avl_height t + 1

  -- A balanced tree at most one lower than `t`, and not higher.
  pub record Shrunk (t t' : AvlNode K V) : Type 0 where
    pub balanced : IsAvl t'
    pub not_higher : avl_height t' ≤ avl_height t
    pub at_least : avl_height t ≤ avl_height t' + 1

  Grown-left :
      (k : K) (v : V) (l l' r : AvlNode K V) (h : ℕ)
      → IsAvl (node k v l r h)
      → Grown l l'
      → Grown (node k v l r h) (avl_rebalance (node k v l' r h))
  unfolding avl_height
  Grown-left k v l l' r h (al, ar, e, hl, hr) g =
      let b = avl_rebalance-Rebalanced k v l' r h g.balanced ar (omega arith) (omega arith) in
      record {
        balanced = b.balanced;
        not_lower = ground (arith, b.at_least, b.unchanged);
        at_most = ground (arith, b.at_most, b.unchanged);
      }

  Grown-right :
      (k : K) (v : V) (l r r' : AvlNode K V) (h : ℕ)
      → IsAvl (node k v l r h)
      → Grown r r'
      → Grown (node k v l r h) (avl_rebalance (node k v l r' h))
  unfolding avl_height
  Grown-right k v l r r' h (al, ar, e, hl, hr) g =
      let b = avl_rebalance-Rebalanced k v l r' h al g.balanced (omega arith) (omega arith) in
      record {
        balanced = b.balanced;
        not_lower = ground (arith, b.at_least, b.unchanged);
        at_most = ground (arith, b.at_most, b.unchanged);
      }

  Shrunk-left :
      (k k' : K) (v v' : V) (l l' r : AvlNode K V) (h h' : ℕ)
      → IsAvl (node k v l r h)
      → Shrunk l l'
      → Shrunk (node k v l r h) (avl_rebalance (node k' v' l' r h'))
  unfolding avl_height
  Shrunk-left k k' v v' l l' r h h' (al, ar, e, hl, hr) g =
      let b = avl_rebalance-Rebalanced k' v' l' r h' g.balanced ar (omega arith) (omega arith) in
      record {
        balanced = b.balanced;
        not_higher = ground (arith, b.at_most, b.unchanged);
        at_least = ground (arith, b.at_least, b.unchanged);
      }

  Shrunk-right :
      (k k' : K) (v v' : V) (l r r' : AvlNode K V) (h h' : ℕ)
      → IsAvl (node k v l r h)
      → Shrunk r r'
      → Shrunk (node k v l r h) (avl_rebalance (node k' v' l r' h'))
  unfolding avl_height
  Shrunk-right k k' v v' l r r' h h' (al, ar, e, hl, hr) g =
      let b = avl_rebalance-Rebalanced k' v' l r' h' al g.balanced (omega arith) (omega arith) in
      record {
        balanced = b.balanced;
        not_higher = ground (arith, b.at_most, b.unchanged);
        at_least = ground (arith, b.at_least, b.unchanged);
      }

module _ {ℓ κ} {K : Type ℓ} {V : Type κ} {C E : Type 0}
    (compare : K → K → C → Answer C E Value) where
  abbrev pub GrownFrom : AvlNode K V → AvlNode K V × Bool → Type 0
  GrownFrom t r = Grown t r.0

  abbrev pub ShrunkFrom : AvlNode K V → AvlNode K V × Bool → Type 0
  ShrunkFrom t r = Shrunk t r.0

  -- Insertion, where it returns, leaves a balanced tree that is as high or one higher, whatever the
  -- comparison answers.
  pub avl_insert-Grown :
      (t : AvlNode K V) (key : K) (value : V) (ce : C)
      → IsAvl t
      → Ensures (GrownFrom t) (avl_insert compare t key value ce)
  unfolding avl_insert
  avl_insert-Grown nil key value ce a = unfold avl_new_node avl_height in ground arith
  avl_insert-Grown (node k v l r h) key value ce a =
      or_restore-any (GrownFrom (node k v l r h)) ce (compare_keys compare key k ce) _ (λ ord c.
        by_order (λ c. avl_insert-Grown l key value c a.0) (λ c. avl_insert-Grown r key value c a.1)
          ord c)
    where
      by_order :
          ((c : C) → Ensures (GrownFrom l) (avl_insert compare l key value c))
          → ((c : C) → Ensures (GrownFrom r) (avl_insert compare r key value c))
          → (ord : Ordering) (c : C)
          → Ensures (GrownFrom (node k v l r h)) (elim ord [
            | lt ↦ or_restore ce (avl_insert compare l key value c) (with_left compare k v r h)
            | gt ↦ or_restore ce (avl_insert compare r key value c) (with_right compare k v l h)
            | eq ↦ ok (node k value l r h, false) c
          ])
      by_order in_left in_right lt c =
          or_restore-Ensures (GrownFrom (node k v l r h)) (GrownFrom l) ce
            (avl_insert compare l key value c) (with_left compare k v r h) (in_left c)
            (λ r' c' g. Grown-left k v l r'.0 r h a g)
      by_order in_left in_right gt c =
          or_restore-Ensures (GrownFrom (node k v l r h)) (GrownFrom r) ce
            (avl_insert compare r key value c) (with_right compare k v l h) (in_right c)
            (λ r' c' g. Grown-right k v l r r'.0 h a g)
      by_order in_left in_right eq c =
          unfold avl_height in
          record { balanced = a; not_lower = omega arith; at_most = omega arith }

  deleted_left-Shrunk :
      (k : K) (v : V) (l r : AvlNode K V) (h : ℕ)
      → IsAvl (node k v l r h)
      → (r' : AvlNode K V × Bool) (c : C) → ShrunkFrom l r'
      → Ensures (ShrunkFrom (node k v l r h)) (deleted_left compare k v l r h r' c)
  deleted_left-Shrunk k v l r h a (l', true) c s = Shrunk-left k k v v l l' r h h a s
  deleted_left-Shrunk k v l r h a (l', false) c s = record {
    balanced = a;
    not_higher = omega arith;
    at_least = omega arith;
  }

  deleted_right-Shrunk :
      (k : K) (v : V) (l r : AvlNode K V) (h : ℕ)
      → IsAvl (node k v l r h)
      → (r' : AvlNode K V × Bool) (c : C) → ShrunkFrom r r'
      → Ensures (ShrunkFrom (node k v l r h)) (deleted_right compare k v l r h r' c)
  deleted_right-Shrunk k v l r h a (r', true) c s = Shrunk-right k k v v l r r' h h a s
  deleted_right-Shrunk k v l r h a (r', false) c s = record {
    balanced = a;
    not_higher = omega arith;
    at_least = omega arith;
  }

  delete_here-Shrunk :
      (k : K) (v : V) (l r : AvlNode K V) (h : ℕ) (ce c : C)
      (delete_right : K → C → Answer C E (AvlNode K V × Bool))
      → IsAvl (node k v l r h)
      → ((q : K) (c : C) → Ensures (ShrunkFrom r) (delete_right q c))
      → Ensures (ShrunkFrom (node k v l r h)) (delete_here compare ce c delete_right l r h)
  unfolding avl_height
  delete_here-Shrunk k v nil r h ce c d a ih = record {
    balanced = a.1;
    not_higher = omega arith;
    at_least = omega arith;
  }
  delete_here-Shrunk k v (node lk lv ll lr lh) nil h ce c d a ih = record {
    balanced = a.0;
    not_higher = omega arith;
    at_least = omega arith;
  }
  delete_here-Shrunk k v (node lk lv ll lr lh) (node rk rv rl rr rh) h ce c d a ih =
      let l = node lk lv ll lr lh in
      let r = node rk rv rl rr rh in
      let s = avl_min_node rk rv rl in
      or_restore-Ensures (ShrunkFrom (node k v l r h)) (ShrunkFrom r) ce (d s.0 c)
        (replaced compare s l h) (ih s.0 c) (λ r' c' g. Shrunk-right k s.0 v s.1 l r r'.0 h h a g)

  -- Deletion, where it returns, leaves a balanced tree that is as high or one lower, whatever the
  -- comparison answers.
  pub avl_delete-Shrunk :
      (t : AvlNode K V) (key : K) (ce : C)
      → IsAvl t
      → Ensures (ShrunkFrom t) (avl_delete compare t key ce)
  unfolding avl_delete
  avl_delete-Shrunk nil key ce a = unfold avl_height in ground arith
  avl_delete-Shrunk (node k v l r h) key ce a =
      or_restore-any (ShrunkFrom (node k v l r h)) ce (compare_keys compare key k ce) _ (λ ord c.
        by_order (λ c. avl_delete-Shrunk l key c a.0) (λ q c. avl_delete-Shrunk r q c a.1) ord c)
    where
      by_order :
          ((c : C) → Ensures (ShrunkFrom l) (avl_delete compare l key c))
          → ((q : K) (c : C) → Ensures (ShrunkFrom r) (avl_delete compare r q c))
          → (ord : Ordering) (c : C)
          → Ensures (ShrunkFrom (node k v l r h)) (elim ord [
            | lt ↦ or_restore ce (avl_delete compare l key c) (deleted_left compare k v l r h)
            | gt ↦ or_restore ce (avl_delete compare r key c) (deleted_right compare k v l r h)
            | eq ↦ delete_here compare ce c (avl_delete compare r) l r h
          ])
      by_order in_left in_right lt c =
          or_restore-Ensures (ShrunkFrom (node k v l r h)) (ShrunkFrom l) ce
            (avl_delete compare l key c) (deleted_left compare k v l r h) (in_left c)
            (deleted_left-Shrunk k v l r h a)
      by_order in_left in_right gt c =
          or_restore-Ensures (ShrunkFrom (node k v l r h)) (ShrunkFrom r) ce
            (avl_delete compare r key c) (deleted_right compare k v l r h) (in_right key c)
            (deleted_right-Shrunk k v l r h a)
      by_order in_left in_right eq c =
          delete_here-Shrunk k v l r h ce c (avl_delete compare r) a in_right
