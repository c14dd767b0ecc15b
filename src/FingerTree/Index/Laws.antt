-- ===== src/FingerTree/Index/Laws.antt =====
-- Access by position against that of the list of values.
use gicel.Prelude.{
  ℕ, zero, suc, ◌-◌, ◌≤◌, ◌<◌, ◌≡◌, refl, sym, ap, List, [], ◌∷◌, ◌++◌, length, Option, none, some,
  arith, ltb, if◌then◌else◌,
}
use gicel.Prelude.Outcome.{Outcome, returns}
use gicel.FingerTree.Node.{
  Elem, leaf, node2, node3, FTree, ft_empty, ft_single, ft_deep, elem_size, digit_size, ftree_size,
  leaves, items, digit_leaves, IsElem, AreElems, IsFt, elem_size-length, digit_size-length,
  ftree_size-length,
}
use gicel.FingerTree.Index.{node_index, digit_index, ft_index_node, ft_index}

module _ {A : Type 0} where
  -- The element at a position of a list of values.
  abbrev pub leaf_at : List A → ℕ → Option (Elem A)
  leaf_at [] i = none
  leaf_at (x ∷ xs) zero = some (leaf x)
  leaf_at (x ∷ xs) (suc i) = leaf_at xs i

  -- A position in the first part, and one behind it.
  leaf_at-append :
      (xs ys : List A) (i : ℕ)
      → leaf_at (xs ++ ys) i
        ≡ (if ltb i (length xs) then leaf_at xs i else leaf_at ys (i - length xs))
  leaf_at-append [] ys i = ground arith
  leaf_at-append (x ∷ xs) ys zero = ground arith
  leaf_at-append (x ∷ xs) ys (suc i) = rw (leaf_at-append xs ys i) (ground arith)

  leaf_at-beyond : (xs : List A) (i : ℕ) → length xs ≤ i → leaf_at xs i ≡ none
  leaf_at-beyond [] i h = refl
  leaf_at-beyond (x ∷ xs) zero h = absurd (omega (arith, h))
  leaf_at-beyond (x ∷ xs) (suc i) h = leaf_at-beyond xs i (omega (arith, h))

  -- A branch on the size of an element is one on the length of the list.
  node_index-eq :
      (d : ℕ) (e : Elem A) (i : ℕ)
      → IsElem d e
      → i < elem_size e
      → node_index e i ≡ leaf_at (leaves e) i
  unfolding node_index
  node_index-eq zero (leaf a) zero h k = refl
  node_index-eq zero (leaf a) (suc i) h k = absurd (omega (arith, k))
  node_index-eq zero (node2 n a b) i h k = elim h [ ]
  node_index-eq zero (node3 n a b c) i h k = elim h [ ]
  node_index-eq (suc d) (leaf a) i h k = elim h [ ]
  node_index-eq (suc d) (node2 n a b) i (eq, p, q) k =
      let pa = elem_size-length d a p in
      let pb = elem_size-length d b q in
      rw (leaf_at-append (leaves a) (leaves b) i, sym pa)
        (ground (arith, node_index-eq d a i p, node_index-eq d b (i - elem_size a) q))
  node_index-eq (suc d) (node3 n a b c) i (eq, p, q, r) k =
      let pa = elem_size-length d a p in
      let pb = elem_size-length d b q in
      rw
        (
          leaf_at-append (leaves a) (leaves b ++ leaves c) i,
          leaf_at-append (leaves b) (leaves c) (i - length (leaves a)),
          sym pa,
          sym pb,
        )
        (ground (
          arith,
          node_index-eq d a i p,
          node_index-eq d b (i - elem_size a) q,
          node_index-eq d c (i - elem_size a - elem_size b) r,
        ))

  digit_index-eq :
      (d : ℕ) (es : List (Elem A)) (i : ℕ)
      → AreElems d es
      → digit_index es i ≡ leaf_at (digit_leaves es) i
  unfolding digit_index
  digit_index-eq d [] i h = refl
  digit_index-eq d (e ∷ es) i h =
      let pe = elem_size-length d e h.0 in
      rw (leaf_at-append (leaves e) (digit_leaves es) i, sym pe)
        (ground (arith, node_index-eq d e i h.0, digit_index-eq d es (i - elem_size e) h.1))

  -- The position in the three parts of a deep tree.
  leaf_at-deep :
      (d : ℕ) (left : List (Elem A)) (mid : FTree A) (right : List (Elem A)) (i : ℕ)
      → AreElems d left
      → IsFt (suc d) mid
      → AreElems d right
      → (found : Outcome (Option (Elem A)))
      → (i - digit_size left < ftree_size mid
          → found ≡ returns (leaf_at (items mid) (i - digit_size left)))
      → (if ltb i (digit_size left)
          then returns (digit_index left i)
          else (if ltb (i - digit_size left) (ftree_size mid)
              then found
              else returns (digit_index right (i - digit_size left - ftree_size mid))))
        ≡ returns (leaf_at (digit_leaves left ++ (items mid ++ digit_leaves right)) i)
  leaf_at-deep d left mid right i l m r found h =
      rw
        (
          leaf_at-append (digit_leaves left) (items mid ++ digit_leaves right) i,
          leaf_at-append (items mid) (digit_leaves right) (i - length (digit_leaves left)),
          sym (digit_size-length d left l),
          sym (ftree_size-length (suc d) mid m),
          digit_index-eq d left i l,
          digit_index-eq d right (i - digit_size left - ftree_size mid) r,
        )
        (ground (arith, h))

  ft_index_node-eq :
      (d : ℕ) (t : FTree A) (i : ℕ)
      → IsFt (suc d) t
      → i < ftree_size t
      → ft_index_node t i ≡ returns (leaf_at (items t) i)
  unfolding ft_index_node
  ft_index_node-eq d ft_empty i h k = refl
  ft_index_node-eq d (ft_single (leaf a)) i h k = elim h [ ]
  ft_index_node-eq d (ft_single (node2 n a b)) i h k =
      ap returns (node_index-eq (suc d) (node2 n a b) i h k)
  ft_index_node-eq d (ft_single (node3 n a b c)) i h k =
      ap returns (node_index-eq (suc d) (node3 n a b c) i h k)
  ft_index_node-eq d (ft_deep size left mid right) i (_, l, m, r) k =
      leaf_at-deep (suc d) left mid right i l.2 m r.2 (ft_index_node mid (i - digit_size left))
        (ft_index_node-eq (suc d) mid (i - digit_size left) m)

  -- On a well-formed tree access does not panic, and gives the value at the position, or nothing behind the end.
  pub ft_index-eq : (t : FTree A) (i : ℕ) → IsFt 0 t → ft_index t i ≡ returns (leaf_at (items t) i)
  unfolding ft_index
  ft_index-eq ft_empty i h = refl
  ft_index-eq (ft_single (leaf a)) zero h = refl
  ft_index-eq (ft_single (leaf a)) (suc i) h = ground arith
  ft_index-eq (ft_single (node2 n a b)) i h = elim h [ ]
  ft_index-eq (ft_single (node3 n a b c)) i h = elim h [ ]
  ft_index-eq (ft_deep size left mid right) i (_, l, m, r) =
      leaf_at-deep 0 left mid right i l.2 m r.2 (ft_index_node mid (i - digit_size left))
        (ft_index_node-eq 0 mid (i - digit_size left) m)
