-- ===== src/FingerTree/Ends/Laws.antt =====
-- The ends of a finger tree against the ends of a list, with the invariant of fingertree.go kept.
use gicel.Prelude.{
  ℕ, suc, ◌≡◌, refl, sym, ap, length, List, [], ◌∷◌, ◌++◌, append_assoc, append-nil, Option, none,
  some, arith,
}
use gicel.Prelude.Outcome.{Yields, after_call-Yields}
use gicel.FingerTree.Node.{
  Elem, leaf, node2, node3, FTree, ft_empty, ft_single, ft_deep, as_node, digit_to_tree-Holds,
  leaves, items, digit_leaves, IsElem, AreElems, IsDigit, IsFt, Holds, one-IsDigit, two-IsDigit,
}
use gicel.FingerTree.Ends.{
  ft_cons, ft_snoc, ft_uncons, ft_unsnoc, split_last, pulled_left, pulled_right,
}

module _ {ℓ} {A : Type ℓ} where
  -- An element of depth `d` in front of a well-formed tree of that depth: the tree is well formed, and
  -- holds the values of the element before its own.
  pub ft_cons-Holds :
      (d : ℕ) (a : Elem A) (t : FTree A)
      → IsElem d a
      → IsFt d t
      → Holds d (leaves a ++ items t) (ft_cons a t)
  unfolding ft_cons
  ft_cons-Holds d a ft_empty p h = (p, simp append-nil)
  ft_cons-Holds d a (ft_single e) p h =
      ((refl, one-IsDigit d a p, tt, one-IsDigit d e h), simp append-nil)
  ft_cons-Holds d a (ft_deep s [] mid right) p h = absurd (omega (arith, h.1.0))
  ft_cons-Holds d a (ft_deep s (b ∷ []) mid right) p (_, (_, _, q), m, r) =
      ((refl, (omega arith, omega arith, (p, q)), m, r), simp append_assoc)
  ft_cons-Holds d a (ft_deep s (b ∷ c ∷ []) mid right) p (_, (_, _, q), m, r) =
      ((refl, (omega arith, omega arith, (p, q)), m, r), simp append_assoc)
  ft_cons-Holds d a (ft_deep s (b ∷ c ∷ e ∷ []) mid right) p (_, (_, _, q), m, r) =
      ((refl, (omega arith, omega arith, (p, q)), m, r), simp append_assoc)
  ft_cons-Holds d a (ft_deep s (b ∷ c ∷ e ∷ f ∷ []) mid right) p
        (_, (_, _, (q, (q1, (q2, (q3, _))))), m, r) =
      let (w, eq) = ft_cons-Holds (suc d) _ mid (refl, q1, q2, q3) m in
      ((refl, two-IsDigit d a b p q, w, r), simp (eq, append_assoc, append-nil))
  ft_cons-Holds d a (ft_deep s (b ∷ c ∷ e ∷ f ∷ g ∷ es) mid right) p h =
      absurd (omega (arith, h.1.1))

  -- An element of depth `d` behind a well-formed tree of that depth: the tree is well formed, and holds
  -- its own values before those of the element.
  pub ft_snoc-Holds :
      (d : ℕ) (t : FTree A) (a : Elem A)
      → IsFt d t
      → IsElem d a
      → Holds d (items t ++ leaves a) (ft_snoc t a)
  unfolding ft_snoc
  ft_snoc-Holds d ft_empty a h p = (p, refl)
  ft_snoc-Holds d (ft_single e) a h p =
      ((refl, one-IsDigit d e h, tt, one-IsDigit d a p), simp append-nil)
  ft_snoc-Holds d (ft_deep s left mid []) a h p = absurd (omega (arith, h.3.0))
  ft_snoc-Holds d (ft_deep s left mid (b ∷ [])) a (_, l, m, (_, _, (q, _))) p =
      ((refl, l, m, two-IsDigit d b a q p), simp (append_assoc, append-nil))
  ft_snoc-Holds d (ft_deep s left mid (b ∷ c ∷ [])) a (_, l, m, (_, _, (q, (q1, _)))) p = (
    (refl, l, m, (omega arith, omega arith, (q, (q1, (p, tt))))),
    simp (append_assoc, append-nil),
  )
  ft_snoc-Holds d (ft_deep s left mid (b ∷ c ∷ e ∷ [])) a (_, l, m, (_, _, (q, (q1, (q2, _))))) p =
      (
        (refl, l, m, (omega arith, omega arith, (q, (q1, (q2, (p, tt)))))),
        simp (append_assoc, append-nil),
      )
  ft_snoc-Holds d (ft_deep s left mid (b ∷ c ∷ e ∷ f ∷ [])) a
        (_, l, m, (_, _, (q, (q1, (q2, (q3, _)))))) p =
      let (w, eq) = ft_snoc-Holds (suc d) mid _ m (refl, q, q1, q2) in
      ((refl, l, w, two-IsDigit d f a q3 p), simp (eq, append_assoc, append-nil))
  ft_snoc-Holds d (ft_deep s left mid (b ∷ c ∷ e ∷ f ∷ g ∷ es)) a h p =
      absurd (omega (arith, h.3.1))

  -- An element of the spine is a node, whose elements are one level up.
  pub as_node-Yields :
      (d : ℕ) (n : Elem A)
      → IsElem (suc d) n
      → Yields (λ elems. IsDigit d elems × (digit_leaves elems ≡ leaves n)) (as_node n)
  as_node-Yields d (leaf a) h = elim h [ ]
  as_node-Yields d (node2 n a b) (_, p, q) = (two-IsDigit d a b p q, simp append-nil)
  as_node-Yields d (node3 n a b c) (_, p, q, r) =
      ((omega arith, omega arith, (p, (q, (r, tt)))), simp append-nil)

  -- What uncons gives: nothing of an empty tree, or the first element and the rest.
  abbrev pub Unconsed : ℕ → List A → Option (Elem A × FTree A) → Type ℓ
  Unconsed d xs none = [] ≡ xs
  Unconsed d xs (some (h, tail)) = IsElem d h × IsFt d tail × (leaves h ++ items tail ≡ xs)

  pulled_left-Yields :
      (d : ℕ) (h : Elem A) (mid : List A) (right : List (Elem A))
      → IsElem d h
      → IsDigit d right
      → (view : Option (Elem A × FTree A)) → Unconsed (suc d) mid view
      → Yields (Unconsed d (leaves h ++ (mid ++ digit_leaves right))) (pulled_left h right view)
  pulled_left-Yields d h mid right p r none u =
      let (w, eq) = digit_to_tree-Holds d right r in (p, w, rw (eq, sym u) refl)
  pulled_left-Yields d h mid right p r (some (n, tail)) (q, w, eq) =
      after_call-Yields (Unconsed d (leaves h ++ (mid ++ digit_leaves right)))
        (λ elems. IsDigit d elems × (digit_leaves elems ≡ leaves n)) (as_node n) _
        (as_node-Yields d n q)
        λ elems (dig, e). (p, (refl, dig, w, r), simp (e, sym eq, append_assoc))

  -- On a well-formed tree uncons does not panic; it gives nothing of a tree without values, and
  -- otherwise an element of the depth and a well-formed tree that hold the values in order.
  pub ft_uncons-Yields :
      (d : ℕ) (t : FTree A) → IsFt d t → Yields (Unconsed d (items t)) (ft_uncons t)
  unfolding ft_uncons
  ft_uncons-Yields d ft_empty h = refl
  ft_uncons-Yields d (ft_single e) h = (h, tt, simp append-nil)
  ft_uncons-Yields d (ft_deep s [] mid right) h = absurd (omega (arith, h.1.0))
  ft_uncons-Yields d (ft_deep s (a ∷ []) mid right) (_, (_, _, (p, _)), m, r) = simp append-nil (
      after_call-Yields (Unconsed d (leaves a ++ (items mid ++ digit_leaves right)))
        (Unconsed (suc d) (items mid)) (ft_uncons mid) (pulled_left a right)
        (ft_uncons-Yields (suc d) mid m) (pulled_left-Yields d a (items mid) right p r))
  ft_uncons-Yields d (ft_deep s (a ∷ b ∷ es) mid right) (_, (lo, hi, (p, q)), m, r) =
      (p, (refl, (omega arith, omega arith, q), m, r), simp append_assoc)

  pub split_last-eq :
      (d : ℕ) (e : Elem A) (es : List (Elem A))
      → AreElems d (e ∷ es)
      → let (init, last) = split_last e es in
        AreElems d init
        × IsElem d last
        × (length init ≡ length es)
        × (digit_leaves init ++ leaves last ≡ digit_leaves (e ∷ es))
  split_last-eq d e [] h = (tt, h.0, refl, simp append-nil)
  split_last-eq d e (e' ∷ es) h =
      let (p, q, n, eq) = split_last-eq d e' es h.1 in
      ((h.0, p), q, ap suc n, simp (append_assoc, eq))

  abbrev pub Unsnoced : ℕ → List A → Option (FTree A × Elem A) → Type ℓ
  Unsnoced d xs none = [] ≡ xs
  Unsnoced d xs (some (init, l)) = IsFt d init × IsElem d l × (items init ++ leaves l ≡ xs)

  pulled_right-Yields :
      (d : ℕ) (l : Elem A) (mid : List A) (left : List (Elem A))
      → IsElem d l
      → IsDigit d left
      → (view : Option (FTree A × Elem A)) → Unsnoced (suc d) mid view
      → Yields (Unsnoced d (digit_leaves left ++ (mid ++ leaves l))) (pulled_right l left view)
  pulled_right-Yields d l mid left p r none u =
      let (w, eq) = digit_to_tree-Holds d left r in (w, p, rw (eq, sym u) refl)
  pulled_right-Yields d l mid left p r (some (init, n)) (w, q, eq) =
      after_call-Yields (Unsnoced d (digit_leaves left ++ (mid ++ leaves l)))
        (λ elems. IsDigit d elems × (digit_leaves elems ≡ leaves n)) (as_node n) _
        (as_node-Yields d n q)
        λ elems (dig, e). ((refl, r, w, dig), p, simp (e, sym eq, append_assoc))

  append_third :
      (xs ys zs ws vs : List A) → zs ++ ws ≡ vs → xs ++ (ys ++ zs) ++ ws ≡ xs ++ (ys ++ vs)
  append_third xs ys zs ws vs h = simp (append_assoc, h)

  -- On a well-formed tree unsnoc does not panic; it gives nothing of a tree without values, and
  -- otherwise a well-formed tree and an element of the depth that hold the values in order.
  pub ft_unsnoc-Yields :
      (d : ℕ) (t : FTree A) → IsFt d t → Yields (Unsnoced d (items t)) (ft_unsnoc t)
  unfolding ft_unsnoc
  ft_unsnoc-Yields d ft_empty h = refl
  ft_unsnoc-Yields d (ft_single e) h = (tt, h, refl)
  ft_unsnoc-Yields d (ft_deep s left mid []) h = absurd (omega (arith, h.3.0))
  ft_unsnoc-Yields d (ft_deep s left mid (a ∷ [])) (_, l, m, (_, _, (p, _))) = simp append-nil (
      after_call-Yields (Unsnoced d (digit_leaves left ++ (items mid ++ leaves a)))
        (Unsnoced (suc d) (items mid)) (ft_unsnoc mid) (pulled_right a left)
        (ft_unsnoc-Yields (suc d) mid m) (pulled_right-Yields d a (items mid) left p l))
  ft_unsnoc-Yields d (ft_deep s left mid (a ∷ b ∷ es)) (_, l, m, (lo, hi, q)) =
      let (ps, p, n, eq) = split_last-eq d a (b ∷ es) q in
      (
        (refl, l, m, (omega (arith, n), omega (arith, n, hi), ps)),
        p,
        append_third (digit_leaves left) (items mid) _ (leaves (split_last a (b ∷ es)).1) _ eq,
      )
