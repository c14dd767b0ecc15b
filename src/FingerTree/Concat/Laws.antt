-- ===== src/FingerTree/Concat/Laws.antt =====
-- Concatenation against that of lists.
use gicel.Prelude.{
  ℕ, suc, ◌≤◌, ◌≡◌, refl, List, [], ◌∷◌, ◌++◌, append_assoc, append-nil, length, length-append,
  arith,
}
use gicel.FingerTree.Node.{
  Elem, FTree, ft_empty, ft_single, ft_deep, items, digit_leaves, digit_leaves-append, AreElems,
  AreElems-append, IsFt, Holds,
}
use gicel.FingerTree.Ends.{ft_snoc}
use gicel.FingerTree.Ends.Laws.{ft_cons-Holds, ft_snoc-Holds}
use gicel.FingerTree.Concat.{nodify, cons_all, snoc_all, ft_append3, ft_append}

module _ {ℓ} {A : Type ℓ} where
  pub nodify-AreElems :
      (d : ℕ) (es : List (Elem A))
      → 2 ≤ length es
      → AreElems d es
      → AreElems (suc d) (nodify es) × (digit_leaves (nodify es) ≡ digit_leaves es)
  unfolding nodify
  nodify-AreElems d [] n h = absurd (omega (arith, n))
  nodify-AreElems d (a ∷ []) n h = absurd (omega (arith, n))
  nodify-AreElems d (a ∷ b ∷ []) n (p, (q, _)) =
      (((refl, p, q), tt), simp (append_assoc, append-nil))
  nodify-AreElems d (a ∷ b ∷ c ∷ []) n (p, (q, (r, _))) =
      (((refl, p, q, r), tt), simp (append_assoc, append-nil))
  nodify-AreElems d (a ∷ b ∷ c ∷ e ∷ []) n (p, (q, (r, (s, _)))) =
      (((refl, p, q), ((refl, r, s), tt)), simp (append_assoc, append-nil))
  nodify-AreElems d (a ∷ b ∷ c ∷ e ∷ f ∷ es) n (p, (q, (r, hs))) =
      let (w, eq) = nodify-AreElems d (e ∷ f ∷ es) (omega arith) hs in
      (((refl, p, q, r), w), simp (eq, append_assoc))

  cons_all-Holds :
      (d : ℕ) (es : List (Elem A)) (t : FTree A)
      → AreElems d es
      → IsFt d t
      → Holds d (digit_leaves es ++ items t) (cons_all es t)
  unfolding cons_all
  cons_all-Holds d [] t h k = (k, refl)
  cons_all-Holds d (e ∷ es) t h k =
      let (w, eq) = cons_all-Holds d es t h.1 k in
      let (w', eq') = ft_cons-Holds d e (cons_all es t) h.0 w in (w', simp (eq', eq, append_assoc))

  snoc_all-Holds :
      (d : ℕ) (t : FTree A) (es : List (Elem A))
      → IsFt d t
      → AreElems d es
      → Holds d (items t ++ digit_leaves es) (snoc_all t es)
  unfolding snoc_all
  snoc_all-Holds d t [] k h = (k, simp append-nil)
  snoc_all-Holds d t (e ∷ es) k h =
      let (w, eq) = ft_snoc-Holds d t e k h.0 in
      let (w', eq') = snoc_all-Holds d (ft_snoc t e) es w h.1 in (w', simp (eq', eq, append_assoc))

  pub ft_append3-Holds :
      (d : ℕ) (left : FTree A) (mid : List (Elem A)) (right : FTree A)
      → IsFt d left
      → AreElems d mid
      → IsFt d right
      → Holds d (items left ++ (digit_leaves mid ++ items right)) (ft_append3 left mid right)
  unfolding ft_append3
  ft_append3-Holds d ft_empty mid right l m r = cons_all-Holds d mid right m r
  ft_append3-Holds d (ft_single e) mid right l m r =
      let (w, eq) = cons_all-Holds d mid right m r in
      let (w', eq') = ft_cons-Holds d e (cons_all mid right) l w in (w', simp (eq', eq))
  ft_append3-Holds d (ft_deep s ll lm lr) mid ft_empty l m r =
      let (w, eq) = snoc_all-Holds d (ft_deep s ll lm lr) mid l m in
      (w, simp (eq, append-nil, append_assoc))
  ft_append3-Holds d (ft_deep s ll lm lr) mid (ft_single e) l m r =
      let (w, eq) = snoc_all-Holds d (ft_deep s ll lm lr) mid l m in
      let (w', eq') = ft_snoc-Holds d (snoc_all (ft_deep s ll lm lr) mid) e w r in
      (w', simp (eq', eq, append_assoc))
  ft_append3-Holds d (ft_deep s ll lm lr) mid (ft_deep s' rl rm rr) l m r =
      let all = lr ++ (mid ++ rl) in
      let (ns, eq) =
        nodify-AreElems d all
          (omega (arith, l.3.0, r.1.0, length-append lr (mid ++ rl), length-append mid rl))
          (AreElems-append d lr (mid ++ rl) l.3.2 (AreElems-append d mid rl m r.1.2)) in
      let (w, eq') = ft_append3-Holds (suc d) lm (nodify all) rm l.2 ns r.2 in
      ((refl, l.1, w, r.3), simp (eq', eq, digit_leaves-append, append_assoc))

  -- Of two well-formed trees the concatenation is well formed and holds the values of both in order.
  pub ft_append-Holds :
      (d : ℕ) (left right : FTree A)
      → IsFt d left
      → IsFt d right
      → Holds d (items left ++ items right) (ft_append left right)
  unfolding ft_append
  ft_append-Holds d left right l r = ft_append3-Holds d left [] right l tt r
