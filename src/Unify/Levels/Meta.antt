-- ===== src/Unify/Levels/Meta.antt =====
-- internal/compiler/check/unify/level_unify.go: the zonking of a solved metavariable, with the solution
-- that is stored for it.
use gicel.Prelude.{
  ℕ, ◌<◌, ◌==◌, Bool, true, false, some, if◌then◌else◌, ◌≡◌, sym, ap, ◌∙◌, arith, subst, Bool-cases,
  inl, inr, dec_lt, ==_iff,
}
use gicel.Prelude.Bytes.{Bytes}
use gicel.Levels.{LevelExpr, level_meta, level_value}
use gicel.Unify.Levels.Assignment.{
  is_some, Solved, Clean, Ranked, Within, AllWithin, Agrees, Clean-Below, SameSolved, Below-congr,
  Clean-congr, Post,
}

module _ (r : ℕ → ℕ) (limit b i : ℕ) (m n p : Solved) (soln l : LevelExpr) (c : Bool)
    (here : m i ≡ some soln) (low : r i < b) (ranked : Ranked r limit m)
    (post : Post r limit (r i) m n soln l c)
    (stored : (k : ℕ) → p k ≡ (if i == k then some l else n k)) where
  at_meta : p i ≡ some l
  at_meta = ground (arith, stored i)

  elsewhere : (k : ℕ) → (i == k) ≡ false → p k ≡ n k
  elsewhere k e = ground (arith, stored k, e)

  same_as_before : SameSolved n p
  same_as_before k = elim (Bool-cases (i == k)) [
    | inl t ↦
        subst (λ x. is_some (p x) ≡ is_some (n x)) ((==_iff i k).0 t)
          (ap is_some at_meta ∙ sym (ap is_some here) ∙ sym (post.same i))
    | inr t ↦ ap is_some (elsewhere k t)
  ]

  lower : (v : Bytes → ℕ) (s : ℕ → ℕ) → Agrees r b v s p → Agrees r (r i) v s n
  lower v s a k t e h = a k t (elsewhere k (ground (arith, h, ap r)) ∙ e) (omega (arith, h, low))

  meta_back : (v : Bytes → ℕ) (s : ℕ → ℕ) → Agrees r b v s p → Agrees r b v s m
  meta_back v s a k t e h = elim (Bool-cases (i == k)) [
    | inl q ↦
        let ik = (==_iff i k).0 q in
        let st : soln ≡ t = ground (arith, here, e, ap m ik) in
        subst (λ x. s x ≡ level_value v s t) ik
          (a i l at_meta low ∙ post.value v s (lower v s a) ∙ ap (level_value v s) st)
    | inr q ↦ elim (dec_lt (r k) (r i)) [
      | yes d ↦ post.back v s (lower v s a) k t e d
      | no d ↦ a k t (elsewhere k q ∙ post.frame k (omega (arith, d)) ∙ e) h
    ]
  ]

  meta_forth : (v : Bytes → ℕ) (s : ℕ → ℕ) → Agrees r b v s m → Agrees r b v s p
  meta_forth v s a k t e h =
      let below : Agrees r (r i) v s n =
        post.forth v s (λ j u f g. a j u f (omega (arith, g, low))) in
      elim (Bool-cases (i == k)) [
        | inl q ↦
            let ik = (==_iff i k).0 q in
            let lt : l ≡ t = ground (arith, at_meta, e, ap p ik) in
            subst (λ x. s x ≡ level_value v s t) ik
              (a i soln here low ∙ sym (post.value v s below) ∙ ap (level_value v s) lt)
        | inr q ↦ elim (dec_lt (r k) (r i)) [
          | yes d ↦ below k t (sym (elsewhere k q) ∙ e) d
          | no d ↦ a k t (sym (post.frame k (omega (arith, d))) ∙ sym (elsewhere k q) ∙ e) h
        ]
      ]

  Clean-after : Clean p l
  Clean-after = Clean-congr n p l same_as_before post.clean

  meta-Ranked : Ranked r limit p
  meta-Ranked k t e = elim (Bool-cases (i == k)) [
    | inl q ↦
        let ik = (==_iff i k).0 q in
        let lt : l ≡ t = ground (arith, at_meta, e, ap p ik) in
        (
          subst (λ x. r x < limit) ik ((ranked i soln here).0),
          Clean-Below r p (r k) t (subst (Clean p) lt Clean-after),
        )
    | inr q ↦
        let old = post.ranked k t (sym (elsewhere k q) ∙ e) in
        (old.0, Below-congr r n p (r k) t same_as_before old.1)
  ]

  meta-Within :
      (bound : ℕ)
      → AllWithin bound m
      → Within bound (level_meta i)
      → AllWithin bound p × Within bound l
  meta-Within bound a w =
      let old = post.within bound a (a i soln here) in
      (
        (λ k t e. elim (Bool-cases (i == k)) [
          | inl q ↦
              let lt : l ≡ t = ground (arith, at_meta, e, ap p ((==_iff i k).0 q)) in
              subst (Within bound) lt old.1
          | inr q ↦ old.0 k t (sym (elsewhere k q) ∙ e)
        ]),
        old.1,
      )

  pub Post-meta : Post r limit b m p (level_meta i) l true
  Post-meta = record {
    ranked = meta-Ranked;
    same = λ k. same_as_before k ∙ post.same k;
    frame =
        λ k h. elsewhere k (ground (arith, h, low, ap r)) ∙ post.frame k (omega (arith, h, low));
    clean = Clean-after;
    kept = λ e. absurd (ground (arith, e));
    back = meta_back;
    forth = meta_forth;
    within = meta-Within;
    value = λ v s a. sym (a i l at_meta low);
  }
