-- ===== src/Unify/Levels/Zonk.antt =====
-- internal/compiler/check/unify/level_unify.go: zonking ends on a map of solutions without cycles, and
-- keeps the assignments that agree with it.
use gicel.Prelude.{
  ℕ, zero, suc, ◌≤◌, ◌<◌, ◌==◌, Bool, true, false, ◌||◌, Option, none, some, if◌then◌else◌, ◌≡◌,
  refl, sym, ap, ap₂, ◌∙◌, arith, subst, Bool-cases, Option-cases, inl, inr, max,
}
use gicel.Prelude.Int.{pos, ltb_ℤ}
use gicel.Levels.{LevelExpr, nil_level, level_lit, level_var, level_max, level_succ, level_meta}
use gicel.Unify.Trail.{Unifier, put, trail_level_write}
use gicel.Unify.Trail.Actions.{run_write}
use gicel.Unify.Levels.{Zonked, and_then, compress, zonk_with, zonk_level}
use gicel.Unify.Levels.Assignment.{
  is_some, Solved, Below, Ranked, SameSolved, Below-congr, Clean-congr, Post, Post-unchanged,
}
use gicel.Unify.Levels.Meta.{Post-meta}

unchanged :
    (n : ℕ → Option LevelExpr) (id k : ℕ) (l : LevelExpr)
    → n id ≡ some l
    → n k ≡ (if id == k then some l else n k)
unchanged n id k l e = ground (arith, e, ap n)

module _ (r : ℕ → ℕ) (limit : ℕ) where
  Post-max :
      (b : ℕ) (m n p : Solved) (x x' y y' : LevelExpr) (c d : Bool)
      → Post r limit b m n x x' c
      → Post r limit b n p y y' d
      → Post r limit b m p (level_max x y) (level_max x' y') (c || d)
  Post-max b m n p x x' y y' c d f g = record {
    ranked = g.ranked;
    same = λ i. g.same i ∙ f.same i;
    frame = λ k h. g.frame k h ∙ f.frame k h;
    clean = (Clean-congr n p x' g.same f.clean, g.clean);
    kept = λ e. ap₂ level_max (f.kept (ground (arith, e))) (g.kept (ground (arith, e)));
    back = λ v s a. f.back v s (g.back v s a);
    forth = λ v s a. g.forth v s (f.forth v s a);
    within = λ bound a w.
        let one = f.within bound a w.0 in
        let two = g.within bound one.0 w.1 in (two.0, (one.1, two.1));
    value = λ v s a. ap₂ max (f.value v s (g.back v s a)) (g.value v s a);
  }

  Post-succ :
      (b : ℕ) (m n : Solved) (x x' : LevelExpr) (c : Bool)
      → Post r limit b m n x x' c
      → Post r limit b m n (level_succ x) (level_succ x') c
  Post-succ b m n x x' c f = record {
    ranked = f.ranked;
    same = f.same;
    frame = f.frame;
    clean = f.clean;
    kept = λ e. ap level_succ (f.kept e);
    back = f.back;
    forth = f.forth;
    within = f.within;
    value = λ v s a. ap suc (f.value v s a);
  }

module _ {Ty Lbl Cb : Type 0} where
  level_soln-compress :
      (id : ℕ) (c : Bool) (l : LevelExpr) (u : Unifier Ty Lbl Cb) (k : ℕ)
      → (compress id c l u).maps.level_soln k
        ≡ (if c then put u.maps.level_soln id (some l) k else u.maps.level_soln k)
  unfolding compress run_write trail_level_write
  level_soln-compress id false l u k = refl
  level_soln-compress id true l u k = elim (Bool-cases (ltb_ℤ (pos 0) u.snapshot_depth)) [
    | inl t ↦ ground (arith, t)
    | inr t ↦ ground (arith, t)
  ]

  -- The call returns, with what zonking gives.
  abbrev pub Ends :
      (ℕ → ℕ) → ℕ → ℕ → LevelExpr → Unifier Ty Lbl Cb → Option (Zonked Ty Lbl Cb) → Type 0
  Ends r limit b l u none = ⊥
  Ends r limit b l u (some (c, l', u')) = Post r limit b u.maps.level_soln u'.maps.level_soln l l' c

  -- What zonking makes of a metavariable, by its solution.
  abbrev meta_result :
      (LevelExpr → Unifier Ty Lbl Cb → Option (Zonked Ty Lbl Cb))
      → ℕ
      → Unifier Ty Lbl Cb
      → Option LevelExpr
      → Option (Zonked Ty Lbl Cb)
  meta_result next id u none = some (false, level_meta id, u)
  meta_result next id u (some soln) =
      and_then (next soln u) (λ changed l u'. some (true, l, compress id changed l u'))

  module _ (r : ℕ → ℕ) (limit : ℕ) where
    compress_step :
        (b id : ℕ) (soln : LevelExpr) (u : Unifier Ty Lbl Cb)
        → u.maps.level_soln id ≡ some soln
        → r id < b
        → Ranked r limit u.maps.level_soln
        → (o : Option (Zonked Ty Lbl Cb)) → Ends r limit (r id) soln u o
        → Ends r limit b
            (level_meta id)
            u
            (and_then o (λ changed l u'. some (true, l, compress id changed l u')))
    compress_step b id soln u e low ranked none h = elim h [ ]
    compress_step b id soln u e low ranked (some (c, l, u')) h =
        Post-meta r limit b id u.maps.level_soln u'.maps.level_soln
          ((compress id c l u').maps.level_soln) soln l c e low ranked h (λ k. stored k c h)
      where
        stored :
            (k : ℕ) (c' : Bool)
            → Post r limit (r id) u.maps.level_soln u'.maps.level_soln soln l c'
            → (compress id c' l u').maps.level_soln k
              ≡ (if id == k then some l else u'.maps.level_soln k)
        stored k true h' = level_soln-compress id true l u' k
        stored k false h' =
            level_soln-compress id false l u' k
            ∙ unchanged u'.maps.level_soln id k l
                (h'.frame id (omega arith) ∙ e ∙ ap some (sym (h'.kept refl)))

    max_second :
        (b : ℕ) (x y : LevelExpr) (u : Unifier Ty Lbl Cb) (c : Bool) (x' : LevelExpr)
        (u' : Unifier Ty Lbl Cb)
        → Post r limit b u.maps.level_soln u'.maps.level_soln x x' c
        → (o : Option (Zonked Ty Lbl Cb)) → Ends r limit b y u' o
        → Ends r limit b
            (level_max x y)
            u
            (and_then o (λ d y' u''. some (c || d, level_max x' y', u'')))
    max_second b x y u c x' u' f none h = elim h [ ]
    max_second b x y u c x' u' f (some (d, y', u'')) h = Post-max r limit b _ _ _ x x' y y' c d f h

    max_step :
        (b : ℕ) (x y : LevelExpr) (u : Unifier Ty Lbl Cb)
        (next : Unifier Ty Lbl Cb → Option (Zonked Ty Lbl Cb))
        → ((u' : Unifier Ty Lbl Cb)
            → Ranked r limit u'.maps.level_soln
            → SameSolved u.maps.level_soln u'.maps.level_soln
            → Ends r limit b y u' (next u'))
        → (o : Option (Zonked Ty Lbl Cb)) → Ends r limit b x u o
        → Ends r limit b (level_max x y) u (
            and_then o
              (λ c x' u'. and_then (next u') (λ d y' u''. some (c || d, level_max x' y', u''))))
    max_step b x y u next g none h = elim h [ ]
    max_step b x y u next g (some (c, x', u')) h =
        max_second b x y u c x' u' h (next u') (g u' h.ranked h.same)

    succ_step :
        (b : ℕ) (x : LevelExpr) (u : Unifier Ty Lbl Cb) (o : Option (Zonked Ty Lbl Cb))
        → Ends r limit b x u o
        → Ends r limit b (level_succ x) u (and_then o (λ c x' u'. some (c, level_succ x', u')))
    succ_step b x u none h = elim h [ ]
    succ_step b x u (some (c, x', u')) h = Post-succ r limit b _ _ x x' c h

    zonk_with-Ends :
        (next : LevelExpr → Unifier Ty Lbl Cb → Option (Zonked Ty Lbl Cb)) (b : ℕ)
        → ((b' : ℕ)
            → b' < b
            → (l : LevelExpr) (u : Unifier Ty Lbl Cb) → Ranked r limit u.maps.level_soln
            → Below r u.maps.level_soln b' l
            → Ends r limit b' l u (next l u))
        → (l : LevelExpr) (u : Unifier Ty Lbl Cb) → Ranked r limit u.maps.level_soln
        → Below r u.maps.level_soln b l
        → Ends r limit b l u (zonk_with next l u)
    unfolding zonk_with
    zonk_with-Ends next b h nil_level u k w =
        Post-unchanged r limit b _ nil_level (level_lit 0) true k tt
          (λ e. absurd (ground (arith, e))) (λ bound w. w) (λ v s. refl)
    zonk_with-Ends next b h (level_lit n) u k w =
        Post-unchanged r limit b _ (level_lit n) (level_lit n) false k tt (λ e. refl) (λ bound w. w)
          (λ v s. refl)
    zonk_with-Ends next b h (level_var x) u k w =
        Post-unchanged r limit b _ (level_var x) (level_var x) false k tt (λ e. refl) (λ bound w. w)
          (λ v s. refl)
    zonk_with-Ends next b h (level_max x y) u k (f, g) =
        max_step b x y u (zonk_with next y)
          (λ u' k' s. zonk_with-Ends next b h y u' k' (Below-congr r _ _ b y s g))
          (zonk_with next x u) (zonk_with-Ends next b h x u k f)
    zonk_with-Ends next b h (level_succ x) u k w =
        succ_step b x u (zonk_with next x u) (zonk_with-Ends next b h x u k w)
    zonk_with-Ends next b h (level_meta id) u k w = elim (Option-cases (u.maps.level_soln id)) [
      | inl e ↦
          subst (λ o. Ends r limit b (level_meta id) u (meta_result next id u o)) (sym e)
            (Post-unchanged r limit b _ (level_meta id) (level_meta id) false k (ap is_some e)
              (λ q. refl) (λ bound w. w) (λ v s. refl))
      | inr (soln, e) ↦
          let old = k id soln e in
          let low = w (ap is_some e) in
          subst (λ o. Ends r limit b (level_meta id) u (meta_result next id u o)) (sym e)
            (compress_step b id soln u e low k (next soln u) (h (r id) low soln u k old.1))
    ]

    pub zonk_level-Ends :
        (fuel b : ℕ) (l : LevelExpr) (u : Unifier Ty Lbl Cb)
        → b ≤ fuel
        → Ranked r limit u.maps.level_soln
        → Below r u.maps.level_soln b l
        → Ends r limit b l u (zonk_level fuel l u)
    unfolding zonk_level
    zonk_level-Ends zero b l u q k w =
        zonk_with-Ends (λ soln u'. none) b (λ b' z. absurd (omega (arith, z, q))) l u k w
    zonk_level-Ends (suc fuel) b l u q k w =
        zonk_with-Ends (zonk_level fuel) b
          (λ b' z l' u' k' w'. zonk_level-Ends fuel b' l' u' (omega (arith, z, q)) k' w') l u k w
