-- ===== src/Unify/Levels/Total.antt =====
-- internal/compiler/check/unify/level_unify.go: zonking on a well-formed map, and on a level that is zonked.
use gicel.Prelude.{
  ℕ, zero, suc, Bool, false, Option, none, some, ◌≡◌, refl, sym, ◌∙◌, arith, subst, Option-cases,
  inl, inr,
}
use gicel.Prelude.Bytes.{Bytes}
use gicel.Levels.{
  LevelExpr, nil_level, level_lit, level_var, level_max, level_succ, level_meta, level_value,
}
use gicel.Unify.Trail.{Unifier}
use gicel.Unify.Levels.{Zonked, zonk_with, zonk_level}
use gicel.Unify.Levels.Assignment.{Solved, Clean, Below, Ranked, Within, SameSolved, Post}
use gicel.Unify.Levels.Zonk.{Ends, zonk_level-Ends}
use gicel.Unify.Levels.Solving.{solved_count, solved_count_le, solved_count_congr, Wf, Fits, Step}

pub Ranked-Below_limit :
    (r : ℕ → ℕ) (limit : ℕ) (m : Solved) (l : LevelExpr) → Ranked r limit m → Below r m limit l
Ranked-Below_limit r limit m nil_level h = tt
Ranked-Below_limit r limit m (level_lit n) h = tt
Ranked-Below_limit r limit m (level_var x) h = tt
Ranked-Below_limit r limit m (level_max a b) h =
    (Ranked-Below_limit r limit m a h, Ranked-Below_limit r limit m b h)
Ranked-Below_limit r limit m (level_succ e) h = Ranked-Below_limit r limit m e h
Ranked-Below_limit r limit m (level_meta i) h = λ t. elim (Option-cases (m i)) [
  | inl e ↦ absurd (ground (arith, e, t))
  | inr (l, e) ↦ (h i l e).0
]

Post-Step :
    (bound : ℕ) (m n : Solved) (l l' : LevelExpr) (c : Bool) (w : Wf bound m)
    → Post w.rank (solved_count bound m) (solved_count bound m) m n l l' c
    → Within bound l
    → Step bound m n
Post-Step bound m n l l' c w p i = record {
  wf = record {
    rank = w.rank;
    ranked = subst (λ k. Ranked w.rank k n) (sym (solved_count_congr bound m n p.same)) p.ranked;
    all_within = (p.within bound w.all_within i).0;
    solved_within = λ k h. w.solved_within k (sym (p.same k) ∙ h);
  };
  progress = inl p.same;
  keeps = λ v s f k t e. p.back v s (λ j q g low. f j q g) k t e ((w.ranked k t e).0);
}

module _ {Ty Lbl Cb : Type 0} (bound : ℕ) where
  -- A zonked level, and the unifier after it.
  pub record ZonkedLevel (l : LevelExpr) (u : Unifier Ty Lbl Cb) : Type 0 where
    pub changed : Bool
    pub level : LevelExpr
    pub after : Unifier Ty Lbl Cb
    pub runs : zonk_level bound l u ≡ some (changed, level, after)
    pub step : Step bound u.maps.level_soln after.maps.level_soln
    pub same : SameSolved u.maps.level_soln after.maps.level_soln
    pub clean : Clean after.maps.level_soln level
    pub within : Within bound level
    pub value :
        (v : Bytes → ℕ) (s : ℕ → ℕ)
        → Fits v s after.maps.level_soln
        → level_value v s level ≡ level_value v s l

  -- Where the solutions have no cycle and all metavariables, those of the level too, have numbers below
  -- the bound, zonking with the bound as its fuel returns a level. The same metavariables are solved after
  -- it, still without a cycle; no solved one is left in the level and the level's metavariables stay
  -- below the bound. An assignment that fits the solutions after it fits those before it and gives the
  -- result the value of the level.
  pub zonk_level_ends :
      (l : LevelExpr) (u : Unifier Ty Lbl Cb)
      → Wf bound u.maps.level_soln
      → Within bound l
      → ZonkedLevel l u
  zonk_level_ends l u w i = by_result (zonk_level bound l u) refl (
      zonk_level-Ends w.rank count bound count l u (solved_count_le bound u.maps.level_soln)
        w.ranked (Ranked-Below_limit w.rank count u.maps.level_soln l w.ranked))
    where
      count : ℕ
      count = solved_count bound u.maps.level_soln

      by_result :
          (o : Option (Zonked Ty Lbl Cb))
          → zonk_level bound l u ≡ o
          → Ends w.rank
              (solved_count bound u.maps.level_soln)
              (solved_count bound u.maps.level_soln)
              l
              u
              o
          → ZonkedLevel l u
      by_result none e h = elim h [ ]
      by_result (some (c, l', u')) e h = record {
        changed = c;
        level = l';
        after = u';
        runs = e;
        step = Post-Step bound _ _ l l' c w h i;
        same = h.same;
        clean = h.clean;
        within = (h.within bound w.all_within i).1;
        value = λ v s f. h.value v s (λ j q g low. f j q g);
      }

module _ {Ty Lbl Cb : Type 0} where
  zonk_with-Clean :
      (next : LevelExpr → Unifier Ty Lbl Cb → Option (Zonked Ty Lbl Cb)) (l : LevelExpr)
      (u : Unifier Ty Lbl Cb)
      → Clean u.maps.level_soln l
      → zonk_with next l u ≡ some (false, l, u)
  unfolding zonk_with
  zonk_with-Clean next nil_level u c = elim c [ ]
  zonk_with-Clean next (level_lit n) u c = refl
  zonk_with-Clean next (level_var x) u c = refl
  zonk_with-Clean next (level_max a b) u c =
      rw (zonk_with-Clean next a u c.0, zonk_with-Clean next b u c.1) refl
  zonk_with-Clean next (level_succ e) u c = rw (zonk_with-Clean next e u c) refl
  zonk_with-Clean next (level_meta i) u c = elim (Option-cases (u.maps.level_soln i)) [
    | inl e ↦ ground (arith, e)
    | inr (l, e) ↦ absurd (ground (arith, c, e))
  ]

  pub zonk_level-Clean :
      (fuel : ℕ) (l : LevelExpr) (u : Unifier Ty Lbl Cb)
      → Clean u.maps.level_soln l
      → zonk_level fuel l u ≡ some (false, l, u)
  unfolding zonk_level
  zonk_level-Clean zero l u c = zonk_with-Clean (λ soln u'. none) l u c
  zonk_level-Clean (suc fuel) l u c = zonk_with-Clean (zonk_level fuel) l u c
