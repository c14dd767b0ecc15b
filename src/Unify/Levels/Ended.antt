-- ===== src/Unify/Levels/Ended.antt =====
-- internal/compiler/check/unify/level_unify.go: calls of the unification that return on enough fuel.
use gicel.Prelude.{
  ℕ, suc, ◌+◌, ◌<◌, Bool, true, false, Option, none, some, if◌then◌else◌, ◌≡◌, refl, sym, ap, ◌∙◌,
  arith,
}
use gicel.Prelude.Bytes.{Bytes}
use gicel.Levels.{
  LevelExpr, nil_level, level_lit, level_var, level_max, level_succ, level_meta, level_value,
}
use gicel.Unify.Trail.{Unifier}
use gicel.Unify.Levels.{
  LevelError, level_mismatch, Unified, by_metas, mismatch_unless, solve_level_meta,
}
use gicel.Unify.Levels.Assignment.{is_some, Clean, Within}
use gicel.Unify.Levels.Solving.{Wf, Step_none}
use gicel.Unify.Levels.Solve.{Solution, solve_level_meta-Solution}

-- From some fuel on, the call returns one result, and it is a solution or an error.
pub record Ended {Ty Lbl Cb : Type 0} (bound : ℕ) (call : ℕ → Unified Ty Lbl Cb)
    (u : Unifier Ty Lbl Cb) (l1 l2 : LevelExpr) : Type 0 where
  pub fuel : ℕ
  pub err : Option LevelError
  pub after : Unifier Ty Lbl Cb
  pub runs : (d : ℕ) → call (fuel + d) ≡ some (err, after)
  pub solution : Solution bound u after l1 l2 err

module _ {Ty Lbl Cb : Type 0} (bound : ℕ) where
  -- At once.
  pub Ended-now :
      (call : ℕ → Unified Ty Lbl Cb) (u after : Unifier Ty Lbl Cb) (l1 l2 : LevelExpr)
      (err : Option LevelError)
      → ((f : ℕ) → call f ≡ some (err, after))
      → Solution bound u after l1 l2 err
      → Ended bound call u l1 l2
  Ended-now call u after l1 l2 err e s = record {
    fuel = 0;
    err = err;
    after = after;
    runs = λ d. e (0 + d);
    solution = s;
  }

  -- One level of the recursion above.
  pub Ended-suc :
      (call inner : ℕ → Unified Ty Lbl Cb) (u : Unifier Ty Lbl Cb) (l1 l2 : LevelExpr)
      → ((f : ℕ) → call (suc f) ≡ inner f)
      → Ended bound inner u l1 l2
      → Ended bound call u l1 l2
  Ended-suc call inner u l1 l2 e x = record {
    fuel = suc x.fuel;
    err = x.err;
    after = x.after;
    runs = λ d.
        let shift : suc x.fuel + d ≡ suc (x.fuel + d) = omega arith in
        ap call shift ∙ e (x.fuel + d) ∙ x.runs d;
    solution = x.solution;
  }

  pub Ended-mismatch :
      (u : Unifier Ty Lbl Cb) (l1 l2 : LevelExpr) (b : Bool)
      → Wf bound u.maps.level_soln
      → (b ≡ true → (v : Bytes → ℕ) (s : ℕ → ℕ) → level_value v s l1 ≡ level_value v s l2)
      → Ended bound (λ f. mismatch_unless b u) u l1 l2
  Ended-mismatch u l1 l2 b w h =
      Ended-now (λ f. mismatch_unless b u) u u l1 l2 (if b then none else some level_mismatch)
        (λ f. refl)
        (record {
          step = Step_none bound u.maps.level_soln w;
          equal = λ e v s g. h (ground (arith, e)) v s;
        })

  solved_right :
      (call : ℕ → Unified Ty Lbl Cb) (u : Unifier Ty Lbl Cb) (l1 : LevelExpr) (j : ℕ)
      → Wf bound u.maps.level_soln
      → Clean u.maps.level_soln l1
      → is_some (u.maps.level_soln j) ≡ false
      → Within bound l1
      → j < bound
      → ((f : ℕ) → by_metas l1 (level_meta j) u (call f) ≡ some (solve_level_meta j l1 u))
      → Ended bound (λ f. by_metas l1 (level_meta j) u (call f)) u l1 (level_meta j)
  solved_right call u l1 j w c d h k e =
      let sol = solve_level_meta-Solution bound j l1 u w k d c h in
      Ended-now (λ f. by_metas l1 (level_meta j) u (call f)) u ((solve_level_meta j l1 u).1) l1
        (level_meta j) ((solve_level_meta j l1 u).0) e
        (record { step = sol.step; equal = λ q v s g. sym (sol.equal q v s g) })

  -- Two metavariable tests in front of the rest.
  pub Ended-by_metas :
      (call : ℕ → Unified Ty Lbl Cb) (u : Unifier Ty Lbl Cb) (l1 l2 : LevelExpr)
      → Wf bound u.maps.level_soln
      → Clean u.maps.level_soln l1
      → Clean u.maps.level_soln l2
      → Within bound l1
      → Within bound l2
      → Ended bound call u l1 l2
      → Ended bound (λ f. by_metas l1 l2 u (call f)) u l1 l2
  Ended-by_metas call u (level_meta i) l2 w c d h k x =
      Ended-now (λ f. by_metas (level_meta i) l2 u (call f)) u ((solve_level_meta i l2 u).1)
        (level_meta i) l2 ((solve_level_meta i l2 u).0) (λ f. refl)
        (solve_level_meta-Solution bound i l2 u w h c d k)
  Ended-by_metas call u nil_level (level_meta j) w c d h k x = elim c [ ]
  Ended-by_metas call u (level_lit n) (level_meta j) w c d h k x =
      solved_right call u (level_lit n) j w c d h k (λ f. refl)
  Ended-by_metas call u (level_var n) (level_meta j) w c d h k x =
      solved_right call u (level_var n) j w c d h k (λ f. refl)
  Ended-by_metas call u (level_max a b) (level_meta j) w c d h k x =
      solved_right call u (level_max a b) j w c d h k (λ f. refl)
  Ended-by_metas call u (level_succ a) (level_meta j) w c d h k x =
      solved_right call u (level_succ a) j w c d h k (λ f. refl)
  Ended-by_metas call u l1 l2 w c d h k x = x
