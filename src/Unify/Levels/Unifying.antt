-- ===== src/Unify/Levels/Unifying.antt =====
-- internal/compiler/check/unify/level_unify.go: UnifyLevels ends, and makes both sides equal.
use gicel.Prelude.{
  ℕ, zero, suc, ◌+◌, ◌≤◌, Bool, true, false, ◌||◌, if◌then◌else◌, ◌≡◌, sym, ap, ◌∙◌, arith,
}
use gicel.Levels.{LevelExpr, normalize_level}
use gicel.Levels.Normal.{normalize_level-value}
use gicel.Unify.Trail.{Unifier}
use gicel.Unify.Levels.{
  Unified, by_metas, compare_structure, level_contains_meta, zonk_level, unify_zonked, unify_levels,
  with_zonked,
}
use gicel.Unify.Levels.Assignment.{Within, Clean-congr}
use gicel.Unify.Levels.Solving.{solved_count, solved_count_congr, solved_count_le, Wf, Step_trans}
use gicel.Unify.Levels.Total.{zonk_level_ends, zonk_level-Clean}
use gicel.Unify.Levels.Normal.{
  level_size, normalize_level-size, normalize_level-Clean, normalize_level-Within,
}
use gicel.Unify.Levels.Ended.{Ended, Ended-suc, Ended-by_metas}
use gicel.Unify.Levels.Structure.{
  Ready, Smaller, MoreSolved, level_size_pos, Ended-compare_structure,
}

module _ {Ty Lbl Cb : Type 0} (bound : ℕ) where
  -- On zonked levels the two calls of zonkLevel change nothing.
  unify_levels-Ready :
      (f : ℕ) (u : Unifier Ty Lbl Cb) (a b : LevelExpr)
      → Ready bound u a b
      → unify_levels bound (suc f) a b u ≡ unify_zonked (unify_levels bound f) a b u
  unfolding unify_levels
  unify_levels-Ready f u a b r =
      ap
        (λ z.
          with_zonked z
            (λ a' u'. with_zonked (zonk_level bound b u') (unify_zonked (unify_levels bound f) a')))
        (zonk_level-Clean bound a u r.left_clean)
      ∙ ap (λ z. with_zonked z (unify_zonked (unify_levels bound f) a))
          (zonk_level-Clean bound b u r.right_clean)

  -- The normal forms, where no metavariable is left, in place of the levels.
  abbrev rest_of :
      (ℕ → LevelExpr → LevelExpr → Unifier Ty Lbl Cb → Unified Ty Lbl Cb)
      → Bool
      → LevelExpr
      → LevelExpr
      → Unifier Ty Lbl Cb
      → ℕ
      → Unified Ty Lbl Cb
  rest_of next has a b u f =
      let n1 = if has then a else normalize_level a in
      let n2 = if has then b else normalize_level b in
      by_metas n1 n2 u (compare_structure (next f) n1 n2 u)

  Ended-rest_of :
      (count size : ℕ) (has : Bool) (u : Unifier Ty Lbl Cb) (a b : LevelExpr)
      → Smaller Ty Lbl Cb bound count size
      → MoreSolved Ty Lbl Cb bound count
      → count ≤ solved_count bound u.maps.level_soln
      → Ready bound u a b
      → level_size a ≤ suc size
      → Ended bound (rest_of (unify_levels bound) has a b u) u a b
  Ended-rest_of count size true u a b small more n r l =
      Ended-by_metas bound (λ f. compare_structure (unify_levels bound f) a b u) u a b r.wf
        r.left_clean r.right_clean r.left_within r.right_within
        (Ended-compare_structure bound count size u a b small more n r l)
  Ended-rest_of count size false u a b small more n r l =
      let a' = normalize_level a in
      let b' = normalize_level b in
      let r' : Ready bound u a' b' = record {
        wf = r.wf;
        left_clean = normalize_level-Clean u.maps.level_soln a r.left_clean;
        right_clean = normalize_level-Clean u.maps.level_soln b r.right_clean;
        left_within = normalize_level-Within bound a r.left_within;
        right_within = normalize_level-Within bound b r.right_within;
      } in
      let x =
        Ended-by_metas bound (λ f. compare_structure (unify_levels bound f) a' b' u) u a' b' r'.wf
          r'.left_clean r'.right_clean r'.left_within r'.right_within
          (Ended-compare_structure bound count size u a' b' small more n r'
            (omega (arith, l, normalize_level-size a))) in
      record {
        fuel = x.fuel;
        err = x.err;
        after = x.after;
        runs = x.runs;
        solution = record {
          step = x.solution.step;
          equal = λ z v s g.
              sym (normalize_level-value v s a)
              ∙ x.solution.equal z v s g
              ∙ normalize_level-value v s b;
        };
      }

  Ended-unify_zonked :
      (count size : ℕ) (u : Unifier Ty Lbl Cb) (a b : LevelExpr)
      → MoreSolved Ty Lbl Cb bound count
      → count ≤ solved_count bound u.maps.level_soln
      → Ready bound u a b
      → level_size a ≤ size
      → Ended bound (λ f. unify_zonked (unify_levels bound f) a b u) u a b
  unfolding unify_zonked
  Ended-unify_zonked count zero u a b more n r l = absurd (omega (arith, l, level_size_pos a))
  Ended-unify_zonked count (suc size) u a b more n r l =
      let has = level_contains_meta a || level_contains_meta b in
      let small : Smaller Ty Lbl Cb bound count size = λ u' a' b' n' r' l'.
        Ended-suc bound (λ f. unify_levels bound f a' b' u')
          (λ f. unify_zonked (unify_levels bound f) a' b' u') u' a' b'
          (λ f. unify_levels-Ready f u' a' b' r')
          (Ended-unify_zonked count size u' a' b' more n' r' l') in
      Ended-by_metas bound (rest_of (unify_levels bound) has a b u) u a b r.wf r.left_clean
        r.right_clean r.left_within r.right_within
        (Ended-rest_of count size has u a b small more n r l)

  -- The two levels zonked, and the rest.
  Ended-zonked :
      (count : ℕ) (u : Unifier Ty Lbl Cb) (a b : LevelExpr)
      → MoreSolved Ty Lbl Cb bound count
      → count ≤ solved_count bound u.maps.level_soln
      → Wf bound u.maps.level_soln
      → Within bound a
      → Within bound b
      → Ended bound (λ f. unify_levels bound f a b u) u a b
  unfolding unify_levels
  Ended-zonked count u a b more n w i j =
      let p = zonk_level_ends bound a u w i in
      let q = zonk_level_ends bound b p.after p.step.wf j in
      let count_kept = solved_count_congr bound u.maps.level_soln p.after.maps.level_soln p.same in
      let count_kept' =
        solved_count_congr bound p.after.maps.level_soln q.after.maps.level_soln q.same in
      let x =
        Ended-unify_zonked count (level_size p.level) q.after p.level q.level more
          (omega (arith, n, count_kept, count_kept'))
          (record {
            wf = q.step.wf;
            left_clean = Clean-congr _ _ p.level q.same p.clean;
            right_clean = q.clean;
            left_within = p.within;
            right_within = q.within;
          })
          (omega arith) in
      let y =
        Ended-suc bound (λ f. unify_levels bound f a b u)
          (λ f. unify_zonked (unify_levels bound f) p.level q.level q.after) q.after p.level q.level
          (λ f.
            ap
              (λ z. with_zonked z (λ a' u'.
                with_zonked (zonk_level bound b u') (unify_zonked (unify_levels bound f) a')))
              p.runs
            ∙ ap (λ z. with_zonked z (unify_zonked (unify_levels bound f) p.level)) q.runs)
          x in
      record {
        fuel = y.fuel;
        err = y.err;
        after = y.after;
        runs = y.runs;
        solution = record {
          step = Step_trans bound _ _ _ (Step_trans bound _ _ _ p.step q.step) y.solution.step;
          equal = λ z v s g.
              let g' = y.solution.step.keeps v s g in
              sym (p.value v s (q.step.keeps v s g')) ∙ y.solution.equal z v s g ∙ q.value v s g';
        };
      }

  -- On a number of metavariables that may still be solved.
  unify_total :
      (left : ℕ) (u : Unifier Ty Lbl Cb) (a b : LevelExpr)
      → bound ≤ left + solved_count bound u.maps.level_soln
      → Wf bound u.maps.level_soln
      → Within bound a
      → Within bound b
      → Ended bound (λ f. unify_levels bound f a b u) u a b
  unify_total zero u a b h w i j =
      Ended-zonked (solved_count bound u.maps.level_soln) u a b
        (λ u' a' b' g w' i' j'.
          absurd (omega (arith, h, g, solved_count_le bound u'.maps.level_soln)))
        (omega arith) w i j
  unify_total (suc left) u a b h w i j =
      Ended-zonked (solved_count bound u.maps.level_soln) u a b
        (λ u' a' b' g w' i' j'. unify_total left u' a' b' (omega (arith, h, g)) w' i' j')
        (omega arith) w i j

  -- Where the solutions have no cycle and all metavariables, those of the two levels too, have numbers
  -- below the bound, unification returns one result from some fuel on, with the bound as the fuel of its
  -- zonking. The solutions after it have no cycle and stay below the bound, either the same metavariables
  -- are solved or more are, and every assignment that fits them fits those before it. Without an error
  -- the two levels have one value under every assignment that fits the solutions after it.
  pub unify_levels_ends :
      (u : Unifier Ty Lbl Cb) (l1 l2 : LevelExpr)
      → Wf bound u.maps.level_soln
      → Within bound l1
      → Within bound l2
      → Ended bound (λ f. unify_levels bound f l1 l2 u) u l1 l2
  unify_levels_ends u l1 l2 w i j = unify_total bound u l1 l2 (omega arith) w i j
