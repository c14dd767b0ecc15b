-- ===== src/Unify/Levels/Structure.antt =====
-- internal/compiler/check/unify/level_unify.go: the structural comparison of two zonked levels.
use gicel.Prelude.{ℕ, suc, ◌≤◌, ◌<◌, ◌==◌, false, ap, ap₂, arith, inl, inr, max, ==_iff}
use gicel.Prelude.Bytes.{bytes_eq, bytes_eq_iff_eq}
use gicel.Levels.{LevelExpr, nil_level, level_lit, level_var, level_max, level_succ, level_meta}
use gicel.Unify.Trail.{Unifier}
use gicel.Unify.Levels.{compare_structure, unify_levels}
use gicel.Unify.Levels.Assignment.{Clean, Within, Clean-congr}
use gicel.Unify.Levels.Solving.{solved_count, solved_count_congr, Wf}
use gicel.Unify.Levels.Normal.{level_size}
use gicel.Unify.Levels.Ended.{Ended, Ended-mismatch}
use gicel.Unify.Levels.Sequence.{Ended-then_unify}

module _ {Ty Lbl Cb : Type 0} (bound : ℕ) where
  -- What is known of two levels that are zonked.
  pub record Ready (u : Unifier Ty Lbl Cb) (a b : LevelExpr) : Type 0 where
    pub wf : Wf bound u.maps.level_soln
    pub left_clean : Clean u.maps.level_soln a
    pub right_clean : Clean u.maps.level_soln b
    pub left_within : Within bound a
    pub right_within : Within bound b

-- Unification ends on smaller zonked levels, and wherever more is solved.
abbrev pub Smaller : Type 0 → Type 0 → Type 0 → ℕ → ℕ → ℕ → Type 0
Smaller Ty Lbl Cb bound count size =
    (u : Unifier Ty Lbl Cb) (a b : LevelExpr)
    → count ≤ solved_count bound u.maps.level_soln
    → Ready bound u a b
    → level_size a ≤ size
    → Ended bound (λ f. unify_levels bound f a b u) u a b

abbrev pub MoreSolved : Type 0 → Type 0 → Type 0 → ℕ → ℕ → Type 0
MoreSolved Ty Lbl Cb bound count =
    (u : Unifier Ty Lbl Cb) (a b : LevelExpr)
    → count < solved_count bound u.maps.level_soln
    → Wf bound u.maps.level_soln
    → Within bound a
    → Within bound b
    → Ended bound (λ f. unify_levels bound f a b u) u a b

pub level_size_pos : (l : LevelExpr) → 0 < level_size l
level_size_pos (level_max a b) = omega arith
level_size_pos (level_succ e) = omega arith
level_size_pos nil_level = omega arith
level_size_pos (level_lit n) = omega arith
level_size_pos (level_var x) = omega arith
level_size_pos (level_meta i) = omega arith

module _ {Ty Lbl Cb : Type 0} (bound : ℕ) where
  pub Ended-compare_structure :
      (count size : ℕ) (u : Unifier Ty Lbl Cb) (x y : LevelExpr)
      → Smaller Ty Lbl Cb bound count size
      → MoreSolved Ty Lbl Cb bound count
      → count ≤ solved_count bound u.maps.level_soln
      → Ready bound u x y
      → level_size x ≤ suc size
      → Ended bound (λ f. compare_structure (unify_levels bound f) x y u) u x y
  Ended-compare_structure count size u (level_lit m) (level_lit k) small more n r l =
      Ended-mismatch bound u (level_lit m) (level_lit k) (m == k) r.wf (λ h v s. (==_iff m k).0 h)
  Ended-compare_structure count size u (level_var p) (level_var q) small more n r l =
      Ended-mismatch bound u (level_var p) (level_var q) (bytes_eq p q) r.wf
        (λ h v s. ap v (bytes_eq_iff_eq p q h))
  Ended-compare_structure count size u (level_succ e) (level_succ f) small more n r l =
      let one =
        small u e f n
          (record {
            wf = r.wf;
            left_clean = r.left_clean;
            right_clean = r.right_clean;
            left_within = r.left_within;
            right_within = r.right_within;
          })
          (omega (arith, l)) in
      record {
        fuel = one.fuel;
        err = one.err;
        after = one.after;
        runs = one.runs;
        solution = record {
          step = one.solution.step;
          equal = λ z v s g. ap suc (one.solution.equal z v s g);
        };
      }
  Ended-compare_structure count size u (level_max a b) (level_max c d) small more n r l =
      let one =
        small u a c n
          (record {
            wf = r.wf;
            left_clean = r.left_clean.0;
            right_clean = r.right_clean.0;
            left_within = r.left_within.0;
            right_within = r.right_within.0;
          })
          (omega (arith, l)) in
      let two : Ended bound (λ f. unify_levels bound f b d one.after) one.after b d =
        elim one.solution.step.progress [
          | inl same ↦
              small one.after b d (omega (arith, n, solved_count_congr bound _ _ same))
                (record {
                  wf = one.solution.step.wf;
                  left_clean = Clean-congr _ _ b same r.left_clean.1;
                  right_clean = Clean-congr _ _ d same r.right_clean.1;
                  left_within = r.left_within.1;
                  right_within = r.right_within.1;
                })
                (omega (arith, l))
          | inr greater ↦
              more one.after b d (omega (arith, greater, n)) one.solution.step.wf r.left_within.1
                r.right_within.1
        ] in
      Ended-then_unify bound (λ f. unify_levels bound f a c u) (λ f u'. unify_levels bound f b d u')
        u a b c d (level_max a b) (level_max c d) (λ v s p q. ap₂ max p q) one two
  Ended-compare_structure count size u x y small more n r l =
      Ended-mismatch bound u x y false r.wf (λ h. absurd (ground (arith, h)))
