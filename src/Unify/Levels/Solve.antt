-- ===== src/Unify/Levels/Solve.antt =====
-- internal/compiler/check/unify/level_unify.go: solveLevelMeta.
use gicel.Prelude.{
  ℕ, suc, ◌<◌, ◌==◌, Bool, true, false, Option, none, some, if◌then◌else◌, ◌≡◌, refl, sym, ap, ◌⊎◌,
  arith, subst, Bool-cases, inl, inr, ==_iff,
}
use gicel.Prelude.Bytes.{Bytes}
use gicel.Levels.{
  LevelExpr, nil_level, level_lit, level_var, level_max, level_succ, level_meta, level_value,
}
use gicel.Unify.Trail.{Unifier, put, trail_level_write}
use gicel.Unify.Trail.Actions.{run_write, solve_level}
use gicel.Unify.Levels.{LevelError, occurs, same_meta, level_occurs_in, solve_level_meta}
use gicel.Unify.Levels.Assignment.{is_some, Solved, Clean, Below, Ranked, Within}
use gicel.Unify.Levels.Solving.{
  solved_count, solved_count-put, Wf, Fits, Step, Step_none, Below-new, Below-raised,
}

module _ (bound : ℕ) (m : Solved) (i : ℕ) (l : LevelExpr) (w : Wf bound m) (inside : i < bound)
    (free : is_some (m i) ≡ false) (clean : Clean m l) (within : Within bound l)
    (o : level_occurs_in i l ≡ false) where
  abbrev raised : ℕ → ℕ
  raised k = if k == i then 0 else suc (w.rank k)

  -- The entries of the map after the write.
  entry :
      (k : ℕ) (t : LevelExpr)
      → put m i (some l) k ≡ some t
      → ((i ≡ k) × (l ≡ t)) ⊎ (((i == k) ≡ false) × (m k ≡ some t))
  entry k t e = elim (Bool-cases (i == k)) [
    | inl q ↦ inl ((==_iff i k).0 q, ground (arith, e, q))
    | inr q ↦ inr (q, ground (arith, e, q))
  ]

  Ranked-after : Ranked raised (solved_count bound (put m i (some l))) (put m i (some l))
  Ranked-after k t e = elim (entry k t e) [
    | inl (q, lt) ↦ (
      ground (arith, solved_count-put bound i m l inside free, q),
      subst (Below raised (put m i (some l)) (raised k)) lt
          (Below-new raised m i (raised k) l l clean o),
    )
    | inr (q, f) ↦
        let old = w.ranked k t f in
        let high : suc (w.rank k) ≡ raised k = ground (arith, q) in
        (
          ground (arith, solved_count-put bound i m l inside free, old.0, q),
          subst (λ b. Below raised (put m i (some l)) b t) high
              (Below-raised w.rank m i (w.rank k) t l old.1),
        )
  ]

  pub Step_solve : Step bound m (put m i (some l))
  Step_solve = record {
    wf = record {
      rank = raised;
      ranked = Ranked-after;
      all_within = λ k t e. elim (entry k t e) [
        | inl (q, lt) ↦ subst (Within bound) lt within
        | inr (q, f) ↦ w.all_within k t f
      ];
      solved_within = λ k h. elim (Bool-cases (i == k)) [
        | inl q ↦ ground (arith, q, inside)
        | inr q ↦ w.solved_within k (ground (arith, h, q))
      ];
    };
    progress = inr (omega (arith, solved_count-put bound i m l inside free));
    keeps = λ v s f k t e. f k t (ground (arith, e, free, ap m));
  }

  pub Fits-solution :
      (v : Bytes → ℕ) (s : ℕ → ℕ) → Fits v s (put m i (some l)) → s i ≡ level_value v s l
  Fits-solution v s f = f i l (ground arith)

-- What a call of the unification gives.
pub record Solution {Ty Lbl Cb : Type 0} (bound : ℕ) (u u' : Unifier Ty Lbl Cb) (l1 l2 : LevelExpr)
    (err : Option LevelError) : Type 0 where
  pub step : Step bound u.maps.level_soln u'.maps.level_soln
  pub equal :
      err ≡ none
      → (v : Bytes → ℕ) (s : ℕ → ℕ) → Fits v s u'.maps.level_soln
      → level_value v s l1 ≡ level_value v s l2

same_meta-eq : (i : ℕ) (l : LevelExpr) → same_meta i l ≡ true → l ≡ level_meta i
same_meta-eq i nil_level h = absurd (ground (arith, h))
same_meta-eq i (level_lit n) h = absurd (ground (arith, h))
same_meta-eq i (level_var x) h = absurd (ground (arith, h))
same_meta-eq i (level_max a b) h = absurd (ground (arith, h))
same_meta-eq i (level_succ a) h = absurd (ground (arith, h))
same_meta-eq i (level_meta j) h = ap level_meta ((==_iff j i).0 h)

module _ {Ty Lbl Cb : Type 0} where
  -- On a metavariable that is not solved and a zonked level.
  abbrev pub solve_result :
      ℕ → LevelExpr → Unifier Ty Lbl Cb → Bool → Bool → Option LevelError × Unifier Ty Lbl Cb
  solve_result i l u same occ =
      if same
      then (none, u)
      else if occ
      then (some occurs, u)
      else (none, run_write (solve_level i l) u)

  pub solve_level_meta-Solution :
      (bound i : ℕ) (l : LevelExpr) (u : Unifier Ty Lbl Cb)
      → Wf bound u.maps.level_soln
      → i < bound
      → is_some (u.maps.level_soln i) ≡ false
      → Clean u.maps.level_soln l
      → Within bound l
      → Solution bound u ((solve_level_meta i l u).1) (level_meta i) l ((solve_level_meta i l u).0)
  unfolding solve_level_meta run_write trail_level_write
  solve_level_meta-Solution bound i l u w h f c n =
      by_tests (same_meta i l) (level_occurs_in i l) (same_meta-eq i l) refl
    where
      by_tests :
          (same occ : Bool)
          → (same ≡ true → l ≡ level_meta i)
          → level_occurs_in i l ≡ occ
          → Solution bound u
              ((solve_result i l u same occ).1)
              (level_meta i)
              l
              ((solve_result i l u same occ).0)
      by_tests true occ q o = record {
        step = Step_none bound u.maps.level_soln w;
        equal = λ e v s g. sym (ap (level_value v s) (q refl));
      }
      by_tests false true q o = record {
        step = Step_none bound u.maps.level_soln w;
        equal = λ e. absurd (ground (arith, e));
      }
      by_tests false false q o = record {
        step = Step_solve bound u.maps.level_soln i l w h f c n o;
        equal = λ e v s g. Fits-solution bound u.maps.level_soln i l w h f c n o v s g;
      }
