-- ===== src/Unify/Trail/Restore.antt =====
-- internal/compiler/check/unify/unify_trail.go: the roll back of a scope on the trail.
use gicel.Prelude.{ℕ, suc, ◌≡◌, sym, ◌∙◌, subst}
use gicel.Prelude.Int.{pos}
use gicel.Unify.Trail.{
  Unifier, snapshot, abandon_snapshot, restore, trail_skolem_write, install_given_eq,
  remove_given_eq, begin_probe_isolated, end_probe_isolated,
}
use gicel.Unify.Trail.Actions.{Actions, done, write, trial, commit, isolated, given, run_write, run}
use gicel.Unify.Trail.Extends.{
  deeper, Extends, Extends-refl, Extends-trans, Extends-run_write, restore-Extends, Extends-commit,
  Extends-flag, end_probe_isolated-Extends, Extends-remove_given_eq,
}

module _ {Ty Lbl Cb : Type 0} where
  Extends-run :
      (acts : Actions Ty Lbl) (u : Unifier Ty Lbl Cb) (d : ℕ)
      → u.snapshot_depth ≡ pos (suc d)
      → Extends u (run acts u)
  unfolding run snapshot begin_probe_isolated install_given_eq trail_skolem_write
  Extends-run done u d h = Extends-refl u
  Extends-run (write w rest) u d h =
      let x = Extends-run_write w u d h in
      Extends-trans u _ _ x (Extends-run rest (run_write w u) d (x.depth_eq ∙ h))
  Extends-run (trial body rest) u d h =
      let s = (snapshot u).1 in
      let v = run body s in
      let x = Extends-run body s (suc d) (deeper u.snapshot_depth (suc d) h) in
      let r : restore ((snapshot u).0) v ≡ record u { flex_skolems = v.flex_skolems } =
        restore-Extends u v x in
      let f = Extends-flag u v.flex_skolems in
      subst (λ t. Extends u (run rest t)) (sym r)
        (Extends-trans u _ _ f (Extends-run rest (record u { flex_skolems = v.flex_skolems }) d h))
  Extends-run (commit body rest) u d h =
      let s = (snapshot u).1 in
      let v = run body s in
      let x = Extends-commit u v (Extends-run body s (suc d) (deeper u.snapshot_depth (suc d) h)) in
      Extends-trans u _ _ x (Extends-run rest (abandon_snapshot v) d (x.depth_eq ∙ h))
  Extends-run (isolated body rest) u d h =
      let s = (begin_probe_isolated u).1 in
      let v = run body s in
      let x = Extends-run body s (suc d) (deeper u.snapshot_depth (suc d) h) in
      subst (λ t. Extends u (run rest t)) (sym (end_probe_isolated-Extends u v x))
        (Extends-run rest u d h)
  Extends-run (given id ty body rest) u d h =
      let s = install_given_eq id ty u in
      let v = run body s in
      let x = Extends-remove_given_eq u v id ty (Extends-run body s d h) in
      Extends-trans u _ _ x (Extends-run rest (remove_given_eq id v) d (x.depth_eq ∙ h))

  -- From a depth of at least zero: take a snapshot, make any sequence of writes, nested scopes that are
  -- rolled back, kept or isolated, and work under given equalities that are removed at its end, and
  -- restore: the solutions, label contexts, given equalities and level solutions, the trail, the depth,
  -- the solver level and the callbacks are what they were. Only the flag for flexible skolems is as the
  -- work left it.
  pub trial_rolls_back :
      (u : Unifier Ty Lbl Cb) (d : ℕ) (acts : Actions Ty Lbl)
      → u.snapshot_depth ≡ pos d
      → let v = run acts ((snapshot u).1) in
        restore ((snapshot u).0) v ≡ record u { flex_skolems = v.flex_skolems }
  unfolding snapshot
  trial_rolls_back u d acts h =
      let s = (snapshot u).1 in
      restore-Extends u (run acts s) (Extends-run acts s d (deeper u.snapshot_depth d h))

  -- From a depth of at least zero: after an isolated probe in which any such sequence ran, the four maps
  -- that the trail restores, the trail, the snapshot depth, the solver level, the callbacks OnSolve,
  -- FamilyReducer and AliasExpander and the flag for flexible skolems are what they were.
  pub end_probe_isolated-begin :
      (u : Unifier Ty Lbl Cb) (d : ℕ) (acts : Actions Ty Lbl)
      → u.snapshot_depth ≡ pos d
      → end_probe_isolated ((begin_probe_isolated u).0) (run acts ((begin_probe_isolated u).1)) ≡ u
  unfolding begin_probe_isolated snapshot
  end_probe_isolated-begin u d acts h =
      let s = (begin_probe_isolated u).1 in
      end_probe_isolated-Extends u (run acts s) (Extends-run acts s d (deeper u.snapshot_depth d h))
