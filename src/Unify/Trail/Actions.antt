-- ===== src/Unify/Trail/Actions.antt =====
-- internal/compiler/check/unify/unify_trail.go, level_unify.go, unify.go, zonk.go: what a scope on the
-- trail may do, and the roll back of it.
use gicel.Prelude.{ℕ, Bool, some, if◌then◌else◌}
use gicel.Prelude.Int.{pos, ltb_ℤ}
use gicel.Levels.{LevelExpr}
use gicel.Unify.Trail.{
  Unifier, put, snapshot, abandon_snapshot, restore, trail_soln_write, trail_level_write,
  install_given_eq, remove_given_eq, register_label_context, begin_probe_isolated,
  end_probe_isolated,
}

-- The writes that the package makes: a solution for a metavariable of a type or a level, the shorter
-- solution that zonking stores, a given equality, a label context, and the flag of the caller.
pub data Write (Ty Lbl : Type 0) : Type 0 where
  solve_meta : ℕ → Ty → Write Ty Lbl
  solve_level : ℕ → LevelExpr → Write Ty Lbl
  compress_soln : ℕ → Ty → Write Ty Lbl
  compress_level : ℕ → LevelExpr → Write Ty Lbl
  given_eq : ℕ → Ty → Write Ty Lbl
  label_context : ℕ → Lbl → Write Ty Lbl
  set_flex : Bool → Write Ty Lbl

-- The work of a scope, with nested scopes that are rolled back, kept, or isolated, and work under a
-- given equality that is removed at its end.
pub data Actions (Ty Lbl : Type 0) : Type 0 where
  done : Actions Ty Lbl
  write : Write Ty Lbl → Actions Ty Lbl → Actions Ty Lbl
  trial : Actions Ty Lbl → Actions Ty Lbl → Actions Ty Lbl
  commit : Actions Ty Lbl → Actions Ty Lbl → Actions Ty Lbl
  isolated : Actions Ty Lbl → Actions Ty Lbl → Actions Ty Lbl
  given : ℕ → Ty → Actions Ty Lbl → Actions Ty Lbl → Actions Ty Lbl

module _ {Ty Lbl Cb : Type 0} where
  abbrev pub put_soln : ℕ → Ty → Unifier Ty Lbl Cb → Unifier Ty Lbl Cb
  put_soln id ty u = record u { maps = record u.maps { soln = put u.maps.soln id (some ty) } }

  abbrev pub put_level : ℕ → LevelExpr → Unifier Ty Lbl Cb → Unifier Ty Lbl Cb
  put_level id l u = record u {
    maps = record u.maps { level_soln = put u.maps.level_soln id (some l) };
  }

  unfoldable pub run_write : Write Ty Lbl → Unifier Ty Lbl Cb → Unifier Ty Lbl Cb
  unfolding trail_soln_write trail_level_write install_given_eq register_label_context
  run_write (solve_meta id ty) u = put_soln id ty (trail_soln_write id u)
  run_write (solve_level id l) u = put_level id l (trail_level_write id u)
  run_write (compress_soln id ty) u =
      put_soln id ty (if ltb_ℤ (pos 0) u.snapshot_depth then trail_soln_write id u else u)
  run_write (compress_level id l) u =
      put_level id l (if ltb_ℤ (pos 0) u.snapshot_depth then trail_level_write id u else u)
  run_write (given_eq id ty) u = install_given_eq id ty u
  run_write (label_context id labels) u = register_label_context id labels u
  run_write (set_flex b) u = record u { flex_skolems = b }

  unfoldable pub run : Actions Ty Lbl → Unifier Ty Lbl Cb → Unifier Ty Lbl Cb
  unfolding run_write install_given_eq remove_given_eq snapshot restore abandon_snapshot
      begin_probe_isolated end_probe_isolated
  run done u = u
  run (write w rest) u = run rest (run_write w u)
  run (trial body rest) u = let (snap, s) = snapshot u in run rest (restore snap (run body s))
  run (commit body rest) u = let (snap, s) = snapshot u in run rest (abandon_snapshot (run body s))
  run (isolated body rest) u =
      let (tok, s) = begin_probe_isolated u in run rest (end_probe_isolated tok (run body s))
  run (given id ty body rest) u =
      run rest (remove_given_eq id (run body (install_given_eq id ty u)))
