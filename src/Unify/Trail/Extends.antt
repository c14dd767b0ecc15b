-- ===== src/Unify/Trail/Extends.antt =====
-- internal/compiler/check/unify/unify_trail.go: what has been written since a point of the trail.
use gicel.Prelude.{
  ℕ, suc, Bool, true, none, some, List, [], ◌∷◌, ◌++◌, length, if◌then◌else◌, ◌≡◌, refl, sym, ap,
  ◌∙◌, subst, arith, append_assoc,
}
use gicel.Prelude.Int.{ℤ, pos, ◌+ℤ◌, ◌-ℤ◌, ltb_ℤ, +ℤ_cancel}
use gicel.Unify.Trail.{
  TrailEntry, trail_skolem_soln, Solutions, Unifier, undo, snapshot, abandon_snapshot, replay,
  restore, trail_soln_write, trail_label_write, trail_skolem_write, trail_level_write,
  install_given_eq, remove_given_eq, register_label_context, begin_probe_isolated,
  end_probe_isolated,
}
use gicel.Unify.Trail.Actions.{
  Write, solve_meta, solve_level, compress_soln, compress_level, given_eq, label_context, set_flex,
  run_write, put_soln, put_level,
}
use gicel.Unify.Trail.Undo.{
  undo_all, undo_all-append, replay-undo_all, put_back, undo_all-put_skolem,
}

-- The depth inside a scope.
pub deeper : (z : ℤ) (d : ℕ) → z ≡ pos d → z +ℤ pos 1 ≡ pos (suc d)
unfolding ◌+ℤ◌
deeper z d h = rw h (ground arith)

deep : (z : ℤ) (d : ℕ) → z ≡ pos (suc d) → ltb_ℤ (pos 0) z ≡ true
deep z d h = rw h (ground arith)

-- The second unifier is the first with further entries, whose undoing gives the maps of the first.
pub record Extends {Ty Lbl Cb : Type 0} (u v : Unifier Ty Lbl Cb) : Type 0 where
  pub delta : List (TrailEntry Ty Lbl)
  pub trail_eq : v.trail ≡ delta ++ u.trail
  pub maps_eq : undo_all delta v.maps ≡ u.maps
  pub depth_eq : v.snapshot_depth ≡ u.snapshot_depth
  pub level_eq : v.solver_level ≡ u.solver_level
  pub solve_eq : v.on_solve ≡ u.on_solve
  pub family_eq : v.family_reducer ≡ u.family_reducer
  pub alias_eq : v.alias_expander ≡ u.alias_expander

module _ {Ty Lbl Cb : Type 0} where
  pub Extends-refl : (u : Unifier Ty Lbl Cb) → Extends u u
  Extends-refl u = record {
    delta = [];
    trail_eq = refl;
    maps_eq = refl;
    depth_eq = refl;
    level_eq = refl;
    solve_eq = refl;
    family_eq = refl;
    alias_eq = refl;
  }

  pub Extends-trans : (u v w : Unifier Ty Lbl Cb) → Extends u v → Extends v w → Extends u w
  Extends-trans u v w a b = record {
    delta = b.delta ++ a.delta;
    trail_eq = rw (b.trail_eq, a.trail_eq) (sym (append_assoc b.delta a.delta u.trail));
    maps_eq = undo_all-append b.delta a.delta w.maps ∙ ap (undo_all a.delta) b.maps_eq ∙ a.maps_eq;
    depth_eq = b.depth_eq ∙ a.depth_eq;
    level_eq = b.level_eq ∙ a.level_eq;
    solve_eq = b.solve_eq ∙ a.solve_eq;
    family_eq = b.family_eq ∙ a.family_eq;
    alias_eq = b.alias_eq ∙ a.alias_eq;
  }

  -- One entry and the new value in its map.
  one_entry :
      (u : Unifier Ty Lbl Cb) (e : TrailEntry Ty Lbl) (m : Solutions Ty Lbl)
      → undo e m ≡ u.maps
      → Extends u (record u { maps = m; trail = e ∷ u.trail })
  one_entry u e m h = record {
    delta = e ∷ [];
    trail_eq = refl;
    maps_eq = h;
    depth_eq = refl;
    level_eq = refl;
    solve_eq = refl;
    family_eq = refl;
    alias_eq = refl;
  }

  pub Extends-run_write :
      (w : Write Ty Lbl) (u : Unifier Ty Lbl Cb) (d : ℕ)
      → u.snapshot_depth ≡ pos (suc d)
      → Extends u (run_write w u)
  unfolding run_write trail_soln_write trail_level_write install_given_eq register_label_context
      trail_skolem_write trail_label_write
  Extends-run_write (solve_meta id ty) u d h =
      one_entry u _ _ (λ k. record u.maps { soln = put_back u.maps.soln id (some ty) k })
  Extends-run_write (solve_level id l) u d h =
      one_entry u _ _ (λ k. record u.maps { level_soln = put_back u.maps.level_soln id (some l) k })
  Extends-run_write (compress_soln id ty) u d h =
      subst (λ b. Extends u (put_soln id ty (if b then trail_soln_write id u else u)))
        (sym (deep u.snapshot_depth d h))
        (one_entry u _ _ (λ k. record u.maps { soln = put_back u.maps.soln id (some ty) k }))
  Extends-run_write (compress_level id l) u d h =
      subst (λ b. Extends u (put_level id l (if b then trail_level_write id u else u)))
        (sym (deep u.snapshot_depth d h))
        (one_entry u _ _
          (λ k. record u.maps { level_soln = put_back u.maps.level_soln id (some l) k }))
  Extends-run_write (given_eq id ty) u d h =
      one_entry u _ _
        (λ k. record u.maps { skolem_soln = put_back u.maps.skolem_soln id (some ty) k })
  Extends-run_write (label_context id ls) u d h =
      one_entry u _ _ (λ k. record u.maps { labels = put_back u.maps.labels id (some ls) k })
  Extends-run_write (set_flex b) u d h = record {
    delta = [];
    trail_eq = refl;
    maps_eq = refl;
    depth_eq = refl;
    level_eq = refl;
    solve_eq = refl;
    family_eq = refl;
    alias_eq = refl;
  }

  -- A restore to a snapshot gives back all but the flag, after any writes recorded since.
  pub restore-Extends :
      (u v : Unifier Ty Lbl Cb)
      → Extends ((snapshot u).1) v
      → restore ((snapshot u).0) v ≡ record u { flex_skolems = v.flex_skolems }
  unfolding snapshot restore
  restore-Extends u v x =
      let r : replay (length u.trail) v.trail v.maps ≡ (u.trail, u.maps) =
        rw (x.trail_eq, replay-undo_all x.delta u.trail v.maps, x.maps_eq) refl in
      let z : v.snapshot_depth -ℤ pos 1 ≡ u.snapshot_depth =
        rw (x.depth_eq) (+ℤ_cancel u.snapshot_depth (pos 1)) in
      λ k. record {
        maps = (r k).1;
        trail = (r k).0;
        snapshot_depth = z k;
        solver_level = x.level_eq k;
        on_solve = x.solve_eq k;
        family_reducer = x.family_eq k;
        alias_expander = x.alias_eq k;
        flex_skolems = v.flex_skolems;
      }

  pub Extends-commit :
      (u v : Unifier Ty Lbl Cb) → Extends ((snapshot u).1) v → Extends u (abandon_snapshot v)
  unfolding snapshot abandon_snapshot
  Extends-commit u v x = record {
    delta = x.delta;
    trail_eq = x.trail_eq;
    maps_eq = x.maps_eq;
    depth_eq = rw (x.depth_eq) (+ℤ_cancel u.snapshot_depth (pos 1));
    level_eq = x.level_eq;
    solve_eq = x.solve_eq;
    family_eq = x.family_eq;
    alias_eq = x.alias_eq;
  }

  -- Only the flag may differ.
  pub Extends-flag : (u : Unifier Ty Lbl Cb) (b : Bool) → Extends u (record u { flex_skolems = b })
  Extends-flag u b = record {
    delta = [];
    trail_eq = refl;
    maps_eq = refl;
    depth_eq = refl;
    level_eq = refl;
    solve_eq = refl;
    family_eq = refl;
    alias_eq = refl;
  }

  pub end_probe_isolated-Extends :
      (u v : Unifier Ty Lbl Cb)
      → Extends ((begin_probe_isolated u).1) v
      → end_probe_isolated ((begin_probe_isolated u).0) v ≡ u
  unfolding begin_probe_isolated end_probe_isolated snapshot
  end_probe_isolated-Extends u v x =
      restore-Extends u
        (record v {
          alias_expander = u.alias_expander;
          family_reducer = u.family_reducer;
          on_solve = u.on_solve;
          flex_skolems = u.flex_skolems;
          solver_level = u.solver_level;
        })
        (record {
          delta = x.delta;
          trail_eq = x.trail_eq;
          maps_eq = x.maps_eq;
          depth_eq = x.depth_eq;
          level_eq = refl;
          solve_eq = refl;
          family_eq = refl;
          alias_eq = refl;
        })

  pub Extends-remove_given_eq :
      (u v : Unifier Ty Lbl Cb) (id : ℕ) (ty : Ty)
      → Extends (install_given_eq id ty u) v
      → Extends u (remove_given_eq id v)
  unfolding install_given_eq remove_given_eq trail_skolem_write
  Extends-remove_given_eq u v id ty x = record {
    delta = x.delta ++ trail_skolem_soln id (u.maps.skolem_soln id) ∷ [];
    trail_eq = x.trail_eq ∙ sym (append_assoc x.delta _ u.trail);
    maps_eq =
        undo_all-put_skolem x.delta id none (u.maps.skolem_soln id) v.maps
        ∙ undo_all-append x.delta _ v.maps
        ∙ ap (undo (trail_skolem_soln id (u.maps.skolem_soln id))) x.maps_eq
        ∙ (λ k. record u.maps { skolem_soln = put_back u.maps.skolem_soln id (some ty) k });
    depth_eq = x.depth_eq;
    level_eq = x.level_eq;
    solve_eq = x.solve_eq;
    family_eq = x.family_eq;
    alias_eq = x.alias_eq;
  }
