-- ===== src/Unify/Trail.antt =====
-- internal/compiler/check/unify/unify_trail.go: the maps of the unifier with their undo log, snapshots,
-- and the isolated probe. A map is the function of its lookups, and a nil map reads like an empty one.
-- The trail is kept from its last entry to its first. A callback is any value, or `none` for nil. The
-- position of a snapshot is at most the length of the trail.
pub mod Actions
mod Undo
mod Extends
pub mod Restore
mod Tests
use gicel.Prelude.{
  ℕ, ◌+◌, ◌-◌, ◌==◌, Bool, true, false, Option, none, some, List, [], ◌∷◌, ◌++◌, length, leb, take,
  drop, if◌then◌else◌,
}
use gicel.Prelude.Int.{ℤ, pos, negsuc, ◌+ℤ◌, ◌-ℤ◌}
use gicel.Levels.{LevelExpr}

-- A mutation: the map, the key, and the value before (`existed` is false for none).
pub data TrailEntry (Ty Lbl : Type 0) : Type 0 where
  trail_soln : ℕ → Option Ty → TrailEntry Ty Lbl
  trail_label : ℕ → Option Lbl → TrailEntry Ty Lbl
  trail_skolem_soln : ℕ → Option Ty → TrailEntry Ty Lbl
  trail_level_soln : ℕ → Option LevelExpr → TrailEntry Ty Lbl

-- The four maps that the trail restores.
pub record Solutions (Ty Lbl : Type 0) : Type 0 where
  pub soln : ℕ → Option Ty
  pub labels : ℕ → Option Lbl
  pub skolem_soln : ℕ → Option Ty
  pub level_soln : ℕ → Option LevelExpr

-- The fields that snapshots, the trail and isolated probes touch; `Cb` stands for the callbacks. Left out
-- are the overlay of temporary solutions, the counter behind freshID and the callback zonkEntriesFn, which
-- a probe may change and no roll back restores, and the fields that are set once (TryReduceFamily, TypeOps,
-- Budget, IsInjective).
pub record Unifier (Ty Lbl Cb : Type 0) : Type 0 where
  pub maps : Solutions Ty Lbl
  pub trail : List (TrailEntry Ty Lbl)
  pub snapshot_depth : ℤ
  pub solver_level : ℤ
  pub on_solve : Option Cb
  pub family_reducer : Option Cb
  pub alias_expander : Option Cb
  pub flex_skolems : Bool

abbrev pub put {ℓ} : {A : Type ℓ} → (ℕ → Option A) → ℕ → Option A → ℕ → Option A
put f id v i = if id == i then v else f i

-- What the isolated probe saves.
pub record IsolationToken (Cb : Type 0) : Type 0 where
  pub snap : ℕ
  pub level : ℤ
  pub saved_on_solve : Option Cb
  pub family : Option Cb
  pub alias : Option Cb
  pub flex_sks : Bool

module _ {Ty Lbl : Type 0} where
  abbrev pub undo : TrailEntry Ty Lbl → Solutions Ty Lbl → Solutions Ty Lbl
  undo (trail_soln id old) s = record s { soln = put s.soln id old }
  undo (trail_label id old) s = record s { labels = put s.labels id old }
  undo (trail_skolem_soln id old) s = record s { skolem_soln = put s.skolem_soln id old }
  undo (trail_level_soln id old) s = record s { level_soln = put s.level_soln id old }

  -- The loop from the last entry down to the position.
  unfoldable pub replay :
      ℕ → List (TrailEntry Ty Lbl) → Solutions Ty Lbl → List (TrailEntry Ty Lbl) × Solutions Ty Lbl
  replay start [] s = ([], s)
  replay start (e ∷ es) s =
      if leb start (length es) then replay start es (undo e s) else (e ∷ es, s)

  -- The keys of the entries on `soln`, in the order of the trail, which is the reverse of the list.
  abbrev pub soln_keys : List (TrailEntry Ty Lbl) → List ℕ
  soln_keys [] = []
  soln_keys (trail_soln id old ∷ es) = soln_keys es ++ id ∷ []
  soln_keys (e ∷ es) = soln_keys es

module _ {Ty Lbl Cb : Type 0} where
  unfoldable pub snapshot : Unifier Ty Lbl Cb → ℕ × Unifier Ty Lbl Cb
  unfolding ◌+ℤ◌
  snapshot u = (length u.trail, record u { snapshot_depth = u.snapshot_depth +ℤ pos 1 })

  unfoldable pub abandon_snapshot : Unifier Ty Lbl Cb → Unifier Ty Lbl Cb
  unfolding ◌-ℤ◌
  abandon_snapshot u = record u { snapshot_depth = u.snapshot_depth -ℤ pos 1 }

  unfoldable pub restore : ℕ → Unifier Ty Lbl Cb → Unifier Ty Lbl Cb
  unfolding replay ◌-ℤ◌
  restore start u =
      let (trail, maps) = replay start u.trail u.maps in
      record u { maps = maps; trail = trail; snapshot_depth = u.snapshot_depth -ℤ pos 1 }

  unfoldable pub trail_len : Unifier Ty Lbl Cb → ℕ
  trail_len u = length u.trail

  -- The calls of `fn`, as the list of its arguments.
  unfoldable pub visit_soln_writes_since : ℕ → Unifier Ty Lbl Cb → List ℕ
  visit_soln_writes_since start u = soln_keys (take (length u.trail - start) u.trail)

  -- The writes, each with its record on the trail.
  abbrev pub push_trail : TrailEntry Ty Lbl → Unifier Ty Lbl Cb → Unifier Ty Lbl Cb
  push_trail e u = record u { trail = e ∷ u.trail }

  unfoldable pub trail_soln_write : ℕ → Unifier Ty Lbl Cb → Unifier Ty Lbl Cb
  trail_soln_write id u = push_trail (trail_soln id (u.maps.soln id)) u

  unfoldable pub trail_label_write : ℕ → Unifier Ty Lbl Cb → Unifier Ty Lbl Cb
  trail_label_write id u = push_trail (trail_label id (u.maps.labels id)) u

  unfoldable pub trail_skolem_write : ℕ → Unifier Ty Lbl Cb → Unifier Ty Lbl Cb
  trail_skolem_write id u = push_trail (trail_skolem_soln id (u.maps.skolem_soln id)) u

  unfoldable pub trail_level_write : ℕ → Unifier Ty Lbl Cb → Unifier Ty Lbl Cb
  trail_level_write id u = push_trail (trail_level_soln id (u.maps.level_soln id)) u

  unfoldable pub install_given_eq : ℕ → Ty → Unifier Ty Lbl Cb → Unifier Ty Lbl Cb
  unfolding trail_skolem_write
  install_given_eq skolem_id ty u =
      let t = trail_skolem_write skolem_id u in
      record t { maps = record t.maps { skolem_soln = put t.maps.skolem_soln skolem_id (some ty) } }

  -- The removal is not recorded on the trail.
  unfoldable pub remove_given_eq : ℕ → Unifier Ty Lbl Cb → Unifier Ty Lbl Cb
  remove_given_eq skolem_id u = record u {
    maps = record u.maps { skolem_soln = put u.maps.skolem_soln skolem_id none };
  }

  unfoldable pub register_label_context : ℕ → Lbl → Unifier Ty Lbl Cb → Unifier Ty Lbl Cb
  unfolding trail_label_write
  register_label_context id labels u =
      let t = trail_label_write id u in
      record t { maps = record t.maps { labels = put t.maps.labels id (some labels) } }

  unfoldable pub begin_probe_isolated : Unifier Ty Lbl Cb → IsolationToken Cb × Unifier Ty Lbl Cb
  unfolding snapshot
  begin_probe_isolated u =
      let (snap, u') = snapshot u in
      (
        record {
          snap = snap;
          level = u'.solver_level;
          saved_on_solve = u'.on_solve;
          family = u'.family_reducer;
          alias = u'.alias_expander;
          flex_sks = u'.flex_skolems;
        },
        record u' {
          solver_level = negsuc 0;
          on_solve = none;
          family_reducer = none;
          alias_expander = none;
        },
      )

  unfoldable pub end_probe_isolated : IsolationToken Cb → Unifier Ty Lbl Cb → Unifier Ty Lbl Cb
  unfolding restore
  end_probe_isolated tok u = restore tok.snap (record u {
    alias_expander = tok.alias;
    family_reducer = tok.family;
    on_solve = tok.saved_on_solve;
    flex_skolems = tok.flex_sks;
    solver_level = tok.level;
  })
