-- ===== src/Unify/Levels.antt =====
-- internal/compiler/check/unify/level_unify.go: the unification of universe levels on the unifier's map of
-- solutions.
pub mod Assignment
mod Meta
pub mod Zonk
mod Solving
mod Solve
mod Total
mod Normal
mod Ended
mod Sequence
mod Structure
mod Default
pub mod Unifying
mod Tests
use gicel.Prelude.{
  ℕ, zero, suc, ◌==◌, Bool, true, false, ◌||◌, not, Option, none, some, if◌then◌else◌,
}
use gicel.Prelude.Bytes.{bytes_eq}
use gicel.Levels.{
  LevelExpr, nil_level, level_lit, level_var, level_max, level_succ, level_meta, normalize_level,
}
use gicel.Unify.Trail.{Unifier, trail_level_write}
use gicel.Unify.Trail.Actions.{put_level, run_write, compress_level, solve_level}

unfoldable pub level_occurs_in : ℕ → LevelExpr → Bool
level_occurs_in id (level_meta i) = i == id
level_occurs_in id (level_max a b) = level_occurs_in id a || level_occurs_in id b
level_occurs_in id (level_succ e) = level_occurs_in id e
level_occurs_in id nil_level = false
level_occurs_in id (level_lit n) = false
level_occurs_in id (level_var x) = false

unfoldable pub level_contains_meta : LevelExpr → Bool
level_contains_meta (level_meta i) = true
level_contains_meta (level_max a b) = level_contains_meta a || level_contains_meta b
level_contains_meta (level_succ e) = level_contains_meta e
level_contains_meta nil_level = false
level_contains_meta (level_lit n) = false
level_contains_meta (level_var x) = false

pub data LevelError : Type 0 where
  level_mismatch : LevelError
  occurs : LevelError

-- A level, with whether it is another pointer than the argument, and the unifier after it.
abbrev pub Zonked : Type 0 → Type 0 → Type 0 → Type 0
Zonked Ty Lbl Cb = Bool × LevelExpr × Unifier Ty Lbl Cb

module _ {Ty Lbl Cb : Type 0} where
  abbrev pub and_then :
      Option (Zonked Ty Lbl Cb)
      → (Bool → LevelExpr → Unifier Ty Lbl Cb → Option (Zonked Ty Lbl Cb))
      → Option (Zonked Ty Lbl Cb)
  and_then none f = none
  and_then (some (changed, l, u)) f = f changed l u

  -- Path compression, where the result is another pointer than the solution.
  unfoldable pub compress : ℕ → Bool → LevelExpr → Unifier Ty Lbl Cb → Unifier Ty Lbl Cb
  unfolding run_write
  compress id changed l u = if changed then run_write (compress_level id l) u else u

  -- On the solution that `next` zonks.
  unfoldable pub zonk_with :
      (LevelExpr → Unifier Ty Lbl Cb → Option (Zonked Ty Lbl Cb))
      → LevelExpr
      → Unifier Ty Lbl Cb
      → Option (Zonked Ty Lbl Cb)
  unfolding compress
  zonk_with next nil_level u = some (true, level_lit 0, u)
  zonk_with next (level_meta id) u = elim (u.maps.level_soln id) [
    | none ↦ some (false, level_meta id, u)
    | some soln ↦ and_then (next soln u) (λ changed l u'. some (true, l, compress id changed l u'))
  ]
  zonk_with next (level_max a b) u =
      and_then (zonk_with next a u) (λ c a' u'.
        and_then (zonk_with next b u') (λ d b' u''. some (c || d, level_max a' b', u'')))
  zonk_with next (level_succ e) u =
      and_then (zonk_with next e u) (λ c e' u'. some (c, level_succ e', u'))
  zonk_with next (level_lit n) u = some (false, level_lit n, u)
  zonk_with next (level_var x) u = some (false, level_var x, u)

  -- zonkLevel. The fuel counts the solutions on the path to a metavariable.
  unfoldable pub zonk_level : ℕ → LevelExpr → Unifier Ty Lbl Cb → Option (Zonked Ty Lbl Cb)
  unfolding zonk_with
  zonk_level zero l u = zonk_with (λ soln u'. none) l u
  zonk_level (suc fuel) l u = zonk_with (zonk_level fuel) l u

abbrev pub same_meta : ℕ → LevelExpr → Bool
same_meta id (level_meta j) = j == id
same_meta id nil_level = false
same_meta id (level_lit n) = false
same_meta id (level_var x) = false
same_meta id (level_max a b) = false
same_meta id (level_succ e) = false

-- An error or none, and the unifier after the call; `none` when the fuel runs out.
abbrev pub Unified : Type 0 → Type 0 → Type 0 → Type 0
Unified Ty Lbl Cb = Option (Option LevelError × Unifier Ty Lbl Cb)

module _ {Ty Lbl Cb : Type 0} where
  unfoldable pub solve_level_meta :
      ℕ → LevelExpr → Unifier Ty Lbl Cb → Option LevelError × Unifier Ty Lbl Cb
  unfolding level_occurs_in run_write
  solve_level_meta id l u =
      if same_meta id l
      then (none, u)
      else if level_occurs_in id l
      then (some occurs, u)
      else (none, run_write (solve_level id l) u)

  -- The two tests for a metavariable, and the rest.
  abbrev pub by_metas :
      LevelExpr → LevelExpr → Unifier Ty Lbl Cb → Unified Ty Lbl Cb → Unified Ty Lbl Cb
  by_metas (level_meta i) l2 u other = some (solve_level_meta i l2 u)
  by_metas l1 (level_meta j) u other = some (solve_level_meta j l1 u)
  by_metas l1 l2 u other = other

  -- The rest of the body behind a call.
  abbrev pub then_unify :
      Unified Ty Lbl Cb → (Unifier Ty Lbl Cb → Unified Ty Lbl Cb) → Unified Ty Lbl Cb
  then_unify none f = none
  then_unify (some (some e, u)) f = some (some e, u)
  then_unify (some (none, u)) f = f u

  abbrev pub mismatch_unless : Bool → Unifier Ty Lbl Cb → Unified Ty Lbl Cb
  mismatch_unless b u = some (if b then none else some level_mismatch, u)

  -- The structural comparison.
  abbrev pub compare_structure :
      (LevelExpr → LevelExpr → Unifier Ty Lbl Cb → Unified Ty Lbl Cb)
      → LevelExpr
      → LevelExpr
      → Unifier Ty Lbl Cb
      → Unified Ty Lbl Cb
  compare_structure next (level_lit m) (level_lit n) u = mismatch_unless (m == n) u
  compare_structure next (level_var x) (level_var y) u = mismatch_unless (bytes_eq x y) u
  compare_structure next (level_max a b) (level_max c d) u =
      then_unify (next a c u) (λ u'. next b d u')
  compare_structure next (level_succ e) (level_succ f) u = next e f u
  compare_structure next a b u = mismatch_unless false u

  -- UnifyLevels, from the first test for a metavariable on.
  unfoldable pub unify_zonked :
      (LevelExpr → LevelExpr → Unifier Ty Lbl Cb → Unified Ty Lbl Cb)
      → LevelExpr
      → LevelExpr
      → Unifier Ty Lbl Cb
      → Unified Ty Lbl Cb
  unfolding level_contains_meta normalize_level solve_level_meta
  unify_zonked next l1 l2 u =
      let has_meta = level_contains_meta l1 || level_contains_meta l2 in
      let n1 = if has_meta then l1 else normalize_level l1 in
      let n2 = if has_meta then l2 else normalize_level l2 in
      by_metas l1 l2 u (by_metas n1 n2 u (compare_structure next n1 n2 u))

  abbrev pub with_zonked :
      Option (Zonked Ty Lbl Cb)
      → (LevelExpr → Unifier Ty Lbl Cb → Unified Ty Lbl Cb)
      → Unified Ty Lbl Cb
  with_zonked none f = none
  with_zonked (some (changed, l, u)) f = f l u

  -- The calls of zonkLevel run on the first fuel, the recursion on the second.
  unfoldable pub unify_levels :
      ℕ → ℕ → LevelExpr → LevelExpr → Unifier Ty Lbl Cb → Unified Ty Lbl Cb
  unfolding zonk_level unify_zonked
  unify_levels k zero l1 l2 u = none
  unify_levels k (suc fuel) l1 l2 u = with_zonked (zonk_level k l1 u) (λ a u'.
      with_zonked (zonk_level k l2 u') (λ b u''. unify_zonked (unify_levels k fuel) a b u''))

-- ZonkLevelDefault, with the fuel of `zonk_level`; it writes nothing.
abbrev pub default_with :
    (LevelExpr → Option LevelExpr) → (ℕ → Option LevelExpr) → LevelExpr → Option LevelExpr
default_with next m nil_level = some (level_lit 0)
default_with next m (level_meta id) = elim (m id) [
  | none ↦ some (level_lit 0)
  | some soln ↦ next soln
]
default_with next m (level_max a b) = elim (default_with next m a) [
  | none ↦ none
  | some a' ↦ elim (default_with next m b) [
    | none ↦ none
    | some b' ↦ some (normalize_level (level_max a' b'))
  ]
]
default_with next m (level_succ e) = elim (default_with next m e) [
  | none ↦ none
  | some e' ↦ some (normalize_level (level_succ e'))
]
default_with next m (level_lit n) = some (level_lit n)
default_with next m (level_var x) = some (level_var x)

unfoldable pub zonk_level_default : ℕ → (ℕ → Option LevelExpr) → LevelExpr → Option LevelExpr
unfolding normalize_level
zonk_level_default zero m l = default_with (λ soln. none) m l
zonk_level_default (suc fuel) m l = default_with (zonk_level_default fuel m) m l
