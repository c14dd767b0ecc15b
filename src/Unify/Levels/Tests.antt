-- ===== src/Unify/Levels/Tests.antt =====
-- Runs of the unification of levels, and witnesses of its theorems.
use gicel.Prelude.{ℕ, false, Option, none, some, [], ◌≡◌, refl, arith, subst, sym}
use gicel.Prelude.Int.{pos}
use gicel.Levels.{
  LevelExpr, level_lit, level_max, level_succ, level_meta, normalize_level, level_equal,
  level_compare,
}
use gicel.Unify.Trail.{Unifier, put, trail_level_write}
use gicel.Unify.Trail.Actions.{run_write}
use gicel.Unify.Levels.{
  level_occurs_in, zonk_level_default, level_contains_meta, compress, zonk_with, zonk_level,
  solve_level_meta, unify_zonked, unify_levels, LevelError, occurs, Unified,
}
use gicel.Unify.Levels.Assignment.{Within, Below}
use gicel.Unify.Levels.Solving.{Wf}
use gicel.Unify.Levels.Total.{ZonkedLevel, zonk_level_ends}
use gicel.Unify.Levels.Ended.{Ended}
use gicel.Unify.Levels.Default.{Defaulted, zonk_level_default_ends}
use gicel.Unify.Levels.Unifying.{unify_levels_ends}

abbrev nothing_at : {A : Type 0} → ℕ → Option A
nothing_at i = none

-- ?0 is solved by the successor of ?1; ?1 and ?2 are open.
abbrev chain : Unifier ℕ ℕ ℕ
chain = record {
  maps = record {
    soln = nothing_at;
    labels = nothing_at;
    skolem_soln = nothing_at;
    level_soln = put nothing_at 0 (some (level_succ (level_meta 1)));
  };
  trail = [];
  snapshot_depth = pos 0;
  solver_level = pos 0;
  on_solve = none;
  family_reducer = none;
  alias_expander = none;
  flex_skolems = false;
}

-- max(?0, ?2)
abbrev left_level : LevelExpr
left_level = level_max (level_meta 0) (level_meta 2)

-- max(succ 3, ?1)
abbrev right_level : LevelExpr
right_level = level_max (level_succ (level_lit 3)) (level_meta 1)

chain_entry :
    (i : ℕ) (l : LevelExpr)
    → chain.maps.level_soln i ≡ some l
    → (i ≡ 0) × (l ≡ level_succ (level_meta 1))
chain_entry i l e = ground (arith, e)

chain-Wf : Wf 3 chain.maps.level_soln
chain-Wf = record {
  rank = λ i. 0;
  ranked = λ i l e. (
    omega arith,
    subst (Below (λ i'. 0) chain.maps.level_soln 0) (sym (chain_entry i l e).1)
        (λ t. absurd (ground (arith, t))),
  );
  all_within = λ i l e. subst (Within 3) (sym (chain_entry i l e).1) (omega arith);
  solved_within = λ i h. ground (arith, h);
}

left_level-Within : Within 3 left_level
left_level-Within = (omega arith, omega arith)

right_level-Within : Within 3 right_level
right_level-Within = (tt, omega arith)

zonk_level_ends_example : ZonkedLevel 3 left_level chain
zonk_level_ends_example = zonk_level_ends 3 left_level chain chain-Wf left_level-Within

unify_levels_ends_example :
    Ended 3 (λ f. unify_levels 3 f left_level right_level chain) chain left_level right_level
unify_levels_ends_example =
    unify_levels_ends 3 chain left_level right_level chain-Wf left_level-Within right_level-Within

-- The error and the solutions of ?0, ?1 and ?2.
abbrev outcome :
    Unified ℕ ℕ ℕ
    → Option (Option LevelError × Option LevelExpr × Option LevelExpr × Option LevelExpr)
outcome none = none
outcome (some (e, u)) = some (e, u.maps.level_soln 0, u.maps.level_soln 1, u.maps.level_soln 2)

-- max(?0, ?2) meets max(succ 3, ?1): the successors solve ?1 by 3, which ?2 takes from it.
unify_levels_run :
    outcome (unify_levels 3 10 left_level right_level chain)
    ≡ some (none, some (level_succ (level_meta 1)), some (level_lit 3), some (level_lit 3))
unfolding unify_levels unify_zonked zonk_level zonk_with compress run_write trail_level_write
    solve_level_meta level_occurs_in level_contains_meta normalize_level level_equal level_compare
unify_levels_run = refl

-- A metavariable does not unify with its own successor.
occurs_run :
    outcome (unify_levels 3 10 (level_meta 0) (level_meta 1) chain)
    ≡ some (some occurs, some (level_succ (level_meta 1)), none, none)
unfolding unify_levels unify_zonked zonk_level zonk_with compress run_write trail_level_write
    solve_level_meta level_occurs_in level_contains_meta normalize_level level_equal level_compare
occurs_run = refl

zonk_level_default_ends_example :
    Defaulted chain.maps.level_soln left_level
      (zonk_level_default 3 chain.maps.level_soln left_level)
zonk_level_default_ends_example =
    zonk_level_default_ends 3 chain.maps.level_soln left_level chain-Wf

-- The unsolved ?1 and ?2 are zero.
zonk_level_default_run : zonk_level_default 3 chain.maps.level_soln left_level ≡ some (level_lit 1)
unfolding zonk_level_default normalize_level level_equal level_compare
zonk_level_default_run = refl
