-- ===== src/Budget/Checking.antt =====
-- internal/infra/budget/check.go: nesting, type family reduction, constraint solving and instance
-- resolution of one compilation. `some e` is an error, and each call takes the context as it stands.
pub mod Allowance
mod Tests
use gicel.Prelude.{Bool, Option, none, some, ◌&&◌, if◌then◌else◌}
use gicel.Prelude.Int.{ℤ, pos, ltb_ℤ}
use gicel.Prelude.Int64.{add64, sub64}
use gicel.Budget.{CtxErr, LimitError, check_ctx}
use gicel.Budget.LimitError.{nesting_limit, tf_step_limit, solver_step_limit, resolve_depth_limit}

-- The fields, without the context.
pub record CheckBudget : Type 0 where
  pub nesting : ℤ
  pub max_nesting : ℤ
  pub tf_steps : ℤ
  pub max_tf_steps : ℤ
  pub solver_steps : ℤ
  pub max_solver_steps : ℤ
  pub resolve_depth : ℤ
  pub max_resolve_depth : ℤ

unfoldable pub new_check_budget : CheckBudget
new_check_budget = record {
  nesting = pos 0;
  max_nesting = pos 0;
  tf_steps = pos 0;
  max_tf_steps = pos 0;
  solver_steps = pos 0;
  max_solver_steps = pos 0;
  resolve_depth = pos 0;
  max_resolve_depth = pos 0;
}

abbrev clamp : ℤ → ℤ
clamp n = if ltb_ℤ n (pos 0) then pos 0 else n

-- `limit > 0 && used > limit`
abbrev pub passes : ℤ → ℤ → Bool
passes limit used = ltb_ℤ (pos 0) limit && ltb_ℤ limit used

unfoldable pub set_nesting_limit : CheckBudget → ℤ → CheckBudget
set_nesting_limit b n = record b { max_nesting = clamp n }

unfoldable pub nest : CheckBudget → Option LimitError × CheckBudget
nest b =
    let b' = record b { nesting = add64 b.nesting (pos 1) } in
    if passes b'.max_nesting b'.nesting then (some nesting_limit, b') else (none, b')

unfoldable pub unnest : CheckBudget → CheckBudget
unnest b = record b { nesting = sub64 b.nesting (pos 1) }

unfoldable pub set_tf_step_limit : CheckBudget → ℤ → CheckBudget
set_tf_step_limit b n = record b { max_tf_steps = clamp n }

-- An operation that first looks at the context.
abbrev pub unless_cancelled :
    Option LimitError
    → CheckBudget
    → Option LimitError × CheckBudget
    → Option LimitError × CheckBudget
unless_cancelled none b r = r
unless_cancelled (some e) b r = (some e, b)

unfoldable pub tf_step : Option CtxErr → CheckBudget → Option LimitError × CheckBudget
unfolding check_ctx
tf_step ctx b =
    let b' = record b { tf_steps = add64 b.tf_steps (pos 1) } in
    unless_cancelled (check_ctx ctx) b
      (if passes b'.max_tf_steps b'.tf_steps then (some tf_step_limit, b') else (none, b'))

unfoldable pub reset_tf_steps : CheckBudget → CheckBudget
reset_tf_steps b = record b { tf_steps = pos 0 }

unfoldable pub set_solver_step_limit : CheckBudget → ℤ → CheckBudget
set_solver_step_limit b n = record b { max_solver_steps = clamp n }

unfoldable pub solver_step : Option CtxErr → CheckBudget → Option LimitError × CheckBudget
unfolding check_ctx
solver_step ctx b =
    let b' = record b { solver_steps = add64 b.solver_steps (pos 1) } in
    unless_cancelled (check_ctx ctx) b (
      if passes b'.max_solver_steps b'.solver_steps
      then (some solver_step_limit, b')
      else (none, b'))

unfoldable pub reset_solver_steps : CheckBudget → CheckBudget
reset_solver_steps b = record b { solver_steps = pos 0 }

unfoldable pub set_resolve_depth_limit : CheckBudget → ℤ → CheckBudget
set_resolve_depth_limit b n = record b { max_resolve_depth = clamp n }

unfoldable pub enter_resolve : Option CtxErr → CheckBudget → Option LimitError × CheckBudget
unfolding check_ctx
enter_resolve ctx b =
    let b' = record b { resolve_depth = add64 b.resolve_depth (pos 1) } in
    unless_cancelled (check_ctx ctx) b (
      if passes b'.max_resolve_depth b'.resolve_depth
      then (some resolve_depth_limit, b')
      else (none, b'))

unfoldable pub leave_resolve : CheckBudget → CheckBudget
leave_resolve b = record b { resolve_depth = sub64 b.resolve_depth (pos 1) }
