-- ===== src/Budget/Checking/Tests.antt =====
-- Runs of the type checker's budget.
use gicel.Prelude.{◌≡◌, ◌↔◌, refl, Option, none, some, List, [], ◌∷◌, arith}
use gicel.Prelude.Int.{pos}
use gicel.Prelude.Int64.{add64}
use gicel.Budget.{CtxErr, LimitError}
use gicel.Budget.Checking.{
  CheckBudget, new_check_budget, set_nesting_limit, set_tf_step_limit, set_solver_step_limit,
  set_resolve_depth_limit, solver_step, reset_solver_steps,
}
use gicel.Budget.Checking.Allowance.{all_pass, NoneCancelled, Allows, solver_allowance}

limited : CheckBudget
unfolding new_check_budget set_nesting_limit set_tf_step_limit set_solver_step_limit
    set_resolve_depth_limit
limited =
    set_resolve_depth_limit
      (set_nesting_limit
        (set_tf_step_limit (set_solver_step_limit new_check_budget (pos 2)) (pos 1)) (pos 1))
      (pos 1)

third_fails :
    (all_pass solver_step (none ∷ none ∷ none ∷ []) limited).0 ≡ some LimitError.solver_step_limit
unfolding all_pass solver_step limited add64
third_fails = refl

abbrev twice : List (Option CtxErr)
twice = none ∷ none ∷ []

solver_allowance_example :
    ((all_pass solver_step twice (reset_solver_steps limited)).0 ≡ none)
    ↔ (NoneCancelled twice × Allows 2 2)
unfolding limited
solver_allowance_example = solver_allowance 2 twice limited refl (omega arith)
