-- ===== src/Budget.antt =====
-- internal/infra/budget: what the runtime's and the type checker's budgets share, the context that
-- may be cancelled and the errors. A context is, at one moment, the error of its `Err` if `Done` is
-- closed; the caller's deadlines and cancellations are outside the repository, so each operation
-- takes the context as it stands at the call.
pub mod Runtime
pub mod Checking
use gicel.Prelude.{Bool, true, false, Option, none, some}
use gicel.Prelude.Int.{ℤ}

-- `context.DeadlineExceeded`, and any other cause.
pub data CtxErr : Type 0 where
  deadline_exceeded canceled : CtxErr

-- The types with the marker method `limitError`; the error strings are left out.
pub data LimitError : Type 0 where
  step_limit depth_limit nesting_limit : LimitError
  alloc_limit : ℤ → ℤ → LimitError
  timeout cancelled : CtxErr → LimitError
  tf_step_limit solver_step_limit resolve_depth_limit : LimitError

pub wrap_ctx_err : CtxErr → LimitError
wrap_ctx_err deadline_exceeded = timeout deadline_exceeded
wrap_ctx_err canceled = cancelled canceled

-- `checkCtx` of both budgets.
unfoldable pub check_ctx : Option CtxErr → Option LimitError
unfolding wrap_ctx_err
check_ctx none = none
check_ctx (some e) = some (wrap_ctx_err e)
