-- ===== src/Budget/Runtime.antt =====
-- internal/infra/budget/budget.go: steps, call depth and allocation of one execution. A method
-- returns its error, `none` for nil, and the budget that it leaves.
pub mod Calls
pub mod Limits
pub mod Latency
mod Tests
use gicel.Prelude.{ℕ, ◌+◌, Bool, true, false, Option, none, some, ◌==◌, not, if◌then◌else◌, ◌&&◌}
use gicel.Prelude.Int.{ℤ, pos, negsuc, ltb_ℤ}
use gicel.Prelude.Int64.{add64, sub64, low_six}
use gicel.Budget.{CtxErr, LimitError, check_ctx}
use gicel.Budget.LimitError.{step_limit, depth_limit, alloc_limit}

-- The fields, without the context.
pub record Budget : Type 0 where
  pub ops : ℤ
  pub steps : ℤ
  pub max : ℤ
  pub depth : ℤ
  pub peak_depth : ℤ
  pub max_depth : ℤ
  pub alloc : ℤ
  pub max_alloc : ℤ

-- A negative limit is taken as zero, which disables it.
abbrev clamp : ℤ → ℤ
clamp n = if ltb_ℤ n (pos 0) then pos 0 else n

unfoldable pub new : ℤ → ℤ → Budget
new max_steps max_depth = record {
  ops = pos 0;
  steps = pos 0;
  max = clamp max_steps;
  depth = pos 0;
  peak_depth = pos 0;
  max_depth = clamp max_depth;
  alloc = pos 0;
  max_alloc = pos 0;
}

unfoldable pub set_alloc_limit : Budget → ℤ → Budget
set_alloc_limit b bytes = record b { max_alloc = clamp bytes }

-- The test of each limit, `limit > 0 && used >= limit`.
abbrev pub exceeds : ℤ → ℤ → Bool
exceeds limit used = ltb_ℤ (pos 0) limit && not (ltb_ℤ used limit)

-- The deepest call seen so far.
abbrev record_peak : Budget → Budget
record_peak b = if ltb_ℤ b.peak_depth b.depth then record b { peak_depth = b.depth } else b

abbrev after_ctx : Option LimitError → Budget → Option LimitError × Budget
after_ctx (some e) b = (some e, b)
after_ctx none b = (none, record_peak b)

unfoldable pub check : Option CtxErr → Budget → Option LimitError × Budget
unfolding check_ctx
check ctx b =
    let b' = record b { ops = add64 b.ops (pos 1) } in
    if low_six b'.ops == 0 then after_ctx (check_ctx ctx) b' else (none, b')

unfoldable pub step : Option CtxErr → Budget → Option LimitError × Budget
step ctx b =
    let b' = record b { steps = add64 b.steps (pos 1) } in
    if exceeds b'.max b'.steps then (some step_limit, b') else check ctx b'

unfoldable pub enter : Option CtxErr → Budget → Option LimitError × Budget
enter ctx b =
    let b' = record b { depth = add64 b.depth (pos 1) } in
    if exceeds b'.max_depth b'.depth then (some depth_limit, b') else check ctx b'

unfoldable pub leave : Budget → Budget
leave b = if ltb_ℤ (pos 0) b.depth then record b { depth = sub64 b.depth (pos 1) } else b

unfoldable pub charge : Option CtxErr → Budget → ℤ → Option LimitError × Budget
charge ctx b bytes =
    if ltb_ℤ bytes (pos 0)
    then (some (alloc_limit b.alloc b.max_alloc), b)
    else (let b' = record b { alloc = add64 b.alloc bytes } in
        if exceeds b'.max_alloc b'.alloc
        then (some (alloc_limit b'.alloc b'.max_alloc), b')
        else check ctx b')

unfoldable pub reset_counters : Budget → Budget
reset_counters b = record b {
  ops = pos 0;
  steps = pos 0;
  depth = pos 0;
  peak_depth = pos 0;
  alloc = pos 0;
}

unfoldable pub remaining : Budget → ℤ
remaining b =
    if ltb_ℤ (pos 0) b.max
    then (let r = sub64 b.max b.steps in if ltb_ℤ r (pos 0) then pos 0 else r)
    else negsuc 0

-- The helpers on a context, which carries a budget or none.
unfoldable pub charge_alloc : Option CtxErr → Option Budget → ℤ → Option LimitError × Option Budget
charge_alloc ctx none bytes = (none, none)
charge_alloc ctx (some b) bytes = let (e, b') = charge ctx b bytes in (e, some b')

unfoldable pub reset_budget_counters : Option Budget → Option Budget
unfolding reset_counters
reset_budget_counters none = none
reset_budget_counters (some b) = some (reset_counters b)

unfoldable pub check_context : Option CtxErr → Option Budget → Option LimitError
unfolding check_ctx
check_context ctx none = none
check_context ctx (some b) = check_ctx ctx
