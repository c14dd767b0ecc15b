-- ===== src/Budget/Runtime/Tests.antt =====
-- Runs of the runtime budget.
use gicel.Prelude.{ℕ, ◌<◌, ◌≡◌, refl, sym, ap, subst, ◌∙◌, Option, none, some, List, [], ◌∷◌, arith}
use gicel.Prelude.Int.{pos, negsuc}
use gicel.Prelude.Int64.{add64, sub64}
use gicel.Budget.{CtxErr, LimitError}
use gicel.Budget.CtxErr.{canceled}
use gicel.Budget.Runtime.{Budget, new, set_alloc_limit, check, step, enter, leave, charge}
use gicel.Budget.Runtime.Calls.{Call, one_step, into, out_of, allocate, call, running, stopped, run}
use gicel.Budget.Runtime.Limits.{Limits, Usage, spend, spend_all, AllFit, Tracks}
use gicel.Budget.Runtime.Limits.Refinement.{unused, calls, new-Tracks, run_sound, run_complete}
use gicel.Budget.Runtime.Latency.{cancelled_stops, peak_unsampled, charge_overflow}

abbrev small : Limits
small = record { steps = 4; depth = 3; alloc = 100 }

start : Budget
unfolding new set_alloc_limit
start = set_alloc_limit (new (pos 4) (pos 3)) (pos 100)

start-Tracks : Tracks small unused start
unfolding start
start-Tracks = new-Tracks small

abbrev schedule : List (Option CtxErr × Call)
schedule =
    (none, one_step)
    ∷ (none, into)
    ∷ (none, allocate (pos 40))
    ∷ (none, out_of)
    ∷ (none, one_step)
    ∷ []

-- The state that `schedule` leaves.
abbrev finish : Budget
finish = record {
  ops = pos 4;
  steps = pos 2;
  max = pos 4;
  depth = pos 0;
  peak_depth = pos 0;
  max_depth = pos 3;
  alloc = pos 40;
  max_alloc = pos 100;
}

schedule_runs : run schedule start ≡ running finish
unfolding run call step enter leave charge check start add64 sub64
schedule_runs = refl

steps_run_out :
    run ((none, one_step) ∷ (none, one_step) ∷ (none, one_step) ∷ (none, one_step) ∷ []) start
    ≡ stopped LimitError.step_limit (record start { ops = pos 3; steps = pos 4 })
unfolding run call step check start add64
steps_run_out = refl

abbrev or_unused : Option Usage → Usage
or_unused none = unused
or_unused (some u) = u

fits_after :
    (l : Limits) (u v : Usage) (c : Call) (cs : List Call)
    → spend l u c ≡ some v
    → AllFit l v cs
    → (u' : Usage) → spend l u c ≡ some u'
    → AllFit l u' cs
fits_after l u v c cs p h u' e = subst (λ z. AllFit l z cs) (ap or_unused (sym p ∙ e)) h

-- The usage after each call of the schedule.
abbrev usage_at : (steps depth alloc : ℕ) → Usage
usage_at steps depth alloc = record { steps = steps; depth = depth; alloc = alloc }

abbrev from_leave : List Call
from_leave = out_of ∷ one_step ∷ []

abbrev from_alloc : List Call
from_alloc = allocate (pos 40) ∷ from_leave

abbrev from_enter : List Call
from_enter = into ∷ from_alloc

schedule_fits : AllFit small unused (calls schedule)
unfolding spend
schedule_fits =
    let last : AllFit small (usage_at 1 0 40) (one_step ∷ []) = (omega arith, λ u e. tt) in
    let out : AllFit small (usage_at 1 1 40) from_leave =
      (tt, fits_after small (usage_at 1 1 40) (usage_at 1 0 40) out_of (one_step ∷ []) refl last) in
    let charged : AllFit small (usage_at 1 1 0) from_alloc = (
      omega arith,
      fits_after small (usage_at 1 1 0) (usage_at 1 1 40) (allocate (pos 40)) from_leave refl out,
    ) in
    let entered : AllFit small (usage_at 1 0 0) from_enter = (
      omega arith,
      fits_after small (usage_at 1 0 0) (usage_at 1 1 0) into from_alloc refl charged,
    ) in
    (omega arith, fits_after small unused (usage_at 1 0 0) one_step from_enter refl entered)

abbrev used : Usage
used = record { steps = 2; depth = 0; alloc = 40 }

run_sound_example :
    (u : Usage) × (spend_all small unused (calls schedule) ≡ some u) × Tracks small u finish
run_sound_example =
    run_sound small unused start finish schedule start-Tracks schedule_fits schedule_runs

run_complete_example : (b : Budget) × (run schedule start ≡ running b) × Tracks small used b
unfolding spend_all spend
run_complete_example =
    run_complete small unused used start schedule start-Tracks schedule_fits
      (refl, (refl, (refl, (refl, (refl, tt))))) refl

-- Two steps on a cancelled context, 62 calls before the next look at it, and a Leave between them.
abbrev cancelled_calls : List (Option CtxErr × Call)
cancelled_calls =
    (some canceled, one_step) ∷ (some canceled, out_of) ∷ (some canceled, one_step) ∷ []

two_steps : run cancelled_calls start ≡ running (record start { ops = pos 2; steps = pos 2 })
unfolding run call step leave check start add64
two_steps = refl

cancelled_stops_example : 2 < 64
unfolding start
cancelled_stops_example =
    cancelled_stops canceled 0 start (record start { ops = pos 2; steps = pos 2 }) cancelled_calls
      refl (omega arith) (refl, (refl, tt)) two_steps

two_deep :
    run ((none, into) ∷ (none, into) ∷ []) (new (pos 9) (pos 9))
    ≡ running (record (new (pos 9) (pos 9)) { ops = pos 2; depth = pos 2 })
unfolding run call enter check new add64
two_deep = refl

peak_unsampled_example :
    (record (new (pos 9) (pos 9)) { ops = pos 2; depth = pos 2 }).peak_depth ≡ pos 0
peak_unsampled_example =
    peak_unsampled (pos 9) (pos 9) (record (new (pos 9) (pos 9)) { ops = pos 2; depth = pos 2 })
      ((none, into) ∷ (none, into) ∷ []) (omega arith) two_deep

abbrev spent : Budget
spent = record finish { alloc = pos 1 }

charge_overflow_example :
    ((charge none spent (pos 0x7fff_ffff_ffff_ffff)).0 ≡ none)
    × ((charge none spent (pos 0x7fff_ffff_ffff_ffff)).1.alloc ≡ negsuc 0x7fff_ffff_ffff_ffff)
charge_overflow_example =
    charge_overflow spent 1 0x7fff_ffff_ffff_ffff 100 refl refl (omega arith) (omega arith)
      (omega arith)

-- A limit of zero stops no allocation.
unlimited_alloc :
    spend (record { steps = 4; depth = 3; alloc = 0 }) unused (allocate (pos 1000000))
    ≡ some (record unused { alloc = 1000000 })
unfolding spend
unlimited_alloc = refl
