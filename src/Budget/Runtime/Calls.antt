-- ===== src/Budget/Runtime/Calls.antt =====
-- An execution as the sequence of its calls, ended by the first error.
use gicel.Prelude.{Option, none, some, List, [], ◌∷◌}
use gicel.Prelude.Int.{ℤ}
use gicel.Budget.{CtxErr, LimitError}
use gicel.Budget.Runtime.{Budget, step, enter, leave, charge, reset_counters}

pub data Call : Type 0 where
  one_step into out_of reset : Call
  allocate : ℤ → Call

-- One call, with the context as it stands then.
unfoldable pub call : Option CtxErr → Call → Budget → Option LimitError × Budget
call ctx one_step b = step ctx b
call ctx into b = enter ctx b
call ctx out_of b = (none, leave b)
call ctx (allocate n) b = charge ctx b n
call ctx reset b = (none, reset_counters b)

pub data Outcome : Type 0 where
  running : Budget → Outcome
  stopped : LimitError → Budget → Outcome

abbrev pub resume : Option LimitError → Budget → (Budget → Outcome) → Outcome
resume none b rest = rest b
resume (some e) b rest = stopped e b

unfoldable pub run : List (Option CtxErr × Call) → Budget → Outcome
run [] b = running b
run ((ctx, c) ∷ cs) b = let r = call ctx c b in resume r.0 r.1 (run cs)
