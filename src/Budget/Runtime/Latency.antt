-- ===== src/Budget/Runtime/Latency.antt =====
-- How soon a cancelled context stops an execution, and what the sampled peak depth records.
use gicel.Prelude.{
  ℕ, suc, ◌∙◌, ◌+◌, ◌-◌, ◌<◌, ◌≤◌, ◌%◌, ◌≡◌, refl, Option, none, some, List, [], ◌∷◌, arith, length,
}
use gicel.Prelude.Int.{ℤ, pos, negsuc, pos_part}
use gicel.Prelude.Int64.{two_63, add64, add64-pos, add64_overflow}
use gicel.Budget.{CtxErr, LimitError}
use gicel.Budget.Runtime.{Budget, check, step, enter, leave, charge, reset_counters, new}
use gicel.Budget.Runtime.Calls.{
  Call, one_step, into, out_of, reset, allocate, call, Outcome, running, run, resume,
}

-- Step, Enter and Alloc calls on a context that is cancelled from now on, with calls of Leave between
-- them, and no reset.
abbrev pub Counted : CtxErr → List (Option CtxErr × Call) → Type 0
Counted e [] = Unit
Counted e ((ctx, out_of) ∷ cs) = Counted e cs
Counted e ((ctx, reset) ∷ cs) = ⊥
Counted e ((ctx, c) ∷ cs) = (ctx ≡ some e) × Counted e cs

-- The number of calls that go through the amortised check.
abbrev pub counted : List (Option CtxErr × Call) → ℕ
counted [] = 0
counted ((ctx, out_of) ∷ cs) = counted cs
counted ((ctx, reset) ∷ cs) = counted cs
counted ((ctx, c) ∷ cs) = suc (counted cs)

-- The counted calls up to the next look at the context.
abbrev pub waiting : ℕ → ℕ
waiting ops = 64 - ops % 64

check_waits :
    (e : CtxErr) (n : ℕ) (b : Budget)
    → b.ops ≡ pos n
    → n + 1 < two_63
    → (check (some e) b).0 ≡ none
    → ((check (some e) b).1.ops ≡ pos (n + 1)) × (waiting n ≡ waiting (n + 1) + 1)
unfolding check
check_waits e n b o f h = ground (arith, add64-pos n 1)

abbrev IsChecked : Call → Type 0
IsChecked out_of = ⊥
IsChecked reset = ⊥
IsChecked _ = Unit

-- A counted call that succeeds has gone through the check.
call_waits :
    (e : CtxErr) (c : Call) (n : ℕ) (b : Budget)
    → IsChecked c
    → b.ops ≡ pos n
    → n + 1 < two_63
    → (call (some e) c b).0 ≡ none
    → ((call (some e) c b).1.ops ≡ pos (n + 1)) × (waiting n ≡ waiting (n + 1) + 1)
unfolding call step enter charge
call_waits e one_step n b k o f h =
    ground (arith, check_waits e n (record b { steps = add64 b.steps (pos 1) }))
call_waits e into n b k o f h =
    ground (arith, check_waits e n (record b { depth = add64 b.depth (pos 1) }))
call_waits e (allocate z) n b k o f h =
    ground (arith, check_waits e n (record b { alloc = add64 b.alloc z }))
call_waits e out_of n b k o f h = absurd k
call_waits e reset n b k o f h = absurd k

resume_running :
    (r : Option LimitError × Budget) (rest : Budget → Outcome) {b' : Budget}
    → resume r.0 r.1 rest ≡ running b'
    → (r.0 ≡ none) × (rest r.1 ≡ running b')
resume_running (none, b) rest h = (refl, h)
resume_running (some e, b) rest h = cc

-- A counted call in front of others.
checked_stops :
    (e : CtxErr) (c : Call) (n : ℕ) (b b' : Budget) (cs : List (Option CtxErr × Call))
    → IsChecked c
    → b.ops ≡ pos n
    → n + 1 < two_63
    → resume (call (some e) c b).0 (call (some e) c b).1 (run cs) ≡ running b'
    → ((b1 : Budget) → b1.ops ≡ pos (n + 1) → run cs b1 ≡ running b' → counted cs < waiting (n + 1))
    → suc (counted cs) < waiting n
checked_stops e c n b b' cs k o f h ih =
    let (went, later) = resume_running (call (some e) c b) (run cs) h in
    let (o', w) = call_waits e c n b k o f went in
    omega (arith, w, ih (call (some e) c b).1 o' later)

leave-ops : (b : Budget) → (leave b).ops ≡ b.ops
unfolding leave
leave-ops b = ground arith

-- From an operation count of at least zero that stays an int64: once the context is cancelled, a run of
-- Step, Enter and Alloc calls with Leave calls between them, and without a reset of the counters, has made
-- fewer Step, Enter and Alloc calls, if it was not stopped, than are left to the next multiple of 64.
pub cancelled_stops :
    (e : CtxErr) (n : ℕ) (b b' : Budget) (cs : List (Option CtxErr × Call))
    → b.ops ≡ pos n
    → n + counted cs < two_63
    → Counted e cs
    → run cs b ≡ running b'
    → counted cs < waiting n
unfolding run call
cancelled_stops e n b b' [] o f k h = omega arith
cancelled_stops e n b b' ((ctx, out_of) ∷ cs) o f k h =
    cancelled_stops e n (leave b) b' cs (leave-ops b ∙ o) f k h
cancelled_stops e n b b' ((ctx, reset) ∷ cs) o f k h = absurd k
cancelled_stops e n b b' ((ctx, one_step) ∷ cs) o f k h =
    checked_stops e one_step n b b' cs tt o (omega (arith, f)) (rw (k.0) at h)
      (λ b1 o1 h1. cancelled_stops e (n + 1) b1 b' cs o1 (omega (arith, f)) k.1 h1)
cancelled_stops e n b b' ((ctx, into) ∷ cs) o f k h =
    checked_stops e into n b b' cs tt o (omega (arith, f)) (rw (k.0) at h)
      (λ b1 o1 h1. cancelled_stops e (n + 1) b1 b' cs o1 (omega (arith, f)) k.1 h1)
cancelled_stops e n b b' ((ctx, allocate z) ∷ cs) o f k h =
    checked_stops e (allocate z) n b b' cs tt o (omega (arith, f)) (rw (k.0) at h)
      (λ b1 o1 h1. cancelled_stops e (n + 1) b1 b' cs o1 (omega (arith, f)) k.1 h1)

-- At most `n` calls of the check have been made since the last reset, and none has recorded a peak.
record Unsampled (n : ℕ) (b : Budget) : Type 0 where
  count : b.ops ≡ pos (pos_part b.ops)
  count_le : pos_part b.ops ≤ n
  peak : b.peak_depth ≡ pos 0

check-Unsampled :
    (ctx : Option CtxErr) (n : ℕ) (b : Budget)
    → n + 1 < 64
    → Unsampled n b
    → Unsampled (n + 1) (check ctx b).1
unfolding check
check-Unsampled ctx n b f u = ground (arith, add64-pos (pos_part b.ops) 1)

call-Unsampled :
    (ctx : Option CtxErr) (c : Call) (n : ℕ) (b : Budget)
    → n + 1 < 64
    → Unsampled n b
    → Unsampled (n + 1) (call ctx c b).1
unfolding call step enter charge leave reset_counters
call-Unsampled ctx one_step n b f u =
    ground (arith, check-Unsampled ctx n (record b { steps = add64 b.steps (pos 1) }))
call-Unsampled ctx into n b f u =
    ground (arith, check-Unsampled ctx n (record b { depth = add64 b.depth (pos 1) }))
call-Unsampled ctx out_of n b f u = ground arith
call-Unsampled ctx reset n b f u = ground arith
call-Unsampled ctx (allocate z) n b f u =
    ground (arith, check-Unsampled ctx n (record b { alloc = add64 b.alloc z }))

run-Unsampled :
    (n : ℕ) (b b' : Budget) (cs : List (Option CtxErr × Call))
    → Unsampled n b
    → n + length cs < 64
    → run cs b ≡ running b'
    → b'.peak_depth ≡ pos 0
unfolding run
run-Unsampled n b b' [] u f h = ground arith
run-Unsampled n b b' ((ctx, c) ∷ cs) u f h =
    let (went, later) = resume_running (call ctx c b) (run cs) h in
    run-Unsampled (n + 1) (call ctx c b).1 b' cs (call-Unsampled ctx c n b (omega arith) u)
      (omega arith) later

-- The recorded peak depth is a sample: in fewer than 64 calls on a fresh budget it stays 0, however
-- deep the calls go.
pub peak_unsampled :
    (max_steps max_depth : ℤ) (b' : Budget) (cs : List (Option CtxErr × Call))
    → length cs < 64
    → run cs (new max_steps max_depth) ≡ running b'
    → b'.peak_depth ≡ pos 0
peak_unsampled m d b' cs f h =
    run-Unsampled 0 (new m d) b' cs (unfold new in ground arith) (omega arith) h

-- An allocation that takes the count past the largest `int64` is let through, and the count turns
-- negative, however small the limit is.
pub charge_overflow :
    (b : Budget) (a n limit : ℕ)
    → b.alloc ≡ pos a
    → b.max_alloc ≡ pos limit
    → a < two_63
    → n < two_63
    → two_63 ≤ a + n
    → ((charge none b (pos n)).0 ≡ none)
      × ((charge none b (pos n)).1.alloc ≡ negsuc (0xffff_ffff_ffff_ffff - (a + n)))
unfolding charge check
charge_overflow b a n limit e m ha hn h = ground (arith, add64_overflow a n ha hn h)
