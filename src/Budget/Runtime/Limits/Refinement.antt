-- ===== src/Budget/Runtime/Limits/Refinement.antt =====
-- An execution is the specification: it goes on exactly while the resources keep the limits.
use gicel.Prelude.{
  ℕ, ◌+◌, ◌≡◌, ◌≢◌, refl, Option, none, some, List, [], ◌∷◌, if◌then◌else◌, arith, Bool-cases, inl,
  inr,
}
use gicel.Prelude.Int.{pos, negsuc}
use gicel.Budget.{CtxErr, LimitError}
use gicel.Budget.Runtime.{Budget, check, charge, reset_counters, new, set_alloc_limit}
use gicel.Budget.Runtime.Calls.{
  Call, one_step, into, out_of, reset, allocate, call, Outcome, running, stopped, resume, run,
}
use gicel.Budget.Runtime.Limits.{
  Usage, Limits, below, spend, spend_next, spend_all, allowed, Under, Tracks, Fits, AllFit,
  check_keeps, check_uncancelled, step-eq, enter-eq, charge-eq, leave-eq,
}

-- What a call leaves agrees with the specification `o`: the new usage is tracked, or the call fails.
abbrev Agrees : Limits → Option Usage → Option LimitError × Budget → Type 0
Agrees l none r = r.0 ≢ none
Agrees l (some u) r = Tracks l u r.1

tested-Agrees :
    (ctx : Option CtxErr) (l : Limits) (limit used : ℕ) (u : Usage) (b : Budget) (e : LimitError)
    → (Under limit used → Tracks l u b)
    → Agrees l (below limit used u) (if allowed limit used then check ctx b else (some e, b))
tested-Agrees ctx l limit used u b e t = elim (Bool-cases (allowed limit used)) [
  | inl p ↦ rw p (check_keeps ctx l u b (t (ground (arith, p))))
  | inr p ↦ rw p (λ e. cc)
]

charge_negative : (ctx : Option CtxErr) (b : Budget) (n : ℕ) → (charge ctx b (negsuc n)).0 ≢ none
unfolding charge
charge_negative ctx b n h = ground arith

tested_uncancelled :
    (limit used : ℕ) (u u' : Usage) (b b' : Budget) (e : LimitError)
    → below limit used u ≡ some u'
    → (if allowed limit used then check none b else (some e, b')).0 ≡ none
tested_uncancelled limit used u u' b b' e h = ground (arith, check_uncancelled b)

call-Agrees :
    (ctx : Option CtxErr) (l : Limits) (u : Usage) (b : Budget) (c : Call)
    → Tracks l u b
    → Fits u c
    → Agrees l (spend l u c) (call ctx c b)
unfolding call spend
call-Agrees ctx l u b one_step t f = rw (step-eq ctx l u b t f) (
    tested-Agrees ctx l l.steps (u.steps + 1) (record u { steps = u.steps + 1 }) _ _
      (λ h. ground arith))
call-Agrees ctx l u b into t f = rw (enter-eq ctx l u b t f) (
    tested-Agrees ctx l l.depth (u.depth + 1) (record u { depth = u.depth + 1 }) _ _
      (λ h. ground arith))
call-Agrees ctx l u b out_of t f = rw (leave-eq ctx l u b t) (ground arith)
call-Agrees ctx l u b reset t f = unfold reset_counters in ground arith
call-Agrees ctx l u b (allocate (pos n)) t f = rw (charge-eq ctx l u b t n f) (
    tested-Agrees ctx l l.alloc (u.alloc + n) (record u { alloc = u.alloc + n }) _ _
      (λ h. ground arith))
call-Agrees ctx l u b (allocate (negsuc n)) t f = charge_negative ctx b n

-- With no cancellation, a call fails only as the specification says.
call_uncancelled :
    (l : Limits) (u u' : Usage) (b : Budget) (c : Call)
    → Tracks l u b
    → Fits u c
    → spend l u c ≡ some u'
    → (call none c b).0 ≡ none
unfolding call spend
call_uncancelled l u u' b one_step t f h =
    rw (step-eq none l u b t f) (tested_uncancelled l.steps (u.steps + 1) _ u' _ _ _ h)
call_uncancelled l u u' b into t f h =
    rw (enter-eq none l u b t f) (tested_uncancelled l.depth (u.depth + 1) _ u' _ _ _ h)
call_uncancelled l u u' b out_of t f h = refl
call_uncancelled l u u' b reset t f h = refl
call_uncancelled l u u' b (allocate (pos n)) t f h =
    rw (charge-eq none l u b t n f) (tested_uncancelled l.alloc (u.alloc + n) _ u' _ _ _ h)
call_uncancelled l u u' b (allocate (negsuc n)) t f h = cc

-- The usage of an outcome agrees with the specification's.
abbrev pub Follows : Limits → Option Usage → Outcome → Type 0
Follows l none (running b) = ⊥
Follows l none (stopped e b) = Unit
Follows l (some u) (running b) = Tracks l u b
Follows l (some u) (stopped e b) = ⊥

-- The calls of a schedule, without the state of the context at each.
abbrev pub calls : List (Option CtxErr × Call) → List Call
calls [] = []
calls ((ctx, c) ∷ cs) = c ∷ calls cs

run_sound_next :
    (l : Limits) (o : Option Usage) (r : Option LimitError × Budget)
    (cs : List (Option CtxErr × Call)) {b' : Budget}
    → Agrees l o r
    → resume r.0 r.1 (run cs) ≡ running b'
    → ((u : Usage) (b : Budget)
        → o ≡ some u
        → Tracks l u b
        → run cs b ≡ running b'
        → (u' : Usage) × (spend_all l u (calls cs) ≡ some u') × Tracks l u' b')
    → (u' : Usage) × (spend_next o (λ u. spend_all l u (calls cs)) ≡ some u') × Tracks l u' b'
run_sound_next l none (none, b) cs a h ih = absurd (a refl)
run_sound_next l none (some e, b) cs a h ih = absurd (cc)
run_sound_next l (some u) (none, b) cs a h ih = ih u b refl a h
run_sound_next l (some u) (some e, b) cs a h ih = absurd (cc)

-- From counters that keep the limits, as those of a fresh budget do, and where no count leaves the int64
-- (that of an allocation too, up to the first call over a limit): an execution that has not been stopped has kept every limit that is not disabled by zero. After each of its
-- steps, entered calls and allocations, whatever the context did, the resource counted by the
-- specification lay below its limit, no allocation was negative, and the budget's counters are exactly
-- those of the specification.
pub run_sound :
    (l : Limits) (u : Usage) (b b' : Budget) (cs : List (Option CtxErr × Call))
    → Tracks l u b
    → AllFit l u (calls cs)
    → run cs b ≡ running b'
    → (u' : Usage) × (spend_all l u (calls cs) ≡ some u') × Tracks l u' b'
unfolding run spend_all
run_sound l u b b' [] t f h = (u, refl, ground arith)
run_sound l u b b' ((ctx, c) ∷ cs) t f h =
    run_sound_next l (spend l u c) (call ctx c b) cs (call-Agrees ctx l u b c t f.0) h
      (λ u1 b1 s1 t1 h1. run_sound l u1 b1 b' cs t1 (f.1 u1 s1) h1)

abbrev pub Uncancelled : List (Option CtxErr × Call) → Type 0
Uncancelled [] = Unit
Uncancelled ((ctx, c) ∷ cs) = (ctx ≡ none) × Uncancelled cs

-- The rest of an execution, from what one call leaves.
run_complete_next :
    (l : Limits) (o : Option Usage) (u' : Usage) (r : Option LimitError × Budget)
    (cs : List (Option CtxErr × Call))
    → Agrees l o r
    → ((u1 : Usage) → o ≡ some u1 → r.0 ≡ none)
    → spend_next o (λ u. spend_all l u (calls cs)) ≡ some u'
    → ((u : Usage) (b : Budget)
        → o ≡ some u
        → Tracks l u b
        → spend_all l u (calls cs) ≡ some u'
        → (b' : Budget) × (run cs b ≡ running b') × Tracks l u' b')
    → (b' : Budget) × (resume r.0 r.1 (run cs) ≡ running b') × Tracks l u' b'
run_complete_next l none u' r cs a live h ih = absurd (cc)
run_complete_next l (some u) u' r cs a live h ih = rw (live u refl) (ih u r.1 refl a h)

-- From counters that keep the limits, as those of a fresh budget do, where no count leaves the int64, and
-- with no cancellation: an execution without a negative allocation in
-- which each resource stays below its limit, or the limit is disabled by zero, is not stopped, and the
-- budget's counters are exactly those of the specification.
pub run_complete :
    (l : Limits) (u u' : Usage) (b : Budget) (cs : List (Option CtxErr × Call))
    → Tracks l u b
    → AllFit l u (calls cs)
    → Uncancelled cs
    → spend_all l u (calls cs) ≡ some u'
    → (b' : Budget) × (run cs b ≡ running b') × Tracks l u' b'
unfolding run spend_all
run_complete l u u' b [] t f n h = (b, refl, ground arith)
run_complete l u u' b ((ctx, c) ∷ cs) t f n h =
    run_complete_next l (spend l u c) u' (call ctx c b) cs (call-Agrees ctx l u b c t f.0)
      (λ u1 e. rw n.0 (call_uncancelled l u u1 b c t f.0 e)) h
      (λ u1 b1 s1 t1 h1. run_complete l u1 u' b1 cs t1 (f.1 u1 s1) n.1 h1)

abbrev pub unused : Usage
unused = record { steps = 0; depth = 0; alloc = 0 }

-- A fresh budget with its limits set has used nothing.
pub new-Tracks :
    (l : Limits) → Tracks l unused (set_alloc_limit (new (pos l.steps) (pos l.depth)) (pos l.alloc))
unfolding new set_alloc_limit
new-Tracks l = ground arith
