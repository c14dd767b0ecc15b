-- ===== src/Budget/Runtime/Limits.antt =====
-- The limits of an execution, as a specification: the resources in use are counted exactly, and the
-- first call that would reach a limit ends the execution. A limit of zero is disabled.
pub mod Refinement
use gicel.Prelude.{
  ℕ, zero, suc, ◌+◌, ◌-◌, ◌<◌, ◌≡◌, refl, sym, ◌∙◌, Option, none, some, List, [], ◌∷◌, ltb, ◌==◌,
  ◌||◌, ◌⊎◌, Bool, if◌then◌else◌, arith, map, Option-cases, inl, inr,
}
use gicel.Prelude.Int.{ℤ, pos, negsuc}
use gicel.Prelude.Int64.{two_63, add64, sub64, low_six, add64-pos, sub64-pos}
use gicel.Budget.{CtxErr, LimitError}
use gicel.Budget.LimitError.{step_limit, depth_limit, alloc_limit}
use gicel.Budget.Runtime.{Budget, check, step, enter, leave, charge, reset_counters}
use gicel.Budget.Runtime.Calls.{
  Call, one_step, into, out_of, reset, allocate, call, Outcome, running, stopped, run,
}

pub record Usage : Type 0 where
  pub steps : ℕ
  pub depth : ℕ
  pub alloc : ℕ

-- The configured limits, each within an `int64`.
pub record Limits : Type 0 where
  pub steps : ℕ
  pub depth : ℕ
  pub alloc : ℕ

abbrev pub allowed : ℕ → ℕ → Bool
allowed limit used = limit == 0 || ltb used limit

abbrev pub below : ℕ → ℕ → Usage → Option Usage
below limit used u = if allowed limit used then some u else none

-- What a call may use, or `none` where it reaches a limit.
unfoldable pub spend : Limits → Usage → Call → Option Usage
spend l u one_step = below l.steps (u.steps + 1) (record u { steps = u.steps + 1 })
spend l u into = below l.depth (u.depth + 1) (record u { depth = u.depth + 1 })
spend l u out_of = some (record u { depth = u.depth - 1 })
spend l u (allocate (pos n)) = below l.alloc (u.alloc + n) (record u { alloc = u.alloc + n })
spend l u (allocate (negsuc n)) = none
spend l u reset = some (record { steps = 0; depth = 0; alloc = 0 })

abbrev pub spend_next : Option Usage → (Usage → Option Usage) → Option Usage
spend_next none rest = none
spend_next (some u) rest = rest u

unfoldable pub spend_all : Limits → Usage → List Call → Option Usage
spend_all l u [] = some u
spend_all l u (c ∷ cs) = spend_next (spend l u c) (λ u'. spend_all l u' cs)

-- The limit is disabled, or the resource lies below it.
abbrev pub Under : ℕ → ℕ → Type 0
Under limit used = (limit ≡ 0) ⊎ (used < limit)

-- The budget `b` has the limits `l`, and counts the resources `u`, which keep the limits.
pub record Tracks (l : Limits) (u : Usage) (b : Budget) : Type 0 where
  pub max : b.max ≡ pos l.steps
  pub max_depth : b.max_depth ≡ pos l.depth
  pub max_alloc : b.max_alloc ≡ pos l.alloc
  pub steps : b.steps ≡ pos u.steps
  pub depth : b.depth ≡ pos u.depth
  pub alloc : b.alloc ≡ pos u.alloc
  pub steps_under : Under l.steps u.steps
  pub depth_under : Under l.depth u.depth
  pub alloc_under : Under l.alloc u.alloc
  pub depth_fits : u.depth < two_63

-- The count that the call raises stays an `int64`.
abbrev pub Fits : Usage → Call → Type 0
Fits u one_step = u.steps + 1 < two_63
Fits u into = u.depth + 1 < two_63
Fits u (allocate (pos n)) = u.alloc + n < two_63
Fits u _ = Unit

-- So it is at each call, as long as the specification goes on.
abbrev pub AllFit : Limits → Usage → List Call → Type 0
AllFit l u [] = Unit
AllFit l u (c ∷ cs) = Fits u c × ((u' : Usage) → spend l u c ≡ some u' → AllFit l u' cs)

-- `check` changes no counter that has a limit.
pub check_keeps :
    (ctx : Option CtxErr) (l : Limits) (u : Usage) (b : Budget)
    → Tracks l u b
    → Tracks l u (check ctx b).1
unfolding check
check_keeps ctx l u b t = ground arith

pub check_uncancelled : (b : Budget) → (check none b).0 ≡ none
unfolding check
check_uncancelled b = ground arith

module _ (ctx : Option CtxErr) (l : Limits) (u : Usage) (b : Budget) (t : Tracks l u b) where
  -- Each counted call is its test, then the amortised check.
  pub step-eq :
      u.steps + 1 < two_63
      → step ctx b ≡ (
          let b' = record b { steps = pos (u.steps + 1) } in
          if allowed l.steps (u.steps + 1) then check ctx b' else (some step_limit, b'))
  unfolding step
  step-eq h = ground (arith, add64-pos u.steps 1)

  pub enter-eq :
      u.depth + 1 < two_63
      → enter ctx b ≡ (
          let b' = record b { depth = pos (u.depth + 1) } in
          if allowed l.depth (u.depth + 1) then check ctx b' else (some depth_limit, b'))
  unfolding enter
  enter-eq h = ground (arith, add64-pos u.depth 1)

  pub charge-eq :
      (n : ℕ)
      → u.alloc + n < two_63
      → charge ctx b (pos n) ≡ (
          let b' = record b { alloc = pos (u.alloc + n) } in
          if allowed l.alloc (u.alloc + n)
          then check ctx b'
          else (some (alloc_limit (pos (u.alloc + n)) (pos l.alloc)), b'))
  unfolding charge
  charge-eq n h = ground (arith, add64-pos u.alloc n)

  pub leave-eq : leave b ≡ record b { depth = pos (u.depth - 1) }
  unfolding leave
  leave-eq = ground (arith, sub64-pos u.depth)
