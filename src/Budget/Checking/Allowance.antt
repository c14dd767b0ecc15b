-- ===== src/Budget/Checking/Allowance.antt =====
-- How many steps the type checker's budget allows, and that its two depths are balanced.
use gicel.Prelude.{
  ℕ, ◌+◌, ◌≤◌, ◌<◌, ◌≡◌, ◌↔◌, ◌⊎◌, refl, Option, none, some, List, [], ◌∷◌, arith, length,
}
use gicel.Prelude.Int.{ℤ, pos, ◌≤ℤ◌}
use gicel.Prelude.Int64.{two_63, add64, sub64, add64-pos, min_int64, max_int64}
use gicel.Budget.{CtxErr, LimitError}
use gicel.Budget.Checking.{
  CheckBudget, nest, unnest, tf_step, solver_step, reset_solver_steps, reset_tf_steps,
  enter_resolve, leave_resolve,
}

abbrev pub Answer : Type 0
Answer = Option LimitError × CheckBudget

abbrev pub if_passed : Answer → (CheckBudget → Answer) → Answer
if_passed (none, b) rest = rest b
if_passed (some e, b) rest = (some e, b)

-- Calls in a row, one for each context, up to the first error.
unfoldable pub all_pass :
    (Option CtxErr → CheckBudget → Answer) → List (Option CtxErr) → CheckBudget → Answer
all_pass op [] b = (none, b)
all_pass op (ctx ∷ rest) b = if_passed (op ctx b) (all_pass op rest)

abbrev pub NoneCancelled : List (Option CtxErr) → Type 0
NoneCancelled [] = Unit
NoneCancelled (ctx ∷ rest) = (ctx ≡ none) × NoneCancelled rest

-- A limit of zero allows any number.
abbrev pub Allows : ℕ → ℕ → Type 0
Allows limit used = (limit ≡ 0) ⊎ (used ≤ limit)

-- One counted operation: `Counts n b` says that `b` has counted to `n`.
record Counted (op : Option CtxErr → CheckBudget → Answer) (limit : ℕ)
    (Counts : ℕ → CheckBudget → Type 0) : Type 0 where
  passed :
      (ctx : Option CtxErr) (n : ℕ) (b : CheckBudget)
      → Counts n b
      → n + 1 < two_63
      → (op ctx b).0 ≡ none
      → (ctx ≡ none) × Allows limit (n + 1) × Counts (n + 1) (op ctx b).1
  passes :
      (n : ℕ) (b : CheckBudget)
      → Counts n b
      → n + 1 < two_63
      → Allows limit (n + 1)
      → (op none b).0 ≡ none

passed_first :
    (r : Answer) (rest : CheckBudget → Answer)
    → (if_passed r rest).0 ≡ none
    → (r.0 ≡ none) × ((rest r.1).0 ≡ none)
passed_first (none, b) rest h = (refl, h)
passed_first (some e, b) rest h = (h, cc)

first_passed :
    (r : Answer) (rest : CheckBudget → Answer)
    → r.0 ≡ none
    → (rest r.1).0 ≡ none
    → (if_passed r rest).0 ≡ none
first_passed (none, b) rest h k = k
first_passed (some e, b) rest h k = h

module _ (op : Option CtxErr → CheckBudget → Answer) (limit : ℕ) (Counts : ℕ → CheckBudget → Type 0)
    (counted : Counted op limit Counts) where
  all_pass_only :
      (cs : List (Option CtxErr)) (n : ℕ) (b : CheckBudget)
      → Counts n b
      → Allows limit n
      → n + length cs < two_63
      → (all_pass op cs b).0 ≡ none
      → NoneCancelled cs × Allows limit (n + length cs)
  unfolding all_pass
  all_pass_only [] n b c a f h = (tt, ground arith)
  all_pass_only (ctx ∷ cs) n b c a f h =
      let (went, later) = passed_first (op ctx b) (all_pass op cs) h in
      let (live, a', c') = counted.passed ctx n b c (omega arith) went in
      let (lives, total) = all_pass_only cs (n + 1) (op ctx b).1 c' a' (omega arith) later in
      ((live, lives), ground arith)

  all_pass_if :
      (cs : List (Option CtxErr)) (n : ℕ) (b : CheckBudget)
      → Counts n b
      → n + length cs < two_63
      → NoneCancelled cs
      → Allows limit (n + length cs)
      → (all_pass op cs b).0 ≡ none
  unfolding all_pass
  all_pass_if [] n b c f lives a = refl
  all_pass_if (ctx ∷ cs) n b c f lives a =
      let went : (op ctx b).0 ≡ none =
        rw lives.0 (counted.passes n b c (omega arith) (ground arith)) in
      let (live, a', c') = counted.passed ctx n b c (omega arith) went in
      first_passed (op ctx b) (all_pass op cs) went
        (all_pass_if cs (n + 1) (op ctx b).1 c' (omega arith) lives.1 (ground arith))

  -- From a count of zero.
  allowance :
      (cs : List (Option CtxErr)) (b : CheckBudget)
      → Counts 0 b
      → length cs < two_63
      → ((all_pass op cs b).0 ≡ none) ↔ (NoneCancelled cs × Allows limit (length cs))
  allowance cs b c f =
      let only = λ (h : (all_pass op cs b).0 ≡ none).
        all_pass_only cs 0 b c (ground arith) (omega arith) h in
      (
        λ h. ((only h).0, ground (arith, (only h).1)),
        λ h. all_pass_if cs 0 b c (omega arith) h.0 (ground (arith, h.1)),
      )

abbrev SolverCounts : ℕ → ℕ → CheckBudget → Type 0
SolverCounts limit n b = (b.max_solver_steps ≡ pos limit) × (b.solver_steps ≡ pos n)

solver_step_counted : (limit : ℕ) → Counted solver_step limit (SolverCounts limit)
unfolding solver_step
solver_step_counted limit = record {
  passed = λ ctx n b c f h. ground (arith, add64-pos n 1);
  passes = λ n b c f a. ground (arith, add64-pos n 1);
}

abbrev TfCounts : ℕ → ℕ → CheckBudget → Type 0
TfCounts limit n b = (b.max_tf_steps ≡ pos limit) × (b.tf_steps ≡ pos n)

tf_step_counted : (limit : ℕ) → Counted tf_step limit (TfCounts limit)
unfolding tf_step
tf_step_counted limit = record {
  passed = λ ctx n b c f h. ground (arith, add64-pos n 1);
  passes = λ n b c f a. ground (arith, add64-pos n 1);
}

abbrev ResolveCounts : ℕ → ℕ → CheckBudget → Type 0
ResolveCounts limit n b = (b.max_resolve_depth ≡ pos limit) × (b.resolve_depth ≡ pos n)

enter_resolve_counted : (limit : ℕ) → Counted enter_resolve limit (ResolveCounts limit)
unfolding enter_resolve
enter_resolve_counted limit = record {
  passed = λ ctx n b c f h. ground (arith, add64-pos n 1);
  passes = λ n b c f a. ground (arith, add64-pos n 1);
}

-- With a limit of at least zero, after a reset, and for fewer than 2^63 calls: calls of SolverStep in a
-- row all pass exactly when the context is cancelled at none of them and either the limit is zero, which
-- disables it, or they are no more than the limit.
pub solver_allowance :
    (limit : ℕ) (cs : List (Option CtxErr)) (b : CheckBudget)
    → b.max_solver_steps ≡ pos limit
    → length cs < two_63
    → ((all_pass solver_step cs (reset_solver_steps b)).0 ≡ none)
      ↔ (NoneCancelled cs × Allows limit (length cs))
unfolding reset_solver_steps
solver_allowance limit cs b m f =
    allowance solver_step limit (SolverCounts limit) (solver_step_counted limit) cs
      (reset_solver_steps b) (m, refl) f

-- The same of TFStep.
tf_allowance :
    (limit : ℕ) (cs : List (Option CtxErr)) (b : CheckBudget)
    → b.max_tf_steps ≡ pos limit
    → length cs < two_63
    → ((all_pass tf_step cs (reset_tf_steps b)).0 ≡ none)
      ↔ (NoneCancelled cs × Allows limit (length cs))
unfolding reset_tf_steps
tf_allowance limit cs b m f =
    allowance tf_step limit (TfCounts limit) (tf_step_counted limit) cs (reset_tf_steps b) (m, refl)
      f

-- Wrapped or not, a decrement undoes an increment.
sub64-add64 : (a : ℤ) → min_int64 ≤ℤ a → a ≤ℤ max_int64 → sub64 (add64 a (pos 1)) (pos 1) ≡ a
unfolding add64 sub64
sub64-add64 a lo hi = ground arith

abbrev pub IsInt64 : ℤ → Type 0
IsInt64 a = (min_int64 ≤ℤ a) × (a ≤ℤ max_int64)

nested : (b : CheckBudget) → (nest b).1 ≡ record b { nesting = add64 b.nesting (pos 1) }
unfolding nest
nested b = ground arith

entered :
    (b : CheckBudget)
    → (enter_resolve none b).1 ≡ record b { resolve_depth = add64 b.resolve_depth (pos 1) }
unfolding enter_resolve
entered b = ground arith

-- Unnest and LeaveResolve undo Nest and EnterResolve, also where those report their limit; only
-- where the context is cancelled does EnterResolve count nothing, so nothing is to be undone.
pub depths_balanced :
    (b : CheckBudget) (e : CtxErr)
    → IsInt64 b.nesting
    → IsInt64 b.resolve_depth
    → (unnest (nest b).1 ≡ b)
      × (leave_resolve (enter_resolve none b).1 ≡ b)
      × ((enter_resolve (some e) b).1 ≡ b)
unfolding unnest leave_resolve enter_resolve
depths_balanced b e n r = (
  rw (nested b, sub64-add64 b.nesting n.0 n.1),
  rw (entered b, sub64-add64 b.resolve_depth r.0 r.1),
  refl,
)
