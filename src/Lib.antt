-- ===== src/Lib.antt =====
-- A verification library of GICEL, an embeddable, typed and sandboxed language in Go. A program is
-- parsed, checked (internal/compiler), compiled to bytecode and run (internal/runtime) under a budget
-- (internal/infra/budget), with the capabilities and libraries that the host grants (internal/host).
--
-- Parts, and the files that model them:
-- - Budget: internal/infra/budget. Budget/Runtime is `Budget` (budget.go), which the virtual
--   machine and the host libraries charge; Budget/Checking is `CheckBudget` (check.go), which the
--   type checker, the unifier and the constraint solver charge. A Go method becomes a function of
--   the same name in snake case (`Alloc` is `charge`), from a budget to an error and a budget.
-- - Solve/Worklist: internal/compiler/check/solve/worklist.go, the queue that the constraint solver
--   works off; the tests of Worklist/Client run it against a list.
-- - Avl: internal/host/stdlib/avl.go, the tree under the library modules Data.Map and Data.Set.
--   Applier is the boundary to the evaluator: a call of a language function takes the capability
--   environment and gives a value or an error with the environment after it. Tree holds the nodes
--   and rotations, Search the operations by key, Walk the traversals, Merge the joins of two trees.
-- - Caps: internal/runtime/eval/capenv.go, the capability environment: handles on maps in a heap
--   that are copied on the first write through a shared handle. Isolation holds the runs of writes,
--   Build the restriction and the merge.
-- - Containers: internal/host/stdlib/map.go and set.go, the primitives of Data.Map and Data.Set on
--   the tree. MapVal is the host value `mapVal` and its invariant, Map and Set the primitives
--   (`mapInsertImpl` is `map_insert`) with their laws in the child modules. An argument of another
--   type is a constructor of its own; the budget's answer to each charge is an argument.
-- - FingerTree: internal/host/stdlib/fingertree.go, the sequence type: Node holds the nodes, their
--   sizes and the invariant, Ends the operations on both ends, Concat, Index and Walk the rest. A
--   call that may panic gives an outcome.
-- - Levels: internal/lang/types/level.go and the normal form and order of levels in
--   internal/compiler/check/unify/level_unify.go, with the value of a level under an assignment.
-- - Unify/Levels: the rest of level_unify.go on the unifier of Unify/Trail. Levels has the functions
--   (`zonkLevel` is `zonk_level`, `UnifyLevels` is `unify_levels`); the pointer comparisons of zonkLevel
--   are a flag in its result. Assignment and Solving say which maps of solutions are well-formed and when
--   an assignment fits one; Zonk, Total, Normal and Default are about zonking, Meta, Solve, Ended,
--   Sequence, Structure and Unifying about unification.
-- - Unify/Trail: internal/compiler/check/unify/unify_trail.go, the undo log of the unifier: Trail has the
--   maps and the operations, Actions the work that a scope may do, Restore the roll back. Left out of the
--   unifier are the overlay of temporary solutions, the counter of fresh metavariables and the callback
--   that zonking binds once, which no roll back restores, and the fields that are set once.
-- - Span: internal/infra/span/span.go, the table of line starts and the search of a position in it; Lines
--   relates it to reading the text.
-- - Suggest: internal/infra/diagnostic/suggest.go, the names near a mistyped one; Distance and Scripts are
--   about the edit distance.
-- - Ir/Deps: internal/lang/ir/deps.go, the sorting of bindings: Deps has the loop, Sums the counting of
--   positions, Rounds its invariant, Sorted the order of the result.
-- - Exhaust: internal/compiler/check/exhaust, the check for missing and redundant patterns. Pattern and
--   Matrix are matrix.go, Search is exhaust.go; Values has the values that patterns are matched against,
--   their types by what the data types declare, and when a pattern may be tried on a value. Declared
--   relates the signatures and argument types that the check finds to the declared ones. Rows, Records,
--   Columns, Covering, Signatures, Typing, Steps and Wildcard hold the lemmas on one step of the search,
--   Soundness and Report its meaning, Limit and Depth the search at its depth limit.
-- - Prelude: shared names, Boolean tests, lists, 64-bit integers (Int64) and byte strings (Bytes).
--
-- Conventions. Go's `int` and `int64` are integers with the wrap-around of 64 bits written out where
-- they are counted up (Budget); lengths, heights and indices are natural numbers. An `error` is an
-- optional value, or the error case of an answer. The mutable receiver of a method is an argument and
-- a part of the result. A context is the error it would report at the moment of the call. Types that a
-- part never looks into (constraints, keys, values) are type parameters.
--
-- Fuel. `merge_loop` runs on the number of entries left plus one, `sorted_to_avl_range` on the length
-- of the range, `kahn_loop` on the number of bindings, `location_loop` on the number of lines; the
-- results below include that this is enough. `is_useful_at` runs on the depth that the source itself
-- limits to 32, and answers `assumed` behind it, as at a type without known constructors; the source
-- answers "not useful" in both. `zonk_level` and `zonk_level_default` run on the solutions behind one
-- another, at most as many as there are metavariables, `unify_levels` on the depth of its own calls;
-- the results below include that enough fuel exists. All other recursion is structural.
--
-- Assumed of the budget, where a result says so: that it admits the charges of a primitive. Assumed of
-- the evaluator, where a result says so: that the comparison of keys returns, and answers with a total
-- order that tells different keys apart (`Decides`, `LawfulOrder`); of the function of a union or an
-- intersection, that it returns a value of its arguments alone (`Computes`).
--
-- Assumed of the types in Exhaust, where a result says so: that the constructors of a type have
-- different names and the arguments they are declared with (`LawfulEnv`), and that the equality of
-- literals is transitive. A value has a type if its constructor is one that the data type declares, of
-- the refined ones one whose return type can be unified with the type, or a label of the variant, and
-- its arguments have the types of the constructor's; in a data type with a refined constructor,
-- arguments of any types. The free variables of a binding's expression are a parameter of Ir/Deps.
--
-- Not modelled: the front end (scanner, parser, desugaring), the type checker besides its budget,
-- worklist, universe levels, trail and pattern check, the IR besides the order of its bindings, its
-- optimiser, the bytecode compiler and virtual machine, the engine, the language server and the other
-- host libraries. Texts of error messages are left out throughout.
pub mod Avl
pub mod Budget
pub mod Caps
pub mod Containers
pub mod Exhaust
pub mod FingerTree
pub mod Ir
pub mod Levels
pub mod Prelude
pub mod Solve
pub mod Span
pub mod Suggest
pub mod Unify
