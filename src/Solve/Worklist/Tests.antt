-- ===== src/Solve/Worklist/Tests.antt =====
-- Runs of the worklist.
use gicel.Prelude.{ℕ, ◌≡◌, refl, List, [], ◌∷◌, arith}
use gicel.Solve.Worklist.{Worklist, push, push_front, pop, drain, reset, load}
use gicel.Solve.Worklist.Client.{Op, run, run_list, run_refines}

abbrev two_pending : Worklist ℕ
two_pending = record { front = 2 ∷ []; back = 9 ∷ 5 ∷ []; back_head = 1 }

abbrev calls : List (Op ℕ)
calls =
    Op.push_back 6
    ∷ Op.kick_out (7 ∷ 8 ∷ [])
    ∷ Op.next
    ∷ Op.next
    ∷ Op.next
    ∷ Op.next
    ∷ Op.next
    ∷ Op.next
    ∷ []

served_in_order : run two_pending calls ≡ 7 ∷ 8 ∷ 2 ∷ 5 ∷ 6 ∷ []
unfolding run push push_front pop drain reset load
served_in_order = refl

run_refines_example : run two_pending calls ≡ run_list (2 ∷ 5 ∷ []) calls
run_refines_example = run_refines two_pending calls (omega arith)
