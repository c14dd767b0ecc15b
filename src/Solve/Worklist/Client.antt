-- ===== src/Solve/Worklist/Client.antt =====
-- Any sequence of calls on a worklist, against the same calls on a plain list.
use gicel.Prelude.{◌≡◌, refl, ap, ap₂, ◌∙◌, Option, none, some, List, [], ◌∷◌, ◌++◌, arith}
use gicel.Solve.Worklist.{Worklist, push, push_front, pop, drain, reset, load}
use gicel.Solve.Worklist.Queue.{
  IsValid, pending, take_first, pending-push, pending-push_front, served-pop, drain-pending,
  pending-drain, push-IsValid, push_front-IsValid, pop-IsValid, drain-IsValid,
}

pub data Op {ℓ} (Ct : Type ℓ) : Type ℓ where
  push_back : Ct → Op Ct
  kick_out : List Ct → Op Ct
  next : Op Ct
  save : Op Ct
  restore : List Ct → Op Ct
  clear : Op Ct

module _ {ℓ} {Ct : Type ℓ} where
  abbrev pub to_list : Option Ct → List Ct
  to_list none = []
  to_list (some x) = x ∷ []

  -- One call: the constraints that it hands out, and the worklist after it.
  pub call : Worklist Ct → Op Ct → List Ct × Worklist Ct
  call w (push_back ct) = ([], push w ct)
  call w (kick_out cts) = ([], push_front w cts)
  call w next = let (out, w') = pop w in (to_list out, w')
  call w save = drain w
  call w (restore cts) = ([], load w cts)
  call w clear = ([], reset w)

  -- The same call on a list.
  pub call_list : List Ct → Op Ct → List Ct × List Ct
  call_list q (push_back ct) = ([], q ++ ct ∷ [])
  call_list q (kick_out cts) = ([], cts ++ q)
  call_list q next = let (out, q') = take_first q in (to_list out, q')
  call_list q save = (q, [])
  call_list q (restore cts) = ([], cts)
  call_list q clear = ([], [])

  -- The constraints that a run hands out, in order.
  unfoldable pub run : Worklist Ct → List (Op Ct) → List Ct
  unfolding call
  run w [] = []
  run w (op ∷ ops) = let (out, w') = call w op in out ++ run w' ops

  pub run_list : List Ct → List (Op Ct) → List Ct
  run_list q [] = []
  run_list q (op ∷ ops) = let (out, q') = call_list q op in out ++ run_list q' ops

  call-IsValid : (w : Worklist Ct) (op : Op Ct) → IsValid w → IsValid (call w op).1
  unfolding call
  call-IsValid w (push_back ct) v = push-IsValid w ct v
  call-IsValid w (kick_out cts) v = push_front-IsValid w cts v
  call-IsValid w next v = pop-IsValid w v
  call-IsValid w save v = drain-IsValid w
  call-IsValid w (restore cts) v = unfold load in omega arith
  call-IsValid w clear v = unfold reset in omega arith

  abbrev out_pending : List Ct × Worklist Ct → List Ct × List Ct
  out_pending r = (r.0, pending r.1)

  call_refines :
      (w : Worklist Ct) (op : Op Ct)
      → IsValid w
      → out_pending (call w op) ≡ call_list (pending w) op
  unfolding call call_list
  call_refines w (push_back ct) v = ap (λ q. ([], q)) (pending-push w ct v)
  call_refines w (kick_out cts) v = ap (λ q. ([], q)) (pending-push_front w cts)
  call_refines w next v = ap (λ r. (to_list r.0, r.1)) (served-pop w v)
  call_refines w save v = ap₂ (λ a b. (a, b)) (drain-pending w v) (pending-drain w)
  call_refines w (restore cts) v = unfold load in refl
  call_refines w clear v = unfold reset in refl

  -- Whatever the calls, a worklist hands out what the list does.
  pub run_refines :
      (w : Worklist Ct) (ops : List (Op Ct)) → IsValid w → run w ops ≡ run_list (pending w) ops
  unfolding run run_list
  run_refines w [] v = refl
  run_refines w (op ∷ ops) v =
      let (out, w') = call w op in
      ap (λ t. out ++ t) (run_refines w' ops (call-IsValid w op v))
      ∙ ap (λ r. r.0 ++ run_list r.1 ops) (call_refines w op v)
