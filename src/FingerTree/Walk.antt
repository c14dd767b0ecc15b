-- ===== src/FingerTree/Walk.antt =====
-- The walks of fingertree.go: to a list, from a list, and the left fold. `Cons` and `Nil` values are the
-- constructors of the library's list; the accumulator that the walk writes through a pointer is an
-- argument and the result.
pub mod Laws
use gicel.Prelude.{ℕ, List, [], ◌∷◌}
use gicel.Prelude.Outcome.{Outcome, returns, panics, after_call}
use gicel.Avl.Applier.{Answer, ok, err, and_then}
use gicel.FingerTree.Node.{Elem, leaf, node2, node3, FTree, ft_empty, ft_single, ft_deep}
use gicel.FingerTree.Ends.{ft_snoc}

module _ {ℓ} {A : Type ℓ} where
  -- An element in a node: its values, from the last to the first.
  unfoldable pub node_to_list_r : Elem A → List (Elem A) → List (Elem A)
  node_to_list_r (leaf a) acc = leaf a ∷ acc
  node_to_list_r (node2 n a b) acc = node_to_list_r a (node_to_list_r b acc)
  node_to_list_r (node3 n a b c) acc = node_to_list_r a (node_to_list_r b (node_to_list_r c acc))

  -- `asNode` of a spine element, then `nodeToListR`.
  abbrev spine_elem : Elem A → List (Elem A) → Outcome (List (Elem A))
  spine_elem (leaf a) acc = panics
  spine_elem n acc = returns (node_to_list_r n acc)

  unfoldable pub digit_to_list_r : List (Elem A) → List (Elem A) → List (Elem A)
  digit_to_list_r [] acc = acc
  digit_to_list_r (e ∷ d) acc = e ∷ digit_to_list_r d acc

  unfoldable pub digit_to_list_spine_r : List (Elem A) → List (Elem A) → Outcome (List (Elem A))
  unfolding node_to_list_r
  digit_to_list_spine_r [] acc = returns acc
  digit_to_list_spine_r (e ∷ d) acc = after_call (digit_to_list_spine_r d acc) (spine_elem e)

  unfoldable pub ft_to_list_spine : FTree A → List (Elem A) → Outcome (List (Elem A))
  unfolding node_to_list_r digit_to_list_spine_r
  ft_to_list_spine ft_empty acc = returns acc
  ft_to_list_spine (ft_single e) acc = spine_elem e acc
  ft_to_list_spine (ft_deep size left mid right) acc =
      after_call (digit_to_list_spine_r right acc)
        λ acc1. after_call (ft_to_list_spine mid acc1) λ acc2. digit_to_list_spine_r left acc2

  unfoldable pub ft_to_list_r : FTree A → List (Elem A) → Outcome (List (Elem A))
  unfolding digit_to_list_r ft_to_list_spine
  ft_to_list_r ft_empty acc = returns acc
  ft_to_list_r (ft_single e) acc = returns (e ∷ acc)
  ft_to_list_r (ft_deep size left mid right) acc =
      after_call (ft_to_list_spine mid (digit_to_list_r right acc))
        λ acc2. returns (digit_to_list_r left acc2)

  unfoldable pub ft_to_list : FTree A → Outcome (List (Elem A))
  unfolding ft_to_list_r
  ft_to_list t = ft_to_list_r t []

  -- The loop along the list. A list value that is not `Cons` or `Nil` ends it like `Nil`.
  unfoldable pub from_list_loop : FTree A → List (Elem A) → FTree A
  unfolding ft_snoc
  from_list_loop t [] = t
  from_list_loop t (v ∷ vs) = from_list_loop (ft_snoc t v) vs

  unfoldable pub ft_from_list : List (Elem A) → FTree A
  unfolding from_list_loop
  ft_from_list vs = from_list_loop ft_empty vs

-- The fold calls `f` at each value, with the environment passed along, up to the first error.
module _ {ℓ κ} {A : Type ℓ} {B : Type κ} {C E : Type 0} (f : B → Elem A → C → Answer C E B) where
  unfoldable pub node_foldl : Elem A → B → C → Answer C E B
  node_foldl (leaf a) acc ce = f acc (leaf a) ce
  node_foldl (node2 n a b) acc ce = and_then (node_foldl a acc ce) (node_foldl b)
  node_foldl (node3 n a b c) acc ce =
      and_then (node_foldl a acc ce) λ acc1 ce1. and_then (node_foldl b acc1 ce1) (node_foldl c)

  -- The rest of a body that may panic, unless the answer is an error.
  abbrev then_run : Answer C E B → (B → C → Outcome (Answer C E B)) → Outcome (Answer C E B)
  then_run (ok acc ce) rest = rest acc ce
  then_run (err e ce) rest = returns (err e ce)

  abbrev spine_foldl : Elem A → B → C → Outcome (Answer C E B)
  spine_foldl (leaf a) acc ce = panics
  spine_foldl n acc ce = returns (node_foldl n acc ce)

  abbrev fold_digit : List (Elem A) → B → C → Answer C E B
  fold_digit [] acc ce = ok acc ce
  fold_digit (v ∷ d) acc ce = and_then (f acc v ce) (fold_digit d)

  abbrev fold_nodes : List (Elem A) → B → C → Outcome (Answer C E B)
  fold_nodes [] acc ce = returns (ok acc ce)
  fold_nodes (v ∷ d) acc ce =
      after_call (spine_foldl v acc ce) (λ answer. then_run answer (fold_nodes d))

  unfoldable pub ft_foldl_spine : FTree A → B → C → Outcome (Answer C E B)
  unfolding node_foldl
  ft_foldl_spine ft_empty acc ce = returns (ok acc ce)
  ft_foldl_spine (ft_single e) acc ce = spine_foldl e acc ce
  ft_foldl_spine (ft_deep size left mid right) acc ce =
      after_call (fold_nodes left acc ce) λ answer. then_run answer λ acc1 ce1.
        after_call (ft_foldl_spine mid acc1 ce1) λ answer1. then_run answer1 (fold_nodes right)

  unfoldable pub ft_foldl : FTree A → B → C → Outcome (Answer C E B)
  unfolding ft_foldl_spine
  ft_foldl ft_empty acc ce = returns (ok acc ce)
  ft_foldl (ft_single e) acc ce = returns (f acc e ce)
  ft_foldl (ft_deep size left mid right) acc ce = then_run (fold_digit left acc ce) λ acc1 ce1.
      after_call (ft_foldl_spine mid acc1 ce1)
        λ answer. then_run answer λ acc2 ce2. returns (fold_digit right acc2 ce2)
