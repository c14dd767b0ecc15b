-- ===== src/FingerTree/Concat.antt =====
-- Concatenation of finger trees: ftAppend, ftAppend3 and nodify of fingertree.go.
pub mod Laws
use gicel.Prelude.{ℕ, List, [], ◌∷◌, ◌++◌}
use gicel.FingerTree.Node.{Elem, FTree, ft_empty, ft_single, ft_deep, mk_node2, mk_node3, mk_deep}
use gicel.FingerTree.Ends.{ft_cons, ft_snoc}

module _ {ℓ} {A : Type ℓ} where
  -- Two or more elements as nodes; of fewer, nothing.
  unfoldable pub nodify : List (Elem A) → List (Elem A)
  nodify [] = []
  nodify (a ∷ []) = []
  nodify (a ∷ b ∷ []) = mk_node2 a b ∷ []
  nodify (a ∷ b ∷ c ∷ []) = mk_node3 a b c ∷ []
  nodify (a ∷ b ∷ c ∷ d ∷ []) = mk_node2 a b ∷ mk_node2 c d ∷ []
  nodify (a ∷ b ∷ c ∷ d ∷ e ∷ es) = mk_node3 a b c ∷ nodify (d ∷ e ∷ es)

  -- The loops over the elements in the middle, from the last to the first and on the other side
  -- from the first to the last.
  unfoldable pub cons_all : List (Elem A) → FTree A → FTree A
  unfolding ft_cons
  cons_all [] t = t
  cons_all (e ∷ es) t = ft_cons e (cons_all es t)

  unfoldable pub snoc_all : FTree A → List (Elem A) → FTree A
  unfolding ft_snoc
  snoc_all t [] = t
  snoc_all t (e ∷ es) = snoc_all (ft_snoc t e) es

  unfoldable pub ft_append3 : FTree A → List (Elem A) → FTree A → FTree A
  unfolding cons_all snoc_all ft_cons ft_snoc nodify
  ft_append3 ft_empty mid right = cons_all mid right
  ft_append3 (ft_single e) mid right = ft_cons e (cons_all mid right)
  ft_append3 (ft_deep s ll lm lr) mid ft_empty = snoc_all (ft_deep s ll lm lr) mid
  ft_append3 (ft_deep s ll lm lr) mid (ft_single e) = ft_snoc (snoc_all (ft_deep s ll lm lr) mid) e
  ft_append3 (ft_deep s ll lm lr) mid (ft_deep s' rl rm rr) =
      mk_deep ll (ft_append3 lm (nodify (lr ++ (mid ++ rl))) rm) rr

  unfoldable pub ft_append : FTree A → FTree A → FTree A
  unfolding ft_append3
  ft_append left right = ft_append3 left [] right
