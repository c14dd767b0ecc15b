-- ===== src/FingerTree/Ends.antt =====
-- The two ends of a finger tree: ftCons, ftSnoc, ftUncons and ftUnsnoc of fingertree.go. Indexing an
-- empty digit panics.
pub mod Laws
use gicel.Prelude.{ℕ, List, [], ◌∷◌, ◌++◌, Option, none, some}
use gicel.Prelude.Outcome.{Outcome, returns, panics, after_call}
use gicel.FingerTree.Node.{
  Elem, FTree, ft_empty, ft_single, ft_deep, mk_node3, mk_deep, as_node, digit_to_tree,
}

module _ {ℓ} {A : Type ℓ} where
  -- A full left digit pushes a node into the spine.
  unfoldable pub ft_cons : Elem A → FTree A → FTree A
  ft_cons a ft_empty = ft_single a
  ft_cons a (ft_single e) = mk_deep (a ∷ []) ft_empty (e ∷ [])
  ft_cons a (ft_deep size (b ∷ c ∷ d ∷ e ∷ more) mid right) =
      mk_deep (a ∷ b ∷ []) (ft_cons (mk_node3 c d e) mid) right
  ft_cons a (ft_deep size left mid right) = mk_deep (a ∷ left) mid right

  unfoldable pub ft_snoc : FTree A → Elem A → FTree A
  ft_snoc ft_empty a = ft_single a
  ft_snoc (ft_single e) a = mk_deep (e ∷ []) ft_empty (a ∷ [])
  ft_snoc (ft_deep size left mid (b ∷ c ∷ d ∷ e ∷ more)) a =
      mk_deep left (ft_snoc mid (mk_node3 b c d)) (e ∷ a ∷ [])
  ft_snoc (ft_deep size left mid right) a = mk_deep left mid (right ++ a ∷ [])

  -- The first element is taken with the tail; an exhausted digit takes a node of the spine.
  abbrev pulled_left :
      Elem A → List (Elem A) → Option (Elem A × FTree A) → Outcome (Option (Elem A × FTree A))
  pulled_left h right none = returns (some (h, digit_to_tree right))
  pulled_left h right (some (n, tail)) =
      after_call (as_node n) λ elems. returns (some (h, mk_deep elems tail right))

  unfoldable pub ft_uncons : FTree A → Outcome (Option (Elem A × FTree A))
  ft_uncons ft_empty = returns none
  ft_uncons (ft_single e) = returns (some (e, ft_empty))
  ft_uncons (ft_deep size [] mid right) = panics
  ft_uncons (ft_deep size (h ∷ []) mid right) = after_call (ft_uncons mid) (pulled_left h right)
  ft_uncons (ft_deep size (h ∷ e ∷ es) mid right) = returns (some (h, mk_deep (e ∷ es) mid right))

  -- The elements before the last, and the last.
  abbrev pub split_last : Elem A → List (Elem A) → List (Elem A) × Elem A
  split_last e [] = ([], e)
  split_last e (e' ∷ es) = let (init, last) = split_last e' es in (e ∷ init, last)

  abbrev pulled_right :
      Elem A → List (Elem A) → Option (FTree A × Elem A) → Outcome (Option (FTree A × Elem A))
  pulled_right l left none = returns (some (digit_to_tree left, l))
  pulled_right l left (some (init, n)) =
      after_call (as_node n) λ elems. returns (some (mk_deep left init elems, l))

  abbrev without_last :
      List (Elem A) → FTree A → List (Elem A) × Elem A → Outcome (Option (FTree A × Elem A))
  without_last left mid (init, last) = returns (some (mk_deep left mid init, last))

  unfoldable pub ft_unsnoc : FTree A → Outcome (Option (FTree A × Elem A))
  ft_unsnoc ft_empty = returns none
  ft_unsnoc (ft_single e) = returns (some (ft_empty, e))
  ft_unsnoc (ft_deep size left mid []) = panics
  ft_unsnoc (ft_deep size left mid (l ∷ [])) = after_call (ft_unsnoc mid) (pulled_right l left)
  ft_unsnoc (ft_deep size left mid (e ∷ e' ∷ es)) = without_last left mid (split_last e (e' ∷ es))
