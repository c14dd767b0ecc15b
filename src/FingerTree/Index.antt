-- ===== src/FingerTree/Index.antt =====
-- Access by position: ftIndex, ftIndexNode, digitIndex and nodeIndex of fingertree.go. The caller
-- rejects a negative index. A nil result is `none`.
pub mod Laws
use gicel.Prelude.{ℕ, ◌-◌, List, [], ◌∷◌, Option, none, some, ltb, ◌==◌, if◌then◌else◌}
use gicel.Prelude.Outcome.{Outcome, returns, panics}
use gicel.FingerTree.Node.{
  Elem, leaf, node2, node3, FTree, ft_empty, ft_single, ft_deep, elem_size, digit_size, ftree_size,
}

module _ {ℓ} {A : Type ℓ} where
  -- An element that is reached: the loop goes on in a node, and ends at a value.
  unfoldable pub node_index : Elem A → ℕ → Option (Elem A)
  node_index (leaf a) i = some (leaf a)
  node_index (node2 n a b) i =
      if ltb i (elem_size a)
      then node_index a i
      else (let j = i - elem_size a in if ltb j (elem_size b) then node_index b j else none)
  node_index (node3 n a b c) i =
      if ltb i (elem_size a)
      then node_index a i
      else (let j = i - elem_size a in
          if ltb j (elem_size b)
          then node_index b j
          else (let k = j - elem_size b in if ltb k (elem_size c) then node_index c k else none))

  unfoldable pub digit_index : List (Elem A) → ℕ → Option (Elem A)
  unfolding node_index
  digit_index [] i = none
  digit_index (v ∷ d) i =
      if ltb i (elem_size v) then node_index v i else digit_index d (i - elem_size v)

  -- `asNode` of the element, then `nodeIndex`.
  abbrev single_index : Elem A → ℕ → Outcome (Option (Elem A))
  single_index (leaf a) i = panics
  single_index n i = returns (node_index n i)

  unfoldable pub ft_index_node : FTree A → ℕ → Outcome (Option (Elem A))
  unfolding node_index digit_index
  ft_index_node ft_empty i = returns none
  ft_index_node (ft_single e) i = single_index e i
  ft_index_node (ft_deep size left mid right) i =
      if ltb i (digit_size left)
      then returns (digit_index left i)
      else (let j = i - digit_size left in
          if ltb j (ftree_size mid)
          then ft_index_node mid j
          else returns (digit_index right (j - ftree_size mid)))

  unfoldable pub ft_index : FTree A → ℕ → Outcome (Option (Elem A))
  unfolding digit_index ft_index_node
  ft_index ft_empty i = returns none
  ft_index (ft_single e) i = returns (if i == 0 then some e else none)
  ft_index (ft_deep size left mid right) i =
      if ltb i (digit_size left)
      then returns (digit_index left i)
      else (let j = i - digit_size left in
          if ltb j (ftree_size mid)
          then ft_index_node mid j
          else returns (digit_index right (j - ftree_size mid)))
