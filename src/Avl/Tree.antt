-- ===== src/Avl/Tree.antt =====
-- The nodes of avl.go, their heights and rotations, and the walks that call nothing.
pub mod Balance
pub mod Entries
use gicel.Prelude.{
  ℕ, suc, ◌+◌, ◌-◌, ◌/◌, ◌<◌, List, [], ◌∷◌, ◌++◌, Bool, Option, none, some, ltb, if◌then◌else◌,
}
use gicel.Prelude.Int.{ℤ, pos, ltb_ℤ, ◌-ℤ◌}

-- A nil pointer, or a node with its key, value, children and stored height.
pub data AvlNode {ℓ κ} (K : Type ℓ) (V : Type κ) : Type (ℓ ⊔ κ) where
  nil : AvlNode K V
  node : K → V → AvlNode K V → AvlNode K V → ℕ → AvlNode K V

module _ {ℓ κ} {K : Type ℓ} {V : Type κ} where
  unfoldable pub avl_height : AvlNode K V → ℕ
  avl_height nil = 0
  avl_height (node k v l r h) = h

  unfoldable pub avl_balance : AvlNode K V → ℤ
  unfolding avl_height ◌-ℤ◌
  avl_balance nil = pos 0
  avl_balance (node k v l r h) = pos (avl_height l) -ℤ pos (avl_height r)

  unfoldable pub avl_new_node : K → V → AvlNode K V
  avl_new_node key value = node key value nil nil 1

  unfoldable pub avl_update_height : AvlNode K V → AvlNode K V
  unfolding avl_height
  avl_update_height nil = nil
  avl_update_height (node k v l r h) =
      node k v l r
        (if ltb (avl_height r) (avl_height l) then avl_height l + 1 else avl_height r + 1)

  -- Where the child is nil the source would fault; `avl_rebalance` rotates only a node whose child
  -- has a positive stored height.
  unfoldable pub avl_rotate_right : AvlNode K V → AvlNode K V
  unfolding avl_update_height
  avl_rotate_right (node yk yv (node xk xv xl xr xh) yr yh) =
      avl_update_height (node xk xv xl (avl_update_height (node yk yv xr yr yh)) xh)
  avl_rotate_right y = y

  unfoldable pub avl_rotate_left : AvlNode K V → AvlNode K V
  unfolding avl_update_height
  avl_rotate_left (node xk xv xl (node yk yv yl yr yh) xh) =
      avl_update_height (node yk yv (avl_update_height (node xk xv xl yl xh)) yr yh)
  avl_rotate_left x = x

  -- The children of a node that leans to one side by more than 1.
  abbrev lean_left : K → V → AvlNode K V → AvlNode K V → ℕ → AvlNode K V
  lean_left k v l r h =
      avl_rotate_right
        (if ltb_ℤ (avl_balance l) (pos 0) then node k v (avl_rotate_left l) r h else node k v l r h)

  abbrev lean_right : K → V → AvlNode K V → AvlNode K V → ℕ → AvlNode K V
  lean_right k v l r h =
      avl_rotate_left (
        if ltb_ℤ (pos 0) (avl_balance r) then node k v l (avl_rotate_right r) h else node k v l r h)

  abbrev balanced_at : ℤ → AvlNode K V → AvlNode K V
  balanced_at bal nil = nil
  balanced_at bal (node k v l r h) =
      if ltb_ℤ (pos 1) bal
      then lean_left k v l r h
      else if ltb_ℤ (bal) (pos 0 -ℤ pos 1)
      then lean_right k v l r h
      else node k v l r h

  unfoldable pub avl_rebalance : AvlNode K V → AvlNode K V
  unfolding avl_update_height avl_balance avl_rotate_left avl_rotate_right
  avl_rebalance n = let n' = avl_update_height n in balanced_at (avl_balance n') n'

  -- The least entry of a node, and the greatest.
  unfoldable pub avl_min_node : K → V → AvlNode K V → K × V
  avl_min_node k v nil = (k, v)
  avl_min_node k v (node lk lv ll lr lh) = avl_min_node lk lv ll

  unfoldable pub avl_max_node : K → V → AvlNode K V → K × V
  avl_max_node k v nil = (k, v)
  avl_max_node k v (node rk rv rl rr rh) = avl_max_node rk rv rr

  unfoldable pub avl_collect : AvlNode K V → List (K × V) → List (K × V)
  avl_collect nil out = out
  avl_collect (node k v l r h) out = avl_collect r (avl_collect l out ++ (k, v) ∷ [])

  unfoldable pub avl_to_slice : AvlNode K V → List (K × V)
  unfolding avl_collect
  avl_to_slice n = avl_collect n []

  unfoldable pub avl_size : AvlNode K V → ℕ
  avl_size nil = 0
  avl_size (node k v l r h) = 1 + avl_size l + avl_size r
