-- ===== src/Avl/Tree/Entries.antt =====
-- The entries of a tree, from left to right, and what the rotations and walks do to them.
use gicel.Prelude.{
  ℕ, ◌≡◌, refl, sym, ap, ◌∙◌, List, [], ◌∷◌, ◌++◌, append_assoc, append-nil, length, length-append,
  arith, Bool-cases, inl, inr,
}
use gicel.Prelude.Int.{ℤ, pos, ltb_ℤ, ◌-ℤ◌}
use gicel.Avl.Tree.{
  AvlNode, nil, node, avl_balance, avl_update_height, avl_rotate_left, avl_rotate_right,
  avl_rebalance, lean_left, lean_right, balanced_at, avl_collect, avl_to_slice, avl_size,
}

module _ {ℓ κ} {K : Type ℓ} {V : Type κ} where
  -- The key-value pairs in order.
  abbrev pub entries : AvlNode K V → List (K × V)
  entries nil = []
  entries (node k v l r h) = entries l ++ (k, v) ∷ entries r

  entries-avl_update_height : (t : AvlNode K V) → entries (avl_update_height t) ≡ entries t
  unfolding avl_update_height
  entries-avl_update_height nil = refl
  entries-avl_update_height (node k v l r h) = refl

  entries-avl_rotate_right : (t : AvlNode K V) → entries (avl_rotate_right t) ≡ entries t
  unfolding avl_rotate_right
  entries-avl_rotate_right nil = refl
  entries-avl_rotate_right (node yk yv nil yr yh) = refl
  entries-avl_rotate_right (node yk yv (node xk xv xl xr xh) yr yh) =
      sym (append_assoc (entries xl) ((xk, xv) ∷ entries xr) ((yk, yv) ∷ entries yr))

  entries-avl_rotate_left : (t : AvlNode K V) → entries (avl_rotate_left t) ≡ entries t
  unfolding avl_rotate_left
  entries-avl_rotate_left nil = refl
  entries-avl_rotate_left (node xk xv xl nil xh) = refl
  entries-avl_rotate_left (node xk xv xl (node yk yv yl yr yh) xh) =
      append_assoc (entries xl) ((xk, xv) ∷ entries yl) ((yk, yv) ∷ entries yr)

  entries-lean_left :
      (k : K) (v : V) (l r : AvlNode K V) (h : ℕ)
      → entries (lean_left k v l r h) ≡ entries (node k v l r h)
  entries-lean_left k v l r h =
      rw entries-avl_rotate_right (elim (Bool-cases (ltb_ℤ (avl_balance l) (pos 0))) [
        | inl p ↦ rw p (ap (λ t. t ++ (k, v) ∷ entries r) (entries-avl_rotate_left l))
        | inr p ↦ rw p
      ])

  entries-lean_right :
      (k : K) (v : V) (l r : AvlNode K V) (h : ℕ)
      → entries (lean_right k v l r h) ≡ entries (node k v l r h)
  entries-lean_right k v l r h =
      rw entries-avl_rotate_left (elim (Bool-cases (ltb_ℤ (pos 0) (avl_balance r))) [
        | inl p ↦ rw p (ap (λ t. entries l ++ (k, v) ∷ t) (entries-avl_rotate_right r))
        | inr p ↦ rw p
      ])

  entries-balanced_at : (bal : ℤ) (t : AvlNode K V) → entries (balanced_at bal t) ≡ entries t
  entries-balanced_at bal nil = refl
  entries-balanced_at bal (node k v l r h) = elim (Bool-cases (ltb_ℤ (pos 1) bal)) [
    | inl p ↦ rw p (entries-lean_left k v l r h)
    | inr p ↦ rw p (elim (Bool-cases (ltb_ℤ bal (pos 0 -ℤ pos 1))) [
      | inl q ↦ rw q (entries-lean_right k v l r h)
      | inr q ↦ rw q
    ])
  ]

  -- Rebalancing moves no entry.
  pub entries-avl_rebalance : (t : AvlNode K V) → entries (avl_rebalance t) ≡ entries t
  unfolding avl_rebalance
  entries-avl_rebalance t =
      entries-balanced_at (avl_balance (avl_update_height t)) (avl_update_height t)
      ∙ entries-avl_update_height t

  collected : (t : AvlNode K V) (out : List (K × V)) → avl_collect t out ≡ out ++ entries t
  unfolding avl_collect
  collected nil out = sym (append-nil out)
  collected (node k v l r h) out =
      collected r (avl_collect l out ++ (k, v) ∷ [])
      ∙ append_assoc (avl_collect l out) ((k, v) ∷ []) (entries r)
      ∙ ap (λ t. t ++ (k, v) ∷ entries r) (collected l out)
      ∙ append_assoc out (entries l) ((k, v) ∷ entries r)

  -- The slice holds the entries in order, and the counted size is its length.
  pub avl_to_slice-eq : (t : AvlNode K V) → avl_to_slice t ≡ entries t
  unfolding avl_to_slice
  avl_to_slice-eq t = collected t []

  pub avl_size-eq : (t : AvlNode K V) → avl_size t ≡ length (entries t)
  unfolding avl_size
  avl_size-eq nil = refl
  avl_size-eq (node k v l r h) =
      omega (arith, length-append (entries l) ((k, v) ∷ entries r), avl_size-eq l, avl_size-eq r)
