-- ===== src/Avl/Tree/Balance.antt =====
-- The height-balance invariant, and how the rotations restore it.
use gicel.Prelude.{
  ℕ, ◌+◌, ◌≤◌, ◌<◌, ◌≡◌, refl, max, arith, ltb, ltb→lt, if◌then◌else◌, Bool-cases, false, inl, inr,
}
use gicel.Prelude.Int.{pos, ltb_ℤ, ◌-ℤ◌}
use gicel.Avl.Tree.{
  AvlNode, nil, node, avl_height, avl_balance, avl_update_height, avl_rotate_left, avl_rotate_right,
  avl_rebalance, lean_left, lean_right,
}

-- The sign of a node's balance, as an order of its children's heights.
left_heavier : (a b : ℕ) → ltb_ℤ (pos 1) (pos a -ℤ pos b) ≡ ltb (b + 1) a
unfolding ◌-ℤ◌
left_heavier a b = ground arith

right_heavier : (a b : ℕ) → ltb_ℤ (pos a -ℤ pos b) (pos 0 -ℤ pos 1) ≡ ltb (a + 1) b
unfolding ◌-ℤ◌
right_heavier a b = ground arith

leans_right : (a b : ℕ) → ltb_ℤ (pos a -ℤ pos b) (pos 0) ≡ ltb a b
unfolding ◌-ℤ◌
leans_right a b = ground arith

leans_left : (a b : ℕ) → ltb_ℤ (pos 0) (pos a -ℤ pos b) ≡ ltb b a
unfolding ◌-ℤ◌
leans_left a b = ground arith

tallest : (a b : ℕ) → (if ltb b a then a + 1 else b + 1) ≡ 1 + max a b
tallest a b = ground arith

module _ {ℓ κ} {K : Type ℓ} {V : Type κ} where
  -- Each stored height is that of the subtree, and siblings differ by at most 1 in height.
  abbrev pub IsAvl : AvlNode K V → Type 0
  IsAvl nil = Unit
  IsAvl (node k v l r h) =
      IsAvl l
      × IsAvl r
      × (h ≡ 1 + max (avl_height l) (avl_height r))
      × (avl_height l ≤ avl_height r + 1)
      × (avl_height r ≤ avl_height l + 1)

  -- The heights that rebalancing may give a node whose children differ by at most 2.
  pub record Rebalanced (l r t : AvlNode K V) : Type 0 where
    pub balanced : IsAvl t
    pub at_least : max (avl_height l) (avl_height r) ≤ avl_height t
    pub at_most : avl_height t ≤ max (avl_height l) (avl_height r) + 1
    pub unchanged :
        avl_height l ≤ avl_height r + 1
        → avl_height r ≤ avl_height l + 1
        → avl_height t ≡ max (avl_height l) (avl_height r) + 1

  -- A node with its height made exact.
  abbrev pub join : K → V → AvlNode K V → AvlNode K V → AvlNode K V
  join k v l r = node k v l r (1 + max (avl_height l) (avl_height r))

  pub avl_update_height-eq :
      (k : K) (v : V) (l r : AvlNode K V) (h : ℕ)
      → avl_update_height (node k v l r h) ≡ join k v l r
  unfolding avl_update_height
  avl_update_height-eq k v l r h = rw (tallest (avl_height l) (avl_height r))

  pub avl_rotate_right-eq :
      (yk xk : K) (yv xv : V) (xl xr yr : AvlNode K V) (xh yh : ℕ)
      → avl_rotate_right (node yk yv (node xk xv xl xr xh) yr yh) ≡ join xk xv xl (join yk yv xr yr)
  unfolding avl_rotate_right
  avl_rotate_right-eq yk xk yv xv xl xr yr xh yh =
      rw (tallest (avl_height xr) (avl_height yr))
        (rw (tallest (avl_height xl) (1 + max (avl_height xr) (avl_height yr))))

  pub avl_rotate_left-eq :
      (xk yk : K) (xv yv : V) (xl yl yr : AvlNode K V) (xh yh : ℕ)
      → avl_rotate_left (node xk xv xl (node yk yv yl yr yh) xh) ≡ join yk yv (join xk xv xl yl) yr
  unfolding avl_rotate_left
  avl_rotate_left-eq xk yk xv yv xl yl yr xh yh =
      rw (tallest (avl_height xl) (avl_height yl))
        (rw (tallest (1 + max (avl_height xl) (avl_height yl)) (avl_height yr)))

  join-IsAvl :
      (k : K) (v : V) (l r : AvlNode K V)
      → IsAvl l
      → IsAvl r
      → avl_height l ≤ avl_height r + 1
      → avl_height r ≤ avl_height l + 1
      → IsAvl (join k v l r)
  join-IsAvl k v l r al ar hl hr = (al, ar, refl, hl, hr)

  join-Rebalanced :
      (k : K) (v : V) (l r l' r' : AvlNode K V)
      → IsAvl l'
      → IsAvl r'
      → avl_height l' ≤ avl_height r' + 1
      → avl_height r' ≤ avl_height l' + 1
      → 2 + max (avl_height l') (avl_height r') ≤ max (avl_height l) (avl_height r) + 2
      → max (avl_height l) (avl_height r) ≤ 1 + max (avl_height l') (avl_height r')
      → (avl_height l ≤ avl_height r + 1
          → avl_height r ≤ avl_height l + 1
          → max (avl_height l') (avl_height r') ≡ max (avl_height l) (avl_height r))
      → Rebalanced l r (join k v l' r')
  unfolding avl_height
  join-Rebalanced k v l r l' r' al ar hl hr most least same = record {
    balanced = (al, ar, refl, hl, hr);
    at_least = omega arith;
    at_most = omega arith;
    unchanged = λ p q. omega (arith, same p q);
  }

  -- A left child that does not lean to the right: one rotation.
  once_right :
      (k lk : K) (v lv : V) (ll lr r : AvlNode K V) (h lh : ℕ)
      → IsAvl (node lk lv ll lr lh)
      → IsAvl r
      → lh ≡ avl_height r + 2
      → avl_height lr ≤ avl_height ll
      → Rebalanced (node lk lv ll lr lh) r (avl_rotate_right (node k v (node lk lv ll lr lh) r h))
  unfolding avl_height
  once_right k lk v lv ll lr r h lh (all, alr, exact, hl, hr) ar e c = rw avl_rotate_right-eq (
      join-Rebalanced lk lv _ r ll (join k v lr r) all
        (join-IsAvl k v lr r alr ar (omega arith) (omega arith)) (omega arith) (omega arith)
        (omega arith) (omega arith) (λ p q. absurd (omega arith)))

  -- A left child that leans to the right: two rotations, which lift the grandchild.
  twice_right :
      (k lk mk : K) (v lv mv : V) (ll ml mr r : AvlNode K V) (h lh mh : ℕ)
      → IsAvl (node lk lv ll (node mk mv ml mr mh) lh)
      → IsAvl r
      → lh ≡ avl_height r + 2
      → avl_height ll < mh
      → Rebalanced (node lk lv ll (node mk mv ml mr mh) lh) r (
          avl_rotate_right
            (node k v (avl_rotate_left (node lk lv ll (node mk mv ml mr mh) lh)) r h))
  unfolding avl_height
  twice_right k lk mk v lv mv ll ml mr r h lh mh
        (all, (aml, amr, mexact, ml_le, mr_le), exact, hl, hr) ar e c =
      rw avl_rotate_left-eq (
        rw avl_rotate_right-eq (
          join-Rebalanced mk mv _ r (join lk lv ll ml) (join k v mr r)
            (join-IsAvl lk lv ll ml all aml (omega arith) (omega arith))
            (join-IsAvl k v mr r amr ar (omega arith) (omega arith)) (omega arith) (omega arith)
            (omega arith) (omega arith) (λ p q. absurd (omega arith))))

  lean_left-Rebalanced :
      (k lk : K) (v lv : V) (ll lr r : AvlNode K V) (h lh : ℕ)
      → IsAvl (node lk lv ll lr lh)
      → IsAvl r
      → lh ≡ avl_height r + 2
      → Rebalanced (node lk lv ll lr lh) r (lean_left k v (node lk lv ll lr lh) r h)
  unfolding avl_height avl_balance
  lean_left-Rebalanced k lk v lv ll nil r h lh al ar e =
      let level : ltb (avl_height ll) 0 ≡ false = ground arith in
      rw (leans_right (avl_height ll) 0)
        (rw level (once_right k lk v lv ll nil r h lh al ar e (omega arith)))
  lean_left-Rebalanced k lk v lv ll (node mk mv ml mr mh) r h lh al ar e =
      rw (leans_right (avl_height ll) mh) (elim (Bool-cases (ltb (avl_height ll) mh)) [
        | inl p ↦ rw p (twice_right k lk mk v lv mv ll ml mr r h lh mh al ar e (ltb→lt _ _ p))
        | inr p ↦ rw p (once_right k lk v lv ll (node mk mv ml mr mh) r h lh al ar e (ground arith))
      ])

  -- The mirror images.
  once_left :
      (k rk : K) (v rv : V) (l rl rr : AvlNode K V) (h rh : ℕ)
      → IsAvl l
      → IsAvl (node rk rv rl rr rh)
      → rh ≡ avl_height l + 2
      → avl_height rl ≤ avl_height rr
      → Rebalanced l (node rk rv rl rr rh) (avl_rotate_left (node k v l (node rk rv rl rr rh) h))
  unfolding avl_height
  once_left k rk v rv l rl rr h rh al (arl, arr, exact, hl, hr) e c = rw avl_rotate_left-eq (
      join-Rebalanced rk rv l _ (join k v l rl) rr
        (join-IsAvl k v l rl al arl (omega arith) (omega arith)) arr (omega arith) (omega arith)
        (omega arith) (omega arith) (λ p q. absurd (omega arith)))

  twice_left :
      (k rk mk : K) (v rv mv : V) (l ml mr rr : AvlNode K V) (h rh mh : ℕ)
      → IsAvl l
      → IsAvl (node rk rv (node mk mv ml mr mh) rr rh)
      → rh ≡ avl_height l + 2
      → avl_height rr < mh
      → Rebalanced l (node rk rv (node mk mv ml mr mh) rr rh) (
          avl_rotate_left
            (node k v l (avl_rotate_right (node rk rv (node mk mv ml mr mh) rr rh)) h))
  unfolding avl_height
  twice_left k rk mk v rv mv l ml mr rr h rh mh al
        ((aml, amr, mexact, ml_le, mr_le), arr, exact, hl, hr) e c =
      rw avl_rotate_right-eq (
        rw avl_rotate_left-eq (
          join-Rebalanced mk mv l _ (join k v l ml) (join rk rv mr rr)
            (join-IsAvl k v l ml al aml (omega arith) (omega arith))
            (join-IsAvl rk rv mr rr amr arr (omega arith) (omega arith)) (omega arith) (omega arith)
            (omega arith) (omega arith) (λ p q. absurd (omega arith))))

  lean_right-Rebalanced :
      (k rk : K) (v rv : V) (l rl rr : AvlNode K V) (h rh : ℕ)
      → IsAvl l
      → IsAvl (node rk rv rl rr rh)
      → rh ≡ avl_height l + 2
      → Rebalanced l (node rk rv rl rr rh) (lean_right k v l (node rk rv rl rr rh) h)
  unfolding avl_height avl_balance
  lean_right-Rebalanced k rk v rv l nil rr h rh al ar e =
      let level : ltb (avl_height rr) 0 ≡ false = ground arith in
      rw (leans_left 0 (avl_height rr))
        (rw level (once_left k rk v rv l nil rr h rh al ar e (omega arith)))
  lean_right-Rebalanced k rk v rv l (node mk mv ml mr mh) rr h rh al ar e =
      rw (leans_left mh (avl_height rr)) (elim (Bool-cases (ltb (avl_height rr) mh)) [
        | inl p ↦ rw p (twice_left k rk mk v rv mv l ml mr rr h rh mh al ar e (ltb→lt _ _ p))
        | inr p ↦ rw p (once_left k rk v rv l (node mk mv ml mr mh) rr h rh al ar e (ground arith))
      ])

  lean_left-any :
      (k : K) (v : V) (l r : AvlNode K V) (h : ℕ)
      → IsAvl l
      → IsAvl r
      → avl_height l ≡ avl_height r + 2
      → Rebalanced l r (lean_left k v l r h)
  unfolding avl_height
  lean_left-any k v nil r h al ar e = absurd (omega arith)
  lean_left-any k v (node lk lv ll lr lh) r h al ar e =
      lean_left-Rebalanced k lk v lv ll lr r h lh al ar e

  lean_right-any :
      (k : K) (v : V) (l r : AvlNode K V) (h : ℕ)
      → IsAvl l
      → IsAvl r
      → avl_height r ≡ avl_height l + 2
      → Rebalanced l r (lean_right k v l r h)
  unfolding avl_height
  lean_right-any k v l nil h al ar e = absurd (omega arith)
  lean_right-any k v l (node rk rv rl rr rh) h al ar e =
      lean_right-Rebalanced k rk v rv l rl rr h rh al ar e

  -- Rebalancing a node whose children are balanced and differ by at most 2 in height gives a
  -- balanced tree of the height of the taller child, or one more.
  pub avl_rebalance-Rebalanced :
      (k : K) (v : V) (l r : AvlNode K V) (h : ℕ)
      → IsAvl l
      → IsAvl r
      → avl_height l ≤ avl_height r + 2
      → avl_height r ≤ avl_height l + 2
      → Rebalanced l r (avl_rebalance (node k v l r h))
  unfolding avl_rebalance
  avl_rebalance-Rebalanced k v l r h al ar hl hr =
      rw
        (
          left_heavier (avl_height l) (avl_height r),
          right_heavier (avl_height l) (avl_height r),
          tallest (avl_height l) (avl_height r),
        )
        (elim (Bool-cases (ltb (avl_height r + 1) (avl_height l))) [
          | inl p ↦ rw p (lean_left-any k v l r _ al ar (ground arith))
          | inr p ↦ rw p (elim (Bool-cases (ltb (avl_height l + 1) (avl_height r))) [
            | inl q ↦ rw q (lean_right-any k v l r _ al ar (ground arith))
            | inr q ↦ rw q (
                join-Rebalanced k v l r l r al ar (ground arith) (ground arith) (omega arith)
                  (omega arith) (λ _ _. refl))
          ])
        ])
