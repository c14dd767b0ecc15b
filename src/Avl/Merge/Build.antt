-- ===== src/Avl/Merge/Build.antt =====
-- The tree that is built from a sorted slice has its entries, is balanced, and is as flat as can be.
use gicel.Prelude.{
  ℕ, zero, suc, ◌+◌, ◌-◌, ◌/◌, ◌≤◌, ◌<◌, ◌≡◌, ◌⊎◌, dec_lt, ap₂, refl, sym, ap, ◌∙◌, some, List, [],
  ◌∷◌, ◌++◌, length, get_elem?, take, drop, arith, ltb, max, Bool-cases, inl, inr, ltb→lt,
  length-drop, ◌*◌, ◌^◌,
}
use native.Mathlib.Nat.{zero-add, suc-add, pow-suc, pow-le-pow_right, one-le-pow}
use native.Mathlib.Numerals.{towards_suc}
use gicel.Avl.Tree.{AvlNode, nil, avl_height}
use gicel.Avl.Tree.Balance.{IsAvl, avl_update_height-eq}
use gicel.Avl.Tree.Entries.{entries}
use gicel.Avl.Merge.{sorted_to_avl_range, sorted_to_avl, root_of}

-- `h` is the least height of a binary tree with `n` nodes.
abbrev pub IsHeight : ℕ → ℕ → Type 0
IsHeight n h = ((n ≡ 0) × (h ≡ 0)) ⊎ ((n < 2 ^ h) × (2 ^ h ≤ 2 * n))

four_pow : (a b : ℕ) → a + 2 ≤ b → 4 * 2 ^ a ≤ 2 ^ b
four_pow a b h =
    let e : 2 ^ (a + 2) ≡ 4 * 2 ^ a = simp towards_suc (omega arith) in
    omega (arith, e, pow-le-pow_right {n = 2} (omega arith) h)

two_pow : (a : ℕ) → 2 ^ (1 + a) ≡ 2 * 2 ^ a
two_pow a = rw (suc-add 0 a, zero-add a) (omega (arith, pow-suc 2 a))

pow_pos : (a : ℕ) → 1 ≤ 2 ^ a
pow_pos a = one-le-pow a 2 (omega arith)

-- Nearly equal halves have heights that differ by at most 1.
close_heights :
    (n m h k : ℕ) → IsHeight n h → IsHeight m k → m ≤ n → n ≤ m + 1 → (h ≤ k + 1) × (k ≤ h + 1)
close_heights n m h k p q a b = (
  elim (dec_lt (k + 1) h) [
    | yes c ↦ absurd (omega (arith, four_pow k h (omega arith), pow_pos k))
    | no c ↦ omega arith
  ],
  elim (dec_lt (h + 1) k) [
    | yes c ↦ absurd (omega (arith, four_pow h k (omega arith), pow_pos h))
    | no c ↦ omega arith
  ],
)

short_pow : (n h : ℕ) → IsHeight n h → 2 ^ h ≤ 2 * n + 1
short_pow n h (inl (a, b)) = rw b (omega arith)
short_pow n h (inr p) = omega arith

nonzero_pow : (n h : ℕ) → IsHeight n h → (n ≡ 0) ⊎ (2 ^ h ≤ 2 * n)
nonzero_pow n h (inl p) = inl p.0
nonzero_pow n h (inr p) = inr p.1

join-IsHeight :
    (n m h k : ℕ)
    → IsHeight n h
    → IsHeight m k
    → m ≤ n
    → n ≤ m + 1
    → IsHeight (n + m + 1) (1 + max h k)
join-IsHeight n m h k p q a b = elim (dec_lt h k) [
  | yes c ↦
      let e : max h k ≡ k = omega arith in
      rw e (
        rw (two_pow k) (
          inr
            (omega (arith, pow-le-pow_right {n = 2} (omega arith) {i = h} {j = k} (omega arith)))))
  | no c ↦
      let e : max h k ≡ h = omega arith in
      let flat : 2 ^ h ≤ 2 * n + 1 = short_pow n h p in
      let even : (n ≡ 0) ⊎ (2 ^ h ≤ 2 * n) = nonzero_pow n h p in
      rw e (
        rw (two_pow h) (
          inr (
            omega (
              arith,
              pow_pos h,
              pow-le-pow_right {n = 2} (omega arith) {i = k} {j = h} (omega arith),
            ))))
]

module _ {ℓ κ} {K : Type ℓ} {V : Type κ} where
  -- The part `[lo, hi)` of a slice.
  abbrev range : List (K × V) → ℕ → ℕ → List (K × V)
  range xs lo hi = take (hi - lo) (drop lo xs)

  take_around :
      (xs : List (K × V)) (m n : ℕ)
      → m < length xs
      → (x : K × V) × (get_elem? xs m ≡ some x)
        × (take (m + suc n) xs ≡ take m xs ++ x ∷ take n (drop (suc m) xs))
  take_around [] m n h = elim h [ ]
  take_around (x ∷ xs) zero n h = (x, refl, rw (zero-add (suc n)) (refl))
  take_around (x ∷ xs) (suc m) n h =
      let (y, got, split) = take_around xs m n (omega arith) in
      (y, got, rw (suc-add m (suc n)) (ap (λ t. x ∷ t) split))

  get_elem?-drop : (xs : List (K × V)) (lo m : ℕ) → get_elem? (drop lo xs) m ≡ get_elem? xs (lo + m)
  get_elem?-drop xs zero m = rw (zero-add m)
  get_elem?-drop [] (suc lo) m = refl
  get_elem?-drop (x ∷ xs) (suc lo) m = rw (suc-add lo m) (get_elem?-drop xs lo m)

  drop-drop : (xs : List (K × V)) (lo m : ℕ) → drop m (drop lo xs) ≡ drop (lo + m) xs
  drop-drop xs zero m = rw (zero-add m)
  drop-drop [] (suc lo) zero = rw (suc-add lo zero)
  drop-drop [] (suc lo) (suc m) = rw (suc-add lo (suc m))
  drop-drop (x ∷ xs) (suc lo) m = rw (suc-add lo m) (drop-drop xs lo m)

  -- A range around one of its positions.
  range_around :
      (xs : List (K × V)) (lo mid hi : ℕ)
      → lo ≤ mid
      → mid < hi
      → hi ≤ length xs
      → (x : K × V) × (get_elem? xs mid ≡ some x)
        × (range xs lo hi ≡ range xs lo mid ++ x ∷ range xs (mid + 1) hi)
  range_around xs lo mid hi p q r =
      let m : ℕ = mid - lo in
      let n : ℕ = hi - (mid + 1) in
      let at_mid : lo + (mid - lo) ≡ mid = omega arith in
      let after_mid : lo + suc (mid - lo) ≡ mid + 1 = omega arith in
      let size : (mid - lo) + suc (hi - (mid + 1)) ≡ hi - lo = omega arith in
      let (x, got, split) =
        take_around (drop lo xs) (mid - lo) (hi - (mid + 1)) (omega (arith, length-drop lo xs)) in
      (
        x,
        rw (get_elem?-drop xs lo (mid - lo), at_mid) at got,
        rw (drop-drop xs lo (suc (mid - lo)), after_mid, size) at split,
      )

  empty_range : (xs : List (K × V)) (lo hi : ℕ) → hi ≤ lo → range xs lo hi ≡ []
  empty_range xs lo hi h = let e : hi - lo ≡ 0 = omega arith in rw e

  -- A range of `n` entries is built into a balanced tree whose height is that of `n`.
  pub record Built (xs : List (K × V)) (lo hi : ℕ) (t : AvlNode K V) : Type (ℓ ⊔ κ) where
    pub holds : entries t ≡ range xs lo hi
    pub balanced : IsAvl t
    pub height : IsHeight (hi - lo) (avl_height t)

  Built-nil : (xs : List (K × V)) (lo hi : ℕ) → hi ≤ lo → Built xs lo hi nil
  unfolding avl_height
  Built-nil xs lo hi h =
      let e : hi - lo ≡ 0 = omega arith in
      record {
        holds = sym (empty_range xs lo hi h);
        balanced = tt;
        height = rw e (inl (refl, refl));
      }

  Built-node :
      (xs : List (K × V)) (lo mid hi : ℕ) (x : K × V) (l r : AvlNode K V)
      → lo ≤ mid
      → mid < hi
      → get_elem? xs mid ≡ some x
      → range xs lo hi ≡ range xs lo mid ++ x ∷ range xs (mid + 1) hi
      → mid - lo ≡ (hi - lo) / 2
      → Built xs lo mid l
      → Built xs (mid + 1) hi r
      → Built xs lo hi (root_of (get_elem? xs mid) l r)
  Built-node xs lo mid hi x l r p q got split half bl br =
      let size : mid - lo + (hi - (mid + 1)) + 1 ≡ hi - lo = omega arith in
      let close =
        close_heights (mid - lo) (hi - (mid + 1)) (avl_height l) (avl_height r) bl.height br.height
          (omega arith) (omega arith) in
      rw got (
        rw (avl_update_height-eq x.0 x.1 l r 0) (record {
          holds = ap₂ (λ a b. a ++ x ∷ b) bl.holds br.holds ∙ sym split;
          balanced = (bl.balanced, br.balanced, refl, close.0, close.1);
          height = rw (← size) (
              unfold avl_height in
              join-IsHeight (mid - lo) (hi - (mid + 1)) (avl_height l) (avl_height r) bl.height
                br.height (omega arith) (omega arith));
        }))

  sorted_to_avl_range-Built :
      (n : ℕ) (xs : List (K × V)) (lo hi : ℕ)
      → hi - lo ≤ n
      → hi ≤ length xs
      → Built xs lo hi (sorted_to_avl_range n xs lo hi)
  unfolding sorted_to_avl_range
  sorted_to_avl_range-Built zero xs lo hi f h = Built-nil xs lo hi (omega arith)
  sorted_to_avl_range-Built (suc n) xs lo hi f h = elim (Bool-cases (ltb lo hi)) [
    | inr e ↦ rw e (Built-nil xs lo hi (ground arith))
    | inl e ↦
        let p : lo < hi = ltb→lt lo hi e in
        let mid = lo + (hi - lo) / 2 in
        let (x, got, split) = range_around xs lo mid hi (omega arith) (omega arith) h in
        rw e (
          Built-node xs lo mid hi x _ _ (omega arith) (omega arith) got split (omega arith)
            (sorted_to_avl_range-Built n xs lo mid (omega arith) (omega arith))
            (sorted_to_avl_range-Built n xs (mid + 1) hi (omega arith) h))
  ]

  take_all : (xs : List (K × V)) → take (length xs) xs ≡ xs
  take_all [] = refl
  take_all (x ∷ xs) = ap (λ t. x ∷ t) (take_all xs)

  -- A tree built from a slice holds its entries in order, and is balanced, of the least height that
  -- so many nodes allow.
  pub sorted_to_avl_builds :
      (xs : List (K × V))
      → (entries (sorted_to_avl xs) ≡ xs)
        × IsAvl (sorted_to_avl xs)
        × IsHeight (length xs) (avl_height (sorted_to_avl xs))
  unfolding sorted_to_avl
  sorted_to_avl_builds xs =
      let b = sorted_to_avl_range-Built (length xs) xs 0 (length xs) (omega arith) (omega arith) in
      let all : length xs - 0 ≡ length xs = omega arith in
      (b.holds ∙ rw all (take_all xs), b.balanced, rw all at b.height)
