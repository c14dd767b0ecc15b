-- ===== src/Ir/Deps/Sorted.antt =====
-- internal/lang/ir/deps.go: the order of the sorted bindings.
use gicel.Prelude.{
  ℕ, zero, suc, ◌+◌, ◌≤◌, ◌<◌, ◌==◌, Bool, true, false, ◌&&◌, not, some, List, [], ◌∷◌, ◌++◌,
  length, ltb, ◌≡◌, ◌≢◌, refl, ap, ◌∙◌, arith, append-nil, length-append, dec_lt, subst,
}
use gicel.Prelude.Bytes.{Bytes}
use gicel.Ir.Deps.{
  range, filter, Kahn, kahn_start, kahn_step, kahn_loop, sort_order, pick, sort_bindings, VarKey,
  depends_on,
}
use gicel.Ir.Deps.Sums.{
  num, count, sum, count-append, count-filter-range, sum_le, sum_one, length_counts, term_of_sum,
}
use gicel.Ir.Deps.Rounds.{After, Inv, Inv-start, Inv-step}

-- Each position below n stands in the list once, and no other number.
abbrev pub Arrangement : ℕ → List ℕ → Type 0
Arrangement n order = (j : ℕ) → count j order ≡ num (ltb j n)

no_counts : (rest : List ℕ) → ((j : ℕ) → count j rest ≡ 0) → rest ≡ []
no_counts [] h = refl
no_counts (x ∷ xs) h = absurd (ground (arith, h x))

module _ (n : ℕ) (dep : ℕ → ℕ → Bool) where
  -- Each position of the list depends on one of the list.
  abbrev pub Blocked : List ℕ → Type 0
  Blocked rest =
      (j : ℕ) → 0 < count j rest → (k : ℕ) × (dep j k ≡ true) × (k < n) × (0 < count k rest)

  loop_length : (q : List ℕ) (st : Kahn) → Inv n dep q st → length st.result + length q ≤ n
  loop_length q st inv =
      let below : (j : ℕ) → n ≤ j → count j (st.result ++ q) ≡ 0 =
        λ j l. omega (arith, count-append j st.result q, inv.below j l) in
      let once : (j : ℕ) → j < n → count j (st.result ++ q) ≤ 1 =
        λ j l. ground (arith, count-append j st.result q, inv.once j l) in
      omega (
        arith,
        length-append st.result q,
        length_counts n (st.result ++ q) below,
        sum_le n (λ j. count j (st.result ++ q)) (λ j. 1) once,
        sum_one n,
      )

  kahn_loop_ends :
      (fuel : ℕ) (q : List ℕ) (st : Kahn)
      → Inv n dep q st
      → n ≤ fuel + length st.result
      → (end : Kahn) × (kahn_loop n dep fuel q st ≡ some end) × Inv n dep [] end
  unfolding kahn_loop kahn_step
  kahn_loop_ends fuel [] st inv h = (st, ground arith, inv)
  kahn_loop_ends zero (idx ∷ rest) st inv h =
      absurd (omega (arith, loop_length (idx ∷ rest) st inv))
  kahn_loop_ends (suc fuel) (idx ∷ rest) st inv h =
      kahn_loop_ends fuel _ (kahn_step n dep idx rest st) (Inv-step n dep idx rest st inv)
        (omega (arith, length-append st.result (idx ∷ [])))

  module _ (end : Kahn) (inv : Inv n dep [] end) where
    abbrev left_over : List ℕ
    left_over = filter (λ i. not (end.emitted i)) (range n)

    count_left : (j : ℕ) → count j left_over ≡ num (ltb j n && (count j end.result == 0))
    count_left j = count-filter-range (λ i. not (end.emitted i)) n j ∙ ground (arith, inv.flag j)

    end-Arrangement : Arrangement n (end.result ++ left_over)
    end-Arrangement j = elim (dec_lt j n) [
      | yes l ↦ ground (arith, count-append j end.result left_over, count_left j, inv.once j l)
      | no l ↦
          ground
            (arith, count-append j end.result left_over, count_left j, inv.below j (omega arith))
    ]

    end-Blocked : Blocked left_over
    end-Blocked j h =
        let l : j < n = ground (arith, count_left j) in
        let unmet = λ (k : ℕ). num (dep j k && (count k end.result == 0)) in
        let unmet_one : 0 < sum n unmet =
          ground (arith, count_left j, inv.once j l, inv.unmet j l) in
        let (k, m, t) = term_of_sum n unmet unmet_one in
        (k, ground arith, m, ground (arith, count_left k))

  pub sort_order_ends :
      (front rest : List ℕ) × (sort_order n dep n ≡ some (front ++ rest))
      × Arrangement n (front ++ rest)
      × After n dep [] front
      × Blocked rest
      × (p : ℕ → Bool) × (rest ≡ filter p (range n))
  unfolding sort_order
  sort_order_ends =
      let (end, e, inv) =
        kahn_loop_ends n ((kahn_start n dep).queue) (kahn_start n dep) (Inv-start n dep)
          (omega arith) in
      (
        end.result,
        left_over end inv,
        ground (arith, e),
        end-Arrangement end inv,
        inv.sorted,
        end-Blocked end inv,
        (λ i. not (end.emitted i)),
        refl,
      )

  -- Where the dependencies decrease a rank, nothing is blocked.
  no-Blocked :
      (rank : ℕ → ℕ)
      → ((j k : ℕ) → j < n → k < n → dep j k ≡ true → rank k < rank j)
      → (rest : List ℕ) → ((j : ℕ) → 0 < count j rest → j < n)
      → Blocked rest
      → (bound j : ℕ) → rank j < bound
      → count j rest ≡ 0
  no-Blocked rank acyclic rest inside b zero j l = elim l [ ]
  no-Blocked rank acyclic rest inside b (suc bound) j l = elim (dec_lt 0 (count j rest)) [
    | no z ↦ omega arith
    | yes p ↦
        let (k, e, m, q) = b j p in
        absurd (
          omega (
            arith,
            no-Blocked rank acyclic rest inside b bound k
                (omega (arith, acyclic j k (inside j p) m e)),
          ))
  ]

module _ {B : Type 0} (name : B → Bytes) (free_vars : B → List VarKey) where
  depends_on_self : (b : B) (k : ℕ) → k < 1 → depends_on name free_vars (b ∷ []) 0 k ≢ true
  unfolding depends_on
  depends_on_self b k l e = ground arith

  -- For every list of bindings, the loop ends within as many rounds as there are bindings, and the result
  -- has each binding once: first a part in which each binding stands after all the bindings it depends
  -- on, then a part in the original order, each of which depends on another binding of that part.
  pub sort_bindings_ends :
      (bs : List B)
      → (front rest : List ℕ) × (sort_bindings name free_vars bs ≡ some (pick bs (front ++ rest)))
        × Arrangement (length bs) (front ++ rest)
        × After (length bs) (depends_on name free_vars bs) [] front
        × Blocked (length bs) (depends_on name free_vars bs) rest
        × (p : ℕ → Bool) × (rest ≡ filter p (range (length bs)))
  unfolding sort_bindings
  sort_bindings_ends [] = (
    [],
    [],
    refl,
    (λ j. ground arith),
    tt,
    (λ j h. absurd (omega (arith, h))),
    (λ i. false),
    refl,
  )
  sort_bindings_ends (b ∷ []) = (
    0 ∷ [],
    [],
    ground arith,
    (λ j. ground arith),
    ((λ k l e. absurd (depends_on_self b k l e)), tt),
    (λ j h. absurd (omega (arith, h))),
    (λ i. false),
    refl,
  )
  sort_bindings_ends (a ∷ b ∷ bs) =
      let l = a ∷ b ∷ bs in
      let (front, rest, e, arranged, after, blocked, p, r) =
        sort_order_ends (length l) (depends_on name free_vars l) in
      (front, rest, ground (arith, e), arranged, after, blocked, p, r)

  -- Where no binding depends on itself through others, that is, where the dependencies decrease some
  -- rank: the result has each binding once, and each stands after all the bindings it depends on.
  pub sort_bindings_acyclic :
      (bs : List B) (rank : ℕ → ℕ)
      → ((j k : ℕ)
          → j < length bs
          → k < length bs
          → depends_on name free_vars bs j k ≡ true
          → rank k < rank j)
      → (order : List ℕ) × (sort_bindings name free_vars bs ≡ some (pick bs order))
        × Arrangement (length bs) order
        × After (length bs) (depends_on name free_vars bs) [] order
  sort_bindings_acyclic bs rank acyclic =
      let (front, rest, e, arranged, after, blocked, p, r) = sort_bindings_ends bs in
      let inside : (j : ℕ) → 0 < count j rest → j < length bs =
        λ j h. ground (arith, arranged j, count-append j front rest) in
      let nil : rest ≡ [] = no_counts rest (λ j.
        no-Blocked (length bs) (depends_on name free_vars bs) rank acyclic rest inside blocked
          (suc (rank j)) j (omega arith)) in
      let whole : front ++ rest ≡ front = rw nil (append-nil front) in
      (
        front,
        e ∙ ap (λ l. some (pick bs l)) whole,
        subst (Arrangement (length bs)) whole arranged,
        after,
      )
