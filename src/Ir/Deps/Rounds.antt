-- ===== src/Ir/Deps/Rounds.antt =====
-- internal/lang/ir/deps.go: the invariant of the loop on the queue, and the number of its rounds.
use gicel.Prelude.{
  ℕ, ◌+◌, ◌-◌, ◌≤◌, ◌<◌, ◌==◌, Bool, true, false, ◌&&◌, not, List, [], ◌∷◌, ◌++◌, ltb, lt→ltb,
  if◌then◌else◌, ◌≡◌, refl, sym, ap, ◌∙◌, arith, append_assoc,
}
use gicel.Ir.Deps.{relax, Kahn, rdeps, start_deg, kahn_start, kahn_step}
use gicel.Ir.Deps.Sums.{
  num, count, sum, count-append, count-filter-range, length-filter-range, sum_congr, sum_add,
  sum_single, le_sum,
}
use gicel.Ir.Deps.Relax.{relaxed_deg, relaxed_queue}

and_true : (b : Bool) → (b && true) ≡ b
and_true true = refl
and_true false = refl

module _ (n : ℕ) (dep : ℕ → ℕ → Bool) where
  -- What position j depends on is in `seen`.
  abbrev pub DepsIn : List ℕ → ℕ → Type 0
  DepsIn seen j = (k : ℕ) → k < n → dep j k ≡ true → 0 < count k seen

  -- Each position stands after what it depends on.
  abbrev pub After : List ℕ → List ℕ → Type 0
  After seen [] = Unit
  After seen (j ∷ js) = DepsIn seen j × After (seen ++ j ∷ []) js

  After-snoc :
      (seen js : List ℕ) (i : ℕ) → After seen js → DepsIn (seen ++ js) i → After seen (js ++ i ∷ [])
  After-snoc seen [] i a d = ((λ k l e. omega (arith, d k l e, count-append k seen [])), tt)
  After-snoc seen (j ∷ js) i (a, b) d = (
    a,
    After-snoc (seen ++ j ∷ []) js i b (λ k l e. rw (append_assoc seen (j ∷ []) js) (d k l e)),
  )

  abbrev open_deps : List ℕ → ℕ → ℕ
  open_deps out j = sum n (λ k. num (dep j k && (count k out == 0)))

  pub record Inv (queue : List ℕ) (st : Kahn) : Type 0 where
    pub once : (j : ℕ) → j < n → count j st.result + count j queue ≡ num (st.in_deg j == 0)
    pub below : (j : ℕ) → n ≤ j → count j st.result + count j queue ≡ 0
    pub unmet : (j : ℕ) → j < n → st.in_deg j ≡ open_deps st.result j
    pub flag : (j : ℕ) → st.emitted j ≡ not (count j st.result == 0)
    pub sorted : After [] st.result

  pub Inv-start : Inv ((kahn_start n dep).queue) (kahn_start n dep)
  unfolding kahn_start
  Inv-start = record {
    once = λ j l. ground (arith, count-filter-range (λ i. start_deg n dep i == 0) n j);
    below = λ j l. ground (arith, count-filter-range (λ i. start_deg n dep i == 0) n j);
    unmet = λ j l.
        length-filter-range (dep j) n ∙ sum_congr n _ _ (λ k m. ap num (sym (and_true (dep j k))));
    flag = λ j. refl;
    sorted = tt;
  }

  module _ (idx : ℕ) (rest : List ℕ) (st : Kahn) (inv : Inv (idx ∷ rest) st) where
    idx_lt : idx < n
    idx_lt = ground (arith, inv.below idx)

    idx_new : (count idx st.result ≡ 0) × (count idx rest ≡ 0) × (st.in_deg idx ≡ 0)
    idx_new = ground (arith, inv.once idx idx_lt)

    count_out : (k : ℕ) → count k (st.result ++ idx ∷ []) ≡ count k st.result + num (idx == k)
    count_out k = ground (arith, count-append k st.result (idx ∷ []))

    open_deps_step :
        (j : ℕ) → open_deps st.result j ≡ open_deps (st.result ++ idx ∷ []) j + num (dep j idx)
    open_deps_step j =
        sum_congr n _ _
          (λ k l. ground (arith, count_out k, idx_new.0, ap (dep j), ap (λ i. count i st.result)))
        ∙ sum_add n (λ k. num (dep j k && (count k (st.result ++ idx ∷ []) == 0)))
            (λ k. num (k == idx && dep j k))
        ∙ ap (λ t. open_deps (st.result ++ idx ∷ []) j + t)
            (sum_single n idx (dep j) ∙ ap (λ b. num (b && dep j idx)) (lt→ltb idx n idx_lt))

    deps_met : DepsIn st.result idx
    deps_met k l e = ground (
      arith,
      inv.unmet idx idx_lt,
      idx_new.2,
      le_sum n (λ k. num (dep idx k && (count k st.result == 0))) k l,
    )

    deg_after :
        (j : ℕ)
        → j < n
        → (relax (rdeps n dep idx) st.in_deg rest).0 j
          ≡ (if dep j idx then st.in_deg j - 1 else st.in_deg j)
    deg_after j l = ground (arith, relaxed_deg (λ i. dep i idx) st.in_deg rest n j)

    queue_after :
        (j : ℕ)
        → count j ((relax (rdeps n dep idx) st.in_deg rest).1)
          ≡ count j rest + num (ltb j n && (dep j idx && (st.in_deg j == 1)))
    queue_after j =
        ap (count j) (relaxed_queue (λ i. dep i idx) st.in_deg rest n)
        ∙ count-append j rest _
        ∙ ap (λ t. count j rest + t) (count-filter-range (λ i. dep i idx && (st.in_deg i == 1)) n j)

    pub Inv-step : Inv ((kahn_step n dep idx rest st).queue) (kahn_step n dep idx rest st)
    unfolding kahn_step
    Inv-step = record {
      once = λ j l. ground (
        arith,
        count_out j,
        queue_after j,
        deg_after j l,
        inv.once j l,
        inv.unmet j l,
        open_deps_step j,
      );
      below = λ j l. ground (arith, count_out j, queue_after j, inv.below j l, idx_lt);
      unmet = λ j l. ground (arith, deg_after j l, inv.unmet j l, open_deps_step j);
      flag = λ j. ground (arith, inv.flag j, count_out j);
      sorted = After-snoc [] st.result idx inv.sorted deps_met;
    }
