-- ===== src/Ir/Deps/Relax.antt =====
-- internal/lang/ir/deps.go: the loop over the reverse edges as one update of all counts.
use gicel.Prelude.{
  ℕ, zero, suc, ◌-◌, ◌==◌, Bool, ◌&&◌, List, [], ◌∷◌, ◌++◌, ltb, if◌then◌else◌, ◌≡◌, refl, sym, ap,
  arith, append_assoc, append-nil,
}
use gicel.Ir.Deps.{range, filter, relax}
use gicel.Ir.Deps.Sums.{filter-append}

relax-append :
    (xs ys : List ℕ) (d : ℕ → ℕ) (q : List ℕ)
    → relax (xs ++ ys) d q ≡ relax ys ((relax xs d q).0) ((relax xs d q).1)
relax-append [] ys d q = refl
relax-append (x ∷ xs) ys d q = relax-append xs ys _ _

module _ (p : ℕ → Bool) (d : ℕ → ℕ) (q : List ℕ) where
  abbrev pub relaxed : ℕ → (ℕ → ℕ) × List ℕ
  relaxed m = relax (filter p (range m)) d q

  relaxed-suc :
      (m : ℕ)
      → relaxed (suc m)
        ≡ (if p m then relax (m ∷ []) ((relaxed m).0) ((relaxed m).1) else relaxed m)
  relaxed-suc m =
      rw
        (
          filter-append p (range m) (m ∷ []),
          relax-append (filter p (range m)) (filter p (m ∷ [])) d q,
        )
        (ground arith)

  pub relaxed_deg : (m j : ℕ) → (relaxed m).0 j ≡ (if ltb j m && p j then d j - 1 else d j)
  relaxed_deg zero j = ground arith
  relaxed_deg (suc m) j =
      rw (relaxed-suc m) (ground (arith, relaxed_deg m j, relaxed_deg m m, ap p, ap d))

  pub relaxed_queue : (m : ℕ) → (relaxed m).1 ≡ q ++ filter (λ j. p j && (d j == 1)) (range m)
  relaxed_queue zero = sym (append-nil q)
  relaxed_queue (suc m) =
      rw (relaxed-suc m, filter-append (λ j. p j && (d j == 1)) (range m) (m ∷ []))
        (ground (
          arith,
          relaxed_deg m m,
          relaxed_queue m,
          append_assoc q (filter (λ j. p j && (d j == 1)) (range m)) (m ∷ []),
          append-nil (filter (λ j. p j && (d j == 1)) (range m)),
        ))
