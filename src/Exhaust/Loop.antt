-- ===== src/Exhaust/Loop.antt =====
-- internal/compiler/check/exhaust/exhaust.go: the loop over the alternatives.
use gicel.Prelude.{
  ◌<◌, ◌==◌, ℕ, suc, ◌+◌, Bool, true, false, ◌&&◌, ◌||◌, not, none, some, List, [], ◌∷◌, ◌++◌,
  length, leb, ◌≡◌, refl, sym, ap, ◌∙◌, if◌then◌else◌, arith, append_assoc, append-nil,
}
use gicel.Prelude.Bytes.{Bytes}
use gicel.Exhaust.Pattern.{wild, Pats, nil, cons, Pattern, core_to_pat}
use gicel.Exhaust.Search.{
  CheckEnv, useful, assumed, missing_reports, report_missing, missing_cons, constructor_sigs,
  covered, search, row_of, check_redundant, check_missing, is_useful, Report, redundant, missing,
  missing_witness,
}
use gicel.Exhaust.Values.{Value, vnil, vcons, matches, Compat, covers, Compatible}

-- The alternatives as rows.
abbrev pub rows_of : {Lit : Type 0} → List (Pattern Lit) → List (Pats Lit)
rows_of [] = []
rows_of (alt ∷ alts) = cons (core_to_pat alt) nil ∷ rows_of alts

module _ {Lit : Type 0} (same : Lit → Lit → Bool) where
  -- Some alternative matches.
  abbrev pub some_matches : List (Pattern Lit) → Value Lit → Bool
  some_matches [] v = false
  some_matches (alt ∷ alts) v = matches same (core_to_pat alt) v || some_matches alts v

  pub rows_of-covers :
      (alts : List (Pattern Lit)) (v : Value Lit)
      → covers same (rows_of alts) (vcons v vnil) ≡ some_matches alts v
  rows_of-covers [] v = refl
  rows_of-covers (alt ∷ alts) v = ground (arith, rows_of-covers alts v)

module _ {Lit : Type 0} where
  -- Each alternative may be tried on the value.
  abbrev pub AllCompat : List (Pattern Lit) → Value Lit → Type 0
  AllCompat [] v = Unit
  AllCompat (alt ∷ alts) v = Compat (core_to_pat alt) v × AllCompat alts v

  pub rows_of-Compatible :
      (alts : List (Pattern Lit)) (v : Value Lit)
      → AllCompat alts v
      → Compatible (rows_of alts) (vcons v vnil)
  rows_of-Compatible [] v h = tt
  rows_of-Compatible (alt ∷ alts) v (h, t) = ((h, tt), rows_of-Compatible alts v t)

  -- The alternative at the position is reported as redundant.
  abbrev pub reported : ℕ → List (Report Lit) → Bool
  reported i [] = false
  reported i (redundant j ∷ rs) = j == i || reported i rs
  reported i (missing cs ∷ rs) = reported i rs
  reported i (missing_witness w ∷ rs) = reported i rs

  pub reported-append :
      (i : ℕ) (xs ys : List (Report Lit)) → reported i (xs ++ ys) ≡ (reported i xs || reported i ys)
  reported-append i [] ys = refl
  reported-append i (redundant j ∷ xs) ys = ground (arith, reported-append i xs ys)
  reported-append i (missing cs ∷ xs) ys = reported-append i xs ys
  reported-append i (missing_witness w ∷ xs) ys = reported-append i xs ys

  -- One round of the loop.
  reported-round :
      (b : Bool) (i j : ℕ) (rs : List (Report Lit)) (mx : List (Pats Lit))
      → reported j (
          (if◌then◌else◌ {A = List (Report Lit) × List (Pats Lit)} b
            (redundant i ∷ rs, mx)
            (rs, mx)).0)
        ≡ ((b && (i == j)) || reported j rs)
  reported-round true i j rs mx = refl
  reported-round false i j rs mx = refl

  rows-round :
      (b : Bool) (i : ℕ) (rs : List (Report Lit)) (mx : List (Pats Lit))
      → (if◌then◌else◌ {A = List (Report Lit) × List (Pats Lit)} b
          (redundant i ∷ rs, mx)
          (rs, mx)).1
        ≡ mx
  rows-round true i rs mx = refl
  rows-round false i rs mx = refl

reported-report_missing :
    (Lit : Type 0) (i : ℕ) (cs : List Bytes) → reported i (report_missing {Lit = Lit} cs) ≡ false
reported-report_missing Lit i [] = refl
reported-report_missing Lit i (c ∷ cs) = refl

-- The scrutinee's type as the check uses it.
abbrev pub scrutinee : {Ty : Type 0} → CheckEnv Ty → Ty → Ty
scrutinee env ty = env.reduce_family (env.zonk ty)

module _ {Ty Lit : Type 0} (env : CheckEnv Ty) (same : Lit → Lit → Bool) where
  pub check_redundant-rows :
      (scrut : Ty) (i : ℕ) (mx : List (Pats Lit)) (alts : List (Pattern Lit))
      → (check_redundant env same scrut i mx alts).1 ≡ mx ++ rows_of alts
  unfolding check_redundant
  check_redundant-rows scrut i mx [] = sym (append-nil mx)
  check_redundant-rows scrut i mx (alt ∷ alts) =
      rows-round _ i _ _
      ∙ check_redundant-rows scrut (suc i) (mx ++ row_of env same alt ∷ []) alts
      ∙ append_assoc mx (row_of env same alt ∷ []) (rows_of alts)

  reported-earlier :
      (scrut : Ty) (i j : ℕ) (mx : List (Pats Lit)) (alts : List (Pattern Lit))
      → j < i
      → reported j ((check_redundant env same scrut i mx alts).0) ≡ false
  unfolding check_redundant
  reported-earlier scrut i j mx [] l = refl
  reported-earlier scrut i j mx (alt ∷ alts) l =
      let later =
        reported-earlier scrut (suc i) j (mx ++ row_of env same alt ∷ []) alts (omega (arith, l)) in
      let tail = check_redundant env same scrut (suc i) (mx ++ row_of env same alt ∷ []) alts in
      let test =
        not (leb i 0) && not (is_useful env same mx (row_of env same alt) (some scrut ∷ [])) in
      reported-round test i j tail.0 tail.1 ∙ ground (arith, later, l)

  pub reported-at :
      (scrut : Ty) (i : ℕ) (mx : List (Pats Lit)) (before : List (Pattern Lit)) (alt : Pattern Lit)
      (after : List (Pattern Lit))
      → reported
          (i + length before)
          ((check_redundant env same scrut i mx (before ++ alt ∷ after)).0)
        ≡ (not (leb (i + length before) 0)
            && not
                (is_useful env same (mx ++ rows_of before) (row_of env same alt) (some scrut ∷ [])))
  unfolding check_redundant
  reported-at scrut i mx [] alt after =
      let mx' = mx ++ row_of env same alt ∷ [] in
      let later = reported-earlier scrut (suc i) (i + 0) mx' after (omega arith) in
      let later_all = check_redundant env same scrut (suc i) mx' after in
      reported-round
        (not (leb i 0) && not (is_useful env same mx (row_of env same alt) (some scrut ∷ []))) i
        (i + 0) later_all.0 later_all.1
      ∙ ap
          (λ x.
            (not (leb i 0)
              && not (is_useful env same mx (row_of env same alt) (some scrut ∷ []))
              && (i == i + 0))
            || x)
          later
      ∙ ground (
        arith,
        append-nil mx,
        ap (λ m. is_useful env same m (row_of env same alt) (some scrut ∷ [])) (append-nil mx),
      )
  reported-at scrut i mx (b ∷ before) alt after =
      let mx' = mx ++ row_of env same b ∷ [] in
      let tail = (check_redundant env same scrut (suc i) mx' (before ++ alt ∷ after)).0 in
      let shift : i + suc (length before) ≡ suc i + length before = omega arith in
      let q = row_of env same alt in
      let test =
        not (leb i 0) && not (is_useful env same mx (row_of env same b) (some scrut ∷ [])) in
      reported-round test i (i + suc (length before)) tail
        ((check_redundant env same scrut (suc i) mx' (before ++ alt ∷ after)).1)
      ∙ ground (
        arith,
        ap (λ x. reported x tail) shift,
        reported-at scrut (suc i) mx' before alt after,
        ap (λ m. is_useful env same m q (some scrut ∷ []))
            (append_assoc mx (row_of env same b ∷ []) (rows_of before)),
      )

  pub reported-check_missing :
      (i : ℕ) (scrut : Ty) (mx : List (Pats Lit))
      → reported i (check_missing env same scrut mx) ≡ false
  unfolding check_missing
  reported-check_missing i scrut mx =
      elim (search env same mx (cons wild nil) (some scrut ∷ []))
        as (λ v. reported i (missing_reports env same scrut mx v) ≡ false) [
          | covered ↦ refl
          | assumed ↦ refl
          | useful w ↦
              elim (constructor_sigs env (some scrut))
                as (λ o.
                  reported i (elim o [
                    | some sigs ↦ report_missing (missing_cons env same scrut mx sigs)
                    | none ↦ missing_witness w ∷ []
                  ])
                  ≡ false) [
                    | none ↦ refl
                    | some sigs ↦
                        reported-report_missing Lit i (missing_cons env same scrut mx sigs)
                  ]
        ]
