-- ===== src/Exhaust/Report.antt =====
-- internal/compiler/check/exhaust/exhaust.go: what the check of a case expression says of its alternatives.
use gicel.Prelude.{
  ◌+◌, Bool, true, ◌&&◌, not, some, List, [], ◌∷◌, ◌++◌, length, leb, ◌≡◌, ◌≢◌, refl, sym, ap, ◌∙◌,
  arith,
}
use gicel.Exhaust.Pattern.{Pat, wild, nil, cons, Pattern, core_to_pat}
use gicel.Exhaust.Search.{
  CheckEnv, Verdict, found, useful, assumed, missing_reports, covered, search, check_redundant,
  check_missing, check_exhaustive, is_useful,
}
use gicel.Exhaust.Values.{Value, vnil, vcons, matches, Compat, HasType}
use gicel.Exhaust.Typing.{LawfulEnv}
use gicel.Exhaust.Soundness.{search_sound}
use gicel.Exhaust.Loop.{
  rows_of, some_matches, rows_of-covers, AllCompat, rows_of-Compatible, reported, reported-append,
  scrutinee, reported-at, reported-check_missing,
}

module _ {Ty Lit : Type 0} (env : CheckEnv Ty) (same : Lit → Lit → Bool) where
  -- The check reports the alternative behind `before` as redundant exactly when there is an alternative
  -- in front of it and the search finds no witness for it in the rows of those.
  pub reported-check_exhaustive :
      (ty : Ty) (before : List (Pattern Lit)) (alt : Pattern Lit) (after : List (Pattern Lit))
      → reported (length before) (check_exhaustive env same ty (before ++ alt ∷ after)) ≡ (
          not (leb (length before) 0)
          && not (
              is_useful env same
                (rows_of before)
                (cons (core_to_pat alt) nil)
                (some (scrutinee env ty) ∷ [])))
  unfolding check_exhaustive
  reported-check_exhaustive ty before alt after =
      let scrut = scrutinee env ty in
      let zero_add : 0 + length before ≡ length before = omega arith in
      let loop = check_redundant env same scrut 0 [] (before ++ alt ∷ after) in
      ground (
        arith,
        reported-append (length before) loop.0 (check_missing env same scrut loop.1),
        reported-check_missing env same (length before) scrut loop.1,
        reported-at env same scrut 0 [] before alt after,
        ap (λ x. reported x loop.0) zero_add,
      )

-- No witness, and nothing assumed.
covered_of_reported :
    {Lit : Type 0} (v : Verdict Lit)
    → v ≢ assumed
    → (b : Bool) → (b && not (found v)) ≡ true
    → v ≡ covered
covered_of_reported (useful w) n b e = absurd (ground (arith, e))
covered_of_reported covered n b e = refl
covered_of_reported assumed n b e = absurd (n refl)

module _ {Ty Lit : Type 0} (env : CheckEnv Ty) (same : Lit → Lit → Bool) (law : LawfulEnv env)
    (trans : (a b c : Lit) → same a b ≡ true → same b c ≡ true → same a c ≡ true) where
  alternatives_sound :
      (scrut : Ty) (before : List (Pattern Lit)) (p : Pat Lit) (v : Value Lit)
      → search env same (rows_of before) (cons p nil) (some scrut ∷ []) ≡ covered
      → AllCompat before v
      → Compat p v
      → HasType env v (some scrut)
      → matches same p v ≡ true
      → some_matches same before v ≡ true
  alternatives_sound scrut before p v e fit c h m =
      sym (rows_of-covers same before v)
      ∙ search_sound env same law trans (rows_of before) (cons p nil) (some scrut ∷ [])
          (vcons v vnil) e (rows_of-Compatible before v fit) (c, tt) (ground (arith, m)) (h, tt)

  -- Under the laws of `search_sound`: where the check reports an alternative as redundant, and the search
  -- for it has not assumed that it is covered, each value of the scrutinee's type that the alternative
  -- matches is matched by one in front of it, if all of them may be tried on the value.
  pub redundant_sound :
      (ty : Ty) (before : List (Pattern Lit)) (alt : Pattern Lit) (after : List (Pattern Lit))
      (v : Value Lit)
      → search env same (rows_of before) (cons (core_to_pat alt) nil) (some (scrutinee env ty) ∷ [])
        ≢ assumed
      → reported (length before) (check_exhaustive env same ty (before ++ alt ∷ after)) ≡ true
      → AllCompat before v
      → Compat (core_to_pat alt) v
      → HasType env v (some (scrutinee env ty))
      → matches same (core_to_pat alt) v ≡ true
      → some_matches same before v ≡ true
  redundant_sound ty before alt after v a r fit c h m =
      alternatives_sound (scrutinee env ty) before (core_to_pat alt) v
        (covered_of_reported _ a (not (leb (length before) 0))
          (sym (reported-check_exhaustive env same ty before alt after) ∙ r))
        fit c h m

  -- Under the laws of `search_sound`: where the check finds no witness for a wildcard behind all
  -- alternatives, and has not assumed that there is none, it reports nothing as missing, and each value of
  -- the scrutinee's type, on which the alternatives may be tried, is matched by one of them. The
  -- constructors of the type are those that the data type declares, of the refined ones each whose return
  -- type can be unified with it, or the labels of a variant.
  pub exhaustive_sound :
      (ty : Ty) (alts : List (Pattern Lit)) (v : Value Lit)
      → search env same (rows_of alts) (cons wild nil) (some (scrutinee env ty) ∷ []) ≡ covered
      → AllCompat alts v
      → HasType env v (some (scrutinee env ty))
      → (check_missing env same (scrutinee env ty) (rows_of alts) ≡ [])
        × (some_matches same alts v ≡ true)
  unfolding check_missing
  exhaustive_sound ty alts v e fit h = (
    ap (missing_reports env same (scrutinee env ty) (rows_of alts)) e,
    alternatives_sound (scrutinee env ty) alts wild v e fit tt h refl,
  )
