-- ===== src/Exhaust/Depth.antt =====
-- internal/compiler/check/exhaust/exhaust.go: a case expression at the depth limit of the search.
use gicel.Prelude.{
  ℕ, zero, suc, ◌+◌, Bool, true, false, Option, some, List, [], ◌∷◌, ◌≡◌, refl, sym, ap, ap₂, ◌∙◌,
  arith, subst,
}
use gicel.Prelude.Bytes.{Bytes}
use gicel.Exhaust.Pattern.{
  wild, con, Pats, nil, cons, make_wildcard_vec, pats_length, Pattern, p_wild, p_con, Patterns,
  none_left, arg, patterns_length, core_to_pat, core_to_pats,
}
use gicel.Exhaust.Search.{
  CheckEnv, assumed, constructor_sigs, is_useful_at, search, max_exhaust_depth, check_redundant,
  check_missing, check_exhaustive, redundant,
}
use gicel.Exhaust.Values.{Value, matches}
use gicel.Exhaust.Loop.{scrutinee, some_matches}
use gicel.Exhaust.Limit.{con_rows, out_of_depth_con}

module _ {Lit : Type 0} where
  -- Arguments that begin with wildcards.
  abbrev pub wild_args : ℕ → Patterns Lit → Patterns Lit
  wild_args zero rest = rest
  wild_args (suc n) rest = arg p_wild (wild_args n rest)

  core_to_pats-wild_args :
      (n : ℕ) (rest : Patterns Lit)
      → core_to_pats (wild_args n rest) ≡ make_wildcard_vec n (core_to_pats rest)
  unfolding core_to_pats
  core_to_pats-wild_args zero rest = refl
  core_to_pats-wild_args (suc n) rest = ap (cons wild) (core_to_pats-wild_args n rest)

  length-wild_args :
      (n : ℕ) (rest : Patterns Lit)
      → patterns_length (wild_args n rest) ≡ n + pats_length (core_to_pats rest)
  unfolding core_to_pats
  length-wild_args zero none_left = omega arith
  length-wild_args zero (arg p ps) = omega (arith, length-wild_args zero ps)
  length-wild_args (suc n) rest = omega (arith, length-wild_args n rest)

  core_to_pats-length :
      (rest : Patterns Lit) → patterns_length rest ≡ pats_length (core_to_pats rest)
  unfolding core_to_pats
  core_to_pats-length none_left = refl
  core_to_pats-length (arg p ps) = ap suc (core_to_pats-length ps)

  pattern_row :
      (n : ℕ) (c : Bytes) (rest : Patterns Lit)
      → core_to_pat (p_con c (wild_args n rest))
        ≡ con c (n + pats_length (core_to_pats rest)) (make_wildcard_vec n (core_to_pats rest))
  unfolding core_to_pat
  pattern_row n c rest = ap₂ (con c) (length-wild_args n rest) (core_to_pats-wild_args n rest)

  wild_row : core_to_pat {Lit = Lit} p_wild ≡ wild
  unfolding core_to_pat
  wild_row = refl

-- The type has the constructor only, with as many arguments as the pattern.
abbrev pub OnlyCon : {Ty : Type 0} → CheckEnv Ty → Option Ty → Bytes → ℕ → Type 0
OnlyCon env ty c n = constructor_sigs env ty ≡ some (record { sig_name = c; sig_arity = n } ∷ [])

module _ {Ty Lit : Type 0} (env : CheckEnv Ty) (same : Lit → Lit → Bool) where
  -- The alternatives so far, and the wildcard.
  abbrev deep_rows : Bytes → Patterns Lit → Bool → List (Pats Lit)
  deep_rows c rest true =
      cons (core_to_pat (p_con c (wild_args max_exhaust_depth rest))) nil
      ∷ cons (core_to_pat p_wild) nil
      ∷ []
  deep_rows c rest false = cons (core_to_pat (p_con c (wild_args max_exhaust_depth rest))) nil ∷ []

  deep_rows-con_rows :
      (c : Bytes) (rest : Patterns Lit) (below : Bool)
      → deep_rows c rest below
        ≡ con_rows c
            (max_exhaust_depth + pats_length (core_to_pats rest))
            (make_wildcard_vec max_exhaust_depth (core_to_pats rest))
            below
  deep_rows-con_rows c rest true =
      ap₂ (λ a b. cons a nil ∷ cons b nil ∷ []) (pattern_row max_exhaust_depth c rest) wild_row
  deep_rows-con_rows c rest false = ap (λ a. cons a nil ∷ []) (pattern_row max_exhaust_depth c rest)

  search-deep_rows :
      (scrut : Ty) (c : Bytes) (rest : Patterns Lit) (below : Bool)
      → OnlyCon env (some (env.zonk scrut)) c (max_exhaust_depth + patterns_length rest)
      → search env same (deep_rows c rest below) (cons wild nil) (some scrut ∷ []) ≡ assumed
  unfolding search
  search-deep_rows scrut c rest below s =
      subst
        (λ m.
          is_useful_at env same (suc max_exhaust_depth) m (cons wild nil) (some scrut ∷ [])
          ≡ assumed)
        (sym (deep_rows-con_rows c rest below))
        (out_of_depth_con env same max_exhaust_depth c (core_to_pats rest) scrut below (
          s
          ∙ ap (λ n. some (record { sig_name = c; sig_arity = max_exhaust_depth + n } ∷ []))
              (core_to_pats-length rest)))

  -- Where the search assumes that both are covered.
  two_alternatives :
      (ty : Ty) (a b : Pattern Lit)
      → search env same
          (cons (core_to_pat a) nil ∷ [])
          (cons (core_to_pat b) nil)
          (some (scrutinee env ty) ∷ [])
        ≡ assumed
      → search env same
          (cons (core_to_pat a) nil ∷ cons (core_to_pat b) nil ∷ [])
          (cons wild nil)
          (some (scrutinee env ty) ∷ [])
        ≡ assumed
      → check_exhaustive env same ty (a ∷ b ∷ []) ≡ redundant 1 ∷ []
  unfolding check_exhaustive check_redundant check_missing
  two_alternatives ty a b h k = rw (h, k) refl

  -- For every pattern of a type with one constructor whose first 32 arguments are wildcards, whatever the
  -- other arguments are: a wildcard alternative behind it is reported as redundant, also where a value
  -- is matched by the wildcard only.
  pub deep_fallback_redundant :
      (ty : Ty) (c : Bytes) (rest : Patterns Lit) (v : Value Lit)
      → OnlyCon env
          (some (env.zonk (scrutinee env ty)))
          c
          (max_exhaust_depth + patterns_length rest)
      → matches same (core_to_pat (p_con c (wild_args max_exhaust_depth rest))) v ≡ false
      → (check_exhaustive env same ty (p_con c (wild_args max_exhaust_depth rest) ∷ p_wild ∷ [])
          ≡ redundant 1 ∷ [])
        × (matches same (core_to_pat p_wild) v ≡ true)
        × (some_matches same (p_con c (wild_args max_exhaust_depth rest) ∷ []) v ≡ false)
  unfolding core_to_pat
  deep_fallback_redundant ty c rest v s m =
      let scrut = scrutinee env ty in
      (
        two_alternatives ty (p_con c (wild_args max_exhaust_depth rest)) p_wild
            (ap (λ p. search env same (deep_rows c rest false) (cons p nil) (some scrut ∷ []))
                wild_row
              ∙ search-deep_rows scrut c rest false s)
            (search-deep_rows scrut c rest true s),
        refl,
        ground (arith, m),
      )
