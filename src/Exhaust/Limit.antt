-- ===== src/Exhaust/Limit.antt =====
-- internal/compiler/check/exhaust/exhaust.go: the search at the depth limit, which counts columns.
use gicel.Prelude.{
  ℕ, zero, suc, ◌+◌, Bool, true, false, ◌&&◌, not, Option, some, List, [], ◌∷◌, length, leb, ◌≡◌,
  refl, sym, ap, ap₂, ◌∙◌, if◌then◌else◌, arith, subst,
}
use gicel.Prelude.Bytes.{Bytes, bytes_eq_refl}
use gicel.Exhaust.Pattern.{wild, con, Pats, nil, cons, make_wildcard_vec, pats_length, pats_append}
use gicel.Exhaust.Matrix.{specialize, default_matrix, column_head_cons, has_record_pats, elem_label}
use gicel.Exhaust.Search.{
  CheckEnv, sub_pattern_types, column_type, rest_types, Verdict, covered, assumed, constructor_sigs,
  is_useful_wildcard, is_useful_step, is_useful_at,
}

module _ {Lit : Type 0} where
  -- Rows that begin with wildcards.
  abbrev behind : ℕ → List (Pats Lit) → List (Pats Lit)
  behind n [] = []
  behind n (r ∷ rs) = make_wildcard_vec n r ∷ behind n rs

  default-behind : (n : ℕ) (rs : List (Pats Lit)) → default_matrix (behind (suc n) rs) ≡ behind n rs
  unfolding default_matrix
  default-behind n [] = refl
  default-behind n (r ∷ rs) = ap (λ t. make_wildcard_vec n r ∷ t) (default-behind n rs)

  cons-behind : (n : ℕ) (rs : List (Pats Lit)) → column_head_cons (behind (suc n) rs) ≡ []
  unfolding column_head_cons
  cons-behind n [] = refl
  cons-behind n (r ∷ rs) = cons-behind n rs

  records-behind : (n : ℕ) (rs : List (Pats Lit)) → has_record_pats (behind (suc n) rs) ≡ false
  unfolding has_record_pats
  records-behind n [] = refl
  records-behind n (r ∷ rs) = records-behind n rs

  pats_append-nil : (ps : Pats Lit) → pats_append ps nil ≡ ps
  pats_append-nil nil = refl
  pats_append-nil (cons p ps) = ap (cons p) (pats_append-nil ps)

  make_wildcard_vec-add :
      (n m : ℕ)
      → make_wildcard_vec {Lit = Lit} (n + m) nil ≡ make_wildcard_vec n (make_wildcard_vec m nil)
  make_wildcard_vec-add zero m =
      let e : zero + m ≡ m = omega arith in ap (λ k. make_wildcard_vec k nil) e
  make_wildcard_vec-add (suc n) m =
      let e : suc n + m ≡ suc (n + m) = omega arith in
      ap (λ k. make_wildcard_vec k nil) e ∙ ap (cons wild) (make_wildcard_vec-add n m)

  -- The alternatives of a constructor, with or without a wildcard behind it.
  abbrev pub con_rows : Bytes → ℕ → Pats Lit → Bool → List (Pats Lit)
  con_rows c n args true = cons (con c n args) nil ∷ cons wild nil ∷ []
  con_rows c n args false = cons (con c n args) nil ∷ []

  con_rows-cons :
      (c : Bytes) (n : ℕ) (args : Pats Lit) (below : Bool)
      → column_head_cons (con_rows c n args below) ≡ c ∷ []
  unfolding column_head_cons
  con_rows-cons c n args true = refl
  con_rows-cons c n args false = refl

  con_rows-records :
      (c : Bytes) (n : ℕ) (args : Pats Lit) (below : Bool)
      → has_record_pats (con_rows c n args below) ≡ false
  unfolding has_record_pats
  con_rows-records c n args true = refl
  con_rows-records c n args false = refl

  -- The rows of the arguments.
  abbrev arg_rows : Pats Lit → Bool → List (Pats Lit)
  arg_rows r true = r ∷ make_wildcard_vec (pats_length r) nil ∷ []
  arg_rows r false = r ∷ []

  specialize-con_rows :
      (c : Bytes) (n : ℕ) (r : Pats Lit) (below : Bool)
      → specialize
          (con_rows c (n + pats_length r) (make_wildcard_vec n r) below)
          c
          (n + pats_length r)
        ≡ behind n (arg_rows r below)
  unfolding specialize
  specialize-con_rows c n r true = rw (bytes_eq_refl c) (
      ap₂ (λ a b. a ∷ b ∷ []) (pats_append-nil (make_wildcard_vec n r))
        (make_wildcard_vec-add n (pats_length r)))
  specialize-con_rows c n r false =
      rw (bytes_eq_refl c) (ap (λ a. a ∷ []) (pats_append-nil (make_wildcard_vec n r)))

module _ {Ty Lit : Type 0} (env : CheckEnv Ty) (same : Lit → Lit → Bool) where
  wildcard_rows :
      (next : List (Pats Lit) → Pats Lit → List (Option Ty) → Verdict Lit) (mx : List (Pats Lit))
      (q : Pats Lit) (ty : Option Ty) (rest : List (Option Ty))
      → column_head_cons mx ≡ []
      → has_record_pats mx ≡ false
      → is_useful_wildcard env same next mx q ty rest ≡ next (default_matrix mx) q rest
  unfolding is_useful_wildcard
  wildcard_rows next mx q ty rest c r = ground (arith, r, ap length c)

  -- As many columns of wildcards as there is depth left.
  out_of_depth :
      (left : ℕ) (r : Pats Lit) (rs : List (Pats Lit)) (q : Pats Lit) (tys : List (Option Ty))
      → is_useful_at env same left (behind left (r ∷ rs)) (make_wildcard_vec left q) tys ≡ assumed
  unfolding is_useful_at is_useful_step is_useful_wildcard
  out_of_depth zero r rs q tys = refl
  out_of_depth (suc left) r rs q tys =
      let mx = behind (suc left) (r ∷ rs) in
      wildcard_rows (is_useful_at env same left) mx (make_wildcard_vec left q) (column_type env tys)
        (rest_types env tys) (cons-behind left (r ∷ rs)) (records-behind left (r ∷ rs))
      ∙ ap (λ m. is_useful_at env same left m (make_wildcard_vec left q) (rest_types env tys))
          (default-behind left (r ∷ rs))
      ∙ out_of_depth left r rs q (rest_types env tys)

  deep_rows :
      (left : ℕ) (r : Pats Lit) (below : Bool) (q : Pats Lit) (tys : List (Option Ty))
      → is_useful_at env same left (behind left (arg_rows r below)) (make_wildcard_vec left q) tys
        ≡ assumed
  deep_rows left r true q tys =
      out_of_depth left r (make_wildcard_vec (pats_length r) nil ∷ []) q tys
  deep_rows left r false q tys = out_of_depth left r [] q tys

  single_sig :
      (next : List (Pats Lit) → Pats Lit → List (Option Ty) → Verdict Lit) (mx : List (Pats Lit))
      (q : Pats Lit) (ty : Option Ty) (rest : List (Option Ty)) (c : Bytes) (n : ℕ)
      → column_head_cons mx ≡ c ∷ []
      → has_record_pats mx ≡ false
      → constructor_sigs env ty ≡ some (record { sig_name = c; sig_arity = n } ∷ [])
      → next (specialize mx c n) (make_wildcard_vec n q) (sub_pattern_types env c ty n rest)
        ≡ assumed
      → is_useful_wildcard env same next mx q ty rest ≡ assumed
  unfolding is_useful_wildcard
  single_sig next mx q ty rest c n h r s e =
      rw (h, r, s, e)
        (ap (λ l. if not (leb 1 (length l)) && elem_label c l then covered else assumed) h)

  deep_con :
      (left : ℕ) (c : Bytes) (r : Pats Lit) (scrut : Ty) (below : Bool)
      → constructor_sigs env (some (env.zonk scrut))
        ≡ some (record { sig_name = c; sig_arity = left + pats_length r } ∷ [])
      → is_useful_wildcard env same
          (is_useful_at env same left)
          (con_rows c (left + pats_length r) (make_wildcard_vec left r) below)
          nil
          (some (env.zonk scrut))
          []
        ≡ assumed
  deep_con left c r scrut below s =
      let n = left + pats_length r in
      let tys = sub_pattern_types env c (some (env.zonk scrut)) n [] in
      single_sig (is_useful_at env same left) (con_rows c n (make_wildcard_vec left r) below) nil
        (some (env.zonk scrut)) [] c n (con_rows-cons c n _ below) (con_rows-records c n _ below) s
        (subst
          (λ q.
            is_useful_at env same left
              (specialize (con_rows c n (make_wildcard_vec left r) below) c n) q tys
            ≡ assumed)
          (sym (make_wildcard_vec-add left (pats_length r)))
          (subst
            (λ m.
              is_useful_at env same left m
                (make_wildcard_vec left (make_wildcard_vec (pats_length r) nil)) tys
              ≡ assumed)
            (sym (specialize-con_rows c left r below)) (deep_rows left r below _ tys)))

  -- A constructor whose first `left` arguments are wildcards, with or without a wildcard behind it.
  pub out_of_depth_con :
      (left : ℕ) (c : Bytes) (r : Pats Lit) (scrut : Ty) (below : Bool)
      → constructor_sigs env (some (env.zonk scrut))
        ≡ some (record { sig_name = c; sig_arity = left + pats_length r } ∷ [])
      → is_useful_at env same
          (suc left)
          (con_rows c (left + pats_length r) (make_wildcard_vec left r) below)
          (cons wild nil)
          (some scrut ∷ [])
        ≡ assumed
  unfolding is_useful_at is_useful_step
  out_of_depth_con left c r scrut true s = deep_con left c r scrut true s
  out_of_depth_con left c r scrut false s = deep_con left c r scrut false s
