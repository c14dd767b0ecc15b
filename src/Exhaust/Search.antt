-- ===== src/Exhaust/Search.antt =====
-- internal/compiler/check/exhaust/exhaust.go: the search for a value that a vector of patterns matches and
-- no row of the matrix does, and the check of a case expression that it serves. `Ty` stands for the types
-- of the language, of which the check only asks what `CheckEnv` has; a nil type is `none`. The search runs
-- on the depth that is left, which starts at one more than the source's limit.
use gicel.Prelude.{
  ℕ, zero, suc, Bool, true, false, ◌&&◌, not, Option, none, some, List, [], ◌∷◌, ◌++◌, length, leb,
  map, replicate, if◌then◌else◌,
}
use gicel.Prelude.Bytes.{Bytes, bytes_eq}
use gicel.Exhaust.Pattern.{
  Pat, wild, con, rec_pat, lit, Pats, nil, cons, pats_append, wildcards, make_wildcard_vec, Pattern,
  core_to_pat,
}
use gicel.Exhaust.Matrix.{
  elem_label, specialize, default_matrix, specialize_lit, has_head_lits, all_record_labels,
  record_columns, specialize_record, column_head_cons, has_record_pats, reconstruct_con,
}

pub record ConSig : Type 0 where
  pub sig_name : Bytes
  pub sig_arity : ℕ

-- A constructor of a data type. Only one of a GADT has a return type.
pub record ConInfo (Ty : Type 0) : Type 0 where
  pub con_name : Bytes
  pub con_arity : ℕ
  pub return_type : Option Ty

-- What the check asks of the checker and of the types.
pub record CheckEnv (Ty : Type 0) : Type 0 where
  pub data_types : Bytes → Option (List (ConInfo Ty))
  pub zonk : Ty → Ty
  pub reduce_family : Ty → Ty
  pub can_unify_with : Ty → Ty → Bool
  pub head_ty_con : Ty → Bytes
  pub variant_label_sigs : Ty → Option (List ConSig)
  pub constructor_arg_types : Bytes → Ty → Option (List (Option Ty))
  pub extract_record_fields : Ty → Option (Bytes → Option Ty)

-- The answer of the search: a witness, or none. The two answers that only assume that all is covered,
-- at the depth limit and at a type without known constructors, are apart.
pub data Verdict (Lit : Type 0) : Type 0 where
  useful : Pat Lit → Verdict Lit
  covered : Verdict Lit
  assumed : Verdict Lit

module _ {Ty : Type 0} (env : CheckEnv Ty) where
  abbrev pub any_refined : List (ConInfo Ty) → Bool
  any_refined [] = false
  any_refined (c ∷ cs) = elim c.return_type [ none ↦ any_refined cs | some t ↦ true ]

  unfoldable pub is_gadt : Ty → Bool
  is_gadt scrut =
      if bytes_eq (env.head_ty_con scrut) []
      then false
      else elim (env.data_types (env.head_ty_con scrut)) [ none ↦ false | some cs ↦ any_refined cs ]

  unfoldable pub sub_pattern_types : Bytes → Option Ty → ℕ → List (Option Ty) → List (Option Ty)
  sub_pattern_types c none arity rest = replicate arity none ++ rest
  sub_pattern_types c (some scrut) arity rest =
      if is_gadt scrut
      then replicate arity none ++ rest
      else elim (env.constructor_arg_types c scrut) [
        | none ↦ replicate arity none ++ rest
        | some args ↦ args ++ rest
      ]

  abbrev pub applicable_sigs : Ty → List (ConInfo Ty) → List ConSig
  applicable_sigs scrut [] = []
  applicable_sigs scrut (c ∷ cs) =
      let rest = applicable_sigs scrut cs in
      let kept = record { sig_name = c.con_name; sig_arity = c.con_arity } ∷ rest in
      elim c.return_type [
        | none ↦ kept
        | some t ↦ if env.can_unify_with t scrut then kept else rest
      ]

  -- A slice to which nothing was appended is nil.
  abbrev pub or_nil : List ConSig → Option (List ConSig)
  or_nil [] = none
  or_nil (s ∷ ss) = some (s ∷ ss)

  unfoldable pub constructor_sigs : Option Ty → Option (List ConSig)
  constructor_sigs none = none
  constructor_sigs (some scrut) = elim (env.variant_label_sigs scrut) [
    | some sigs ↦ some sigs
    | none ↦
        if bytes_eq (env.head_ty_con scrut) []
        then none
        else elim (env.data_types (env.head_ty_con scrut)) [
          | none ↦ none
          | some cs ↦ or_nil (applicable_sigs scrut cs)
        ]
  ]

  abbrev pub zonk_type : Option Ty → Option Ty
  zonk_type none = none
  zonk_type (some t) = some (env.zonk t)

  -- The zonked type of column 0, and the types of the other columns.
  abbrev pub column_type : List (Option Ty) → Option Ty
  column_type [] = none
  column_type (t ∷ ts) = zonk_type t

  abbrev pub rest_types : List (Option Ty) → List (Option Ty)
  rest_types [] = []
  rest_types (t ∷ ts) = ts

  abbrev pub fields_of : Option Ty → Option (Bytes → Option Ty)
  fields_of none = none
  fields_of (some t) = env.extract_record_fields (env.zonk t)

  unfoldable pub record_field_types : Option Ty → List Bytes → List (Option Ty) → List (Option Ty)
  record_field_types ty labels rest = elim (fields_of ty) [
    | none ↦ replicate (length labels) none ++ rest
    | some fields ↦ map fields labels ++ rest
  ]

module _ {Lit : Type 0} where
  abbrev pub found : Verdict Lit → Bool
  found (useful w) = true
  found covered = false
  found assumed = false

  abbrev pub with_witness : (Pat Lit → Pat Lit) → Verdict Lit → Verdict Lit
  with_witness f (useful w) = useful (f w)
  with_witness f v = v

  -- The answers of two parts that must both be covered.
  abbrev pub then_also : Verdict Lit → Verdict Lit → Verdict Lit
  then_also (useful w) v = useful w
  then_also covered v = v
  then_also assumed (useful w) = useful w
  then_also assumed v = assumed

module _ {Ty Lit : Type 0} (env : CheckEnv Ty) (same : Lit → Lit → Bool) where
  -- The search at the next depth.
  abbrev pub Next : Type 0
  Next = List (Pats Lit) → Pats Lit → List (Option Ty) → Verdict Lit

  -- The loop over the signatures.
  abbrev pub try_sigs :
      Next
      → List (Pats Lit)
      → Pats Lit
      → Option Ty
      → List (Option Ty)
      → Bool
      → List ConSig
      → Verdict Lit
  try_sigs next mx q ty rest complete [] = covered
  try_sigs next mx q ty rest complete (sig ∷ sigs) =
      let others = try_sigs next mx q ty rest complete sigs in
      if not complete && elem_label sig.sig_name (column_head_cons mx)
      then others
      else then_also
          (with_witness (reconstruct_con sig.sig_name sig.sig_arity) (
            next (specialize mx sig.sig_name sig.sig_arity) (make_wildcard_vec sig.sig_arity q)
              (sub_pattern_types env sig.sig_name ty sig.sig_arity rest)))
          others

  unfoldable pub is_useful_wildcard :
      Next → List (Pats Lit) → Pats Lit → Option Ty → List (Option Ty) → Verdict Lit
  unfolding column_head_cons has_head_lits has_record_pats default_matrix specialize_record
      all_record_labels record_field_types constructor_sigs specialize sub_pattern_types
      reconstruct_con
  is_useful_wildcard next mx q ty rest =
      let no_cons = leb (length (column_head_cons mx)) 0 in
      if no_cons && not (has_head_lits mx) && not (has_record_pats mx)
      then next (default_matrix mx) q rest
      else if has_record_pats mx
      then (let labels = all_record_labels mx in
          next (specialize_record mx labels) (make_wildcard_vec (length labels) q)
            (record_field_types env ty labels rest))
      else if no_cons
      then next (default_matrix mx) q rest
      else elim (constructor_sigs env ty) [
        | some sigs ↦
            try_sigs next mx q ty rest (leb (length sigs) (length (column_head_cons mx))) sigs
        | none ↦ assumed
      ]

  unfoldable pub is_useful_step : Next → List (Pats Lit) → Pats Lit → List (Option Ty) → Verdict Lit
  unfolding is_useful_wildcard specialize specialize_lit specialize_record all_record_labels
      sub_pattern_types record_field_types reconstruct_con
  is_useful_step next [] nil tys = useful wild
  is_useful_step next (row ∷ mx) nil tys = covered
  is_useful_step next [] (cons p q) tys = useful wild
  is_useful_step next (row ∷ mx) (cons (con c arity args) q) tys =
      with_witness (reconstruct_con c arity) (
        next (specialize (row ∷ mx) c arity) (pats_append args q)
          (sub_pattern_types env c (column_type env tys) arity (rest_types env tys)))
  is_useful_step next (row ∷ mx) (cons (lit v) q) tys =
      next (specialize_lit same (row ∷ mx) v) q (rest_types env tys)
  is_useful_step next (row ∷ mx) (cons (rec_pat fs) q) tys =
      let labels = all_record_labels ((row ∷ mx) ++ cons (rec_pat fs) q ∷ []) in
      next (specialize_record (row ∷ mx) labels) (record_columns fs labels q)
        (record_field_types env (column_type env tys) labels (rest_types env tys))
  is_useful_step next (row ∷ mx) (cons wild q) tys =
      is_useful_wildcard next (row ∷ mx) q (column_type env tys) (rest_types env tys)

  -- isUsefulAt, with the depth that is left.
  unfoldable pub is_useful_at : ℕ → List (Pats Lit) → Pats Lit → List (Option Ty) → Verdict Lit
  unfolding is_useful_step
  is_useful_at zero mx q tys = assumed
  is_useful_at (suc left) mx q tys = is_useful_step (is_useful_at left) mx q tys

abbrev pub max_exhaust_depth : ℕ
max_exhaust_depth = 32

-- What is reported: an alternative that is redundant, by its position, the constructors that are missing,
-- or a witness of what is.
pub data Report (Lit : Type 0) : Type 0 where
  redundant : ℕ → Report Lit
  missing : List Bytes → Report Lit
  missing_witness : Pat Lit → Report Lit

abbrev pub report_missing : {Lit : Type 0} → List Bytes → List (Report Lit)
report_missing [] = []
report_missing (c ∷ cs) = missing (c ∷ cs) ∷ []

module _ {Ty Lit : Type 0} (env : CheckEnv Ty) (same : Lit → Lit → Bool) where
  unfoldable pub search : List (Pats Lit) → Pats Lit → List (Option Ty) → Verdict Lit
  unfolding is_useful_at
  search mx q tys = is_useful_at env same (suc max_exhaust_depth) mx q tys

  -- isUseful, without the witness.
  abbrev pub is_useful : List (Pats Lit) → Pats Lit → List (Option Ty) → Bool
  is_useful mx q tys = found (search mx q tys)

  abbrev pub row_of : Pattern Lit → Pats Lit
  row_of p = cons (core_to_pat p) nil

  -- The loop over the alternatives, with the position of the next one and the rows so far.
  unfoldable pub check_redundant :
      Ty → ℕ → List (Pats Lit) → List (Pattern Lit) → List (Report Lit) × List (Pats Lit)
  unfolding search core_to_pat
  check_redundant scrut i mx [] = ([], mx)
  check_redundant scrut i mx (alt ∷ alts) =
      let (reports, rows) = check_redundant scrut (suc i) (mx ++ row_of alt ∷ []) alts in
      if not (leb i 0) && not (is_useful mx (row_of alt) (some scrut ∷ []))
      then (redundant i ∷ reports, rows)
      else (reports, rows)

  -- The constructors of which a value is not matched.
  abbrev pub missing_cons : Ty → List (Pats Lit) → List ConSig → List Bytes
  missing_cons scrut mx [] = []
  missing_cons scrut mx (sig ∷ sigs) =
      let rest = missing_cons scrut mx sigs in
      let q = cons (con sig.sig_name sig.sig_arity (wildcards sig.sig_arity)) nil in
      if is_useful mx q (some scrut ∷ []) then sig.sig_name ∷ rest else rest

  -- The second half, by the answer for a wildcard.
  abbrev pub missing_reports : Ty → List (Pats Lit) → Verdict Lit → List (Report Lit)
  missing_reports scrut mx covered = []
  missing_reports scrut mx assumed = []
  missing_reports scrut mx (useful witness) = elim (constructor_sigs env (some scrut)) [
    | some sigs ↦ report_missing (missing_cons scrut mx sigs)
    | none ↦ missing_witness witness ∷ []
  ]

  unfoldable pub check_missing : Ty → List (Pats Lit) → List (Report Lit)
  unfolding search
  check_missing scrut mx = missing_reports scrut mx (search mx (cons wild nil) (some scrut ∷ []))

  unfoldable pub check_exhaustive : Ty → List (Pattern Lit) → List (Report Lit)
  unfolding check_redundant check_missing
  check_exhaustive ty alts =
      let scrut = env.reduce_family (env.zonk ty) in
      let (reports, mx) = check_redundant scrut 0 [] alts in reports ++ check_missing scrut mx
