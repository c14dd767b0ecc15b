-- ===== src/Exhaust/Pattern.antt =====
-- internal/compiler/check/exhaust/matrix.go: patterns and vectors of patterns, and their conversion from
-- those of the IR. `Lit` stands for the values of literals. The map of a record pattern is the list of
-- its writes, the last one first.
use gicel.Prelude.{ℕ, zero, suc, Option, none, some, if◌then◌else◌}
use gicel.Prelude.Bytes.{Bytes, bytes_eq}

mutual
  pub data Pat (Lit : Type 0) : Type 0 where
    wild : Pat Lit
    con : Bytes → ℕ → Pats Lit → Pat Lit
    rec_pat : Fields Lit → Pat Lit
    lit : Lit → Pat Lit

  pub data Pats (Lit : Type 0) : Type 0 where
    nil : Pats Lit
    cons : Pat Lit → Pats Lit → Pats Lit

  pub data Fields (Lit : Type 0) : Type 0 where
    no_fields : Fields Lit
    field : Bytes → Pat Lit → Fields Lit → Fields Lit

-- internal/lang/ir: the patterns of a case alternative.
mutual
  pub data Pattern (Lit : Type 0) : Type 0 where
    p_var : Bytes → Pattern Lit
    p_wild : Pattern Lit
    p_con : Bytes → Patterns Lit → Pattern Lit
    p_record : PatternFields Lit → Pattern Lit
    p_lit : Lit → Pattern Lit
    p_label : Bytes → Pattern Lit

  pub data Patterns (Lit : Type 0) : Type 0 where
    none_left : Patterns Lit
    arg : Pattern Lit → Patterns Lit → Patterns Lit

  pub data PatternFields (Lit : Type 0) : Type 0 where
    end_fields : PatternFields Lit
    p_field : Bytes → Pattern Lit → PatternFields Lit → PatternFields Lit

module _ {Lit : Type 0} where
  abbrev pub pats_length : Pats Lit → ℕ
  pats_length nil = 0
  pats_length (cons p ps) = suc (pats_length ps)

  abbrev pub pats_append : Pats Lit → Pats Lit → Pats Lit
  pats_append nil qs = qs
  pats_append (cons p ps) qs = cons p (pats_append ps qs)

  abbrev pub wildcards : ℕ → Pats Lit
  wildcards zero = nil
  wildcards (suc n) = cons wild (wildcards n)

  -- makeWildcardVec
  abbrev pub make_wildcard_vec : ℕ → Pats Lit → Pats Lit
  make_wildcard_vec n tail = pats_append (wildcards n) tail

  abbrev pub lookup_field : Bytes → Fields Lit → Option (Pat Lit)
  lookup_field l no_fields = none
  lookup_field l (field k p fs) = if bytes_eq k l then some p else lookup_field l fs

  abbrev pub patterns_length : Patterns Lit → ℕ
  patterns_length none_left = 0
  patterns_length (arg p ps) = suc (patterns_length ps)

unfoldable mutual
  pub core_to_pat : {Lit : Type 0} → Pattern Lit → Pat Lit
  core_to_pat (p_var x) = wild
  core_to_pat p_wild = wild
  core_to_pat (p_con c args) = con c (patterns_length args) (core_to_pats args)
  core_to_pat (p_record fs) = rec_pat (core_to_fields fs no_fields)
  core_to_pat (p_lit v) = lit v
  core_to_pat (p_label l) = con l 0 nil

  pub core_to_pats : {Lit : Type 0} → Patterns Lit → Pats Lit
  core_to_pats none_left = nil
  core_to_pats (arg p ps) = cons (core_to_pat p) (core_to_pats ps)

  pub core_to_fields : {Lit : Type 0} → PatternFields Lit → Fields Lit → Fields Lit
  core_to_fields end_fields acc = acc
  core_to_fields (p_field l p fs) acc = core_to_fields fs (field l (core_to_pat p) acc)
