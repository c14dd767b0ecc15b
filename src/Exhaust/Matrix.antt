-- ===== src/Exhaust/Matrix.antt =====
-- internal/compiler/check/exhaust/matrix.go: the specialisations and the default of a matrix of patterns.
-- A set of names is a sorted list without duplicates where the source sorts it, else a list.
use gicel.Prelude.{ℕ, Bool, true, false, ◌||◌, none, some, List, [], ◌∷◌, length, if◌then◌else◌}
use Prim.Native.Nat.Ordering.{lt, eq, gt}
use gicel.Prelude.Bytes.{Bytes, bytes_eq, compare_bytes}
use gicel.Exhaust.Pattern.{
  Pat, wild, con, rec_pat, lit, Pats, nil, cons, Fields, no_fields, field, pats_append,
  make_wildcard_vec, lookup_field,
}

-- A set of labels in the order of their bytes.
abbrev pub insert_label : Bytes → List Bytes → List Bytes
insert_label l [] = l ∷ []
insert_label l (k ∷ ks) = elim (compare_bytes l k) [
  | lt ↦ l ∷ k ∷ ks
  | eq ↦ k ∷ ks
  | gt ↦ k ∷ insert_label l ks
]

abbrev pub elem_label : Bytes → List Bytes → Bool
elem_label l [] = false
elem_label l (k ∷ ks) = bytes_eq k l || elem_label l ks

module _ {Lit : Type 0} where
  unfoldable pub specialize : List (Pats Lit) → Bytes → ℕ → List (Pats Lit)
  specialize [] c arity = []
  specialize (nil ∷ mx) c arity = specialize mx c arity
  specialize (cons (con k n args) row ∷ mx) c arity =
      let rest = specialize mx c arity in if bytes_eq k c then pats_append args row ∷ rest else rest
  specialize (cons wild row ∷ mx) c arity = make_wildcard_vec arity row ∷ specialize mx c arity
  specialize (cons (rec_pat fs) row ∷ mx) c arity = specialize mx c arity
  specialize (cons (lit v) row ∷ mx) c arity = specialize mx c arity

  unfoldable pub default_matrix : List (Pats Lit) → List (Pats Lit)
  default_matrix [] = []
  default_matrix (cons wild row ∷ mx) = row ∷ default_matrix mx
  default_matrix (row ∷ mx) = default_matrix mx

  unfoldable pub specialize_lit : (Lit → Lit → Bool) → List (Pats Lit) → Lit → List (Pats Lit)
  specialize_lit same [] v = []
  specialize_lit same (cons (lit w) row ∷ mx) v =
      let rest = specialize_lit same mx v in if same w v then row ∷ rest else rest
  specialize_lit same (cons wild row ∷ mx) v = row ∷ specialize_lit same mx v
  specialize_lit same (row ∷ mx) v = specialize_lit same mx v

  -- Whether the set of the literals of column 0 has an element.
  unfoldable pub has_head_lits : List (Pats Lit) → Bool
  has_head_lits [] = false
  has_head_lits (cons (lit v) row ∷ mx) = true
  has_head_lits (row ∷ mx) = has_head_lits mx

  abbrev pub labels_of : Fields Lit → List Bytes → List Bytes
  labels_of no_fields acc = acc
  labels_of (field l p fs) acc = insert_label l (labels_of fs acc)

  unfoldable pub all_record_labels : List (Pats Lit) → List Bytes
  all_record_labels [] = []
  all_record_labels (cons (rec_pat fs) row ∷ mx) = labels_of fs (all_record_labels mx)
  all_record_labels (row ∷ mx) = all_record_labels mx

  -- The columns of a record pattern at the labels.
  abbrev pub record_columns : Fields Lit → List Bytes → Pats Lit → Pats Lit
  record_columns fs [] tail = tail
  record_columns fs (l ∷ ls) tail = elim (lookup_field l fs) [
    | some p ↦ cons p (record_columns fs ls tail)
    | none ↦ cons wild (record_columns fs ls tail)
  ]

  unfoldable pub specialize_record : List (Pats Lit) → List Bytes → List (Pats Lit)
  specialize_record [] labels = []
  specialize_record (cons (rec_pat fs) row ∷ mx) labels =
      record_columns fs labels row ∷ specialize_record mx labels
  specialize_record (cons wild row ∷ mx) labels =
      make_wildcard_vec (length labels) row ∷ specialize_record mx labels
  specialize_record (row ∷ mx) labels = specialize_record mx labels

  -- The set of the constructor names of column 0.
  unfoldable pub column_head_cons : List (Pats Lit) → List Bytes
  column_head_cons [] = []
  column_head_cons (cons (con c n args) row ∷ mx) =
      let rest = column_head_cons mx in if elem_label c rest then rest else c ∷ rest
  column_head_cons (row ∷ mx) = column_head_cons mx

  unfoldable pub has_record_pats : List (Pats Lit) → Bool
  has_record_pats [] = false
  has_record_pats (cons (rec_pat fs) row ∷ mx) = true
  has_record_pats (row ∷ mx) = has_record_pats mx

  -- copy(dst, src)
  abbrev pub copy_pats : Pats Lit → Pats Lit → Pats Lit
  copy_pats nil src = nil
  copy_pats (cons p dst) nil = cons p dst
  copy_pats (cons p dst) (cons q src) = cons q (copy_pats dst src)

  -- Of the witness only a constructor of the same name is used.
  unfoldable pub reconstruct_con : Bytes → ℕ → Pat Lit → Pat Lit
  reconstruct_con c arity (con k n args) =
      let fresh = make_wildcard_vec arity nil in
      con c arity (if bytes_eq k c then copy_pats fresh args else fresh)
  reconstruct_con c arity p = con c arity (make_wildcard_vec arity nil)
