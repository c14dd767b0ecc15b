-- ===== src/Exhaust/Records.antt =====
-- internal/compiler/check/exhaust/matrix.go: the columns of a record pattern against the fields of a value.
use gicel.Prelude.{
  Bool, true, ◌&&◌, ◌||◌, not, some, List, [], ◌∷◌, length, ◌≡◌, refl, ap, inl, inr, arith,
  Bool-cases, Option-cases, subst,
}
use gicel.Prelude.Bytes.{Bytes, bytes_eq, bytes_eq_iff_eq, bytes_eq_refl, eq_of_compare_bytes}
use gicel.Exhaust.Pattern.{Pat, Pats, Fields, no_fields, field, make_wildcard_vec, lookup_field}
use gicel.Exhaust.Matrix.{elem_label, record_columns, labels_of, insert_label}
use gicel.Exhaust.Values.{
  Value, Values, record_values, matches, matches_all, matches_fields, Compat, Compats, CompatFields,
}

module _ {Lit : Type 0} where
  CompatFields-lookup :
      (fs : Fields Lit) (f : Bytes → Value Lit) (l : Bytes)
      → CompatFields fs f
      → (p : Pat Lit) → lookup_field l fs ≡ some p
      → Compat p (f l)
  CompatFields-lookup no_fields f l h p e = ground arith
  CompatFields-lookup (field k q fs) f l (a, b) p e = elim (Bool-cases (bytes_eq k l)) [
    | inl t ↦
        let same_pat : q ≡ p = ground (arith, e, t) in
        subst (λ x. Compat x (f l)) same_pat (subst (λ x. Compat q (f x)) (bytes_eq_iff_eq k l t) a)
    | inr t ↦ CompatFields-lookup fs f l b p (ground (arith, e, t))
  ]

  pub Compats-record :
      (fs : Fields Lit) (ls : List Bytes) (qs : Pats Lit) (f : Bytes → Value Lit) (vs : Values Lit)
      → CompatFields fs f
      → Compats qs vs
      → Compats (record_columns fs ls qs) (record_values f ls vs)
  Compats-record fs [] qs f vs h k = k
  Compats-record fs (l ∷ ls) qs f vs h k = elim (Option-cases (lookup_field l fs)) [
    | inl e ↦ rw (e, record_columns) (tt, Compats-record fs ls qs f vs h k)
    | inr (p, e) ↦
        rw (e, record_columns) (CompatFields-lookup fs f l h p e, Compats-record fs ls qs f vs h k)
  ]

  pub Compats-wild_columns :
      (qs : Pats Lit) (ls : List Bytes) (f : Bytes → Value Lit) (vs : Values Lit)
      → Compats qs vs
      → Compats (make_wildcard_vec (length ls) qs) (record_values f ls vs)
  Compats-wild_columns qs [] f vs k = k
  Compats-wild_columns qs (l ∷ ls) f vs k = (tt, Compats-wild_columns qs ls f vs k)

module _ {Lit : Type 0} (same : Lit → Lit → Bool) where
  -- The pattern that the map of a record pattern has at a label matches the field.
  abbrev pub FieldsMatch : Fields Lit → (Bytes → Value Lit) → (Bytes → Bool) → Type 0
  FieldsMatch fs f at =
      (l : Bytes) (p : Pat Lit)
      → at l ≡ true
      → lookup_field l fs ≡ some p
      → matches same p (f l) ≡ true

  pub matches_fields-FieldsMatch :
      (fs : Fields Lit) (f : Bytes → Value Lit) (seen : List Bytes)
      → matches_fields same fs f seen ≡ true
      → FieldsMatch fs f (λ l. not (elem_label l seen))
  matches_fields-FieldsMatch no_fields f seen h l p a e = ground arith
  matches_fields-FieldsMatch (field k q fs) f seen h l p a e = elim (Bool-cases (bytes_eq k l)) [
    | inl t ↦
        let same_pat : q ≡ p = ground (arith, e, t) in
        let here : k ≡ l = bytes_eq_iff_eq k l t in
        subst (λ x. matches same x (f l) ≡ true) same_pat
          (subst (λ x. matches same q (f x) ≡ true) here
            (ground (arith, h, a, ap (λ x. elem_label x seen) here)))
    | inr t ↦
        matches_fields-FieldsMatch fs f (k ∷ seen) (ground (arith, h)) l p (ground (arith, a, t))
          (ground (arith, e, t))
  ]

  pub FieldsMatch-matches_fields :
      (fs : Fields Lit) (f : Bytes → Value Lit) (seen : List Bytes)
      → FieldsMatch fs f (λ l. not (elem_label l seen))
      → matches_fields same fs f seen ≡ true
  FieldsMatch-matches_fields no_fields f seen h = refl
  FieldsMatch-matches_fields (field k q fs) f seen h =
      let now : (elem_label k seen || matches same q (f k)) ≡ true =
        elim (Bool-cases (elem_label k seen)) [
          | inl t ↦ ground (arith, t)
          | inr t ↦ ground (arith, t, h k q (ground (arith, t)) (ground (arith, bytes_eq_refl k)))
        ] in
      let rest : matches_fields same fs f (k ∷ seen) ≡ true =
        FieldsMatch-matches_fields fs f (k ∷ seen)
          (λ l p a e. h l p (ground (arith, a)) (ground (arith, a, e))) in
      ground (arith, now, rest)

  -- The columns match where the fields do.
  pub matches_all-record :
      (fs : Fields Lit) (ls : List Bytes) (qs : Pats Lit) (f : Bytes → Value Lit) (vs : Values Lit)
      → FieldsMatch fs f (λ l. true)
      → matches_all same qs vs ≡ true
      → matches_all same (record_columns fs ls qs) (record_values f ls vs) ≡ true
  matches_all-record fs [] qs f vs h k = k
  matches_all-record fs (l ∷ ls) qs f vs h k = elim (Option-cases (lookup_field l fs)) [
    | inl e ↦ rw (e, record_columns) (matches_all-record fs ls qs f vs h k)
    | inr (p, e) ↦
        rw (e, record_columns) (ground (arith, h l p refl e, matches_all-record fs ls qs f vs h k))
  ]

  pub record_columns-FieldsMatch :
      (fs : Fields Lit) (ls : List Bytes) (qs : Pats Lit) (f : Bytes → Value Lit) (vs : Values Lit)
      → matches_all same (record_columns fs ls qs) (record_values f ls vs) ≡ true
      → FieldsMatch fs f (λ l. elem_label l ls) × (matches_all same qs vs ≡ true)
  record_columns-FieldsMatch fs [] qs f vs h = ((λ l p a e. ground (arith, a)), h)
  record_columns-FieldsMatch fs (k ∷ ls) qs f vs h = elim (Option-cases (lookup_field k fs)) [
    | inl n ↦
        let ih = record_columns-FieldsMatch fs ls qs f vs (ground (arith, h, n)) in
        (
          (λ l p a e. elim (Bool-cases (bytes_eq k l)) [
            | inl t ↦ ground (
              arith,
              n,
              e,
              bytes_eq_iff_eq k l t,
              ap (λ x. lookup_field x fs) (bytes_eq_iff_eq k l t),
            )
            | inr t ↦ ih.0 l p (ground (arith, a, t)) e
          ]),
          ih.1,
        )
    | inr (q, n) ↦
        let both : (matches same q (f k)
              && matches_all same (record_columns fs ls qs) (record_values f ls vs))
            ≡ true =
          ground (arith, h, n) in
        let ih = record_columns-FieldsMatch fs ls qs f vs (ground (arith, both)) in
        (
          (λ l p a e. elim (Bool-cases (bytes_eq k l)) [
            | inl t ↦
                let here = bytes_eq_iff_eq k l t in
                let same_pat : q ≡ p = ground (arith, n, e, ap (λ x. lookup_field x fs) here) in
                subst (λ x. matches same x (f l) ≡ true) same_pat
                  (subst (λ x. matches same q (f x) ≡ true) here (ground (arith, both)))
            | inr t ↦ ih.0 l p (ground (arith, a, t)) e
          ]),
          ih.1,
        )
  ]

elem-insert_label :
    (l k : Bytes) (ks : List Bytes)
    → elem_label l (insert_label k ks) ≡ (bytes_eq k l || elem_label l ks)
elem-insert_label l k [] = refl
elem-insert_label l k (j ∷ ks) =
    ground (arith, eq_of_compare_bytes k j, ap (λ x. bytes_eq x l), elem-insert_label l k ks)

pub elem-labels_of :
    {Lit : Type 0} (fs : Fields Lit) (acc : List Bytes) (l : Bytes)
    → elem_label l acc ≡ true
    → elem_label l (labels_of fs acc) ≡ true
elem-labels_of no_fields acc l h = h
elem-labels_of (field k p fs) acc l h =
    ground (arith, elem-insert_label l k (labels_of fs acc), elem-labels_of fs acc l h)

pub elem-labels_of_lookup :
    {Lit : Type 0} (fs : Fields Lit) (acc : List Bytes) (l : Bytes) (p : Pat Lit)
    → lookup_field l fs ≡ some p
    → elem_label l (labels_of fs acc) ≡ true
elem-labels_of_lookup no_fields acc l p e = ground arith
elem-labels_of_lookup (field k q fs) acc l p e = elim (Bool-cases (bytes_eq k l)) [
  | inl t ↦ ground (arith, t, elem-insert_label l k (labels_of fs acc))
  | inr t ↦ ground (
    arith,
    t,
    elem-insert_label l k (labels_of fs acc),
    elem-labels_of_lookup fs acc l p (ground (arith, e, t)),
  )
]

pub matches_all-wild_columns :
    {Lit : Type 0} (same : Lit → Lit → Bool) (qs : Pats Lit) (ls : List Bytes)
    (f : Bytes → Value Lit) (vs : Values Lit)
    → matches_all same (make_wildcard_vec (length ls) qs) (record_values f ls vs)
      ≡ matches_all same qs vs
matches_all-wild_columns same qs [] f vs = refl
matches_all-wild_columns same qs (l ∷ ls) f vs = matches_all-wild_columns same qs ls f vs

pub labels_of_mono :
    {Lit : Type 0} (fs : Fields Lit) (xs ys : List Bytes) (l : Bytes)
    → (elem_label l xs ≡ true → elem_label l ys ≡ true)
    → elem_label l (labels_of fs xs) ≡ true
    → elem_label l (labels_of fs ys) ≡ true
labels_of_mono no_fields xs ys l i h = i h
labels_of_mono (field k p fs) xs ys l i h = ground (
  arith,
  h,
  elem-insert_label l k (labels_of fs xs),
  elem-insert_label l k (labels_of fs ys),
  labels_of_mono fs xs ys l i,
)
