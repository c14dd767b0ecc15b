-- ===== src/Exhaust/Covering.antt =====
-- internal/compiler/check/exhaust/matrix.go: what a specialised matrix covers, the matrix covers.
use gicel.Prelude.{ℕ, Bool, true, false, ◌||◌, List, [], ◌∷◌, ◌≡◌, inl, inr, arith, Bool-cases}
use gicel.Prelude.Bytes.{Bytes, bytes_eq}
use gicel.Exhaust.Pattern.{wild, con, rec_pat, lit, Pats, nil, cons}
use gicel.Exhaust.Matrix.{
  elem_label, specialize, default_matrix, specialize_lit, all_record_labels, record_columns,
  specialize_record, column_head_cons,
}
use gicel.Exhaust.Values.{
  Value, vcon, vrec, vlit, Values, vcons, vals_length, vals_append, record_values, matches_all,
  covers, Compatible,
}
use gicel.Exhaust.Rows.{Compats-length, matches_all-append, matches_all-wildcards}
use gicel.Exhaust.Records.{
  FieldsMatch-matches_fields, record_columns-FieldsMatch, elem-labels_of, elem-labels_of_lookup,
  matches_all-wild_columns,
}
use gicel.Exhaust.Columns.{absent_parts}

-- The row on its own, or the rows below it.
or_true :
    (a b c d : Bool)
    → (a ≡ true → c ≡ true)
    → (b ≡ true → d ≡ true)
    → (a || b) ≡ true
    → (c || d) ≡ true
or_true a b c d f g h = ground (arith, f, g, h)

-- Each label of a record pattern of column 0 is in the set.
abbrev pub LabelsIn : {Lit : Type 0} → List (Pats Lit) → List Bytes → Type 0
LabelsIn mx ls = (l : Bytes) → elem_label l (all_record_labels mx) ≡ true → elem_label l ls ≡ true

module _ {Lit : Type 0} (same : Lit → Lit → Bool) where
  pub covers-specialize :
      (mx : List (Pats Lit)) (c : Bytes) (n : ℕ) (us vs : Values Lit)
      → vals_length us ≡ n
      → Compatible mx (vcons (vcon c us) vs)
      → covers same (specialize mx c n) (vals_append us vs) ≡ true
      → covers same mx (vcons (vcon c us) vs) ≡ true
  unfolding specialize
  covers-specialize [] c n us vs e h k = k
  covers-specialize (nil ∷ mx) c n us vs e (h, t) k = elim h [ ]
  covers-specialize (cons (con m i ps) row ∷ mx) c n us vs e (h, t) k =
      elim (Bool-cases (bytes_eq m c)) [
        | inl q ↦ ground (
          arith,
          q,
          k,
          matches_all-append same ps row us vs (Compats-length ps us (h.0.1 q)),
          covers-specialize mx c n us vs e t,
        )
        | inr q ↦ ground (arith, q, k, covers-specialize mx c n us vs e t)
      ]
  covers-specialize (cons wild row ∷ mx) c n us vs e (h, t) k =
      ground
        (arith, k, matches_all-wildcards same n row us vs e, covers-specialize mx c n us vs e t)
  covers-specialize (cons (rec_pat fs) row ∷ mx) c n us vs e (h, t) k = elim h.0 [ ]
  covers-specialize (cons (lit v) row ∷ mx) c n us vs e (h, t) k = elim h.0 [ ]

  pub covers-absent :
      (mx : List (Pats Lit)) (c : Bytes) (n : ℕ) (v : Value Lit) (us vs : Values Lit)
      → vals_length us ≡ n
      → elem_label c (column_head_cons mx) ≡ false
      → covers same (specialize mx c n) (vals_append us vs) ≡ true
      → covers same mx (vcons v vs) ≡ true
  unfolding specialize column_head_cons
  covers-absent [] c n v us vs e a k = k
  covers-absent (nil ∷ mx) c n v us vs e a k = covers-absent mx c n v us vs e a k
  covers-absent (cons (con m i ps) row ∷ mx) c n v us vs e a k =
      let away = absent_parts m c (column_head_cons mx) a in
      ground (arith, k, away, covers-absent mx c n v us vs e away.1)
  covers-absent (cons wild row ∷ mx) c n v us vs e a k =
      ground (arith, k, matches_all-wildcards same n row us vs e, covers-absent mx c n v us vs e a)
  covers-absent (cons (rec_pat fs) row ∷ mx) c n v us vs e a k =
      ground (arith, covers-absent mx c n v us vs e a k)
  covers-absent (cons (lit w) row ∷ mx) c n v us vs e a k =
      ground (arith, covers-absent mx c n v us vs e a k)

  pub covers-default :
      (mx : List (Pats Lit)) (v : Value Lit) (vs : Values Lit)
      → covers same (default_matrix mx) vs ≡ true
      → covers same mx (vcons v vs) ≡ true
  unfolding default_matrix
  covers-default [] v vs k = k
  covers-default (nil ∷ mx) v vs k = covers-default mx v vs k
  covers-default (cons wild row ∷ mx) v vs k = ground (arith, k, covers-default mx v vs)
  covers-default (cons (con m i ps) row ∷ mx) v vs k = ground (arith, covers-default mx v vs k)
  covers-default (cons (rec_pat fs) row ∷ mx) v vs k = ground (arith, covers-default mx v vs k)
  covers-default (cons (lit w) row ∷ mx) v vs k = ground (arith, covers-default mx v vs k)

  pub covers-specialize_lit :
      ((a b c : Lit) → same a b ≡ true → same b c ≡ true → same a c ≡ true)
      → (mx : List (Pats Lit)) (a b : Lit) (vs : Values Lit) → same a b ≡ true
      → covers same (specialize_lit same mx a) vs ≡ true
      → covers same mx (vcons (vlit b) vs) ≡ true
  unfolding specialize_lit
  covers-specialize_lit trans [] a b vs s k = k
  covers-specialize_lit trans (nil ∷ mx) a b vs s k = covers-specialize_lit trans mx a b vs s k
  covers-specialize_lit trans (cons (lit w) row ∷ mx) a b vs s k =
      ground (arith, s, k, trans w a b, covers-specialize_lit trans mx a b vs s)
  covers-specialize_lit trans (cons wild row ∷ mx) a b vs s k =
      ground (arith, k, covers-specialize_lit trans mx a b vs s)
  covers-specialize_lit trans (cons (con m i ps) row ∷ mx) a b vs s k =
      ground (arith, covers-specialize_lit trans mx a b vs s k)
  covers-specialize_lit trans (cons (rec_pat fs) row ∷ mx) a b vs s k =
      ground (arith, covers-specialize_lit trans mx a b vs s k)

  pub covers-specialize_record :
      (mx : List (Pats Lit)) (ls : List Bytes) (f : Bytes → Value Lit) (vs : Values Lit)
      → LabelsIn mx ls
      → covers same (specialize_record mx ls) (record_values f ls vs) ≡ true
      → covers same mx (vcons (vrec f) vs) ≡ true
  unfolding specialize_record all_record_labels
  covers-specialize_record [] ls f vs i k = k
  covers-specialize_record (nil ∷ mx) ls f vs i k = covers-specialize_record mx ls f vs i k
  covers-specialize_record (cons (rec_pat fs) row ∷ mx) ls f vs i k =
      or_true (matches_all same (record_columns fs ls row) (record_values f ls vs))
        (covers same (specialize_record mx ls) (record_values f ls vs)) _ _
        (λ m.
          let (fields, rest) = record_columns-FieldsMatch same fs ls row f vs m in
          ground (
            arith,
            rest,
            FieldsMatch-matches_fields same fs f [] (λ l p a e.
                fields l p (i l (elem-labels_of_lookup fs (all_record_labels mx) l p e)) e),
          ))
        (covers-specialize_record mx ls f vs
          (λ l e. i l (elem-labels_of fs (all_record_labels mx) l e)))
        k
  covers-specialize_record (cons wild row ∷ mx) ls f vs i k =
      ground
        (arith, k, matches_all-wild_columns same row ls f vs, covers-specialize_record mx ls f vs i)
  covers-specialize_record (cons (con m n ps) row ∷ mx) ls f vs i k =
      ground (arith, covers-specialize_record mx ls f vs i k)
  covers-specialize_record (cons (lit w) row ∷ mx) ls f vs i k =
      ground (arith, covers-specialize_record mx ls f vs i k)
