-- ===== src/Exhaust/Columns.antt =====
-- internal/compiler/check/exhaust/matrix.go: a specialised matrix against the parts of the values of the
-- first column.
use gicel.Prelude.{
  ◌<◌, ℕ, Bool, true, false, List, [], ◌∷◌, length, ◌≡◌, refl, sym, ap, inl, inr, if◌then◌else◌,
  arith, Bool-cases, subst,
}
use gicel.Prelude.Bytes.{Bytes, bytes_eq, bytes_eq_iff_eq}
use gicel.Exhaust.Pattern.{wild, con, rec_pat, lit, Pats, nil, cons, pats_append}
use gicel.Exhaust.Matrix.{
  elem_label, specialize, default_matrix, specialize_lit, specialize_record, column_head_cons,
  has_record_pats,
}
use gicel.Exhaust.Values.{
  Value, vcon, vrec, vlit, vany, Values, vcons, vals_length, vals_append, record_values, Compats,
  Compatible,
}
use gicel.Exhaust.Rows.{Compats-append, Compats-wildcards}
use gicel.Exhaust.Records.{Compats-record, Compats-wild_columns}

pub absent_parts :
    (k c : Bytes) (ls : List Bytes)
    → elem_label c (if elem_label k ls then ls else k ∷ ls) ≡ false
    → (bytes_eq k c ≡ false) × (elem_label c ls ≡ false)
absent_parts k c ls a = elim (Bool-cases (bytes_eq k c)) [
  | inl t ↦ absurd (ground (arith, t, a, ap (λ x. elem_label x ls) (bytes_eq_iff_eq k c t)))
  | inr t ↦ (t, ground (arith, t, a))
]

module _ {Lit : Type 0} where
  pub specialize-Compatible :
      (mx : List (Pats Lit)) (c : Bytes) (n : ℕ) (us vs : Values Lit)
      → vals_length us ≡ n
      → Compatible mx (vcons (vcon c us) vs)
      → Compatible (specialize mx c n) (vals_append us vs)
  unfolding specialize
  specialize-Compatible [] c n us vs e h = tt
  specialize-Compatible (nil ∷ mx) c n us vs e (h, t) = elim h [ ]
  specialize-Compatible (cons (con k m ps) row ∷ mx) c n us vs e (h, t) =
      let rest = specialize-Compatible mx c n us vs e t in
      elim (bytes_eq k c)
          as (λ b.
            ((b ≡ true → Compats ps us)
              → Compatible (if b then pats_append ps row ∷ specialize mx c n else specialize mx c n)
                  (vals_append us vs))) [
                    | true ↦ λ g. (Compats-append ps row us vs (g refl) h.1, rest)
                    | false ↦ λ g. rest
                  ]
        h.0.1
  specialize-Compatible (cons wild row ∷ mx) c n us vs e (h, t) =
      (Compats-wildcards n row us vs e h.1, specialize-Compatible mx c n us vs e t)
  specialize-Compatible (cons (rec_pat fs) row ∷ mx) c n us vs e (h, t) = elim h.0 [ ]
  specialize-Compatible (cons (lit v) row ∷ mx) c n us vs e (h, t) = elim h.0 [ ]

  -- Where no row has the constructor, the values of its columns do not matter.
  pub absent-Compatible :
      (mx : List (Pats Lit)) (c : Bytes) (n : ℕ) (v : Value Lit) (us vs : Values Lit)
      → vals_length us ≡ n
      → elem_label c (column_head_cons mx) ≡ false
      → Compatible mx (vcons v vs)
      → Compatible (specialize mx c n) (vals_append us vs)
  unfolding specialize column_head_cons
  absent-Compatible [] c n v us vs e a h = tt
  absent-Compatible (nil ∷ mx) c n v us vs e a (h, t) = elim h [ ]
  absent-Compatible (cons (con k m ps) row ∷ mx) c n v us vs e a (h, t) =
      let away = absent_parts k c (column_head_cons mx) a in
      subst
        (λ b.
          Compatible (if b then pats_append ps row ∷ specialize mx c n else specialize mx c n)
            (vals_append us vs))
        (sym away.0) (absent-Compatible mx c n v us vs e away.1 t)
  absent-Compatible (cons wild row ∷ mx) c n v us vs e a (h, t) =
      (Compats-wildcards n row us vs e h.1, absent-Compatible mx c n v us vs e a t)
  absent-Compatible (cons (rec_pat fs) row ∷ mx) c n v us vs e a (h, t) =
      absent-Compatible mx c n v us vs e a t
  absent-Compatible (cons (lit w) row ∷ mx) c n v us vs e a (h, t) =
      absent-Compatible mx c n v us vs e a t

  pub default-Compatible :
      (mx : List (Pats Lit)) (v : Value Lit) (vs : Values Lit)
      → Compatible mx (vcons v vs)
      → Compatible (default_matrix mx) vs
  unfolding default_matrix
  default-Compatible [] v vs h = tt
  default-Compatible (nil ∷ mx) v vs (h, t) = elim h [ ]
  default-Compatible (cons wild row ∷ mx) v vs (h, t) = (h.1, default-Compatible mx v vs t)
  default-Compatible (cons (con k m ps) row ∷ mx) v vs (h, t) = default-Compatible mx v vs t
  default-Compatible (cons (rec_pat fs) row ∷ mx) v vs (h, t) = default-Compatible mx v vs t
  default-Compatible (cons (lit w) row ∷ mx) v vs (h, t) = default-Compatible mx v vs t

  pub specialize_lit-Compatible :
      (same : Lit → Lit → Bool) (mx : List (Pats Lit)) (a b : Lit) (vs : Values Lit)
      → Compatible mx (vcons (vlit b) vs)
      → Compatible (specialize_lit same mx a) vs
  unfolding specialize_lit
  specialize_lit-Compatible same [] a b vs h = tt
  specialize_lit-Compatible same (nil ∷ mx) a b vs (h, t) = elim h [ ]
  specialize_lit-Compatible same (cons (lit w) row ∷ mx) a b vs (h, t) =
      let rest = specialize_lit-Compatible same mx a b vs t in
      elim (same w a)
        as (λ x.
          Compatible (if x then row ∷ specialize_lit same mx a else specialize_lit same mx a) vs) [
            | true ↦ (h.1, rest)
            | false ↦ rest
          ]
  specialize_lit-Compatible same (cons wild row ∷ mx) a b vs (h, t) =
      (h.1, specialize_lit-Compatible same mx a b vs t)
  specialize_lit-Compatible same (cons (con k m ps) row ∷ mx) a b vs (h, t) = elim h.0 [ ]
  specialize_lit-Compatible same (cons (rec_pat fs) row ∷ mx) a b vs (h, t) = elim h.0 [ ]

  pub specialize_record-Compatible :
      (mx : List (Pats Lit)) (ls : List Bytes) (f : Bytes → Value Lit) (vs : Values Lit)
      → Compatible mx (vcons (vrec f) vs)
      → Compatible (specialize_record mx ls) (record_values f ls vs)
  unfolding specialize_record
  specialize_record-Compatible [] ls f vs h = tt
  specialize_record-Compatible (nil ∷ mx) ls f vs (h, t) = elim h [ ]
  specialize_record-Compatible (cons (rec_pat fs) row ∷ mx) ls f vs (h, t) =
      (Compats-record fs ls row f vs h.0 h.1, specialize_record-Compatible mx ls f vs t)
  specialize_record-Compatible (cons wild row ∷ mx) ls f vs (h, t) =
      (Compats-wild_columns row ls f vs h.1, specialize_record-Compatible mx ls f vs t)
  specialize_record-Compatible (cons (con k m ps) row ∷ mx) ls f vs (h, t) = elim h.0 [ ]
  specialize_record-Compatible (cons (lit w) row ∷ mx) ls f vs (h, t) = elim h.0 [ ]

  -- A column with a constructor is tried on constructors, and one with a record pattern on records.
  pub head_con :
      (mx : List (Pats Lit)) (v : Value Lit) (vs : Values Lit)
      → 0 < length (column_head_cons mx)
      → Compatible mx (vcons v vs)
      → (c : Bytes) × (us : Values Lit) × (v ≡ vcon c us)
  unfolding column_head_cons
  head_con [] v vs p h = elim p [ ]
  head_con (nil ∷ mx) v vs p (h, t) = elim h [ ]
  head_con (cons (con k m ps) row ∷ mx) (vcon c us) vs p h = (c, us, refl)
  head_con (cons (con k m ps) row ∷ mx) (vrec f) vs p (h, t) = elim h.0 [ ]
  head_con (cons (con k m ps) row ∷ mx) (vlit w) vs p (h, t) = elim h.0 [ ]
  head_con (cons (con k m ps) row ∷ mx) vany vs p (h, t) = elim h.0 [ ]
  head_con (cons wild row ∷ mx) v vs p (h, t) = head_con mx v vs p t
  head_con (cons (rec_pat fs) row ∷ mx) v vs p (h, t) = head_con mx v vs p t
  head_con (cons (lit w) row ∷ mx) v vs p (h, t) = head_con mx v vs p t

  pub head_record :
      (mx : List (Pats Lit)) (v : Value Lit) (vs : Values Lit)
      → has_record_pats mx ≡ true
      → Compatible mx (vcons v vs)
      → (f : Bytes → Value Lit) × (v ≡ vrec f)
  unfolding has_record_pats
  head_record [] v vs p h = absurd (ground (arith, p))
  head_record (nil ∷ mx) v vs p (h, t) = elim h [ ]
  head_record (cons (rec_pat fs) row ∷ mx) (vrec f) vs p h = (f, refl)
  head_record (cons (rec_pat fs) row ∷ mx) (vcon c us) vs p (h, t) = elim h.0 [ ]
  head_record (cons (rec_pat fs) row ∷ mx) (vlit w) vs p (h, t) = elim h.0 [ ]
  head_record (cons (rec_pat fs) row ∷ mx) vany vs p (h, t) = elim h.0 [ ]
  head_record (cons wild row ∷ mx) v vs p (h, t) = head_record mx v vs p t
  head_record (cons (con k m ps) row ∷ mx) v vs p (h, t) = head_record mx v vs p t
  head_record (cons (lit w) row ∷ mx) v vs p (h, t) = head_record mx v vs p t
