-- ===== src/Exhaust/Soundness.antt =====
-- internal/compiler/check/exhaust/exhaust.go: a search that ends with no witness and assumes nothing is
-- right: each value that the patterns match is matched by a row.
use gicel.Prelude.{
  ℕ, zero, suc, Bool, true, Option, List, [], ◌∷◌, ◌++◌, ◌≡◌, refl, sym, ◌∙◌, arith, subst,
}
use gicel.Prelude.Bytes.{Bytes, bytes_eq, bytes_eq_iff_eq}
use gicel.Exhaust.Pattern.{wild, con, rec_pat, lit, Pats, nil, cons, pats_length, pats_append}
use gicel.Exhaust.Matrix.{specialize, all_record_labels, record_columns, reconstruct_con}
use gicel.Exhaust.Search.{
  CheckEnv, sub_pattern_types, zonk_type, column_type, rest_types, Verdict, covered,
  is_useful_wildcard, is_useful_step, is_useful_at, search, max_exhaust_depth,
}
use gicel.Exhaust.Values.{
  vcon, vrec, vlit, vany, Values, vnil, vcons, vals_length, matches_all, Compats, covers,
  Compatible, field_type, HasType, HaveTypes,
}
use gicel.Exhaust.Rows.{Compats-length}
use gicel.Exhaust.Records.{Compats-record, matches_fields-FieldsMatch, matches_all-record}
use gicel.Exhaust.Columns.{specialize_lit-Compatible}
use gicel.Exhaust.Covering.{covers-specialize_lit}
use gicel.Exhaust.Declared.{HasType-sub_pattern_types}
use gicel.Exhaust.Typing.{LawfulEnv, HaveTypes-cons}
use gicel.Exhaust.Steps.{
  with_witness-covered, all_record_labels-append, Sound, con_column, record_column,
}
use gicel.Exhaust.Wildcard.{wildcard_column}

module _ {Ty Lit : Type 0} (env : CheckEnv Ty) (same : Lit → Lit → Bool) (law : LawfulEnv env)
    (trans : (a b c : Lit) → same a b ≡ true → same b c ≡ true → same a c ≡ true) where
  module _ (next : List (Pats Lit) → Pats Lit → List (Option Ty) → Verdict Lit)
      (sound : Sound env same next) where
    -- The first row on its own in front of a column of constructors, with the name of the value.
    con_step :
        (mx : List (Pats Lit)) (c k : Bytes) (n : ℕ) (ps q : Pats Lit) (tys : List (Option Ty))
        (us vs : Values Lit)
        → c ≡ k
        → next
            (specialize mx c n)
            (pats_append ps q)
            (sub_pattern_types env c (column_type env tys) n (rest_types env tys))
          ≡ covered
        → Compatible mx (vcons (vcon k us) vs)
        → n ≡ pats_length ps
        → Compats ps us
        → Compats q vs
        → matches_all same ps us ≡ true
        → matches_all same q vs ≡ true
        → HaveTypes env (vcons (vcon k us) vs) tys
        → covers same mx (vcons (vcon k us) vs) ≡ true
    con_step mx c k n ps q tys us vs ck e fit nl f g m w h =
        let (t, z, ht, k') = HaveTypes-cons env (vcon k us) vs tys h in
        let len : n ≡ vals_length us = nl ∙ Compats-length ps us f in
        let e' : next (specialize mx k (vals_length us)) (pats_append ps q)
              (sub_pattern_types env k (zonk_type env t) (vals_length us) (rest_types env tys))
            ≡ covered =
          subst
            (λ x.
              next (specialize mx x (vals_length us)) (pats_append ps q)
                (sub_pattern_types env x (zonk_type env t) (vals_length us) (rest_types env tys))
              ≡ covered)
            ck
            (subst
              (λ x.
                next (specialize mx c x) (pats_append ps q)
                  (sub_pattern_types env c (zonk_type env t) x (rest_types env tys))
                ≡ covered)
              len
              (subst
                (λ x.
                  next (specialize mx c n) (pats_append ps q)
                    (sub_pattern_types env c x n (rest_types env tys))
                  ≡ covered)
                z e)) in
        let (size, typed) = HasType-sub_pattern_types env k us t ht in
        con_column env same next sound mx k ps q (zonk_type env t) (rest_types env tys) us vs e' fit
          f g m w size typed k'

    step-Sound : Sound env same (is_useful_step env same next)
    unfolding is_useful_step
    step-Sound [] nil tys vs e fit g m h = absurd (ground (arith, e))
    step-Sound [] (cons p q) tys vs e fit g m h = absurd (ground (arith, e))
    step-Sound (nil ∷ mx) nil tys vnil e fit g m h = refl
    step-Sound (cons p row ∷ mx) nil tys vnil e fit g m h = elim fit.0 [ ]
    step-Sound (row ∷ mx) nil tys (vcons v vs) e fit g m h = elim g [ ]
    step-Sound (row ∷ mx) (cons (con c n ps) q) tys vnil e fit g m h = elim g [ ]
    step-Sound (row ∷ mx) (cons (con c n ps) q) tys (vcons (vcon k us) vs) e fit g m h =
        let named : bytes_eq c k ≡ true = ground (arith, m) in
        con_step (row ∷ mx) c k n ps q tys us vs (bytes_eq_iff_eq c k named)
          (with_witness-covered (reconstruct_con c n) _ e) fit g.0.0 (g.0.1 named) g.1
          (ground (arith, m)) (ground (arith, m)) h
    step-Sound (row ∷ mx) (cons (con c n ps) q) tys (vcons (vrec f) vs) e fit g m h = elim g.0 [ ]
    step-Sound (row ∷ mx) (cons (con c n ps) q) tys (vcons (vlit b) vs) e fit g m h = elim g.0 [ ]
    step-Sound (row ∷ mx) (cons (con c n ps) q) tys (vcons vany vs) e fit g m h = elim g.0 [ ]
    step-Sound (row ∷ mx) (cons (lit a) q) tys vnil e fit g m h = elim g [ ]
    step-Sound (row ∷ mx) (cons (lit a) q) tys (vcons (vlit b) vs) e fit g m h =
        let (t, z, ht, k) = HaveTypes-cons env (vlit b) vs tys h in
        covers-specialize_lit same trans (row ∷ mx) a b vs (ground (arith, m)) (
          sound _ _ _ _ e (specialize_lit-Compatible same (row ∷ mx) a b vs fit) g.1
            (ground (arith, m)) k)
    step-Sound (row ∷ mx) (cons (lit a) q) tys (vcons (vcon k us) vs) e fit g m h = elim g.0 [ ]
    step-Sound (row ∷ mx) (cons (lit a) q) tys (vcons (vrec f) vs) e fit g m h = elim g.0 [ ]
    step-Sound (row ∷ mx) (cons (lit a) q) tys (vcons vany vs) e fit g m h = elim g.0 [ ]
    step-Sound (row ∷ mx) (cons (rec_pat fs) q) tys vnil e fit g m h = elim g [ ]
    step-Sound (row ∷ mx) (cons (rec_pat fs) q) tys (vcons (vrec f) vs) e fit g m h =
        let (t, z, ht, k) = HaveTypes-cons env (vrec f) vs tys h in
        let ls = all_record_labels ((row ∷ mx) ++ cons (rec_pat fs) q ∷ []) in
        record_column env same next sound (row ∷ mx) ls (record_columns fs ls q)
          (column_type env tys) (rest_types env tys) f vs (all_record_labels-append (row ∷ mx) _) e
          fit (Compats-record fs ls q f vs g.0 g.1)
          (matches_all-record same fs ls q f vs
            (λ l p a b. matches_fields-FieldsMatch same fs f [] (ground (arith, m)) l p refl b)
            (ground (arith, m)))
          (λ l. subst (λ x. HasType env (f l) (field_type env x l)) (sym z) (ht l)) k
    step-Sound (row ∷ mx) (cons (rec_pat fs) q) tys (vcons (vcon c us) vs) e fit g m h =
        elim g.0 [ ]
    step-Sound (row ∷ mx) (cons (rec_pat fs) q) tys (vcons (vlit b) vs) e fit g m h = elim g.0 [ ]
    step-Sound (row ∷ mx) (cons (rec_pat fs) q) tys (vcons vany vs) e fit g m h = elim g.0 [ ]
    step-Sound (row ∷ mx) (cons wild q) tys vnil e fit g m h = elim g [ ]
    step-Sound (row ∷ mx) (cons wild q) tys (vcons v vs) e fit g m h =
        let (t, z, ht, k) = HaveTypes-cons env v vs tys h in
        wildcard_column env same law next sound (row ∷ mx) q t (rest_types env tys) v vs
          (subst
            (λ x. is_useful_wildcard env same next (row ∷ mx) q x (rest_types env tys) ≡ covered) z
            e)
          fit g.1 m ht k

  -- At every depth.
  is_useful_at-Sound : (left : ℕ) → Sound env same (is_useful_at env same left)
  unfolding is_useful_at
  is_useful_at-Sound zero mx q tys vs e fit g m h = absurd (ground (arith, e))
  is_useful_at-Sound (suc left) mx q tys vs e fit g m h =
      step-Sound (is_useful_at env same left) (is_useful_at-Sound left) mx q tys vs e fit g m h

  -- With distinct constructors whose types have as many arguments as they are declared with, and literals
  -- whose equality is transitive: where the search finds that no value is left, and has not assumed it at
  -- the depth limit or at a type without known constructors, each vector of values of the types, on which
  -- the rows and the patterns may be tried, and that the patterns match, is matched by a row.
  pub search_sound :
      (mx : List (Pats Lit)) (q : Pats Lit) (tys : List (Option Ty)) (vs : Values Lit)
      → search env same mx q tys ≡ covered
      → Compatible mx vs
      → Compats q vs
      → matches_all same q vs ≡ true
      → HaveTypes env vs tys
      → covers same mx vs ≡ true
  unfolding search
  search_sound mx q tys vs e fit g m h =
      is_useful_at-Sound (suc max_exhaust_depth) mx q tys vs e fit g m h
