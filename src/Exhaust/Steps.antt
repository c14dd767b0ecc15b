-- ===== src/Exhaust/Steps.antt =====
-- internal/compiler/check/exhaust/exhaust.go: one step of the search on a column that starts with a
-- constructor or a record, or whose rows start with wildcards.
use gicel.Prelude.{
  Bool, true, false, ◌&&◌, not, Option, List, [], ◌∷◌, ◌++◌, length, ◌≡◌, refl, ◌⊎◌, inl, inr,
  if◌then◌else◌, arith,
}
use gicel.Prelude.Bytes.{Bytes}
use gicel.Exhaust.Pattern.{Pat, wild, con, rec_pat, lit, Pats, nil, cons, pats_append}
use gicel.Exhaust.Matrix.{specialize, default_matrix, all_record_labels, specialize_record}
use gicel.Exhaust.Search.{
  CheckEnv, sub_pattern_types, record_field_types, Verdict, useful, covered, assumed, with_witness,
  then_also,
}
use gicel.Exhaust.Values.{
  Value, vcon, vrec, Values, vcons, vals_length, record_values, matches_all, Compats, covers,
  Compatible, field_type, HasType, HaveTypes,
}
use gicel.Exhaust.Rows.{Compats-length, Compats-append, matches_all-append}
use gicel.Exhaust.Records.{labels_of_mono}
use gicel.Exhaust.Columns.{specialize-Compatible, default-Compatible, specialize_record-Compatible}
use gicel.Exhaust.Covering.{LabelsIn, covers-specialize, covers-default, covers-specialize_record}
use gicel.Exhaust.Typing.{HaveTypes-sub_pattern_types, HaveTypes-record_field_types}

module _ {Lit : Type 0} where
  pub with_witness-covered :
      (f : Pat Lit → Pat Lit) (v : Verdict Lit) → with_witness f v ≡ covered → v ≡ covered
  with_witness-covered f (useful w) e = absurd (ground (arith, e))
  with_witness-covered f covered e = refl
  with_witness-covered f assumed e = e

  then_also-covered : (a b : Verdict Lit) → then_also a b ≡ covered → (a ≡ covered) × (b ≡ covered)
  then_also-covered (useful w) b e = absurd (ground (arith, e))
  then_also-covered covered b e = (refl, e)
  then_also-covered assumed (useful w) e = absurd (ground (arith, e))
  then_also-covered assumed covered e = absurd (ground (arith, e))
  then_also-covered assumed assumed e = absurd (ground (arith, e))

  pub try_parts :
      (b : Bool) (f : Pat Lit → Pat Lit) (here others : Verdict Lit)
      → (if b then others else then_also (with_witness f here) others) ≡ covered
      → (others ≡ covered) × ((b ≡ true) ⊎ (here ≡ covered))
  try_parts true f here others e = (e, inl refl)
  try_parts false f here others e =
      let both = then_also-covered (with_witness f here) others e in
      (both.1, inr (with_witness-covered f here both.0))

  -- The branch of a wildcard column that was taken.
  pub wildcard_branch :
      (z l r : Bool) (by_default by_record by_sigs : Verdict Lit)
      → (if z && not l && not r
          then by_default
          else if r
          then by_record
          else if z
          then by_default
          else by_sigs)
        ≡ covered
      → ((r ≡ true) × (by_record ≡ covered))
        ⊎ ((by_default ≡ covered) ⊎ ((z ≡ false) × (by_sigs ≡ covered)))
  wildcard_branch z l true d r s e = inl (refl, ground (arith, e))
  wildcard_branch true l false d r s e = inr (inl (ground (arith, e)))
  wildcard_branch false l false d r s e = inr (inr (refl, ground (arith, e)))

  pub all_record_labels-append :
      (mx rows : List (Pats Lit)) → LabelsIn mx (all_record_labels (mx ++ rows))
  unfolding all_record_labels
  all_record_labels-append [] rows l h = absurd (ground (arith, h))
  all_record_labels-append (nil ∷ mx) rows l h = all_record_labels-append mx rows l h
  all_record_labels-append (cons wild row ∷ mx) rows l h = all_record_labels-append mx rows l h
  all_record_labels-append (cons (con c n ps) row ∷ mx) rows l h =
      all_record_labels-append mx rows l h
  all_record_labels-append (cons (lit w) row ∷ mx) rows l h = all_record_labels-append mx rows l h
  all_record_labels-append (cons (rec_pat fs) row ∷ mx) rows l h =
      labels_of_mono fs (all_record_labels mx) (all_record_labels (mx ++ rows)) l
        (all_record_labels-append mx rows l) h

module _ {Ty Lit : Type 0} (env : CheckEnv Ty) (same : Lit → Lit → Bool) where
  -- What the search at the next depth gives.
  abbrev pub Sound : (List (Pats Lit) → Pats Lit → List (Option Ty) → Verdict Lit) → Type 0
  Sound next =
      (mx : List (Pats Lit)) (q : Pats Lit) (tys : List (Option Ty)) (vs : Values Lit)
      → next mx q tys ≡ covered
      → Compatible mx vs
      → Compats q vs
      → matches_all same q vs ≡ true
      → HaveTypes env vs tys
      → covers same mx vs ≡ true

  module _ (next : List (Pats Lit) → Pats Lit → List (Option Ty) → Verdict Lit)
      (sound : Sound next) where
    pub con_column :
        (mx : List (Pats Lit)) (c : Bytes) (ps q : Pats Lit) (ty : Option Ty)
        (rest : List (Option Ty)) (us vs : Values Lit)
        → next
            (specialize mx c (vals_length us))
            (pats_append ps q)
            (sub_pattern_types env c ty (vals_length us) rest)
          ≡ covered
        → Compatible mx (vcons (vcon c us) vs)
        → Compats ps us
        → Compats q vs
        → matches_all same ps us ≡ true
        → matches_all same q vs ≡ true
        → length (sub_pattern_types env c ty (vals_length us) []) ≡ vals_length us
        → HaveTypes env us (sub_pattern_types env c ty (vals_length us) [])
        → HaveTypes env vs rest
        → covers same mx (vcons (vcon c us) vs) ≡ true
    con_column mx c ps q ty rest us vs e fit f g m n l h k =
        covers-specialize same mx c (vals_length us) us vs refl fit (
          sound _ _ _ _ e (specialize-Compatible mx c (vals_length us) us vs refl fit)
            (Compats-append ps q us vs f g)
            (ground (arith, matches_all-append same ps q us vs (Compats-length ps us f), m, n))
            (HaveTypes-sub_pattern_types env c us vs ty rest l h k))

    pub record_column :
        (mx : List (Pats Lit)) (ls : List Bytes) (q : Pats Lit) (ty : Option Ty)
        (rest : List (Option Ty)) (f : Bytes → Value Lit) (vs : Values Lit)
        → LabelsIn mx ls
        → next (specialize_record mx ls) q (record_field_types env ty ls rest) ≡ covered
        → Compatible mx (vcons (vrec f) vs)
        → Compats q (record_values f ls vs)
        → matches_all same q (record_values f ls vs) ≡ true
        → ((l : Bytes) → HasType env (f l) (field_type env ty l))
        → HaveTypes env vs rest
        → covers same mx (vcons (vrec f) vs) ≡ true
    record_column mx ls q ty rest f vs i e fit c m h k =
        covers-specialize_record same mx ls f vs i (
          sound _ _ _ _ e (specialize_record-Compatible mx ls f vs fit) c m
            (HaveTypes-record_field_types env f ls vs ty rest h k))

    pub default_column :
        (mx : List (Pats Lit)) (q : Pats Lit) (rest : List (Option Ty)) (v : Value Lit)
        (vs : Values Lit)
        → next (default_matrix mx) q rest ≡ covered
        → Compatible mx (vcons v vs)
        → Compats q vs
        → matches_all same q vs ≡ true
        → HaveTypes env vs rest
        → covers same mx (vcons v vs) ≡ true
    default_column mx q rest v vs e fit c m k =
        covers-default same mx v vs (sound _ _ _ _ e (default-Compatible mx v vs fit) c m k)
