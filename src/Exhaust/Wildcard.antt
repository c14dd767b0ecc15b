-- ===== src/Exhaust/Wildcard.antt =====
-- internal/compiler/check/exhaust/exhaust.go: one step of the search on a column that starts with a
-- wildcard.
use gicel.Prelude.{
  ℕ, Bool, true, false, ◌&&◌, not, Option, none, some, List, [], ◌∷◌, length, leb, ◌≡◌, sym, ◌∙◌,
  ◌⊎◌, inl, inr, arith, Option-cases, subst,
}
use gicel.Prelude.Bytes.{Bytes}
use gicel.Exhaust.Pattern.{wildcards, Pats, make_wildcard_vec}
use gicel.Exhaust.Matrix.{
  elem_label, specialize, default_matrix, has_head_lits, all_record_labels, specialize_record,
  column_head_cons, has_record_pats, reconstruct_con,
}
use gicel.Exhaust.Search.{
  CheckEnv, ConSig, sub_pattern_types, constructor_sigs, zonk_type, record_field_types, Verdict,
  covered, assumed, try_sigs, is_useful_wildcard,
}
use gicel.Exhaust.Values.{
  Value, vcon, Values, vcons, vals_length, vanys, matches_all, Compats, covers, Compatible, SigIn,
  HasType, HaveTypes,
}
use gicel.Exhaust.Rows.{
  Compats-wilds, matches_all-wilds, vals_length-vanys, Compats-wildcards, matches_all-wildcards,
}
use gicel.Exhaust.Records.{Compats-wild_columns, matches_all-wild_columns}
use gicel.Exhaust.Columns.{absent-Compatible, head_con, head_record}
use gicel.Exhaust.Covering.{covers-absent}
use gicel.Exhaust.Signatures.{absent_sig}
use gicel.Exhaust.Declared.{ConOf-SigIn, HasType-sub_pattern_types}
use gicel.Exhaust.Typing.{LawfulEnv, HaveTypes-any_columns}
use gicel.Exhaust.Steps.{
  wildcard_branch, try_parts, Sound, con_column, record_column, default_column,
}

module _ {Ty Lit : Type 0} (env : CheckEnv Ty) (same : Lit → Lit → Bool) (law : LawfulEnv env) where
  module _ (next : List (Pats Lit) → Pats Lit → List (Option Ty) → Verdict Lit)
      (sound : Sound env same next) where
    try_sigs-parts :
        (mx : List (Pats Lit)) (q : Pats Lit) (ty : Option Ty) (rest : List (Option Ty))
        (complete : Bool) (s : ConSig) (ss : List ConSig)
        → try_sigs env same next mx q ty rest complete (s ∷ ss) ≡ covered
        → (try_sigs env same next mx q ty rest complete ss ≡ covered)
          × (((complete ≡ false) × (elem_label s.sig_name (column_head_cons mx) ≡ true))
              ⊎ (next
                    (specialize mx s.sig_name s.sig_arity)
                    (make_wildcard_vec s.sig_arity q)
                    (sub_pattern_types env s.sig_name ty s.sig_arity rest)
                  ≡ covered))
    try_sigs-parts mx q ty rest complete s ss e =
        let skip = not complete && elem_label s.sig_name (column_head_cons mx) in
        let others = try_sigs env same next mx q ty rest complete ss in
        let here =
          next (specialize mx s.sig_name s.sig_arity) (make_wildcard_vec s.sig_arity q)
            (sub_pattern_types env s.sig_name ty s.sig_arity rest) in
        let (a, b) = try_parts skip (reconstruct_con s.sig_name s.sig_arity) here others e in
        (a, elim b [ inl t ↦ inl (ground (arith, t), ground (arith, t)) | inr h ↦ inr h ])

    -- A signature is searched, or it is skipped as one of the column.
    try_sigs-sig :
        (mx : List (Pats Lit)) (q : Pats Lit) (ty : Option Ty) (rest : List (Option Ty))
        (complete : Bool) (sigs : List ConSig) (c : Bytes) (n : ℕ)
        → try_sigs env same next mx q ty rest complete sigs ≡ covered
        → SigIn c n sigs
        → ((complete ≡ false) × (elem_label c (column_head_cons mx) ≡ true))
          ⊎ (next (specialize mx c n) (make_wildcard_vec n q) (sub_pattern_types env c ty n rest)
              ≡ covered)
    try_sigs-sig mx q ty rest complete [] c n e m = elim m [ ]
    try_sigs-sig mx q ty rest complete (s ∷ ss) c n e (inl (a, b)) =
        rw (a, b) ((try_sigs-parts mx q ty rest complete s ss e).1)
    try_sigs-sig mx q ty rest complete (s ∷ ss) c n e (inr m) =
        try_sigs-sig mx q ty rest complete ss c n ((try_sigs-parts mx q ty rest complete s ss e).0)
          m

    absent_column :
        (mx : List (Pats Lit)) (q : Pats Lit) (ty : Option Ty) (rest : List (Option Ty)) (c : Bytes)
        (n : ℕ) (v : Value Lit) (vs : Values Lit)
        → next (specialize mx c n) (make_wildcard_vec n q) (sub_pattern_types env c ty n rest)
          ≡ covered
        → elem_label c (column_head_cons mx) ≡ false
        → length (sub_pattern_types env c ty n []) ≡ n
        → Compatible mx (vcons v vs)
        → Compats q vs
        → matches_all same q vs ≡ true
        → HaveTypes env vs rest
        → covers same mx (vcons v vs) ≡ true
    absent_column mx q ty rest c n v vs e away l fit g m k =
        let w : vals_length (vanys {Lit = Lit} n) ≡ n = vals_length-vanys Lit n in
        covers-absent same mx c n v (vanys n) vs w away (
          sound _ _ _ _ e (absent-Compatible mx c n v (vanys n) vs w away fit)
            (Compats-wildcards n q (vanys n) vs w g)
            (matches_all-wildcards same n q (vanys n) vs w ∙ m)
            (HaveTypes-any_columns env c n vs ty rest l k))

    sigs_column :
        (mx : List (Pats Lit)) (q : Pats Lit) (ty : Option Ty) (rest : List (Option Ty))
        (sigs : List ConSig) (c : Bytes) (us vs : Values Lit)
        → constructor_sigs env ty ≡ some sigs
        → try_sigs env same next mx q ty rest
            (leb (length sigs) (length (column_head_cons mx)))
            sigs
          ≡ covered
        → SigIn c (vals_length us) sigs
        → Compatible mx (vcons (vcon c us) vs)
        → Compats q vs
        → matches_all same q vs ≡ true
        → length (sub_pattern_types env c ty (vals_length us) []) ≡ vals_length us
        → HaveTypes env us (sub_pattern_types env c ty (vals_length us) [])
        → HaveTypes env vs rest
        → covers same mx (vcons (vcon c us) vs) ≡ true
    sigs_column mx q ty rest sigs c us vs se e m fit g n l h k =
        let complete = leb (length sigs) (length (column_head_cons mx)) in
        elim (try_sigs-sig mx q ty rest complete sigs c (vals_length us) e m) [
          | inr searched ↦
              con_column env same next sound mx c (wildcards (vals_length us)) q ty rest us vs
                searched fit (Compats-wilds us) g (matches_all-wilds same us) n l h k
          | inl (few, here) ↦
              let (s, i, away) =
                absent_sig sigs (column_head_cons mx) (law.distinct ty sigs se)
                  (ground (arith, few)) in
              elim (try_sigs-sig mx q ty rest complete sigs s.sig_name s.sig_arity e i) [
                | inl (few', there) ↦ absurd (ground (arith, away, there))
                | inr searched ↦
                    absent_column mx q ty rest s.sig_name s.sig_arity (vcon c us) vs searched away
                      (law.arities ty sigs s.sig_name s.sig_arity se i) fit g n k
              ]
        ]

    abbrev sigs_search : List (Pats Lit) → Pats Lit → Option Ty → List (Option Ty) → Verdict Lit
    sigs_search mx q ty rest = elim (constructor_sigs env ty) [
      | some sigs ↦
          try_sigs env same next mx q ty rest (leb (length sigs) (length (column_head_cons mx)))
            sigs
      | none ↦ assumed
    ]

    sigs_branch_column :
        (mx : List (Pats Lit)) (q : Pats Lit) (ty : Option Ty) (rest : List (Option Ty)) (c : Bytes)
        (us vs : Values Lit)
        → sigs_search mx q (zonk_type env ty) rest ≡ covered
        → Compatible mx (vcons (vcon c us) vs)
        → Compats q vs
        → matches_all same q vs ≡ true
        → HasType env (vcon c us) ty
        → HaveTypes env vs rest
        → covers same mx (vcons (vcon c us) vs) ≡ true
    sigs_branch_column mx q ty rest c us vs e fit g m h k =
        elim (Option-cases (constructor_sigs env (zonk_type env ty))) [
          | inl n ↦ absurd (ground (arith, e, n))
          | inr (sigs, s) ↦
              let (len, typed) = HasType-sub_pattern_types env c us ty h in
              sigs_column mx q (zonk_type env ty) rest sigs c us vs s (ground (arith, e, s))
                (ConOf-SigIn env (zonk_type env ty) c (vals_length us) sigs s h.0) fit g m len typed
                k
        ]

    pub wildcard_column :
        (mx : List (Pats Lit)) (q : Pats Lit) (ty : Option Ty) (rest : List (Option Ty))
        (v : Value Lit) (vs : Values Lit)
        → is_useful_wildcard env same next mx q (zonk_type env ty) rest ≡ covered
        → Compatible mx (vcons v vs)
        → Compats q vs
        → matches_all same q vs ≡ true
        → HasType env v ty
        → HaveTypes env vs rest
        → covers same mx (vcons v vs) ≡ true
    unfolding is_useful_wildcard
    wildcard_column mx q ty rest v vs e fit c m h k =
        let labels = all_record_labels mx in
        let sigs_branch = sigs_search mx q (zonk_type env ty) rest in
        elim (wildcard_branch (leb (length (column_head_cons mx)) 0) (has_head_lits mx)
          (has_record_pats mx) (next (default_matrix mx) q rest)
          (next (specialize_record mx labels) (make_wildcard_vec (length labels) q)
            (record_field_types env (zonk_type env ty) labels rest))
          sigs_branch e) [
            | inr (inl d) ↦ default_column env same next sound mx q rest v vs d fit c m k
            | inl (r, d) ↦
                let (f, is_rec) = head_record mx v vs r fit in
                subst
                  (λ x.
                    HasType env x ty
                    → Compatible mx (vcons x vs)
                    → covers same mx (vcons x vs) ≡ true)
                  (sym is_rec)
                  (λ h' fit'.
                    record_column env same next sound mx labels
                      (make_wildcard_vec (length labels) q) (zonk_type env ty) rest f vs (λ l i. i)
                      d fit' (Compats-wild_columns q labels f vs c)
                      (matches_all-wild_columns same q labels f vs ∙ m) h' k)
                  h fit
            | inr (inr (z, d)) ↦
                let (con_name, us, is_con) = head_con mx v vs (ground (arith, z)) fit in
                subst
                  (λ x.
                    HasType env x ty
                    → Compatible mx (vcons x vs)
                    → covers same mx (vcons x vs) ≡ true)
                  (sym is_con)
                  (λ h' fit'. sigs_branch_column mx q ty rest con_name us vs d fit' c m h' k) h fit
          ]
