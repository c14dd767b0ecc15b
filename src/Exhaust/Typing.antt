-- ===== src/Exhaust/Typing.antt =====
-- internal/compiler/check/exhaust/exhaust.go: the types of the columns of a specialised matrix, and the
-- signatures of a type.
use gicel.Prelude.{
  ℕ, zero, suc, Option, none, some, List, [], ◌∷◌, ◌++◌, length, replicate, map, ◌≡◌, refl, sym, ap,
  ◌∙◌, inl, inr, arith, Option-cases, subst, append-nil,
}
use gicel.Prelude.Bytes.{Bytes}
use gicel.Exhaust.Search.{
  CheckEnv, ConSig, sub_pattern_types, constructor_sigs, zonk_type, column_type, rest_types,
  fields_of, record_field_types,
}
use gicel.Exhaust.Values.{
  Value, Values, vnil, vcons, vals_length, vals_append, vanys, record_values, SigIn, field_type,
  HasType, HaveTypes,
}
use gicel.Exhaust.Rows.{vals_length-vanys}
use gicel.Exhaust.Signatures.{Distinct}

-- What the declarations of data types give: the constructors of a type have different names, and the
-- type of a constructor has as many arguments as its signature says.
pub record LawfulEnv {Ty : Type 0} (env : CheckEnv Ty) : Type 0 where
  pub distinct :
      (ty : Option Ty) (sigs : List ConSig) → constructor_sigs env ty ≡ some sigs → Distinct sigs
  pub arities :
      (ty : Option Ty) (sigs : List ConSig) (c : Bytes) (n : ℕ)
      → constructor_sigs env ty ≡ some sigs
      → SigIn c n sigs
      → length (sub_pattern_types env c ty n []) ≡ n

module _ {Ty : Type 0} (env : CheckEnv Ty) where
  sub_pattern_types-append :
      (c : Bytes) (ty : Option Ty) (n : ℕ) (rest : List (Option Ty))
      → sub_pattern_types env c ty n rest ≡ sub_pattern_types env c ty n [] ++ rest
  unfolding sub_pattern_types
  sub_pattern_types-append c none n rest =
      ap (λ ts. ts ++ rest) (sym (append-nil (replicate n none)))
  sub_pattern_types-append c (some t) n rest = elim (Option-cases (env.constructor_arg_types c t)) [
    | inl e ↦ ground (arith, e, append-nil (replicate {A = Option Ty} n none))
    | inr (ts, e) ↦ ground (arith, e, append-nil ts, append-nil (replicate {A = Option Ty} n none))
  ]

HaveTypes-vanys :
    {Ty : Type 0} (Lit : Type 0) (env : CheckEnv Ty) (n : ℕ) (ts : List (Option Ty))
    → HaveTypes {Lit = Lit} env (vanys n) ts
HaveTypes-vanys Lit env zero ts = tt
HaveTypes-vanys Lit env (suc n) [] = (tt, HaveTypes-vanys Lit env n [])
HaveTypes-vanys Lit env (suc n) (t ∷ ts) = (tt, HaveTypes-vanys Lit env n ts)

module _ {Ty Lit : Type 0} (env : CheckEnv Ty) where
  HaveTypes-append :
      (us vs : Values Lit) (ts rest : List (Option Ty))
      → length ts ≡ vals_length us
      → HaveTypes env us ts
      → HaveTypes env vs rest
      → HaveTypes env (vals_append us vs) (ts ++ rest)
  HaveTypes-append vnil vs [] rest e h k = k
  HaveTypes-append vnil vs (t ∷ ts) rest e h k = absurd (omega (arith, e))
  HaveTypes-append (vcons u us) vs [] rest e h k = absurd (omega (arith, e))
  HaveTypes-append (vcons u us) vs (t ∷ ts) rest e h k =
      (h.0, HaveTypes-append us vs ts rest (omega (arith, e)) h.1 k)

  pub HaveTypes-sub_pattern_types :
      (c : Bytes) (us vs : Values Lit) (ty : Option Ty) (rest : List (Option Ty))
      → length (sub_pattern_types env c ty (vals_length us) []) ≡ vals_length us
      → HaveTypes env us (sub_pattern_types env c ty (vals_length us) [])
      → HaveTypes env vs rest
      → HaveTypes env (vals_append us vs) (sub_pattern_types env c ty (vals_length us) rest)
  HaveTypes-sub_pattern_types c us vs ty rest e h k =
      subst (HaveTypes env (vals_append us vs))
        (sym (sub_pattern_types-append env c ty (vals_length us) rest))
        (HaveTypes-append us vs _ rest e h k)

  pub HaveTypes-any_columns :
      (c : Bytes) (n : ℕ) (vs : Values Lit) (ty : Option Ty) (rest : List (Option Ty))
      → length (sub_pattern_types env c ty n []) ≡ n
      → HaveTypes env vs rest
      → HaveTypes env (vals_append (vanys n) vs) (sub_pattern_types env c ty n rest)
  HaveTypes-any_columns c n vs ty rest l k =
      subst (HaveTypes env (vals_append (vanys n) vs))
        (sym (sub_pattern_types-append env c ty n rest))
        (HaveTypes-append (vanys n) vs _ rest (l ∙ sym (vals_length-vanys Lit n))
          (HaveTypes-vanys Lit env n _) k)

  -- The first column and the others.
  pub HaveTypes-cons :
      (v : Value Lit) (vs : Values Lit) (tys : List (Option Ty))
      → HaveTypes env (vcons v vs) tys
      → (t : Option Ty) × (column_type env tys ≡ zonk_type env t)
        × HasType env v t
        × HaveTypes env vs (rest_types env tys)
  HaveTypes-cons v vs [] h = (none, refl, h.0, h.1)
  HaveTypes-cons v vs (t ∷ ts) h = (t, refl, h.0, h.1)

  HaveTypes-nils :
      (f : Bytes → Value Lit) (ls : List Bytes) (vs : Values Lit) (rest : List (Option Ty))
      → ((l : Bytes) → HasType env (f l) none)
      → HaveTypes env vs rest
      → HaveTypes env (record_values f ls vs) (replicate (length ls) none ++ rest)
  HaveTypes-nils f [] vs rest h k = k
  HaveTypes-nils f (l ∷ ls) vs rest h k = (h l, HaveTypes-nils f ls vs rest h k)

  HaveTypes-map :
      (f : Bytes → Value Lit) (g : Bytes → Option Ty) (ls : List Bytes) (vs : Values Lit)
      (rest : List (Option Ty))
      → ((l : Bytes) → HasType env (f l) (g l))
      → HaveTypes env vs rest
      → HaveTypes env (record_values f ls vs) (map g ls ++ rest)
  HaveTypes-map f g [] vs rest h k = k
  HaveTypes-map f g (l ∷ ls) vs rest h k = (h l, HaveTypes-map f g ls vs rest h k)

  pub HaveTypes-record_field_types :
      (f : Bytes → Value Lit) (ls : List Bytes) (vs : Values Lit) (ty : Option Ty)
      (rest : List (Option Ty))
      → ((l : Bytes) → HasType env (f l) (field_type env ty l))
      → HaveTypes env vs rest
      → HaveTypes env (record_values f ls vs) (record_field_types env ty ls rest)
  unfolding record_field_types
  HaveTypes-record_field_types f ls vs ty rest h k =
      elim (fields_of env ty)
          as (λ o.
            ((l : Bytes) → HasType env (f l) (elim o [ none ↦ none | some g ↦ g l ]))
            → HaveTypes env (record_values f ls vs) (elim o [
              | none ↦ replicate (length ls) none ++ rest
              | some g ↦ map g ls ++ rest
            ])) [
              | none ↦ λ a. HaveTypes-nils f ls vs rest a k
              | some g ↦ λ a. HaveTypes-map f g ls vs rest a k
            ]
        h
