-- ===== src/Exhaust/Declared.antt =====
-- internal/compiler/check/exhaust/exhaust.go: the signatures and the argument types that the check finds,
-- against what the data types declare.
use gicel.Prelude.{
  ℕ, zero, suc, false, Option, none, some, List, [], ◌∷◌, ◌++◌, length, replicate, ◌≡◌, inl, inr,
  arith, Option-cases, Bool-cases, append-nil, subst, length-replicate,
}
use gicel.Prelude.Bytes.{Bytes, bytes_eq}
use gicel.Exhaust.Search.{
  CheckEnv, ConSig, ConInfo, any_refined, is_gadt, sub_pattern_types, applicable_sigs, or_nil,
  constructor_sigs, zonk_type,
}
use gicel.Exhaust.Values.{
  Value, vcon, vrec, vlit, vany, Values, vnil, vcons, vals_length, SigIn, Declared, ConIn, ConOf,
  NoneRefined, ArgTypes, HasType, HaveTypes,
}

module _ {Ty : Type 0} (env : CheckEnv Ty) where
  -- No constructor that fits the type is left out.
  ConIn-SigIn :
      (t : Ty) (c : Bytes) (n : ℕ) (ds : List (ConInfo Ty))
      → ConIn env t c n ds
      → SigIn c n (applicable_sigs env t ds)
  ConIn-SigIn t c n [] h = elim h [ ]
  ConIn-SigIn t c n (d ∷ ds) (inl (a, b, fits)) = elim (Option-cases d.return_type) [
    | inl e ↦ rw (e) (inl (a, b))
    | inr (r, e) ↦ rw (e, fits r e) (inl (a, b))
  ]
  ConIn-SigIn t c n (d ∷ ds) (inr h) = elim (Option-cases d.return_type) [
    | inl e ↦ rw (e) (inr (ConIn-SigIn t c n ds h))
    | inr (r, e) ↦ elim (Bool-cases (env.can_unify_with r t)) [
      | inl u ↦ rw (e, u) (inr (ConIn-SigIn t c n ds h))
      | inr u ↦ rw (e, u) (ConIn-SigIn t c n ds h)
    ]
  ]

  or_nil-eq : (xs sigs : List ConSig) → or_nil env xs ≡ some sigs → xs ≡ sigs
  or_nil-eq [] sigs e = absurd (ground (arith, e))
  or_nil-eq (x ∷ xs) sigs e = ground (arith, e)

  pub ConOf-SigIn :
      (ty : Option Ty) (c : Bytes) (n : ℕ) (sigs : List ConSig)
      → constructor_sigs env ty ≡ some sigs
      → ConOf env c n ty
      → SigIn c n sigs
  unfolding constructor_sigs
  ConOf-SigIn none c n sigs e h = absurd (ground (arith, e))
  ConOf-SigIn (some t) c n sigs e h = elim (Option-cases (env.variant_label_sigs t)) [
    | inr (labels, v) ↦ h.0 sigs (ground (arith, e, v))
    | inl v ↦ elim (Bool-cases (bytes_eq (env.head_ty_con t) [])) [
      | inl b ↦ absurd (ground (arith, e, v, b))
      | inr b ↦ elim (Option-cases (env.data_types (env.head_ty_con t))) [
        | inl d ↦ absurd (ground (arith, e, v, b, d))
        | inr (cs, d) ↦
            subst (SigIn c n)
              (or_nil-eq (applicable_sigs env t cs) sigs (ground (arith, e, v, b, d)))
              (ConIn-SigIn t c n cs (h.1 v cs (b, d)))
      ]
    ]
  ]

  any_refined-NoneRefined :
      (ds : List (ConInfo Ty)) → any_refined env ds ≡ false → NoneRefined env ds
  any_refined-NoneRefined [] e = tt
  any_refined-NoneRefined (d ∷ ds) e = elim (Option-cases d.return_type) [
    | inl n ↦ (n, any_refined-NoneRefined ds (ground (arith, e, n)))
    | inr (t, n) ↦ absurd (ground (arith, e, n))
  ]

  is_gadt-NoneRefined :
      (t : Ty) (cs : List (ConInfo Ty))
      → is_gadt env t ≡ false
      → Declared env t cs
      → NoneRefined env cs
  unfolding is_gadt
  is_gadt-NoneRefined t cs e (b, d) = any_refined-NoneRefined cs (ground (arith, e, b, d))

module _ {Ty Lit : Type 0} (env : CheckEnv Ty) where
  -- Every value has the nil type.
  HasType-none : (v : Value Lit) → HasType env v none
  HasType-none (vcon c vs) = (tt, λ ts a. elim a [ ])
  HasType-none (vrec f) = λ l. HasType-none (f l)
  HasType-none (vlit b) = tt
  HasType-none vany = tt

  HaveTypes-none : (vs : Values Lit) (n : ℕ) → HaveTypes env vs (replicate n none)
  HaveTypes-none vnil n = tt
  HaveTypes-none (vcons v vs) zero = (HasType-none v, HaveTypes-none vs zero)
  HaveTypes-none (vcons v vs) (suc n) = (HasType-none v, HaveTypes-none vs n)

  -- The types that the check finds for the arguments of a value are types of them.
  pub HasType-sub_pattern_types :
      (c : Bytes) (vs : Values Lit) (ty : Option Ty)
      → HasType env (vcon c vs) ty
      → (length (sub_pattern_types env c (zonk_type env ty) (vals_length vs) []) ≡ vals_length vs)
        × HaveTypes env vs (sub_pattern_types env c (zonk_type env ty) (vals_length vs) [])
  unfolding sub_pattern_types
  HasType-sub_pattern_types c vs ty h = by_type (zonk_type env ty) h.1
    where
      nils :
          (length (replicate {A = Option Ty} (vals_length vs) none ++ []) ≡ vals_length vs)
          × HaveTypes env vs (replicate (vals_length vs) none ++ [])
      nils =
          rw (append-nil (replicate {A = Option Ty} (vals_length vs) none))
            (length-replicate (vals_length vs) none, HaveTypes-none vs (vals_length vs))

      by_type :
          (z : Option Ty)
          → ((ts : List (Option Ty))
              → ArgTypes env c z ts
              → (length ts ≡ vals_length vs) × HaveTypes env vs ts)
          → (length (sub_pattern_types env c z (vals_length vs) []) ≡ vals_length vs)
            × HaveTypes env vs (sub_pattern_types env c z (vals_length vs) [])
      by_type none k = nils
      by_type (some t) k = elim (Bool-cases (is_gadt env t)) [
        | inl g ↦ rw (g) nils
        | inr g ↦ elim (Option-cases (env.constructor_arg_types c t)) [
          | inl a ↦ rw (g, a) nils
          | inr (ts, a) ↦
              rw (g, a, append-nil ts) (k ts ((λ cs d. is_gadt-NoneRefined env t cs g d), a))
        ]
      ]
