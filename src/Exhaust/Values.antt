-- ===== src/Exhaust/Values.antt =====
-- internal/compiler/check/exhaust: the values that patterns are matched against, and when a value fits a
-- pattern and a type. A record is the function of its fields. `vany` stands for a value that no
-- constructor, literal or record pattern is tried on.
use gicel.Prelude.{
  ℕ, zero, suc, Bool, true, false, ◌&&◌, ◌||◌, Option, none, some, List, [], ◌∷◌, length, ◌≡◌, ◌⊎◌,
}
use gicel.Prelude.Bytes.{Bytes, bytes_eq}
use gicel.Exhaust.Pattern.{
  Pat, wild, con, rec_pat, lit, Pats, nil, cons, Fields, no_fields, field, pats_length,
}
use gicel.Exhaust.Matrix.{elem_label}
use gicel.Exhaust.Search.{CheckEnv, ConSig, ConInfo, zonk_type, fields_of}

mutual
  pub data Value (Lit : Type 0) : Type 0 where
    vcon : Bytes → Values Lit → Value Lit
    vrec : (Bytes → Value Lit) → Value Lit
    vlit : Lit → Value Lit
    vany : Value Lit

  pub data Values (Lit : Type 0) : Type 0 where
    vnil : Values Lit
    vcons : Value Lit → Values Lit → Values Lit

module _ {Lit : Type 0} where
  abbrev pub vals_length : Values Lit → ℕ
  vals_length vnil = 0
  vals_length (vcons v vs) = suc (vals_length vs)

  abbrev pub vals_append : Values Lit → Values Lit → Values Lit
  vals_append vnil ws = ws
  vals_append (vcons v vs) ws = vcons v (vals_append vs ws)

  abbrev pub vanys : ℕ → Values Lit
  vanys zero = vnil
  vanys (suc n) = vcons vany (vanys n)

  -- The fields at the labels.
  abbrev pub record_values : (Bytes → Value Lit) → List Bytes → Values Lit → Values Lit
  record_values f [] vs = vs
  record_values f (l ∷ ls) vs = vcons (f l) (record_values f ls vs)

module _ {Lit : Type 0} (same : Lit → Lit → Bool) where
  -- A write to a map hides the earlier ones at its label: `seen` has the labels of the later writes.
  abbrev mutual
    pub matches : Pat Lit → Value Lit → Bool
    matches wild v = true
    matches (con c n ps) (vcon k vs) = bytes_eq c k && matches_all ps vs
    matches (con c n ps) (vrec f) = false
    matches (con c n ps) (vlit b) = false
    matches (con c n ps) vany = false
    matches (rec_pat fs) (vrec f) = matches_fields fs f []
    matches (rec_pat fs) (vcon k vs) = false
    matches (rec_pat fs) (vlit b) = false
    matches (rec_pat fs) vany = false
    matches (lit a) (vlit b) = same a b
    matches (lit a) (vcon k vs) = false
    matches (lit a) (vrec f) = false
    matches (lit a) vany = false

    pub matches_all : Pats Lit → Values Lit → Bool
    matches_all nil vnil = true
    matches_all nil (vcons v vs) = false
    matches_all (cons p ps) vnil = false
    matches_all (cons p ps) (vcons v vs) = matches p v && matches_all ps vs

    pub matches_fields : Fields Lit → (Bytes → Value Lit) → List Bytes → Bool
    matches_fields no_fields f seen = true
    matches_fields (field l p fs) f seen =
        (elem_label l seen || matches p (f l)) && matches_fields fs f (l ∷ seen)

  -- Some row matches.
  abbrev pub covers : List (Pats Lit) → Values Lit → Bool
  covers [] vs = false
  covers (row ∷ mx) vs = matches_all row vs || covers mx vs

module _ {Lit : Type 0} where
  -- The pattern may be tried on the value, as one of its type, and its constructors have their arities.
  abbrev mutual
    pub Compat : Pat Lit → Value Lit → Type 0
    Compat wild v = Unit
    Compat (con c n ps) (vcon k vs) = (n ≡ pats_length ps) × (bytes_eq c k ≡ true → Compats ps vs)
    Compat (con c n ps) (vrec f) = ⊥
    Compat (con c n ps) (vlit b) = ⊥
    Compat (con c n ps) vany = ⊥
    Compat (rec_pat fs) (vrec f) = CompatFields fs f
    Compat (rec_pat fs) (vcon k vs) = ⊥
    Compat (rec_pat fs) (vlit b) = ⊥
    Compat (rec_pat fs) vany = ⊥
    Compat (lit a) (vlit b) = Unit
    Compat (lit a) (vcon k vs) = ⊥
    Compat (lit a) (vrec f) = ⊥
    Compat (lit a) vany = ⊥

    pub Compats : Pats Lit → Values Lit → Type 0
    Compats nil vnil = Unit
    Compats nil (vcons v vs) = ⊥
    Compats (cons p ps) vnil = ⊥
    Compats (cons p ps) (vcons v vs) = Compat p v × Compats ps vs

    pub CompatFields : Fields Lit → (Bytes → Value Lit) → Type 0
    CompatFields no_fields f = Unit
    CompatFields (field l p fs) f = Compat p (f l) × CompatFields fs f

  -- Each row may be tried on the values.
  abbrev pub Compatible : List (Pats Lit) → Values Lit → Type 0
  Compatible [] vs = Unit
  Compatible (row ∷ mx) vs = Compats row vs × Compatible mx vs

abbrev pub SigIn : Bytes → ℕ → List ConSig → Type 0
SigIn c n [] = ⊥
SigIn c n (s ∷ ss) = ((c ≡ s.sig_name) × (n ≡ s.sig_arity)) ⊎ SigIn c n ss

abbrev pub field_type : {Ty : Type 0} → CheckEnv Ty → Option Ty → Bytes → Option Ty
field_type env ty l = elim (fields_of env ty) [ none ↦ none | some g ↦ g l ]

-- What the declarations say of the constructors of a type, on their own.
module _ {Ty : Type 0} (env : CheckEnv Ty) where
  abbrev pub Declared : Ty → List (ConInfo Ty) → Type 0
  Declared t cs =
      (bytes_eq (env.head_ty_con t) [] ≡ false) × (env.data_types (env.head_ty_con t) ≡ some cs)

  -- A refined return type has an instance in common with the type.
  abbrev pub Fits : Ty → ConInfo Ty → Type 0
  Fits t d = (r : Ty) → d.return_type ≡ some r → env.can_unify_with r t ≡ true

  -- One of the constructors has the name and the number of arguments, and fits the type.
  abbrev pub ConIn : Ty → Bytes → ℕ → List (ConInfo Ty) → Type 0
  ConIn t c n [] = ⊥
  ConIn t c n (d ∷ ds) = ((c ≡ d.con_name) × (n ≡ d.con_arity) × Fits t d) ⊎ ConIn t c n ds

  -- A constructor of the type: a label of a variant, or one that the data type declares. Of a type that
  -- is neither, and of the nil type, it may be any.
  abbrev pub ConOf : Bytes → ℕ → Option Ty → Type 0
  ConOf c n none = Unit
  ConOf c n (some t) =
      ((sigs : List ConSig) → env.variant_label_sigs t ≡ some sigs → SigIn c n sigs)
      × (env.variant_label_sigs t ≡ none
          → (cs : List (ConInfo Ty)) → Declared t cs
          → ConIn t c n cs)

  abbrev pub NoneRefined : List (ConInfo Ty) → Type 0
  NoneRefined [] = Unit
  NoneRefined (d ∷ ds) = (d.return_type ≡ none) × NoneRefined ds

  -- The types of the arguments of a constructor, where the data type has no refined constructor.
  abbrev pub ArgTypes : Bytes → Option Ty → List (Option Ty) → Type 0
  ArgTypes c none ts = ⊥
  ArgTypes c (some t) ts =
      ((cs : List (ConInfo Ty)) → Declared t cs → NoneRefined cs)
      × (env.constructor_arg_types c t ≡ some ts)

module _ {Ty Lit : Type 0} (env : CheckEnv Ty) where
  -- The value has the type: its constructor is one of the type's, with arguments of their types.
  abbrev mutual
    pub HasType : Value Lit → Option Ty → Type 0
    HasType (vcon c vs) ty =
        ConOf env c (vals_length vs) (zonk_type env ty)
        × ((ts : List (Option Ty))
            → ArgTypes env c (zonk_type env ty) ts
            → (length ts ≡ vals_length vs) × HaveTypes vs ts)
    HasType (vrec f) ty = (l : Bytes) → HasType (f l) (field_type env (zonk_type env ty) l)
    HasType (vlit b) ty = Unit
    HasType vany ty = Unit

    -- Columns without a type have the nil type.
    pub HaveTypes : Values Lit → List (Option Ty) → Type 0
    HaveTypes vnil tys = Unit
    HaveTypes (vcons v vs) [] = HasType v none × HaveTypes vs []
    HaveTypes (vcons v vs) (t ∷ ts) = HasType v t × HaveTypes vs ts
