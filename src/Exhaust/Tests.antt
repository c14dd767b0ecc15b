-- ===== src/Exhaust/Tests.antt =====
-- Runs of the check, and witnesses of its theorems.
use gicel.Prelude.{
  ℕ, ◌==◌, Bool, true, false, ◌&&◌, not, Option, none, some, List, [], ◌∷◌, ◌++◌, length, leb,
  if◌then◌else◌, ◌≡◌, ◌≢◌, refl, sym, ap, arith, inl, inr, subst,
}
use gicel.Prelude.Bytes.{Bytes, bytes_eq}
use gicel.Exhaust.Pattern.{
  wild, nil, cons, Pattern, p_var, p_wild, p_con, p_lit, Patterns, none_left, arg, core_to_pat,
}
use gicel.Exhaust.Matrix.{
  specialize, default_matrix, specialize_lit, has_head_lits, column_head_cons, has_record_pats,
  reconstruct_con,
}
use gicel.Exhaust.Search.{
  CheckEnv, ConSig, ConInfo, is_gadt, sub_pattern_types, constructor_sigs, covered, assumed,
  is_useful_wildcard, is_useful_step, is_useful_at, search, is_useful, check_redundant,
  check_missing, check_exhaustive, redundant, missing, max_exhaust_depth,
}
use gicel.Exhaust.Values.{
  Value, vcon, vlit, vnil, vcons, vals_append, vanys, matches, covers, SigIn, ConIn, HasType,
  HaveTypes, Compat, Compatible,
}
use gicel.Exhaust.Signatures.{Distinct}
use gicel.Exhaust.Typing.{LawfulEnv}
use gicel.Exhaust.Soundness.{search_sound}
use gicel.Exhaust.Loop.{AllCompat, rows_of, some_matches, reported}
use gicel.Exhaust.Report.{reported-check_exhaustive, redundant_sound, exhaustive_sound}
use gicel.Exhaust.Depth.{OnlyCon, wild_args, deep_fallback_redundant}

-- Optional numbers, a type with one wide constructor, and the two instances of a type with a refined
-- constructor for each.
data Sample : Type 0 where
  optional : Sample
  number : Sample
  wide : Sample
  expr_number : Sample
  expr_truth : Sample

abbrev nothing : Bytes
nothing = b'N' ∷ []

abbrev just : Bytes
just = b'S' ∷ []

abbrev big : Bytes
big = b'W' ∷ []

abbrev head_of : Sample → Bytes
head_of optional = b'O' ∷ []
head_of number = b'I' ∷ []
head_of wide = b'W' ∷ []
head_of expr_number = b'E' ∷ []
head_of expr_truth = b'E' ∷ []

abbrev number_lit : Bytes
number_lit = b'L' ∷ []

abbrev truth_lit : Bytes
truth_lit = b'T' ∷ []

abbrev instance_of : Sample → ℕ
instance_of optional = 0
instance_of number = 0
instance_of wide = 0
instance_of expr_number = 1
instance_of expr_truth = 2

abbrev infos : Bytes → Option (List (ConInfo Sample))
infos t =
    if bytes_eq t (b'O' ∷ [])
    then some (
        record { con_name = nothing; con_arity = 0; return_type = none }
        ∷ record { con_name = just; con_arity = 1; return_type = none }
        ∷ [])
    else if bytes_eq t (b'W' ∷ [])
    then some (record { con_name = big; con_arity = 33; return_type = none } ∷ [])
    else if bytes_eq t (b'E' ∷ [])
    then some (
        record { con_name = number_lit; con_arity = 1; return_type = some expr_number }
        ∷ record { con_name = truth_lit; con_arity = 1; return_type = some expr_truth }
        ∷ [])
    else none

abbrev sample_env : CheckEnv Sample
sample_env = record {
  data_types = infos;
  zonk = λ t. t;
  reduce_family = λ t. t;
  can_unify_with = λ s t. instance_of s == instance_of t;
  head_ty_con = head_of;
  variant_label_sigs = λ t. none;
  constructor_arg_types = λ c t. if bytes_eq c just then some (some number ∷ []) else none;
  extract_record_fields = λ t. none;
}

abbrev same_number : ℕ → ℕ → Bool
same_number a b = a == b

same_number_trans :
    (a b c : ℕ) → same_number a b ≡ true → same_number b c ≡ true → same_number a c ≡ true
same_number_trans a b c h k = ground (arith, h, k)

-- case x of { N -> …; S y -> … }
abbrev both : List (Pattern ℕ)
both = p_con nothing none_left ∷ p_con just (arg (p_var (b'y' ∷ [])) none_left) ∷ []

abbrev one_more : Pattern ℕ
one_more = p_con just (arg (p_lit 3) none_left)

both_covered :
    search sample_env same_number (rows_of both) (cons wild nil) (some optional ∷ []) ≡ covered
unfolding search is_useful_at is_useful_step is_useful_wildcard core_to_pat specialize
    default_matrix has_head_lits column_head_cons has_record_pats constructor_sigs sub_pattern_types
    is_gadt reconstruct_con
both_covered = refl

-- Only the first alternative.
missing_just :
    check_exhaustive sample_env same_number optional (p_con nothing none_left ∷ [])
    ≡ missing (just ∷ []) ∷ []
unfolding check_exhaustive check_redundant check_missing search is_useful_at is_useful_step
    is_useful_wildcard core_to_pat specialize default_matrix has_head_lits column_head_cons
    has_record_pats constructor_sigs sub_pattern_types is_gadt reconstruct_con
missing_just = refl

abbrev the_sigs : Option (List ConSig) → List ConSig
the_sigs none = []
the_sigs (some sigs) = sigs

sample-Distinct :
    (ty : Option Sample) (sigs : List ConSig)
    → constructor_sigs sample_env ty ≡ some sigs
    → Distinct sigs
unfolding constructor_sigs
sample-Distinct none sigs e = absurd (ground (arith, e))
sample-Distinct (some optional) sigs e = subst Distinct (ap the_sigs e) ((refl, tt), (tt, tt))
sample-Distinct (some number) sigs e = absurd (ground (arith, e))
sample-Distinct (some wide) sigs e = subst Distinct (ap the_sigs e) (tt, tt)
sample-Distinct (some expr_number) sigs e = subst Distinct (ap the_sigs e) (tt, tt)
sample-Distinct (some expr_truth) sigs e = subst Distinct (ap the_sigs e) (tt, tt)

optional_arities :
    (c : Bytes) (n : ℕ)
    → SigIn c n (the_sigs (constructor_sigs sample_env (some optional)))
    → length (sub_pattern_types sample_env c (some optional) n []) ≡ n
unfolding constructor_sigs sub_pattern_types is_gadt
optional_arities c n (inl (a, b)) = rw (a, b) refl
optional_arities c n (inr (inl (a, b))) = rw (a, b) refl
optional_arities c n (inr (inr m)) = elim m [ ]

wide_arities :
    (c : Bytes) (n : ℕ)
    → SigIn c n (the_sigs (constructor_sigs sample_env (some wide)))
    → length (sub_pattern_types sample_env c (some wide) n []) ≡ n
unfolding constructor_sigs sub_pattern_types is_gadt
wide_arities c n (inl (a, b)) = rw (a, b) refl
wide_arities c n (inr m) = elim m [ ]

expr_number_arities :
    (c : Bytes) (n : ℕ)
    → SigIn c n (the_sigs (constructor_sigs sample_env (some expr_number)))
    → length (sub_pattern_types sample_env c (some expr_number) n []) ≡ n
unfolding constructor_sigs sub_pattern_types is_gadt
expr_number_arities c n (inl (a, b)) = rw (b) refl
expr_number_arities c n (inr m) = elim m [ ]

expr_truth_arities :
    (c : Bytes) (n : ℕ)
    → SigIn c n (the_sigs (constructor_sigs sample_env (some expr_truth)))
    → length (sub_pattern_types sample_env c (some expr_truth) n []) ≡ n
unfolding constructor_sigs sub_pattern_types is_gadt
expr_truth_arities c n (inl (a, b)) = rw (b) refl
expr_truth_arities c n (inr m) = elim m [ ]

sample_arities :
    (ty : Option Sample) (sigs : List ConSig) (c : Bytes) (n : ℕ)
    → constructor_sigs sample_env ty ≡ some sigs
    → SigIn c n sigs
    → length (sub_pattern_types sample_env c ty n []) ≡ n
unfolding constructor_sigs
sample_arities none sigs c n e m = absurd (ground (arith, e))
sample_arities (some optional) sigs c n e m =
    optional_arities c n (subst (SigIn c n) (sym (ap the_sigs e)) m)
sample_arities (some number) sigs c n e m = absurd (ground (arith, e))
sample_arities (some wide) sigs c n e m =
    wide_arities c n (subst (SigIn c n) (sym (ap the_sigs e)) m)
sample_arities (some expr_number) sigs c n e m =
    expr_number_arities c n (subst (SigIn c n) (sym (ap the_sigs e)) m)
sample_arities (some expr_truth) sigs c n e m =
    expr_truth_arities c n (subst (SigIn c n) (sym (ap the_sigs e)) m)

sample_law : LawfulEnv sample_env
sample_law = record { distinct = sample-Distinct; arities = sample_arities }

-- S 3
abbrev three : Value ℕ
three = vcon just (vcons (vlit 3) vnil)

abbrev the_infos : Option (List (ConInfo Sample)) → List (ConInfo Sample)
the_infos none = []
the_infos (some cs) = cs

abbrev the_types : Option (List (Option Sample)) → List (Option Sample)
the_types none = []
the_types (some ts) = ts

abbrev or_number : Option Sample → Sample
or_number none = number
or_number (some t) = t

three-HasType : HasType sample_env three (some optional)
three-HasType = (
  (
    (λ sigs e. absurd (ground (arith, e))),
    (λ v cs d.
        subst (ConIn sample_env optional just 1) (ap the_infos d.1)
          (inr (inl (refl, refl, λ r e. absurd (ground (arith, e)))))),
  ),
  (λ ts a.
      subst (λ x. (length x ≡ 1) × HaveTypes {Lit = ℕ} sample_env (vcons (vlit 3) vnil) x)
        (ap the_types a.1) (refl, (tt, tt))),
)

-- L 3, of the type that has no other constructor.
abbrev lit_three : Value ℕ
lit_three = vcon number_lit (vcons (vlit 3) vnil)

lit_three-HasType : HasType sample_env lit_three (some expr_number)
lit_three-HasType = (
  (
    (λ sigs e. absurd (ground (arith, e))),
    (λ v cs d.
        subst (ConIn sample_env expr_number number_lit 1) (ap the_infos d.1) (
          inl (refl, refl, λ r e. subst (λ z. (instance_of z == 1) ≡ true) (ap or_number e) refl))),
  ),
  (λ ts a. absurd (ground (arith, a.1))),
)

both-Compatible : Compatible (rows_of both) (vcons three vnil)
unfolding core_to_pat
both-Compatible =
    (((refl, (λ e. absurd (ground (arith, e)))), tt), (((refl, (λ e. (tt, tt))), tt), tt))

both-AllCompat : AllCompat both three
unfolding core_to_pat
both-AllCompat = ((refl, (λ e. absurd (ground (arith, e)))), ((refl, (λ e. (tt, tt))), tt))

one_more-Compat : Compat (core_to_pat one_more) three
unfolding core_to_pat
one_more-Compat = (refl, λ e. (tt, tt))

one_more_covered :
    search sample_env same_number
      (rows_of both)
      (cons (core_to_pat one_more) nil)
      (some optional ∷ [])
    ≡ covered
unfolding check_exhaustive check_redundant check_missing search is_useful_at is_useful_step
    is_useful_wildcard core_to_pat specialize default_matrix has_head_lits column_head_cons
    has_record_pats constructor_sigs sub_pattern_types is_gadt reconstruct_con specialize_lit
one_more_covered = refl

one_more-reported :
    reported 2 (check_exhaustive sample_env same_number optional (both ++ one_more ∷ [])) ≡ true
unfolding check_exhaustive check_redundant check_missing search is_useful_at is_useful_step
    is_useful_wildcard core_to_pat specialize default_matrix has_head_lits column_head_cons
    has_record_pats constructor_sigs sub_pattern_types is_gadt reconstruct_con specialize_lit
one_more-reported = refl

three_matched : matches same_number (core_to_pat one_more) three ≡ true
unfolding core_to_pat
three_matched = refl

not_assumed :
    search sample_env same_number
      (rows_of both)
      (cons (core_to_pat one_more) nil)
      (some optional ∷ [])
    ≢ assumed
not_assumed e = ground (arith, one_more_covered, e)

search_sound_example : covers same_number (rows_of both) (vcons three vnil) ≡ true
search_sound_example =
    search_sound sample_env same_number sample_law same_number_trans (rows_of both) (cons wild nil)
      (some optional ∷ []) (vcons three vnil) both_covered both-Compatible (tt, tt) refl
      (three-HasType, tt)

reported-check_exhaustive_example :
    reported 2 (check_exhaustive sample_env same_number optional (both ++ one_more ∷ [])) ≡ (
      not (leb 2 0)
      && not (
          is_useful sample_env same_number
            (rows_of both)
            (cons (core_to_pat one_more) nil)
            (some optional ∷ [])))
reported-check_exhaustive_example =
    reported-check_exhaustive sample_env same_number optional both one_more []

redundant_sound_example : some_matches same_number both three ≡ true
redundant_sound_example =
    redundant_sound sample_env same_number sample_law same_number_trans optional both one_more []
      three not_assumed one_more-reported both-AllCompat one_more-Compat three-HasType three_matched

-- case x of { L y -> … }
abbrev lit_only : List (Pattern ℕ)
lit_only = p_con number_lit (arg (p_var (b'y' ∷ [])) none_left) ∷ []

lit_only_covered :
    search sample_env same_number (rows_of lit_only) (cons wild nil) (some expr_number ∷ [])
    ≡ covered
unfolding search is_useful_at is_useful_step is_useful_wildcard core_to_pat specialize
    default_matrix has_head_lits column_head_cons has_record_pats constructor_sigs sub_pattern_types
    is_gadt reconstruct_con
lit_only_covered = refl

-- Of the other instance it leaves a constructor out.
lit_only_missing :
    check_exhaustive sample_env same_number expr_truth lit_only ≡ missing (truth_lit ∷ []) ∷ []
unfolding check_exhaustive check_redundant check_missing search is_useful_at is_useful_step
    is_useful_wildcard core_to_pat specialize default_matrix has_head_lits column_head_cons
    has_record_pats constructor_sigs sub_pattern_types is_gadt reconstruct_con
lit_only_missing = refl

lit_only-AllCompat : AllCompat lit_only lit_three
unfolding core_to_pat
lit_only-AllCompat = ((refl, (λ e. (tt, tt))), tt)

exhaustive_sound_example :
    (check_missing sample_env same_number expr_number (rows_of lit_only) ≡ [])
    × (some_matches same_number lit_only lit_three ≡ true)
exhaustive_sound_example =
    exhaustive_sound sample_env same_number sample_law same_number_trans expr_number lit_only
      lit_three lit_only_covered lit_only-AllCompat lit_three-HasType

-- A value of the wide type whose last field is 2.
abbrev wide_two : Value ℕ
wide_two = vcon big (vals_append (vanys 32) (vcons (vlit 2) vnil))

abbrev ends_in_one : Patterns ℕ
ends_in_one = arg (p_lit 1) none_left

wide_two_unmatched :
    matches same_number (core_to_pat (p_con big (wild_args max_exhaust_depth ends_in_one))) wide_two
    ≡ false
unfolding core_to_pat
wide_two_unmatched = refl

wide_only : OnlyCon sample_env (some wide) big 33
unfolding constructor_sigs
wide_only = refl

deep_fallback_redundant_example :
    (check_exhaustive sample_env same_number wide
        (p_con big (wild_args max_exhaust_depth ends_in_one) ∷ p_wild ∷ [])
      ≡ redundant 1 ∷ [])
    × (matches same_number (core_to_pat p_wild) wide_two ≡ true)
    × (some_matches same_number (p_con big (wild_args max_exhaust_depth ends_in_one) ∷ []) wide_two
        ≡ false)
deep_fallback_redundant_example =
    deep_fallback_redundant sample_env same_number wide big ends_in_one wide_two wide_only
      wide_two_unmatched
