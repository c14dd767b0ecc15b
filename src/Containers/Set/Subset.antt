-- ===== src/Containers/Set/Subset.antt =====
-- The subset test of set.go. A set with more members than another is no subset of it, which the test
-- decides by the stored sizes.
use gicel.Prelude.{
  ◌≤◌, ◌≡◌, refl, sym, ap, ◌∙◌, subst, ◌↔◌, Bool, true, false, ◌&&◌, List, [], ◌∷◌, ◌++◌, length,
  Option, none, some, arith, Bool-cases, inl, inr,
}
use Prim.Native.Nat.Ordering.{eq, gt}
use gicel.Prelude.Int.{pos, ltb_ℤ}
use gicel.Avl.Applier.{Answer, ok, err, Returns, or_restore-Returns, Returns-imp}
use gicel.Avl.Tree.{AvlNode, nil, node}
use gicel.Avl.Tree.Entries.{entries}
use gicel.Avl.Sorted.{LawfulOrder, IsSorted, After, After-trans, list_lookup, list_member}
use gicel.Avl.Search.{avl_lookup}
use gicel.Avl.Search.Refinement.{avl_lookup-Returns}
use gicel.Containers.MapVal.{map_arg}
use gicel.Containers.MapVal.Laws.{IsMap}
use gicel.Containers.Map.{is_some}
use gicel.Containers.Map.Laws.{list_member-list_lookup}
use gicel.Containers.Set.{SetVal, all_left, all_found, avl_all_member, set_is_subset_of}

module _ {K V : Type 0} (o : LawfulOrder K) where
  -- Every key of the first list is in the second.
  abbrev pub all_in : List (K × V) → List (K × V) → Bool
  all_in [] ys = true
  all_in ((k, v) ∷ xs) ys = list_member o k ys && all_in xs ys

  all_in-append : (xs zs ys : List (K × V)) → all_in (xs ++ zs) ys ≡ (all_in xs ys && all_in zs ys)
  all_in-append [] zs ys = refl
  all_in-append ((k, v) ∷ xs) zs ys = ground (arith, all_in-append xs zs ys)

  -- A first entry that is before all keys can be left out.
  all_in-After :
      (j : K) (w : V) (xs ys : List (K × V)) → After o j xs → all_in xs ((j, w) ∷ ys) ≡ all_in xs ys
  unfolding list_member
  all_in-After j w [] ys a = refl
  all_in-After j w ((k, v) ∷ xs) ys a =
      rw (list_member, o.gt_of_lt j k a.0)
        (ap (λ b. list_member o k ys && b) (all_in-After j w xs ys a.1))

  list_member-After : (k : K) (ys : List (K × V)) → After o k ys → list_member o k ys ≡ false
  unfolding list_member
  list_member-After k [] a = refl
  list_member-After k ((j, w) ∷ ys) a = rw (list_member, a.0) (list_member-After k ys a.1)

  member_head :
      (k j : K) (w : V) (ys : List (K × V))
      → o.order k j ≡ gt
      → list_member o k ((j, w) ∷ ys) ≡ list_member o k ys
  unfolding list_member
  member_head k j w ys h = rw (list_member, h) refl

  pub all_in-length :
      (xs ys : List (K × V))
      → IsSorted o xs
      → IsSorted o ys
      → all_in xs ys ≡ true
      → length xs ≤ length ys
  unfolding list_member
  all_in-length [] ys sx sy h = omega arith
  all_in-length ((k, v) ∷ xs) [] sx sy h = ground arith
  all_in-length ((k, v) ∷ xs) ((j, w) ∷ ys) sx sy h = ground (
    arith,
    list_member-After k ((j, w) ∷ ys),
    After-trans o k j ys,
    sy.0,
    all_in-length xs ys sx.1 sy.1,
    all_in-length ((k, v) ∷ xs) ys sx sy.1,
    all_in-After j w xs ys,
    After-trans o j k xs,
    sx.0,
    o.lt_of_gt k j,
    o.eq_of_order k j,
  )

  -- The test on the lists is inclusion of the members.
  pub all_in-members :
      (xs ys : List (K × V))
      → all_in xs ys ≡ true
      → (k : K) → list_member o k xs ≡ true
      → list_member o k ys ≡ true
  unfolding list_member
  all_in-members [] ys h k m = ground arith
  all_in-members ((j, w) ∷ xs) ys h k m = ground (
    arith,
    (λ (e : all_in xs ys ≡ true). all_in-members xs ys e k),
    (λ (e : o.order k j ≡ eq). ap (λ x. list_member o x ys) (o.eq_of_order k j e)),
  )

  member_self : (j : K) (w : V) (xs : List (K × V)) → list_member o j ((j, w) ∷ xs) ≡ true
  unfolding list_member
  member_self j w xs = rw (list_member, o.order_refl j) refl

  member_later :
      (k j : K) (w : V) (xs : List (K × V))
      → list_member o k xs ≡ true
      → list_member o k ((j, w) ∷ xs) ≡ true
  unfolding list_member
  member_later k j w xs m = ground (arith, m)

  pub members-all_in :
      (xs ys : List (K × V))
      → ((k : K) → list_member o k xs ≡ true → list_member o k ys ≡ true)
      → all_in xs ys ≡ true
  members-all_in [] ys h = refl
  members-all_in ((j, w) ∷ xs) ys h =
      rw (h j (member_self j w xs), members-all_in xs ys (λ k m. h k (member_later k j w xs m)))
        refl

all_left-Returns :
    {C E : Type 0} (ce : C) (m : Answer C E Bool) (rest : C → Answer C E Bool) (b1 b2 : Bool)
    → Returns (λ b. b ≡ b1) m
    → ((c : C) → Returns (λ b. b ≡ b2) (rest c))
    → Returns (λ b. b ≡ (b1 && b2)) (all_left ce m rest)
all_left-Returns ce (ok true c) rest b1 b2 e k = rw (sym e) (k c)
all_left-Returns ce (ok false c) rest b1 b2 e k = rw (sym e) refl
all_left-Returns ce (err f c) rest b1 b2 e k = absurd e

all_found-Returns :
    {C E : Type 0} (found : Option (Unit {0})) (c : C) (rest : C → Answer C E Bool) (b : Bool)
    → ((c : C) → Returns (λ r. r ≡ b) (rest c))
    → Returns (λ r. r ≡ (is_some found && b)) (all_found found c rest)
all_found-Returns none c rest b k = refl
all_found-Returns (some u) c rest b k = k c

module _ {K C E : Type 0} (o : LawfulOrder K) where
  avl_all_member-Returns :
      (target : SetVal K C E) (t : AvlNode K (Unit {0})) (ce : C)
      → IsMap o target
      → Returns (λ b. b ≡ all_in o (entries t) (entries target.root)) (avl_all_member target t ce)
  unfolding avl_all_member
  avl_all_member-Returns target nil ce h = refl
  avl_all_member-Returns target (node k v l r n) ce h =
      let ys = entries target.root in
      rw (all_in-append o (entries l) ((k, v) ∷ entries r) ys) (
        all_left-Returns ce (avl_all_member target l ce) _ (all_in o (entries l) ys) _
          (avl_all_member-Returns target l ce h)
          λ c1.
            or_restore-Returns _ (λ found. found ≡ list_lookup o k ys) ce
              (avl_lookup target.cmp target.root k c1) _
              (avl_lookup-Returns target.cmp o h.ordered target.root k c1 h.sorted)
              λ found c2 e.
                rw (sym (list_member-list_lookup o k ys), sym e)
                  (all_found-Returns found c2 (avl_all_member target r) _
                    λ c. avl_all_member-Returns target r c h))

  oversized :
      (s1 s2 : SetVal K C E)
      → IsMap o s1
      → IsMap o s2
      → ltb_ℤ s2.size s1.size ≡ true
      → all_in o (entries s1.root) (entries s2.root) ≡ false
  oversized s1 s2 h1 h2 t = smaller (subst (λ n. ltb_ℤ n s1.size ≡ true) h2.counted t)
    where
      smaller :
          ltb_ℤ (pos (length (entries s2.root))) s1.size ≡ true
          → all_in o (entries s1.root) (entries s2.root) ≡ false
      smaller t' =
          let t'' = subst (λ n. ltb_ℤ (pos (length (entries s2.root))) n ≡ true) h1.counted t' in
          ground
            (arith, all_in-length o (entries s1.root) (entries s2.root) h1.sorted h2.sorted, t'')

  tested :
      (s1 s2 : SetVal K C E) (ce : C)
      → IsMap o s1
      → IsMap o s2
      → Returns
          (λ b. b ≡ all_in o (entries s1.root) (entries s2.root))
          (set_is_subset_of (map_arg s1) (map_arg s2) ce)
  unfolding set_is_subset_of
  tested s1 s2 ce h1 h2 = elim (Bool-cases (ltb_ℤ s2.size s1.size)) [
    | inl t ↦ rw t (sym (oversized s1 s2 h1 h2 t))
    | inr f ↦ rw f (
        or_restore-Returns _ (λ b. b ≡ all_in o (entries s1.root) (entries s2.root)) ce
          (avl_all_member s2 s1.root ce) _ (avl_all_member-Returns s2 s1.root ce h2) (λ b c e. e))
  ]

  -- The subset test of two well-formed sets with the same order returns true exactly if every member of the first
  -- is one of the second.
  pub set_is_subset_of-Returns :
      (s1 s2 : SetVal K C E) (ce : C)
      → IsMap o s1
      → IsMap o s2
      → Returns
          (λ b. (b ≡ true) ↔ (
            (k : K)
            → list_member o k (entries s1.root) ≡ true
            → list_member o k (entries s2.root) ≡ true))
          (set_is_subset_of (map_arg s1) (map_arg s2) ce)
  set_is_subset_of-Returns s1 s2 ce h1 h2 =
      Returns-imp _ _ (set_is_subset_of (map_arg s1) (map_arg s2) ce)
        (λ b e. (
          (λ t. all_in-members o (entries s1.root) (entries s2.root) (sym e ∙ t)),
          (λ m. e ∙ members-all_in o (entries s1.root) (entries s2.root) m),
        ))
        (tested s1 s2 ce h1 h2)
