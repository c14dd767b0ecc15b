-- ===== src/Avl/Sorted.antt =====
-- Sorted association lists: what a Map or Set means. The order of the keys is lawful, and the
-- language's comparison decides it.
pub mod Laws
use gicel.Prelude.{
  ℕ, suc, ◌+◌, ◌≡◌, refl, ap, Option, none, some, List, [], ◌∷◌, ◌++◌, Bool, true, false, arith,
  Ordering, length,
}
use Prim.Native.Nat.Ordering.{lt, eq, gt}
use gicel.Avl.Applier.{Answer, ok, err, Value, compare_keys}

-- A total order that tells different keys apart, as the class Ord asks.
pub record LawfulOrder {ℓ} (K : Type ℓ) : Type ℓ where
  pub order : K → K → Ordering
  pub order_refl : (a : K) → order a a ≡ eq
  pub eq_of_order : (a b : K) → order a b ≡ eq → a ≡ b
  pub lt_of_gt : (a b : K) → order a b ≡ gt → order b a ≡ lt
  pub gt_of_lt : (a b : K) → order a b ≡ lt → order b a ≡ gt
  pub lt_trans : (a b c : K) → order a b ≡ lt → order b c ≡ lt → order a c ≡ lt

-- The comparison answers with the order of the keys, in every environment.
pub record Decides {ℓ} {K : Type ℓ} {C E : Type 0} (compare : K → K → C → Answer C E Value)
    (o : LawfulOrder K) : Type ℓ where
  pub after : K → K → C → C
  pub decides : (a b : K) (ce : C) → compare_keys compare a b ce ≡ ok (o.order a b) (after a b ce)

module _ {ℓ κ} {K : Type ℓ} {V : Type κ} (o : LawfulOrder K) where
  -- Every key of the list comes after `a`, or before it.
  abbrev pub After : K → List (K × V) → Type 0
  After a [] = Unit
  After a ((k, v) ∷ xs) = (o.order a k ≡ lt) × After a xs

  abbrev pub Before : K → List (K × V) → Type 0
  Before a [] = Unit
  Before a ((k, v) ∷ xs) = (o.order k a ≡ lt) × Before a xs

  abbrev pub IsSorted : List (K × V) → Type 0
  IsSorted [] = Unit
  IsSorted ((k, v) ∷ xs) = After k xs × IsSorted xs

  unfoldable pub list_insert : K → V → List (K × V) → List (K × V)
  list_insert key value [] = (key, value) ∷ []
  list_insert key value ((k, v) ∷ xs) = elim (o.order key k) [
    | lt ↦ (key, value) ∷ (k, v) ∷ xs
    | eq ↦ (k, value) ∷ xs
    | gt ↦ (k, v) ∷ list_insert key value xs
  ]

  unfoldable pub list_delete : K → List (K × V) → List (K × V)
  list_delete key [] = []
  list_delete key ((k, v) ∷ xs) = elim (o.order key k) [ eq ↦ xs | _ ↦ (k, v) ∷ list_delete key xs ]

  unfoldable pub list_lookup : K → List (K × V) → Option V
  list_lookup key [] = none
  list_lookup key ((k, v) ∷ xs) = elim (o.order key k) [ eq ↦ some v | _ ↦ list_lookup key xs ]

  unfoldable pub list_member : K → List (K × V) → Bool
  list_member key [] = false
  list_member key ((k, v) ∷ xs) = elim (o.order key k) [ eq ↦ true | _ ↦ list_member key xs ]

  pub After-trans : (a b : K) (xs : List (K × V)) → o.order a b ≡ lt → After b xs → After a xs
  After-trans a b [] h t = tt
  After-trans a b ((k, v) ∷ xs) h t = (o.lt_trans a b k h t.0, After-trans a b xs h t.1)

  pub Before-trans : (a b : K) (xs : List (K × V)) → Before a xs → o.order a b ≡ lt → Before b xs
  Before-trans a b [] t h = tt
  Before-trans a b ((k, v) ∷ xs) t h = (o.lt_trans k a b t.0 h, Before-trans a b xs t.1 h)

  After-append : (a : K) (xs ys : List (K × V)) → After a (xs ++ ys) → After a xs × After a ys
  After-append a [] ys t = (tt, t)
  After-append a ((k, v) ∷ xs) ys t = let (p, q) = After-append a xs ys t.1 in ((t.0, p), q)

  -- A sorted list around an entry.
  pub record SortedAround (xs : List (K × V)) (k : K) (ys : List (K × V)) : Type 0 where
    pub left : IsSorted xs
    pub right : IsSorted ys
    pub before : Before k xs
    pub after : After k ys

  pub IsSorted-around :
      (xs : List (K × V)) (k : K) (v : V) (ys : List (K × V))
      → IsSorted (xs ++ (k, v) ∷ ys)
      → SortedAround xs k ys
  IsSorted-around [] k v ys s = record { left = tt; right = s.1; before = tt; after = s.0 }
  IsSorted-around ((j, w) ∷ xs) k v ys s =
      let r = IsSorted-around xs k v ys s.1 in
      let (p, q) = After-append j xs ((k, v) ∷ ys) s.0 in
      record { left = (p, r.left); right = r.right; before = (q.0, r.before); after = r.after }

  -- An operation on one side of an entry.
  pub list_insert-left :
      (key k : K) (value v : V) (xs ys : List (K × V))
      → o.order key k ≡ lt
      → list_insert key value (xs ++ (k, v) ∷ ys) ≡ list_insert key value xs ++ (k, v) ∷ ys
  unfolding list_insert
  list_insert-left key k value v [] ys h = rw h
  list_insert-left key k value v ((j, w) ∷ xs) ys h =
      ground (arith, list_insert-left key k value v xs ys h)

  pub list_insert-right :
      (key : K) (value : V) (xs ys : List (K × V))
      → Before key xs
      → list_insert key value (xs ++ ys) ≡ xs ++ list_insert key value ys
  unfolding list_insert
  list_insert-right key value [] ys b = refl
  list_insert-right key value ((j, w) ∷ xs) ys b =
      rw (o.gt_of_lt j key b.0) (ap (λ t. (j, w) ∷ t) (list_insert-right key value xs ys b.1))

  pub list_delete-absent : (key : K) (xs : List (K × V)) → After key xs → list_delete key xs ≡ xs
  unfolding list_delete
  list_delete-absent key [] a = refl
  list_delete-absent key ((j, w) ∷ xs) a = ground (arith, list_delete-absent key xs a.1)

  pub list_delete-left :
      (key k : K) (v : V) (xs ys : List (K × V))
      → o.order key k ≡ lt
      → After k ys
      → list_delete key (xs ++ (k, v) ∷ ys) ≡ list_delete key xs ++ (k, v) ∷ ys
  unfolding list_delete
  list_delete-left key k v [] ys h a =
      rw h (ap (λ t. (k, v) ∷ t) (list_delete-absent key ys (After-trans key k ys h a)))
  list_delete-left key k v ((j, w) ∷ xs) ys h a = ground (arith, list_delete-left key k v xs ys h a)

  pub list_delete-right :
      (key : K) (xs ys : List (K × V))
      → Before key xs
      → list_delete key (xs ++ ys) ≡ xs ++ list_delete key ys
  unfolding list_delete
  list_delete-right key [] ys b = refl
  list_delete-right key ((j, w) ∷ xs) ys b =
      rw (o.gt_of_lt j key b.0) (ap (λ t. (j, w) ∷ t) (list_delete-right key xs ys b.1))

  pub list_lookup-absent :
      (key : K) (xs : List (K × V))
      → After key xs
      → (list_lookup key xs ≡ none) × (list_member key xs ≡ false)
  unfolding list_lookup list_member
  list_lookup-absent key [] a = (refl, refl)
  list_lookup-absent key ((j, w) ∷ xs) a = ground (arith, list_lookup-absent key xs a.1)

  pub list_lookup-left :
      (key k : K) (v : V) (xs ys : List (K × V))
      → o.order key k ≡ lt
      → After k ys
      → (list_lookup key (xs ++ (k, v) ∷ ys) ≡ list_lookup key xs)
        × (list_member key (xs ++ (k, v) ∷ ys) ≡ list_member key xs)
  unfolding list_lookup list_member
  list_lookup-left key k v [] ys h a = rw h (list_lookup-absent key ys (After-trans key k ys h a))
  list_lookup-left key k v ((j, w) ∷ xs) ys h a = ground (arith, list_lookup-left key k v xs ys h a)

  pub list_lookup-right :
      (key : K) (xs ys : List (K × V))
      → Before key xs
      → (list_lookup key (xs ++ ys) ≡ list_lookup key ys)
        × (list_member key (xs ++ ys) ≡ list_member key ys)
  unfolding list_lookup list_member
  list_lookup-right key [] ys b = (refl, refl)
  list_lookup-right key ((j, w) ∷ xs) ys b =
      rw (o.gt_of_lt j key b.0) (list_lookup-right key xs ys b.1)

  pub Before-gt : (key k : K) (xs : List (K × V)) → Before k xs → o.order key k ≡ gt → Before key xs
  Before-gt key k xs b h = Before-trans k key xs b (o.lt_of_gt key k h)

  pub Before-eq : (key k : K) (xs : List (K × V)) → Before k xs → o.order key k ≡ eq → Before key xs
  Before-eq key k xs b h = rw (o.eq_of_order key k h) b

  -- The operations on a sorted list around an entry, by the order of the keys.
  pub list_lookup-around :
      (key k : K) (v : V) (xs ys : List (K × V))
      → SortedAround xs k ys
      → list_lookup key (xs ++ (k, v) ∷ ys)
        ≡ elim (o.order key k) [ lt ↦ list_lookup key xs | gt ↦ list_lookup key ys | eq ↦ some v ]
  unfolding list_lookup
  list_lookup-around key k v xs ys a = ground (
    arith,
    list_lookup-left key k v xs ys,
    list_lookup-right key xs ((k, v) ∷ ys),
    Before-gt key k xs a.before,
    Before-eq key k xs a.before,
    a.after,
  )

  pub list_member-around :
      (key k : K) (v : V) (xs ys : List (K × V))
      → SortedAround xs k ys
      → list_member key (xs ++ (k, v) ∷ ys)
        ≡ elim (o.order key k) [ lt ↦ list_member key xs | gt ↦ list_member key ys | eq ↦ true ]
  unfolding list_member
  list_member-around key k v xs ys a = ground (
    arith,
    list_lookup-left key k v xs ys,
    list_lookup-right key xs ((k, v) ∷ ys),
    Before-gt key k xs a.before,
    Before-eq key k xs a.before,
    a.after,
  )

  pub list_insert-around :
      (key k : K) (value v : V) (xs ys : List (K × V))
      → SortedAround xs k ys
      → list_insert key value (xs ++ (k, v) ∷ ys) ≡ elim (o.order key k) [
        | lt ↦ list_insert key value xs ++ (k, v) ∷ ys
        | gt ↦ xs ++ (k, v) ∷ list_insert key value ys
        | eq ↦ xs ++ (k, value) ∷ ys
      ]
  unfolding list_insert
  list_insert-around key k value v xs ys a = ground (
    arith,
    list_insert-left key k value v xs ys,
    list_insert-right key value xs ((k, v) ∷ ys),
    Before-gt key k xs a.before,
    Before-eq key k xs a.before,
  )

  pub list_delete-around :
      (key k : K) (v : V) (xs ys : List (K × V))
      → SortedAround xs k ys
      → list_delete key (xs ++ (k, v) ∷ ys) ≡ elim (o.order key k) [
        | lt ↦ list_delete key xs ++ (k, v) ∷ ys
        | gt ↦ xs ++ (k, v) ∷ list_delete key ys
        | eq ↦ xs ++ ys
      ]
  unfolding list_delete
  list_delete-around key k v xs ys a = ground (
    arith,
    list_delete-left key k v xs ys,
    list_delete-right key xs ((k, v) ∷ ys),
    Before-gt key k xs a.before,
    Before-eq key k xs a.before,
    a.after,
  )
