-- ===== src/Avl/Sorted/Laws.antt =====
-- What insertion and deletion do to a sorted list: they keep it sorted, and change one key.
use gicel.Prelude.{◌+◌, ◌≡◌, refl, none, some, List, [], ◌∷◌, false, arith, length, if◌then◌else◌}
use Prim.Native.Nat.Ordering.{lt, eq}
use gicel.Avl.Sorted.{
  LawfulOrder, After, IsSorted, list_insert, list_delete, list_lookup, list_member, After-trans,
  list_lookup-absent,
}

module _ {ℓ κ} {K : Type ℓ} {V : Type κ} (o : LawfulOrder K) where
  After-list_insert :
      (a key : K) (value : V) (xs : List (K × V))
      → o.order a key ≡ lt
      → After o a xs
      → After o a (list_insert o key value xs)
  unfolding list_insert
  After-list_insert a key value [] h t = (h, tt)
  After-list_insert a key value ((j, w) ∷ xs) h t =
      ground (arith, After-list_insert a key value xs h)

  pub list_insert-IsSorted :
      (key : K) (value : V) (xs : List (K × V))
      → IsSorted o xs
      → IsSorted o (list_insert o key value xs)
  unfolding list_insert
  list_insert-IsSorted key value [] s = (tt, tt)
  list_insert-IsSorted key value ((j, w) ∷ xs) s = ground (
    arith,
    list_insert-IsSorted key value xs,
    After-list_insert j key value xs,
    o.lt_of_gt key j,
    After-trans o key j xs,
  )

  After-list_delete :
      (a key : K) (xs : List (K × V)) → After o a xs → After o a (list_delete o key xs)
  unfolding list_delete
  After-list_delete a key [] t = tt
  After-list_delete a key ((j, w) ∷ xs) t = ground (arith, After-list_delete a key xs)

  pub list_delete-IsSorted :
      (key : K) (xs : List (K × V)) → IsSorted o xs → IsSorted o (list_delete o key xs)
  unfolding list_delete
  list_delete-IsSorted key [] s = tt
  list_delete-IsSorted key ((j, w) ∷ xs) s =
      ground (arith, list_delete-IsSorted key xs, After-list_delete j key xs)

  pub list_lookup-list_insert :
      (key j : K) (value : V) (xs : List (K × V))
      → list_lookup o j (list_insert o key value xs)
        ≡ elim (o.order j key) [ eq ↦ some value | _ ↦ list_lookup o j xs ]
  unfolding list_lookup list_insert
  list_lookup-list_insert key j value [] = refl
  list_lookup-list_insert key j value ((k, w) ∷ xs) = ground (
    arith,
    list_lookup-list_insert key j value xs,
    o.eq_of_order key k,
    o.eq_of_order j key,
    o.eq_of_order j k,
    o.order_refl k,
    o.order_refl j,
  )

  pub list_lookup-list_delete :
      (key j : K) (xs : List (K × V))
      → IsSorted o xs
      → list_lookup o j (list_delete o key xs)
        ≡ elim (o.order j key) [ eq ↦ none | _ ↦ list_lookup o j xs ]
  unfolding list_lookup list_delete
  list_lookup-list_delete key j [] s = ground arith
  list_lookup-list_delete key j ((k, w) ∷ xs) s = ground (
    arith,
    list_lookup-list_delete key j xs,
    o.eq_of_order key k,
    o.eq_of_order j key,
    o.eq_of_order j k,
    o.order_refl k,
    o.order_refl j,
    (list_lookup-absent o k xs s.0).0,
  )

  absent_below :
      (key j : K) (xs : List (K × V))
      → After o j xs
      → o.order key j ≡ lt
      → list_member o key xs ≡ false
  absent_below key j xs a h = (list_lookup-absent o key xs (After-trans o key j xs h a)).1

  -- The number of entries.
  pub length-list_insert :
      (key : K) (value : V) (xs : List (K × V))
      → IsSorted o xs
      → length (list_insert o key value xs)
        ≡ (if list_member o key xs then length xs else length xs + 1)
  unfolding list_insert list_member
  length-list_insert key value [] s = refl
  length-list_insert key value ((j, w) ∷ xs) s =
      ground (arith, length-list_insert key value xs s.1, absent_below key j xs s.0)

  pub length-list_delete :
      (key : K) (xs : List (K × V))
      → length xs ≡ (
          if list_member o key xs
          then length (list_delete o key xs) + 1
          else length (list_delete o key xs))
  unfolding list_delete list_member
  length-list_delete key [] = refl
  length-list_delete key ((j, w) ∷ xs) = ground (arith, length-list_delete key xs)

  pub list_delete_absent :
      (key : K) (xs : List (K × V)) → list_member o key xs ≡ false → list_delete o key xs ≡ xs
  unfolding list_delete list_member
  list_delete_absent key [] m = refl
  list_delete_absent key ((j, w) ∷ xs) m = ground (arith, list_delete_absent key xs)
