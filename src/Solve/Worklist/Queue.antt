-- ===== src/Solve/Worklist/Queue.antt =====
-- The worklist refines a double-ended queue: a list of the pending constraints, in order of service.
use gicel.Prelude.{
  ℕ, zero, suc, ◌+◌, ◌-◌, ◌≤◌, ◌<◌, ◌≡◌, refl, sym, ap, ◌∙◌, Option, none, some, List, [], ◌∷◌,
  ◌++◌, reverse, length, get_elem?, take, drop, arith, append_assoc, reverse-append, ◌==◌,
  length-append, dec_lt, length-drop, Bool-cases, inl, inr,
}
use native.Mathlib.Numerals.{add-one}
use gicel.Solve.Worklist.{Worklist, push, push_reversed, push_front, pop, len, empty, reset, drain}

-- The cursor never passes the end of `back`.
pub record IsValid {ℓ} {Ct : Type ℓ} (w : Worklist Ct) : Type 0 where
  pub cursor : w.back_head ≤ length w.back

suc-sub-one : (n : ℕ) → suc n - 1 ≡ n
suc-sub-one n = omega arith

module _ {ℓ} {Ct : Type ℓ} where
  -- The pending constraints, the next one first.
  abbrev pub pending : Worklist Ct → List Ct
  pending w = reverse w.front ++ drop w.back_head w.back

  -- Service from the head of a list.
  abbrev pub take_first : List Ct → Option Ct × List Ct
  take_first [] = (none, [])
  take_first (x ∷ xs) = (some x, xs)

  drop-snoc :
      (n : ℕ) (xs : List Ct) (x : Ct) → n ≤ length xs → drop n (xs ++ x ∷ []) ≡ drop n xs ++ x ∷ []
  drop-snoc zero xs x h = refl
  drop-snoc (suc n) [] x h = elim h [ ]
  drop-snoc (suc n) (y ∷ ys) x h = drop-snoc n ys x (omega arith)

  drop-get :
      (n : ℕ) (xs : List Ct)
      → n < length xs
      → (x : Ct) × (get_elem? xs n ≡ some x) × (drop n xs ≡ x ∷ drop (suc n) xs)
  drop-get n [] h = elim h [ ]
  drop-get zero (x ∷ xs) h = (x, refl, refl)
  drop-get (suc n) (x ∷ xs) h = drop-get n xs (omega arith)

  drop_all : (n : ℕ) (xs : List Ct) → length xs ≤ n → drop n xs ≡ []
  drop_all zero [] h = refl
  drop_all (suc n) [] h = refl
  drop_all zero (x ∷ xs) h = elim h [ ]
  drop_all (suc n) (x ∷ xs) h = drop_all n xs (omega arith)

  -- The last element of a stack that is not empty, and the rest.
  take-last :
      (x : Ct) (xs : List Ct)
      → (y : Ct) × (get_elem? (x ∷ xs) (length xs) ≡ some y)
        × (x ∷ xs ≡ take (length xs) (x ∷ xs) ++ y ∷ [])
  take-last x [] = (x, refl, refl)
  take-last x (y ∷ ys) = let (z, p, q) = take-last y ys in (z, p, ap (λ t. x ∷ t) q)

  push_reversed_lem :
      (cts front : List Ct) → reverse (push_reversed front cts) ≡ cts ++ reverse front
  unfolding push_reversed
  push_reversed_lem [] front = refl
  push_reversed_lem (ct ∷ cts) front =
      rw reverse-append (ap (λ t. ct ∷ t) (push_reversed_lem cts front))

  length-reverse_lem : (xs : List Ct) → length (reverse xs) ≡ length xs
  length-reverse_lem [] = refl
  length-reverse_lem (x ∷ xs) =
      ap length (reverse-append (x ∷ []) xs)
      ∙ omega (arith, length-append (reverse xs) (x ∷ []), length-reverse_lem xs)

  -- `Push` puts the constraint last.
  pub pending-push :
      (w : Worklist Ct) (ct : Ct) → IsValid w → pending (push w ct) ≡ pending w ++ ct ∷ []
  unfolding push
  pending-push w ct v =
      ap (λ t. reverse w.front ++ t) (drop-snoc w.back_head w.back ct v.cursor)
      ∙ sym (append_assoc (reverse w.front) (drop w.back_head w.back) (ct ∷ []))

  -- `PushFront` puts the constraints first, in the order given.
  pub pending-push_front :
      (w : Worklist Ct) (cts : List Ct) → pending (push_front w cts) ≡ cts ++ pending w
  unfolding push_front
  pending-push_front w [] = refl
  pending-push_front w (ct ∷ cts) =
      ap (λ t. t ++ drop w.back_head w.back) (push_reversed_lem (ct ∷ cts) w.front)
      ∙ append_assoc (ct ∷ cts) (reverse w.front) (drop w.back_head w.back)

  -- The three branches of `Pop`.
  pop_stack :
      (x : Ct) (xs back : List Ct) (h : ℕ)
      → pop (record { front = x ∷ xs; back = back; back_head = h }) ≡ (
        get_elem? (x ∷ xs) (length xs),
        record { front = take (length xs) (x ∷ xs); back = back; back_head = h },
      )
  unfolding pop
  pop_stack x xs back h = rw (suc-sub-one (length xs)) (ground arith)

  pop_cursor :
      (back : List Ct) (h : ℕ)
      → h < length back
      → pop (record { front = []; back = back; back_head = h })
        ≡ (get_elem? back h, record { front = []; back = back; back_head = h + 1 })
  unfolding pop
  pop_cursor back h l = ground arith

  pop_nothing :
      (back : List Ct) (h : ℕ)
      → length back ≤ h
      → pop (record { front = []; back = back; back_head = h })
        ≡ (none, record { front = []; back = back; back_head = h })
  unfolding pop
  pop_nothing back h l = ground arith

  -- What `Pop` returns, with the queue that it leaves.
  abbrev pub served : Option Ct × Worklist Ct → Option Ct × List Ct
  served r = (r.0, pending r.1)

  served-pop_stack :
      (x : Ct) (xs back : List Ct) (h : ℕ)
      → served (pop (record { front = x ∷ xs; back = back; back_head = h }))
        ≡ take_first (reverse (x ∷ xs) ++ drop h back)
  served-pop_stack x xs back h =
      let (z, got, split) = take-last x xs in
      rw (pop_stack x xs back h) (
        rw got (
          sym (
            ap (λ t. take_first (t ++ drop h back))
              (ap reverse split ∙ reverse-append (take (length xs) (x ∷ xs)) (z ∷ [])))))

  served-pop_back :
      (back : List Ct) (h : ℕ)
      → h ≤ length back
      → served (pop (record { front = []; back = back; back_head = h })) ≡ take_first (drop h back)
  served-pop_back back h l = elim (dec_lt h (length back)) [
    | yes p ↦
        let (x, got, split) = drop-get h back p in rw (pop_cursor back h p, got, split, add-one)
    | no p ↦ rw (pop_nothing back h (omega arith), drop_all h back (omega arith))
  ]

  -- `Pop` serves the head of the queue, and reports an empty queue.
  pub served-pop : (w : Worklist Ct) → IsValid w → served (pop w) ≡ take_first (pending w)
  served-pop w v = by_front w.front v.cursor
    where
      by_front :
          (front : List Ct)
          → w.back_head ≤ length w.back
          → served (pop (record w { front = front }))
            ≡ take_first (reverse front ++ drop w.back_head w.back)
      by_front [] h = served-pop_back w.back w.back_head h
      by_front (x ∷ xs) h = served-pop_stack x xs w.back w.back_head

  pub push-IsValid : (w : Worklist Ct) (ct : Ct) → IsValid w → IsValid (push w ct)
  unfolding push
  push-IsValid w ct v = omega (arith, length-append w.back (ct ∷ []), v.cursor)

  pub push_front-IsValid :
      (w : Worklist Ct) (cts : List Ct) → IsValid w → IsValid (push_front w cts)
  unfolding push_front
  push_front-IsValid w [] v = v
  push_front-IsValid w (ct ∷ cts) v = omega (arith, v.cursor)

  pub pop-IsValid : (w : Worklist Ct) → IsValid w → IsValid (pop w).1
  unfolding pop
  pop-IsValid w v = ground arith

  -- `Len` is the number of pending constraints.
  pub len-pending : (w : Worklist Ct) → IsValid w → len w ≡ length (pending w)
  unfolding len
  len-pending w v = omega (
    arith,
    length-append (reverse w.front) (drop w.back_head w.back),
    length-reverse_lem w.front,
    length-drop w.back_head w.back,
    v.cursor,
  )

  -- `Empty` is the test `Len() == 0`, also past the cursor's end.
  pub empty-eq-len : (w : Worklist Ct) → IsValid w → empty w ≡ (len w == 0)
  unfolding empty len
  empty-eq-len w v = ground arith

  append-eq-nil : (xs ys : List Ct) → length (xs ++ ys) ≡ 0 → xs ++ ys ≡ []
  append-eq-nil [] [] h = refl
  append-eq-nil [] (y ∷ ys) h = absurd (omega arith)
  append-eq-nil (x ∷ xs) ys h = absurd (omega arith)

  -- `Drain` returns the whole queue in order of service.
  pub drain-pending : (w : Worklist Ct) → IsValid w → (drain w).0 ≡ pending w
  unfolding drain
  drain-pending w v = elim (Bool-cases (len w == 0)) [
    | inl e ↦ rw e (
        sym (
          append-eq-nil (reverse w.front) (drop w.back_head w.back)
            (ground (arith, len-pending w v))))
    | inr e ↦ rw e
  ]

  drain_resets : (w : Worklist Ct) → (drain w).1 ≡ reset w
  unfolding drain
  drain_resets w = ground arith

  pub pending-drain : (w : Worklist Ct) → pending (drain w).1 ≡ []
  pending-drain w = rw (drain_resets w) (unfold reset in refl)

  pub drain-IsValid : (w : Worklist Ct) → IsValid (drain w).1
  drain-IsValid w = rw (drain_resets w) (unfold reset in omega arith)
