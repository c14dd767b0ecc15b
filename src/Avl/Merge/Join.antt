-- ===== src/Avl/Merge/Join.antt =====
-- The merge of two sorted slices is sorted, and has at each key what the three options say.
use gicel.Prelude.{
  ℕ, zero, suc, ◌+◌, ◌<◌, ◌≡◌, refl, ap, ◌∙◌, Option, none, some, List, [], ◌∷◌, ◌++◌, append_assoc,
  length, arith, Ordering,
}
use Prim.Native.Nat.Ordering.{lt, eq, gt}
use gicel.Avl.Applier.{Answer, ok, Value}
use gicel.Avl.Sorted.{
  LawfulOrder, Decides, After, IsSorted, list_lookup, After-trans, list_lookup-absent,
}
use gicel.Avl.Merge.{MergeOp, merge_keep, merge_skip, kept, merge_loop, avl_merge_sorted}

-- An entry under its option.
abbrev pub keep {ℓ} : {V : Type ℓ} → MergeOp → V → Option V
keep merge_keep v = some v
keep merge_skip v = none

-- What the merge has at a key, from what the two sides have.
abbrev pub combine {ℓ} : {V : Type ℓ} → MergeOp → MergeOp → MergeOp → Option V → Option V → Option V
combine on_left on_right on_both none none = none
combine on_left on_right on_both (some v) none = keep on_left v
combine on_left on_right on_both none (some w) = keep on_right w
combine on_left on_right on_both (some v) (some w) = keep on_both v

module _ {K V : Type 0} (o : LawfulOrder K) (on_left on_right on_both : MergeOp) where
  pub record Merged (left right out : List (K × V)) : Type 0 where
    pub sorted : IsSorted o out
    pub after : (a : K) → After o a left → After o a right → After o a out
    pub at_key :
        (j : K)
        → list_lookup o j out
          ≡ combine on_left on_right on_both (list_lookup o j left) (list_lookup o j right)

  kept-Merged_left : (left : List (K × V)) → IsSorted o left → Merged left [] (kept on_left left)
  unfolding list_lookup
  kept-Merged_left left s = record {
    sorted = ground arith;
    after = λ a l r. ground arith;
    at_key = λ j. ground arith;
  }

  kept-Merged_right :
      (right : List (K × V)) → IsSorted o right → Merged [] right (kept on_right right)
  unfolding list_lookup
  kept-Merged_right right s = record {
    sorted = ground arith;
    after = λ a l r. ground arith;
    at_key = λ j. ground arith;
  }

  absent_at :
      (j a : K) (xs : List (K × V)) → o.order j a ≡ eq → After o a xs → list_lookup o j xs ≡ none
  absent_at j a xs e h = (list_lookup-absent o j xs (rw (o.eq_of_order j a e) h)).0

  -- One round, by the order of the first keys.
  Merged-lt :
      (a b : K) (v w : V) (left right out : List (K × V))
      → o.order a b ≡ lt
      → IsSorted o ((a, v) ∷ left)
      → IsSorted o ((b, w) ∷ right)
      → Merged left ((b, w) ∷ right) out
      → Merged ((a, v) ∷ left) ((b, w) ∷ right) (kept on_left ((a, v) ∷ []) ++ out)
  unfolding list_lookup
  Merged-lt a b v w left right out e sl sr m =
      let below : After o a right = After-trans o a b right e sr.0 in
      record {
        sorted = ground (arith, m.sorted, m.after a sl.0 (e, below));
        after = λ x l r. ground (arith, m.after x l.1 r);
        at_key = λ j. ground (
          arith,
          m.at_key j,
          absent_at j a left,
          absent_at j a right,
          o.eq_of_order j a,
          o.eq_of_order j b,
        );
      }

  Merged-gt :
      (a b : K) (v w : V) (left right out : List (K × V))
      → o.order a b ≡ gt
      → IsSorted o ((a, v) ∷ left)
      → IsSorted o ((b, w) ∷ right)
      → Merged ((a, v) ∷ left) right out
      → Merged ((a, v) ∷ left) ((b, w) ∷ right) (kept on_right ((b, w) ∷ []) ++ out)
  unfolding list_lookup
  Merged-gt a b v w left right out e sl sr m =
      let before : o.order b a ≡ lt = o.lt_of_gt a b e in
      let below : After o b left = After-trans o b a left before sl.0 in
      record {
        sorted = ground (arith, m.sorted, m.after b (before, below) sr.0);
        after = λ x l r. ground (arith, m.after x l r.1);
        at_key = λ j. ground (
          arith,
          m.at_key j,
          absent_at j b left,
          absent_at j b right,
          o.eq_of_order j a,
          o.eq_of_order j b,
        );
      }

  Merged-eq :
      (a b : K) (v w : V) (left right out : List (K × V))
      → o.order a b ≡ eq
      → IsSorted o ((a, v) ∷ left)
      → IsSorted o ((b, w) ∷ right)
      → Merged left right out
      → Merged ((a, v) ∷ left) ((b, w) ∷ right) (kept on_both ((a, v) ∷ []) ++ out)
  unfolding list_lookup
  Merged-eq a b v w left right out e sl sr m =
      let same : a ≡ b = o.eq_of_order a b e in
      let below : After o a right = rw same sr.0 in
      record {
        sorted = ground (arith, m.sorted, m.after a sl.0 below);
        after = λ x l r. ground (arith, m.after x l.1 r.1);
        at_key = λ j. ground (
          arith,
          m.at_key j,
          absent_at j a left,
          absent_at j a right,
          o.eq_of_order j a,
          o.eq_of_order j b,
        );
      }

module _ {K V C E : Type 0} (compare : K → K → C → Answer C E Value) (o : LawfulOrder K)
    (d : Decides compare o) (on_left on_right on_both : MergeOp) where
  -- The loop has ended with the result so far and a merge of the rest.
  pub record Joined (left right result : List (K × V)) (r : Option (Answer C E (List (K × V))))
      : Type 0 where
    pub out : List (K × V)
    pub env : C
    pub answer : r ≡ some (ok (result ++ out) env)
    pub merged : Merged o on_left on_right on_both left right out

  -- The entry that a round keeps, before what the later rounds give.
  Joined-after :
      (left right left' right' result first : List (K × V)) (r : Option (Answer C E (List (K × V))))
      → ((out : List (K × V))
          → Merged o on_left on_right on_both left right out
          → Merged o on_left on_right on_both left' right' (first ++ out))
      → Joined left right (result ++ first) r
      → Joined left' right' result r
  Joined-after left right left' right' result first r f j = record {
    out = first ++ j.out;
    env = j.env;
    answer = j.answer ∙ ap (λ t. some (ok t j.env)) (append_assoc result first j.out);
    merged = f j.out j.merged;
  }

  merge_loop-Joined :
      (n : ℕ) (left right result : List (K × V)) (ce : C)
      → length left + length right < n
      → IsSorted o left
      → IsSorted o right
      → Joined left right result
          (merge_loop compare on_left on_right on_both n left right result ce)
  unfolding merge_loop
  merge_loop-Joined zero left right result ce f sl sr = absurd (omega arith)
  merge_loop-Joined (suc n) [] right result ce f sl sr = record {
    out = kept on_right right;
    env = ce;
    answer = refl;
    merged = kept-Merged_right o on_left on_right on_both right sr;
  }
  merge_loop-Joined (suc n) ((a, v) ∷ left) [] result ce f sl sr = record {
    out = kept on_left ((a, v) ∷ left);
    env = ce;
    answer = refl;
    merged = kept-Merged_left o on_left on_right on_both ((a, v) ∷ left) sl;
  }
  merge_loop-Joined (suc n) ((a, v) ∷ left) ((b, w) ∷ right) result ce f sl sr =
      rw (d.decides a b ce, merge_loop)
        (by_order (o.order a b) refl
          (λ first.
            merge_loop-Joined n left ((b, w) ∷ right) (result ++ first) c (omega arith) sl.1 sr)
          (λ first.
            merge_loop-Joined n ((a, v) ∷ left) right (result ++ first) c (omega arith) sl sr.1)
          (λ first. merge_loop-Joined n left right (result ++ first) c (omega arith) sl.1 sr.1))
    where
      c : C
      c = d.after a b ce

      loop : List (K × V) → List (K × V) → List (K × V) → Option (Answer C E (List (K × V)))
      loop l r res = merge_loop compare on_left on_right on_both n l r res c

      by_order :
          (ord : Ordering)
          → o.order a b ≡ ord
          → ((first : List (K × V))
              → Joined left
                  ((b, w) ∷ right)
                  (result ++ first)
                  (loop left ((b, w) ∷ right) (result ++ first)))
          → ((first : List (K × V))
              → Joined
                  ((a, v) ∷ left)
                  right
                  (result ++ first)
                  (loop ((a, v) ∷ left) right (result ++ first)))
          → ((first : List (K × V))
              → Joined left right (result ++ first) (loop left right (result ++ first)))
          → Joined ((a, v) ∷ left) ((b, w) ∷ right) result (elim ord [
            | lt ↦ loop left ((b, w) ∷ right) (result ++ kept on_left ((a, v) ∷ []))
            | gt ↦ loop ((a, v) ∷ left) right (result ++ kept on_right ((b, w) ∷ []))
            | eq ↦ loop left right (result ++ kept on_both ((a, v) ∷ []))
          ])
      by_order lt e jl jr jb =
          Joined-after left ((b, w) ∷ right) _ _ result (kept on_left ((a, v) ∷ [])) _
            (λ out m. Merged-lt o on_left on_right on_both a b v w left right out e sl sr m)
            (jl (kept on_left ((a, v) ∷ [])))
      by_order gt e jl jr jb =
          Joined-after ((a, v) ∷ left) right _ _ result (kept on_right ((b, w) ∷ [])) _
            (λ out m. Merged-gt o on_left on_right on_both a b v w left right out e sl sr m)
            (jr (kept on_right ((b, w) ∷ [])))
      by_order eq e jl jr jb =
          Joined-after left right _ _ result (kept on_both ((a, v) ∷ [])) _
            (λ out m. Merged-eq o on_left on_right on_both a b v w left right out e sl sr m)
            (jb (kept on_both ((a, v) ∷ [])))

  -- The merge ends within the lengths of the two slices, and its result is sorted and has at each key
  -- the left or right entry, the left one on both sides, as the three options say.
  pub avl_merge_sorted-Joined :
      (left right : List (K × V)) (ce : C)
      → IsSorted o left
      → IsSorted o right
      → Joined left right [] (avl_merge_sorted compare on_left on_right on_both left right ce)
  unfolding avl_merge_sorted
  avl_merge_sorted-Joined left right ce sl sr =
      merge_loop-Joined (suc (length left + length right)) left right [] ce (omega arith) sl sr
