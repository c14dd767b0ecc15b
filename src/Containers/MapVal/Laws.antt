-- ===== src/Containers/MapVal/Laws.antt =====
-- The invariant of a map: its entries are sorted by the order that its comparison decides, its tree is
-- balanced, and its size is the number of its entries.
use gicel.Prelude.{
  ℕ, ◌+◌, ◌≡◌, refl, sym, ap, ◌∙◌, subst, Bool, not, List, [], length, arith, if◌then◌else◌,
}
use gicel.Prelude.Int.{ℤ, pos, ◌+ℤ◌, ◌-ℤ◌}
use gicel.Avl.Applier.{Answer, ok, err, or_restore, Value, Ensures, Returns}
use gicel.Avl.Tree.Balance.{IsAvl}
use gicel.Avl.Tree.Entries.{entries}
use gicel.Avl.Sorted.{LawfulOrder, Decides, IsSorted, list_insert, list_delete, list_member}
use gicel.Avl.Sorted.Laws.{
  list_insert-IsSorted, list_delete-IsSorted, length-list_insert, length-list_delete,
}
use gicel.Avl.Search.{avl_insert, avl_delete}
use gicel.Avl.Search.Balance.{GrownFrom, ShrunkFrom, avl_insert-Grown, avl_delete-Shrunk}
use gicel.Avl.Search.Refinement.{InsertedInto, DeletedFrom, avl_insert-Returns, avl_delete-Returns}
use gicel.Containers.MapVal.{MapVal, grown, shrunk, empty_map}

counted_up : (n : ℕ) → pos n +ℤ pos 1 ≡ pos (n + 1)
unfolding ◌+ℤ◌
counted_up n = ground arith

counted_down : (n : ℕ) → pos (n + 1) -ℤ pos 1 ≡ pos n
unfolding ◌-ℤ◌
counted_down n = ground arith

module _ {K V : Type 0} (o : LawfulOrder K) where
  size_after_insert :
      (key : K) (value : V) (xs : List (K × V)) (size : ℤ) (inserted : Bool)
      → IsSorted o xs
      → size ≡ pos (length xs)
      → inserted ≡ not (list_member o key xs)
      → (if inserted then size +ℤ pos 1 else size) ≡ pos (length (list_insert o key value xs))
  size_after_insert key value xs size inserted s e i =
      rw (length-list_insert o key value xs s, i, e) (ground (arith, counted_up (length xs)))

  size_after_delete :
      (key : K) (xs : List (K × V)) (size : ℤ) (deleted : Bool)
      → size ≡ pos (length xs)
      → deleted ≡ list_member o key xs
      → (if deleted then size -ℤ pos 1 else size) ≡ pos (length (list_delete o key xs))
  size_after_delete key xs size deleted e i =
      rw (i, e)
        (ground (arith, length-list_delete o key xs, counted_down (length (list_delete o key xs))))

module _ {K V C E : Type 0} (o : LawfulOrder K) where
  pub record IsMap (m : MapVal K V C E) : Type 0 where
    pub ordered : Decides m.cmp o
    pub sorted : IsSorted o (entries m.root)
    pub balanced : IsAvl m.root
    pub counted : m.size ≡ pos (length (entries m.root))

  -- A map with the entries `xs`.
  abbrev pub HasEntries : List (K × V) → MapVal K V C E → Type 0
  HasEntries xs m = IsMap m × (entries m.root ≡ xs)

  pub empty_map-HasEntries :
      (cmp : K → K → C → Answer C E Value) → Decides cmp o → HasEntries [] (empty_map cmp)
  empty_map-HasEntries cmp d =
      (record { ordered = d; sorted = tt; balanced = tt; counted = refl }, refl)

  both :
      {A : Type 0} (P Q R : A → Type 0) (m : Answer C E A) (f : A → MapVal K V C E)
      → Returns P m
      → Ensures Q m
      → (S : MapVal K V C E → Type 0) → ((a : A) → P a → Q a → S (f a))
      → (ce : C) → Returns S (or_restore ce m λ a c. ok (f a) c)
  both P Q R (ok a c) f p q S k ce = k a p q
  both P Q R (err e c) f p q S k ce = absurd p

  -- The insertion into the tree of a map, and the map around the new root.
  pub grown-HasEntries :
      (m : MapVal K V C E) (key : K) (value : V) (ce : C)
      → IsMap m
      → Returns
          (HasEntries (list_insert o key value (entries m.root)))
          (or_restore ce (avl_insert m.cmp m.root key value ce) λ r c. ok (grown m r) c)
  grown-HasEntries m key value ce h =
      both (InsertedInto m.cmp o h.ordered key value (entries m.root)) (GrownFrom m.cmp m.root)
        (λ _. Unit {0}) (avl_insert m.cmp m.root key value ce) (grown m)
        (avl_insert-Returns m.cmp o h.ordered m.root key value ce h.sorted)
        (avl_insert-Grown m.cmp m.root key value ce h.balanced) _
        (λ r p q. (
          record {
            ordered = h.ordered;
            sorted =
                subst (IsSorted o) (sym p.0)
                  (list_insert-IsSorted o key value (entries m.root) h.sorted);
            balanced = q.balanced;
            counted =
                size_after_insert o key value (entries m.root) m.size r.1 h.sorted h.counted p.1
                ∙ ap (λ xs. pos (length xs)) (sym p.0);
          },
          p.0,
        ))
        ce

  pub shrunk-HasEntries :
      (m : MapVal K V C E) (key : K) (ce : C)
      → IsMap m
      → Returns
          (HasEntries (list_delete o key (entries m.root)))
          (or_restore ce (avl_delete m.cmp m.root key ce) λ r c. ok (shrunk m r) c)
  shrunk-HasEntries m key ce h =
      both (DeletedFrom m.cmp o h.ordered key (entries m.root)) (ShrunkFrom m.cmp m.root)
        (λ _. Unit {0}) (avl_delete m.cmp m.root key ce) (shrunk m)
        (avl_delete-Returns m.cmp o h.ordered m.root key ce h.sorted)
        (avl_delete-Shrunk m.cmp m.root key ce h.balanced) _
        (λ r p q. (
          record {
            ordered = h.ordered;
            sorted =
                subst (IsSorted o) (sym p.0) (list_delete-IsSorted o key (entries m.root) h.sorted);
            balanced = q.balanced;
            counted =
                size_after_delete o key (entries m.root) m.size r.1 h.counted p.1
                ∙ ap (λ xs. pos (length xs)) (sym p.0);
          },
          p.0,
        ))
        ce
