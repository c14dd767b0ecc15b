-- ===== src/Containers/Set/Algebra.antt =====
-- Union, intersection and difference of two sets by their members.
use gicel.Prelude.{
  ◌≡◌, refl, sym, ap, ap₂, ◌∙◌, subst, Bool, not, ◌&&◌, ◌||◌, List, length, Option, none, some,
}
use gicel.Prelude.Int.{pos}
use gicel.Avl.Applier.{Answer, ok, Returns}
use gicel.Avl.Tree.{avl_to_slice}
use gicel.Avl.Tree.Entries.{entries, avl_to_slice-eq}
use gicel.Avl.Sorted.{LawfulOrder, IsSorted, list_lookup, list_member}
use gicel.Avl.Merge.{
  MergeOp, merge_keep, merge_skip, avl_merge_sorted, avl_merge_union, avl_merge_intersect,
  avl_merge_difference,
}
use gicel.Avl.Merge.Join.{combine, avl_merge_sorted-Joined}
use gicel.Avl.Merge.Build.{sorted_to_avl_builds}
use gicel.Containers.MapVal.{map_arg}
use gicel.Containers.MapVal.Laws.{IsMap}
use gicel.Containers.Map.{is_some}
use gicel.Containers.Map.Laws.{list_member-list_lookup}
use gicel.Containers.Set.{SetVal, join, joined, set_union, set_intersection, set_difference}

-- The merge ends and returns.
abbrev pub Finishes : {C E A : Type 0} → (A → Type 0) → Option (Answer C E A) → Type 0
Finishes P none = ⊥
Finishes P (some answer) = Returns P answer

either :
    (a b : Option (Unit {0}))
    → is_some (combine merge_keep merge_keep merge_keep a b) ≡ (is_some a || is_some b)
either none none = refl
either none (some b) = refl
either (some a) none = refl
either (some a) (some b) = refl

both :
    (a b : Option (Unit {0}))
    → is_some (combine merge_skip merge_skip merge_keep a b) ≡ (is_some a && is_some b)
both none none = refl
both none (some b) = refl
both (some a) none = refl
both (some a) (some b) = refl

first_only :
    (a b : Option (Unit {0}))
    → is_some (combine merge_keep merge_skip merge_skip a b) ≡ (is_some a && not (is_some b))
first_only none none = refl
first_only none (some b) = refl
first_only (some a) none = refl
first_only (some a) (some b) = refl

module _ {K C E : Type 0} (o : LawfulOrder K) where
  -- A well-formed set, with its members by a test.
  pub record HasMembers (member : K → Bool) (s : SetVal K C E) : Type 0 where
    pub valid : IsMap o s
    pub members : (j : K) → list_member o j (entries s.root) ≡ member j

  abbrev pub member_of : SetVal K C E → K → Bool
  member_of s j = list_member o j (entries s.root)

  join-Finishes :
      (merge : SetVal K C E → SetVal K C E → Option (Answer C E (List (K × Unit {0}))))
      (Q : SetVal K C E → Type 0) (s1 s2 : SetVal K C E) (ce : C) (out : List (K × Unit {0}))
      (env : C)
      → merge s1 s2 ≡ some (ok out env)
      → Q (joined s1 out)
      → Finishes Q (join merge (map_arg s1) (map_arg s2) ce)
  join-Finishes merge Q s1 s2 ce out env e q = rw e q

  abbrev merging :
      MergeOp
      → MergeOp
      → MergeOp
      → C
      → SetVal K C E
      → SetVal K C E
      → Option (Answer C E (List (K × Unit {0})))
  merging on_left on_right on_both ce s1 s2 =
      avl_merge_sorted s1.cmp on_left on_right on_both (avl_to_slice s1.root) (avl_to_slice s2.root)
        ce

  merged_members :
      (on_left on_right on_both : MergeOp) (s1 s2 : SetVal K C E) (ce : C) (member : K → Bool)
      → IsMap o s1
      → IsMap o s2
      → ((j : K)
          → is_some (
              combine on_left on_right on_both
                (list_lookup o j (entries s1.root))
                (list_lookup o j (entries s2.root)))
            ≡ member j)
      → Finishes
          (HasMembers member)
          (join (merging on_left on_right on_both ce) (map_arg s1) (map_arg s2) ce)
  merged_members on_left on_right on_both s1 s2 ce member h1 h2 m =
      let j =
        avl_merge_sorted-Joined s1.cmp o h1.ordered on_left on_right on_both (entries s1.root)
          (entries s2.root) ce h1.sorted h2.sorted in
      let (holds, balanced, _) = sorted_to_avl_builds j.out in
      join-Finishes (merging on_left on_right on_both ce) (HasMembers member) s1 s2 ce j.out j.env
        (ap₂ (λ xs ys. avl_merge_sorted s1.cmp on_left on_right on_both xs ys ce)
            (avl_to_slice-eq s1.root) (avl_to_slice-eq s2.root)
          ∙ j.answer)
        (record {
          valid = record {
            ordered = h1.ordered;
            sorted = subst (IsSorted o) (sym holds) j.merged.sorted;
            balanced = balanced;
            counted = ap (λ xs. pos (length xs)) (sym holds);
          };
          members = λ k.
              ap (list_member o k) holds
              ∙ sym (list_member-list_lookup o k j.out)
              ∙ ap is_some (j.merged.at_key k)
              ∙ m k;
        })

  combined_test :
      (on_left on_right on_both : MergeOp) (test : Bool → Bool → Bool) (j : K)
      (s1 s2 : SetVal K C E)
      → ((a b : Option (Unit {0}))
          → is_some (combine on_left on_right on_both a b) ≡ test (is_some a) (is_some b))
      → is_some (
          combine on_left on_right on_both
            (list_lookup o j (entries s1.root))
            (list_lookup o j (entries s2.root)))
        ≡ test (member_of s1 j) (member_of s2 j)
  combined_test on_left on_right on_both test j s1 s2 h =
      rw
        (
          sym (list_member-list_lookup o j (entries s1.root)),
          sym (list_member-list_lookup o j (entries s2.root)),
        )
        (h (list_lookup o j (entries s1.root)) (list_lookup o j (entries s2.root)))

  -- Union, intersection and difference of two well-formed sets with the same order return well-formed
  -- sets, with the members
  -- of either, of both, and of the first but not the second.
  pub set_algebra :
      (s1 s2 : SetVal K C E) (ce : C)
      → IsMap o s1
      → IsMap o s2
      → Finishes
          (HasMembers λ j. member_of s1 j || member_of s2 j)
          (set_union (map_arg s1) (map_arg s2) ce)
        × Finishes
            (HasMembers λ j. member_of s1 j && member_of s2 j)
            (set_intersection (map_arg s1) (map_arg s2) ce)
        × Finishes
            (HasMembers λ j. member_of s1 j && not (member_of s2 j))
            (set_difference (map_arg s1) (map_arg s2) ce)
  unfolding set_union set_intersection set_difference avl_merge_union avl_merge_intersect
      avl_merge_difference
  set_algebra s1 s2 ce h1 h2 = (
    merged_members merge_keep merge_keep merge_keep s1 s2 ce _ h1 h2
        (λ j. combined_test merge_keep merge_keep merge_keep (λ a b. a || b) j s1 s2 either),
    merged_members merge_skip merge_skip merge_keep s1 s2 ce _ h1 h2
        (λ j. combined_test merge_skip merge_skip merge_keep (λ a b. a && b) j s1 s2 both),
    merged_members merge_keep merge_skip merge_skip s1 s2 ce _ h1 h2 (λ j.
        combined_test merge_keep merge_skip merge_skip (λ a b. a && not b) j s1 s2 first_only),
  )
