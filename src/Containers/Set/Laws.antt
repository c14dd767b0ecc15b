-- ===== src/Containers/Set/Laws.antt =====
-- The primitives of Data.Set that change one member, and the set of a list. The budget is assumed to
-- admit the charges.
use gicel.Prelude.{
  ℕ, suc, ◌≡◌, refl, sym, ap, ◌∙◌, Bool, true, false, ◌||◌, not, ◌&&◌, List, [], ◌∷◌, Option, none,
  arith,
}
use Prim.Native.Nat.Ordering.{eq}
use gicel.Prelude.Int.{ℤ}
use gicel.Budget.{LimitError}
use gicel.Avl.Applier.{Answer, Value, Returns, Returns-imp}
use gicel.Avl.Tree.Entries.{entries}
use gicel.Avl.Sorted.{LawfulOrder, Decides, IsSorted, list_insert, list_delete, list_member}
use gicel.Avl.Sorted.Laws.{list_lookup-list_insert, list_lookup-list_delete}
use gicel.Containers.MapVal.{map_arg, ListVal, nil_val, cons_val, cost_avl_node, empty_map}
use gicel.Containers.MapVal.Laws.{
  IsMap, HasEntries, grown-HasEntries, shrunk-HasEntries, empty_map-HasEntries,
}
use gicel.Containers.Map.{is_some}
use gicel.Containers.Map.Laws.{list_member-list_lookup, inserted-Returns}
use gicel.Containers.Set.{SetVal, set_insert, set_delete, set_from_list, set_from_list_loop}
use gicel.Containers.Set.Algebra.{HasMembers, member_of}

abbrev pub keys_val : {K : Type 0} → List K → ListVal K
keys_val [] = nil_val
keys_val (k ∷ ks) = cons_val k (keys_val ks)

module _ {K : Type 0} (o : LawfulOrder K) where
  abbrev pub same : K → K → Bool
  same a b = elim (o.order a b) [ eq ↦ true | _ ↦ false ]

  abbrev pub is_in : K → List K → Bool
  is_in j [] = false
  is_in j (k ∷ ks) = same j k || is_in j ks

  list_member-list_insert :
      (key j : K) (xs : List (K × Unit {0}))
      → list_member o j (list_insert o key tt xs) ≡ (same j key || list_member o j xs)
  list_member-list_insert key j xs =
      sym (list_member-list_lookup o j (list_insert o key tt xs))
      ∙ ap is_some (list_lookup-list_insert o key j tt xs)
      ∙ ground (arith, list_member-list_lookup o j xs)

  list_member-list_delete :
      (key j : K) (xs : List (K × Unit {0}))
      → IsSorted o xs
      → list_member o j (list_delete o key xs) ≡ (not (same j key) && list_member o j xs)
  list_member-list_delete key j xs s =
      sym (list_member-list_lookup o j (list_delete o key xs))
      ∙ ap is_some (list_lookup-list_delete o key j xs s)
      ∙ ground (arith, list_member-list_lookup o j xs)

  or_swap : (a b c : Bool) → (a || (b || c)) ≡ (b || (a || c))
  or_swap a b c = ground arith

module _ {K C E : Type 0} (o : LawfulOrder K) where
  -- Where the charge is admitted, insertion into a well-formed set and deletion from it return
  -- well-formed sets, with the key and without it.
  pub set_update-Returns :
      (charge : ℤ → Option LimitError) (key : K) (s : SetVal K C E) (ce : C)
      → charge cost_avl_node ≡ none
      → IsMap o s
      → Returns
          (HasMembers o λ j. same o j key || member_of o s j)
          (set_insert charge key (map_arg s) ce)
        × Returns
            (HasMembers o λ j. not (same o j key) && member_of o s j)
            (set_delete charge key (map_arg s) ce)
  unfolding set_insert set_delete
  set_update-Returns charge key s ce free h = (
    rw free (
        Returns-imp (HasEntries o (list_insert o key tt (entries s.root))) _ _
          (λ t g. record {
            valid = g.0;
            members =
                λ j. ap (list_member o j) g.1 ∙ list_member-list_insert o key j (entries s.root);
          })
          (grown-HasEntries o s key tt ce h)),
    rw free (
        Returns-imp (HasEntries o (list_delete o key (entries s.root))) _ _
          (λ t g. record {
            valid = g.0;
            members = λ j.
                ap (list_member o j) g.1
                ∙ list_member-list_delete o key j (entries s.root) h.sorted;
          })
          (shrunk-HasEntries o s key ce h)),
  )

  from_list_loop-Returns :
      (charge : ℕ → ℤ → Option LimitError) (n : ℕ) (s : SetVal K C E) (ks : List K) (ce : C)
      → ((i : ℕ) → charge i cost_avl_node ≡ none)
      → IsMap o s
      → Returns
          (HasMembers o λ j. is_in o j ks || member_of o s j)
          (set_from_list_loop charge n s (keys_val ks) ce)
  unfolding set_from_list_loop
  from_list_loop-Returns charge n s [] ce free h = record { valid = h; members = λ j. refl }
  from_list_loop-Returns charge n s (k ∷ ks) ce free h = rw (free n) (
      inserted-Returns o s k tt ce _ (λ t c. set_from_list_loop charge (suc n) t (keys_val ks) c) h
        λ t c g.
          Returns-imp (HasMembers o λ j. is_in o j ks || member_of o t j) _ _
            (λ u m. record { valid = m.valid; members = λ j. m.members j ∙ regroup j t g.1 })
            (from_list_loop-Returns charge (suc n) t ks c free g.0))
    where
      regroup :
          (j : K) (t : SetVal K C E)
          → entries t.root ≡ list_insert o k tt (entries s.root)
          → (is_in o j ks || member_of o t j) ≡ (same o j k || is_in o j ks || member_of o s j)
      regroup j t e =
          ap (λ b. is_in o j ks || b)
            (ap (list_member o j) e ∙ list_member-list_insert o k j (entries s.root))
          ∙ ground arith

  -- Where the charges are admitted and the comparison decides the order, a set made from a list of keys
  -- is returned, is well formed, and its members are the keys of the list.
  pub set_from_list-Returns :
      (charge : ℕ → ℤ → Option LimitError) (cmp : K → K → C → Answer C E Value) (ks : List K)
      (ce : C)
      → ((i : ℕ) → charge i cost_avl_node ≡ none)
      → Decides cmp o
      → Returns (HasMembers o λ j. is_in o j ks) (set_from_list charge cmp (keys_val ks) ce)
  unfolding set_from_list list_member
  set_from_list-Returns charge cmp ks ce free d =
      Returns-imp (HasMembers o λ j. is_in o j ks || false) _ _
        (λ s m. record { valid = m.valid; members = λ j. m.members j ∙ ground arith })
        (from_list_loop-Returns charge 0 (empty_map cmp) ks ce free
          (empty_map-HasEntries o cmp d).0)
