-- ===== src/Containers/Map/Entry.antt =====
-- The insertion of an entry into the result of a walk of map.go, under admitted charges.
use gicel.Prelude.{ℕ, suc, ◌≡◌, Bool, List, Option, none}
use gicel.Prelude.Int.{ℤ}
use gicel.Budget.{LimitError}
use gicel.Avl.Applier.{Answer, ok, err, or_restore, and_then, Returns}
use gicel.Avl.Tree.{AvlNode}
use gicel.Avl.Tree.Entries.{entries}
use gicel.Avl.Sorted.{LawfulOrder, list_insert}
use gicel.Avl.Search.{avl_insert}
use gicel.Containers.MapVal.{MapVal, cost_avl_node, grown}
use gicel.Containers.MapVal.Laws.{IsMap, HasEntries, grown-HasEntries}
use gicel.Containers.Map.Combine.{add_entry}

-- A function of the language that returns `g` of its arguments.
pub record Computes {V W X C E : Type 0} (f : V → W → C → Answer C E X) (g : V → W → X)
    : Type 0 where
  pub after : V → W → C → C
  pub computes : (v : V) (w : W) (c : C) → f v w c ≡ ok (g v w) (after v w c)

module _ {K V C E : Type 0} (o : LawfulOrder K) where
  -- A result with the entries `xs`, and any number of charges.
  abbrev pub ResultHas : List (K × V) → MapVal K V C E × ℕ → Type 0
  ResultHas xs acc = HasEntries o xs acc.0

module _ {K V C E : Type 0} (o : LawfulOrder K) (charge : ℕ → ℤ → Option LimitError)
    (free : (i : ℕ) → charge i cost_avl_node ≡ none) where
  pub add_entry-Returns :
      (k : K) (v : V) (m : MapVal K V C E) (n : ℕ) (ce : C)
      → IsMap o m
      → Returns (ResultHas o (list_insert o k v (entries m.root))) (add_entry charge k v (m, n) ce)
  unfolding add_entry
  add_entry-Returns k v m n ce h =
      rw (free n) (continued (avl_insert m.cmp m.root k v ce) (grown-HasEntries o m k v ce h))
    where
      continued :
          (answer : Answer C E (AvlNode K V × Bool))
          → Returns
              (HasEntries o (list_insert o k v (entries m.root)))
              (or_restore ce answer λ r c. ok (grown m r) c)
          → Returns
              (ResultHas o (list_insert o k v (entries m.root)))
              (and_then answer λ r c. ok (grown m r, suc n) c)
      continued (ok r c) h = h
      continued (err e c) h = absurd h
