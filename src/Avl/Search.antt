-- ===== src/Avl/Search.antt =====
-- The operations of avl.go that search by the comparison: lookup, insert, delete and filter.
pub mod Balance
pub mod Refinement
use gicel.Prelude.{ℕ, suc, ◌+◌, Bool, true, false, Option, none, some, if◌then◌else◌, Ordering}
use Prim.Native.Nat.Ordering.{lt, eq, gt}
use gicel.Prelude.Bytes.{bytes_eq}
use gicel.Avl.Applier.{
  Answer, ok, err, or_restore, and_then, Value, con_val, other_val, bool_true, compare_keys,
}
use gicel.Avl.Tree.{AvlNode, nil, node, avl_new_node, avl_rebalance, avl_min_node}

abbrev is_true : Value → Bool
is_true (con_val name) = bytes_eq name bool_true
is_true other_val = false

module _ {ℓ κ} {K : Type ℓ} {V : Type κ} {C E : Type 0}
    (compare : K → K → C → Answer C E Value) where
  -- The rebuilt node around a new child.
  abbrev with_left :
      K → V → AvlNode K V → ℕ → AvlNode K V × Bool → C → Answer C E (AvlNode K V × Bool)
  with_left k v r h (l, inserted) c = ok (avl_rebalance (node k v l r h), inserted) c

  abbrev with_right :
      K → V → AvlNode K V → ℕ → AvlNode K V × Bool → C → Answer C E (AvlNode K V × Bool)
  with_right k v l h (r, inserted) c = ok (avl_rebalance (node k v l r h), inserted) c

  -- The new root, and whether a key was added.
  unfoldable pub avl_insert : AvlNode K V → K → V → C → Answer C E (AvlNode K V × Bool)
  avl_insert nil key value ce = ok (avl_new_node key value, true) ce
  avl_insert (node k v l r h) key value ce =
      or_restore ce (compare_keys compare key k ce) λ ord ce'. elim ord [
        | lt ↦ or_restore ce (avl_insert l key value ce') (with_left k v r h)
        | gt ↦ or_restore ce (avl_insert r key value ce') (with_right k v l h)
        | eq ↦ ok (node k value l r h, false) ce'
      ]

  unfoldable pub avl_lookup : AvlNode K V → K → C → Answer C E (Option V)
  avl_lookup nil key ce = ok none ce
  avl_lookup (node k v l r h) key ce = or_restore ce (compare_keys compare key k ce) λ ord ce'.
      elim ord [ lt ↦ avl_lookup l key ce' | gt ↦ avl_lookup r key ce' | eq ↦ ok (some v) ce' ]

  -- The rest of a deletion: a tree in which nothing was deleted stays as it was.
  abbrev deleted_left :
      K
      → V
      → AvlNode K V
      → AvlNode K V
      → ℕ
      → AvlNode K V × Bool
      → C
      → Answer C E (AvlNode K V × Bool)
  deleted_left k v l r h (l', true) c = ok (avl_rebalance (node k v l' r h), true) c
  deleted_left k v l r h (l', false) c = ok (node k v l r h, false) c

  abbrev deleted_right :
      K
      → V
      → AvlNode K V
      → AvlNode K V
      → ℕ
      → AvlNode K V × Bool
      → C
      → Answer C E (AvlNode K V × Bool)
  deleted_right k v l r h (r', true) c = ok (avl_rebalance (node k v l r' h), true) c
  deleted_right k v l r h (r', false) c = ok (node k v l r h, false) c

  -- A node that is deleted and has two children takes its successor's entry; whatever the deletion of
  -- the successor reports, the node is rebuilt.
  abbrev replaced :
      K × V → AvlNode K V → ℕ → AvlNode K V × Bool → C → Answer C E (AvlNode K V × Bool)
  replaced (k, v) l h (r', _) c = ok (avl_rebalance (node k v l r' h), true) c

  -- The `default` branch: an only child takes the node's place.
  abbrev delete_here :
      C
      → C
      → (K → C → Answer C E (AvlNode K V × Bool))
      → AvlNode K V
      → AvlNode K V
      → ℕ
      → Answer C E (AvlNode K V × Bool)
  delete_here ce ce' delete_right nil r h = ok (r, true) ce'
  delete_here ce ce' delete_right l nil h = ok (l, true) ce'
  delete_here ce ce' delete_right l (node rk rv rl rr rh) h =
      let successor = avl_min_node rk rv rl in
      or_restore ce (delete_right successor.0 ce') (replaced successor l h)

  -- The new root, and whether a key was removed.
  unfoldable pub avl_delete : AvlNode K V → K → C → Answer C E (AvlNode K V × Bool)
  avl_delete nil key ce = ok (nil, false) ce
  avl_delete (node k v l r h) key ce = or_restore ce (compare_keys compare key k ce) λ ord ce'.
      elim ord [
        | lt ↦ or_restore ce (avl_delete l key ce') (deleted_left k v l r h)
        | gt ↦ or_restore ce (avl_delete r key ce') (deleted_right k v l r h)
        | eq ↦ delete_here ce ce' (avl_delete r) l r h
      ]

  -- `merge existing new` is the value where the key exists.
  unfoldable pub avl_insert_with :
      (V → V → C → Answer C E V) → AvlNode K V → K → V → C → Answer C E (AvlNode K V × Bool)
  avl_insert_with merge nil key value ce = ok (avl_new_node key value, true) ce
  avl_insert_with merge (node k v l r h) key value ce =
      or_restore ce (compare_keys compare key k ce) λ ord ce'. elim ord [
        | lt ↦ or_restore ce (avl_insert_with merge l key value ce') (with_left k v r h)
        | gt ↦ or_restore ce (avl_insert_with merge r key value ce') (with_right k v l h)
        | eq ↦ or_restore ce (merge v value ce') (λ merged ce2. ok (node k merged l r h, false) ce2)
      ]

  -- An entry that the predicate accepts goes into the fresh tree.
  abbrev keep_entry : Value → K → V → AvlNode K V × ℕ → C → Answer C E (AvlNode K V × ℕ)
  keep_entry reply k v (root, size) ce =
      if is_true reply
      then and_then (avl_insert root k v ce)
          (λ (root', inserted) c. ok (root', if inserted then size + 1 else size) c)
      else ok (root, size) ce

  -- The fresh tree `root` and its size grow along the walk of the first tree.
  unfoldable pub avl_filter_with_key :
      (K → V → C → Answer C E Value)
      → AvlNode K V
      → AvlNode K V × ℕ
      → C
      → Answer C E (AvlNode K V × ℕ)
  avl_filter_with_key pred nil acc ce = ok acc ce
  avl_filter_with_key pred (node k v l r h) acc ce =
      and_then (avl_filter_with_key pred l acc ce) λ acc1 ce1.
        and_then (pred k v ce1)
          λ reply ce2. and_then (keep_entry reply k v acc1 ce2) (avl_filter_with_key pred r)
