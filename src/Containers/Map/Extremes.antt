-- ===== src/Containers/Map/Extremes.antt =====
-- The least and the greatest entry of a map or a set are the first and the last of its entries.
use gicel.Prelude.{
  arith, ◌≡◌, refl, sym, ap, ◌∙◌, List, [], ◌∷◌, ◌++◌, append_assoc, Option, none, some,
}
use gicel.Avl.Applier.{Returns}
use gicel.Avl.Tree.{AvlNode, nil, node, avl_min_node, avl_max_node}
use gicel.Avl.Tree.Entries.{entries}
use gicel.Containers.MapVal.{MapVal, map_arg}
use gicel.Containers.Map.{min_of, max_of, map_find_min, map_find_max}

module _ {ℓ} {A : Type ℓ} where
  abbrev pub first : List A → Option A
  first [] = none
  first (x ∷ xs) = some x

  abbrev pub last : List A → Option A
  last [] = none
  last (x ∷ []) = some x
  last (x ∷ y ∷ ys) = last (y ∷ ys)

  first-append : (xs ys : List A) (x : A) → first xs ≡ some x → first (xs ++ ys) ≡ some x
  first-append [] ys x h = ground arith
  first-append (y ∷ xs) ys x h = h

  last-append : (xs : List A) (y : A) (ys : List A) → last (xs ++ y ∷ ys) ≡ last (y ∷ ys)
  last-append [] y ys = refl
  last-append (x ∷ []) y ys = refl
  last-append (x ∷ x' ∷ xs) y ys = last-append (x' ∷ xs) y ys

module _ {K V : Type 0} where
  min-first :
      (k : K) (v : V) (l r : AvlNode K V)
      → first (entries l ++ (k, v) ∷ entries r) ≡ some (avl_min_node k v l)
  unfolding avl_min_node
  min-first k v nil r = refl
  min-first k v (node lk lv ll lr lh) r =
      first-append (entries ll ++ (lk, lv) ∷ entries lr) ((k, v) ∷ entries r) _
        (min-first lk lv ll lr)

  max-last :
      (k : K) (v : V) (xs : List (K × V)) (r : AvlNode K V)
      → last (xs ++ (k, v) ∷ entries r) ≡ some (avl_max_node k v r)
  unfolding avl_max_node
  max-last k v xs nil = last-append xs (k, v) []
  max-last k v xs (node rk rv rl rr rh) =
      ap last (sym (append_assoc xs ((k, v) ∷ entries rl) ((rk, rv) ∷ entries rr)))
      ∙ max-last rk rv (xs ++ (k, v) ∷ entries rl) rr

  min_of-eq : (t : AvlNode K V) → min_of t ≡ first (entries t)
  unfolding min_of
  min_of-eq nil = refl
  min_of-eq (node k v l r h) = sym (min-first k v l r)

  max_of-eq : (t : AvlNode K V) → max_of t ≡ last (entries t)
  unfolding max_of
  max_of-eq nil = refl
  max_of-eq (node k v l r h) = sym (max-last k v (entries l) r)

module _ {K V C E : Type 0} where
  -- The least entry of a map is the first of its entries and the greatest the last; of an empty map
  -- there is none.
  pub map_find_extremes :
      (m : MapVal K V C E) (ce : C)
      → Returns (λ found. found ≡ first (entries m.root)) (map_find_min (map_arg m) ce)
        × Returns (λ found. found ≡ last (entries m.root)) (map_find_max (map_arg m) ce)
  unfolding map_find_min map_find_max
  map_find_extremes m ce = (min_of-eq m.root, max_of-eq m.root)
