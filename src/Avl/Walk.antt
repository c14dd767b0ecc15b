-- ===== src/Avl/Walk.antt =====
-- The walks of avl.go that call a function at each node, in order or in reverse, and those that build
-- a list. `Cons` and `Nil` values are the constructors of the library's list.
pub mod Folds
use gicel.Prelude.{ℕ, List, [], ◌∷◌}
use gicel.Avl.Applier.{Answer, ok, err, and_then}
use gicel.Avl.Tree.{AvlNode, nil, node}

module _ {ℓ κ} {K : Type ℓ} {V : Type κ} {C E : Type 0} where
  -- Each node in order; the visitor may change the environment.
  unfoldable pub avl_fold_in_order :
      (K → V → C → Answer C E (Unit {0})) → AvlNode K V → C → Answer C E (Unit {0})
  avl_fold_in_order visit nil ce = ok tt ce
  avl_fold_in_order visit (node k v l r h) ce =
      and_then (avl_fold_in_order visit l ce)
        λ _ c1. and_then (visit k v c1) λ _ c2. avl_fold_in_order visit r c2

  -- The same shape with new values.
  unfoldable pub avl_map_with_key {μ} :
      {W : Type μ} → (K → V → C → Answer C E W) → AvlNode K V → C → Answer C E (AvlNode K W)
  avl_map_with_key f nil ce = ok nil ce
  avl_map_with_key f (node k v l r h) ce = and_then (avl_map_with_key f l ce) λ left c1.
      and_then (f k v c1)
        λ value c2. and_then (avl_map_with_key f r c2) λ right c3. ok (node k value left right h) c3

  unfoldable pub avl_map_values {μ} :
      {W : Type μ} → (V → C → Answer C E W) → AvlNode K V → C → Answer C E (AvlNode K W)
  avl_map_values f nil ce = ok nil ce
  avl_map_values f (node k v l r h) ce = and_then (avl_map_values f l ce) λ left c1.
      and_then (f v c1)
        λ value c2. and_then (avl_map_values f r c2) λ right c3. ok (node k value left right h) c3

  unfoldable pub avl_foldr_with_key {μ} :
      {A : Type μ} → (K → V → A → C → Answer C E A) → AvlNode K V → A → C → Answer C E A
  avl_foldr_with_key f nil acc ce = ok acc ce
  avl_foldr_with_key f (node k v l r h) acc ce =
      and_then (avl_foldr_with_key f r acc ce)
        λ acc1 c1. and_then (f k v acc1 c1) λ acc2 c2. avl_foldr_with_key f l acc2 c2

  unfoldable pub avl_foldl_with_key {μ} :
      {A : Type μ} → (A → K → V → C → Answer C E A) → AvlNode K V → A → C → Answer C E A
  avl_foldl_with_key f nil acc ce = ok acc ce
  avl_foldl_with_key f (node k v l r h) acc ce =
      and_then (avl_foldl_with_key f l acc ce)
        λ acc1 c1. and_then (f acc1 k v c1) λ acc2 c2. avl_foldl_with_key f r acc2 c2

  unfoldable pub avl_foldl {μ} :
      {A : Type μ} → (K → V → A → C → Answer C E A) → AvlNode K V → A → C → Answer C E A
  avl_foldl f nil acc ce = ok acc ce
  avl_foldl f (node k v l r h) acc ce =
      and_then (avl_foldl f l acc ce)
        λ acc1 c1. and_then (f k v acc1 c1) λ acc2 c2. avl_foldl f r acc2 c2

module _ {ℓ κ μ} {K : Type ℓ} {V : Type κ} {A : Type μ} where
  unfoldable pub avl_project_cons_right : (K → V → A) → AvlNode K V → List A → List A
  avl_project_cons_right proj nil acc = acc
  avl_project_cons_right proj (node k v l r h) acc =
      avl_project_cons_right proj l (proj k v ∷ avl_project_cons_right proj r acc)

  unfoldable pub avl_project_to_cons_list : (K → V → A) → AvlNode K V → List A
  unfolding avl_project_cons_right
  avl_project_to_cons_list proj n = avl_project_cons_right proj n []

module _ {ℓ κ} {K : Type ℓ} {V : Type κ} where
  unfoldable pub avl_to_cons_list : AvlNode K V → List (K × V)
  unfolding avl_project_to_cons_list
  avl_to_cons_list = avl_project_to_cons_list (λ k v. (k, v))

  unfoldable pub avl_keys_to_cons_list : AvlNode K V → List K
  unfolding avl_project_to_cons_list
  avl_keys_to_cons_list = avl_project_to_cons_list (λ k v. k)

  unfoldable pub avl_vals_to_cons_list : AvlNode K V → List V
  unfolding avl_project_to_cons_list
  avl_vals_to_cons_list = avl_project_to_cons_list (λ k v. v)
