-- ===== src/Avl/Walk/Folds.antt =====
-- The walks are the folds of the list of entries, up to the first error, with the environment passed
-- from call to call.
use gicel.Prelude.{◌≡◌, refl, sym, ap, ◌∙◌, List, [], ◌∷◌, ◌++◌, map, append_assoc, append-nil}
use mathlib.Core.List.{map-append}
use gicel.Avl.Applier.{Answer, ok, err, and_then}
use gicel.Avl.Tree.{AvlNode, nil, node}
use gicel.Avl.Tree.Entries.{entries}
use gicel.Avl.Walk.{
  avl_foldl_with_key, avl_foldr_with_key, avl_project_cons_right, avl_project_to_cons_list,
}

module _ {ℓ κ μ} {C E : Type 0} {A : Type ℓ} {B : Type κ} {D : Type μ} where
  pub and_then_assoc :
      (m : Answer C E A) (f : A → C → Answer C E B) (g : B → C → Answer C E D)
      → and_then (and_then m f) g ≡ and_then m (λ a c. and_then (f a c) g)
  and_then_assoc (ok a c) f g = refl
  and_then_assoc (err e c) f g = refl

module _ {ℓ κ} {C E : Type 0} {A : Type ℓ} {B : Type κ} where
  pub and_then_cong :
      (m : Answer C E A) (f g : A → C → Answer C E B)
      → ((a : A) (c : C) → f a c ≡ g a c)
      → and_then m f ≡ and_then m g
  and_then_cong (ok a c) f g h = h a c
  and_then_cong (err e c) f g h = refl

module _ {ℓ} {C E : Type 0} {A : Type ℓ} where
  pub and_then_ok : (m : Answer C E A) → m ≡ and_then m (λ a c. ok a c)
  and_then_ok (ok a c) = refl
  and_then_ok (err e c) = refl

module _ {K V A C E : Type 0} where
  -- A left and a right fold of calls.
  pub fold_left : (A → K → V → C → Answer C E A) → List (K × V) → A → C → Answer C E A
  fold_left f [] acc ce = ok acc ce
  fold_left f ((k, v) ∷ xs) acc ce = and_then (f acc k v ce) (λ acc' c. fold_left f xs acc' c)

  pub fold_right : (K → V → A → C → Answer C E A) → List (K × V) → A → C → Answer C E A
  fold_right f [] acc ce = ok acc ce
  fold_right f ((k, v) ∷ xs) acc ce = and_then (fold_right f xs acc ce) (λ acc' c. f k v acc' c)

  fold_left-append :
      (f : A → K → V → C → Answer C E A) (xs ys : List (K × V)) (acc : A) (ce : C)
      → fold_left f (xs ++ ys) acc ce
        ≡ and_then (fold_left f xs acc ce) (λ acc' c. fold_left f ys acc' c)
  unfolding fold_left
  fold_left-append f [] ys acc ce = refl
  fold_left-append f ((k, v) ∷ xs) ys acc ce =
      and_then_cong (f acc k v ce) _ _ (λ a c. fold_left-append f xs ys a c)
      ∙ sym (and_then_assoc (f acc k v ce) (λ a c. fold_left f xs a c) (λ a c. fold_left f ys a c))

  fold_right-append :
      (f : K → V → A → C → Answer C E A) (xs ys : List (K × V)) (acc : A) (ce : C)
      → fold_right f (xs ++ ys) acc ce
        ≡ and_then (fold_right f ys acc ce) (λ acc' c. fold_right f xs acc' c)
  unfolding fold_right
  fold_right-append f [] ys acc ce = and_then_ok (fold_right f ys acc ce)
  fold_right-append f ((k, v) ∷ xs) ys acc ce =
      ap (λ m. and_then m (λ a c. f k v a c)) (fold_right-append f xs ys acc ce)
      ∙ and_then_assoc (fold_right f ys acc ce) (λ a c. fold_right f xs a c) (λ a c. f k v a c)

  -- The left fold visits the entries in order.
  avl_foldl_with_key-eq :
      (f : A → K → V → C → Answer C E A) (t : AvlNode K V) (acc : A) (ce : C)
      → avl_foldl_with_key f t acc ce ≡ fold_left f (entries t) acc ce
  unfolding avl_foldl_with_key fold_left
  avl_foldl_with_key-eq f nil acc ce = refl
  avl_foldl_with_key-eq f (node k v l r h) acc ce =
      ap (λ m. and_then m (λ a c. and_then (f a k v c) (λ a2 c2. avl_foldl_with_key f r a2 c2)))
        (avl_foldl_with_key-eq f l acc ce)
      ∙ and_then_cong (fold_left f (entries l) acc ce) _ _
          (λ a c. and_then_cong (f a k v c) _ _ (λ a2 c2. avl_foldl_with_key-eq f r a2 c2))
      ∙ sym (fold_left-append f (entries l) ((k, v) ∷ entries r) acc ce)

  -- The right fold visits them in reverse order.
  pub avl_foldr_with_key-eq :
      (f : K → V → A → C → Answer C E A) (t : AvlNode K V) (acc : A) (ce : C)
      → avl_foldr_with_key f t acc ce ≡ fold_right f (entries t) acc ce
  unfolding avl_foldr_with_key fold_right
  avl_foldr_with_key-eq f nil acc ce = refl
  avl_foldr_with_key-eq f (node k v l r h) acc ce =
      ap (λ m. and_then m (λ a c. and_then (f k v a c) (λ a2 c2. avl_foldr_with_key f l a2 c2)))
        (avl_foldr_with_key-eq f r acc ce)
      ∙ and_then_cong (fold_right f (entries r) acc ce) _ _
          (λ a c. and_then_cong (f k v a c) _ _ (λ a2 c2. avl_foldr_with_key-eq f l a2 c2))
      ∙ sym (
          and_then_assoc (fold_right f (entries r) acc ce) (λ a c. f k v a c)
            (λ a c. fold_right f (entries l) a c))
      ∙ sym (fold_right-append f (entries l) ((k, v) ∷ entries r) acc ce)

-- The lists that are built hold a projection of each entry, in order.
module _ {ℓ κ μ} {K : Type ℓ} {V : Type κ} {A : Type μ} where
  projected :
      (proj : K → V → A) (t : AvlNode K V) (acc : List A)
      → avl_project_cons_right proj t acc ≡ map (λ (e : K × V). proj e.0 e.1) (entries t) ++ acc
  unfolding avl_project_cons_right
  projected proj nil acc = refl
  projected proj (node k v l r h) acc =
      projected proj l (proj k v ∷ avl_project_cons_right proj r acc)
      ∙ ap (λ t. map (λ (e : K × V). proj e.0 e.1) (entries l) ++ proj k v ∷ t)
          (projected proj r acc)
      ∙ sym (
          append_assoc (map (λ (e : K × V). proj e.0 e.1) (entries l))
            (proj k v ∷ map (λ (e : K × V). proj e.0 e.1) (entries r)) acc)
      ∙ ap (λ t. t ++ acc)
          (sym (map-append (λ (e : K × V). proj e.0 e.1) (entries l) ((k, v) ∷ entries r)))

  pub avl_project_to_cons_list-eq :
      (proj : K → V → A) (t : AvlNode K V)
      → avl_project_to_cons_list proj t ≡ map (λ (e : K × V). proj e.0 e.1) (entries t)
  unfolding avl_project_to_cons_list
  avl_project_to_cons_list-eq proj t = projected proj t [] ∙ append-nil _
