-- ===== src/FingerTree/Walk/Laws.antt =====
-- The walks against the list of values.
use gicel.Prelude.{
  ℕ, suc, ◌≡◌, refl, sym, ap, ap₂, ◌∙◌, fun_ext, List, [], ◌∷◌, ◌++◌, append-nil, append_assoc,
}
use gicel.Prelude.Outcome.{Outcome, returns}
use gicel.Avl.Applier.{Answer, ok, err, and_then}
use gicel.FingerTree.Node.{
  Elem, leaf, node2, node3, FTree, ft_empty, ft_single, ft_deep, leaves, items, digit_leaves,
  IsElem, AreElems, IsFt, Holds,
}
use gicel.FingerTree.Ends.{ft_snoc}
use gicel.FingerTree.Ends.Laws.{ft_snoc-Holds}
use gicel.FingerTree.Walk.{
  node_to_list_r, spine_elem, digit_to_list_r, digit_to_list_spine_r, ft_to_list_spine,
  ft_to_list_r, ft_to_list, from_list_loop, ft_from_list, node_foldl, then_run, spine_foldl,
  fold_digit, fold_nodes, ft_foldl_spine, ft_foldl,
}

module _ {ℓ} {A : Type ℓ} where
  abbrev pub values : List A → List (Elem A)
  values [] = []
  values (x ∷ xs) = leaf x ∷ values xs

  values-append : (xs ys : List A) → values (xs ++ ys) ≡ values xs ++ values ys
  values-append [] ys = refl
  values-append (x ∷ xs) ys = ap (λ t. leaf x ∷ t) (values-append xs ys)

  node_to_list_r-eq :
      (e : Elem A) (acc : List (Elem A)) → node_to_list_r e acc ≡ values (leaves e) ++ acc
  unfolding node_to_list_r
  node_to_list_r-eq (leaf a) acc = refl
  node_to_list_r-eq (node2 n a b) acc =
      simp (values-append, append_assoc, node_to_list_r-eq a, node_to_list_r-eq b)
  node_to_list_r-eq (node3 n a b c) acc =
      simp
        (values-append, append_assoc, node_to_list_r-eq a, node_to_list_r-eq b, node_to_list_r-eq c)

  spine_elem-eq :
      (d : ℕ) (e : Elem A) (acc : List (Elem A))
      → IsElem (suc d) e
      → spine_elem e acc ≡ returns (values (leaves e) ++ acc)
  spine_elem-eq d (leaf a) acc h = elim h [ ]
  spine_elem-eq d (node2 n a b) acc h = ap returns (node_to_list_r-eq (node2 n a b) acc)
  spine_elem-eq d (node3 n a b c) acc h = ap returns (node_to_list_r-eq (node3 n a b c) acc)

  digit_to_list_r-eq :
      (es acc : List (Elem A))
      → AreElems 0 es
      → digit_to_list_r es acc ≡ values (digit_leaves es) ++ acc
  unfolding digit_to_list_r
  digit_to_list_r-eq [] acc h = refl
  digit_to_list_r-eq (leaf a ∷ es) acc h = ap (λ t. leaf a ∷ t) (digit_to_list_r-eq es acc h.1)
  digit_to_list_r-eq (node2 n a b ∷ es) acc h = elim h.0 [ ]
  digit_to_list_r-eq (node3 n a b c ∷ es) acc h = elim h.0 [ ]

  digit_to_list_spine_r-eq :
      (d : ℕ) (es acc : List (Elem A))
      → AreElems (suc d) es
      → digit_to_list_spine_r es acc ≡ returns (values (digit_leaves es) ++ acc)
  unfolding digit_to_list_spine_r
  digit_to_list_spine_r-eq d [] acc h = refl
  digit_to_list_spine_r-eq d (e ∷ es) acc h =
      rw
        (
          digit_to_list_spine_r-eq d es acc h.1,
          spine_elem-eq d e (values (digit_leaves es) ++ acc) h.0,
        )
        (ap returns (simp (values-append, append_assoc)))

  ft_to_list_spine-eq :
      (d : ℕ) (t : FTree A) (acc : List (Elem A))
      → IsFt (suc d) t
      → ft_to_list_spine t acc ≡ returns (values (items t) ++ acc)
  unfolding ft_to_list_spine
  ft_to_list_spine-eq d ft_empty acc h = refl
  ft_to_list_spine-eq d (ft_single e) acc h = spine_elem-eq d e acc h
  ft_to_list_spine-eq d (ft_deep size left mid right) acc (_, l, m, r) =
      rw
        (
          digit_to_list_spine_r-eq d right acc r.2,
          ft_to_list_spine-eq (suc d) mid _ m,
          digit_to_list_spine_r-eq d left _ l.2,
        )
        (ap returns (simp (values-append, append_assoc)))

  -- The list of a well-formed tree is made without a panic, and has its values in order.
  pub ft_to_list-eq : (t : FTree A) → IsFt 0 t → ft_to_list t ≡ returns (values (items t))
  unfolding ft_to_list ft_to_list_r
  ft_to_list-eq ft_empty h = refl
  ft_to_list-eq (ft_single (leaf a)) h = refl
  ft_to_list-eq (ft_single (node2 n a b)) h = elim h [ ]
  ft_to_list-eq (ft_single (node3 n a b c)) h = elim h [ ]
  ft_to_list-eq (ft_deep size left mid right) (_, l, m, r) =
      rw
        (
          digit_to_list_r-eq right [] r.2,
          ft_to_list_spine-eq 0 mid _ m,
          digit_to_list_r-eq left _ l.2,
        )
        (ap returns (simp (values-append, append-nil)))

  from_list_loop-Holds :
      (t : FTree A) (xs : List A)
      → IsFt 0 t
      → Holds 0 (items t ++ xs) (from_list_loop t (values xs))
  unfolding from_list_loop
  from_list_loop-Holds t [] h = (h, simp append-nil)
  from_list_loop-Holds t (x ∷ xs) h =
      let (w, eq) = ft_snoc-Holds 0 t (leaf x) h tt in
      let (w', eq') = from_list_loop-Holds (ft_snoc t (leaf x)) xs w in
      (w', simp (eq', eq, append_assoc))

  pub ft_from_list-Holds : (xs : List A) → Holds 0 xs (ft_from_list (values xs))
  unfolding ft_from_list
  ft_from_list-Holds xs = from_list_loop-Holds ft_empty xs tt

  -- A list of values is what the tree made from it gives back, without a panic.
  pub ft_to_list-ft_from_list :
      (xs : List A) → ft_to_list (ft_from_list (values xs)) ≡ returns (values xs)
  ft_to_list-ft_from_list xs =
      let (w, eq) = ft_from_list-Holds xs in
      ft_to_list-eq (ft_from_list (values xs)) w ∙ ap (λ ys. returns (values ys)) eq

module _ {ℓ κ} {A : Type ℓ} {B : Type κ} {C E : Type 0} (f : B → Elem A → C → Answer C E B) where
  -- The fold over the values.
  abbrev pub fold_values : List A → B → C → Answer C E B
  fold_values [] acc ce = ok acc ce
  fold_values (x ∷ xs) acc ce = and_then (f acc (leaf x) ce) (fold_values xs)

  and_then_assoc :
      (m : Answer C E B) (g h : B → C → Answer C E B)
      → and_then m (λ b c. and_then (g b c) h) ≡ and_then (and_then m g) h
  and_then_assoc (ok b c) g h = refl
  and_then_assoc (err e c) g h = refl

  and_then-ok : (m : Answer C E B) → and_then m (λ b c. ok b c) ≡ m
  and_then-ok (ok b c) = refl
  and_then-ok (err e c) = refl

  fold_values-append :
      (xs ys : List A)
      → fold_values (xs ++ ys) ≡ λ acc ce. and_then (fold_values xs acc ce) (fold_values ys)
  fold_values-append [] ys = refl
  fold_values-append (x ∷ xs) ys = fun_ext λ acc. fun_ext λ ce.
      rw (fold_values-append xs ys)
        (and_then_assoc (f acc (leaf x) ce) (fold_values xs) (fold_values ys))

  node_foldl-eq : (e : Elem A) → node_foldl f e ≡ fold_values (leaves e)
  unfolding node_foldl
  node_foldl-eq (leaf a) = fun_ext λ acc. fun_ext λ ce. sym (and_then-ok (f acc (leaf a) ce))
  node_foldl-eq (node2 n a b) = fun_ext λ acc. fun_ext λ ce.
      rw (fold_values-append (leaves a) (leaves b))
        (ap₂ (λ g h. and_then (g acc ce) h) (node_foldl-eq a) (node_foldl-eq b))
  node_foldl-eq (node3 n a b c) = fun_ext λ acc. fun_ext λ ce.
      rw
        (
          fold_values-append (leaves a) (leaves b ++ leaves c),
          fold_values-append (leaves b) (leaves c),
        )
        (ap₂ (λ g h. and_then (g acc ce) h) (node_foldl-eq a)
          (ap₂ (λ g h b c. and_then (g b c) h) (node_foldl-eq b) (node_foldl-eq c)))

  spine_foldl-eq :
      (d : ℕ) (e : Elem A) (acc : B) (ce : C)
      → IsElem (suc d) e
      → spine_foldl f e acc ce ≡ returns (fold_values (leaves e) acc ce)
  spine_foldl-eq d (leaf a) acc ce h = elim h [ ]
  spine_foldl-eq d (node2 n a b) acc ce h =
      ap (λ g. returns (g acc ce)) (node_foldl-eq (node2 n a b))
  spine_foldl-eq d (node3 n a b c) acc ce h =
      ap (λ g. returns (g acc ce)) (node_foldl-eq (node3 n a b c))

  -- A body that continues with a fold over `ys` continues the fold.
  then_run-eq :
      (m : Answer C E B) (g : B → C → Outcome (Answer C E B)) (h : B → C → Answer C E B)
      → ((b : B) (c : C) → g b c ≡ returns (h b c))
      → then_run f m g ≡ returns (and_then m h)
  then_run-eq (ok b c) g h k = k b c
  then_run-eq (err e c) g h k = refl

  fold_nodes-eq :
      (d : ℕ) (es : List (Elem A)) (acc : B) (ce : C)
      → AreElems (suc d) es
      → fold_nodes f es acc ce ≡ returns (fold_values (digit_leaves es) acc ce)
  fold_nodes-eq d [] acc ce h = refl
  fold_nodes-eq d (e ∷ es) acc ce h =
      rw (spine_foldl-eq d e acc ce h.0, fold_values-append (leaves e) (digit_leaves es))
        (then_run-eq (fold_values (leaves e) acc ce) (fold_nodes f es)
          (fold_values (digit_leaves es)) λ b c. fold_nodes-eq d es b c h.1)

  fold_digit-eq :
      (es : List (Elem A)) → AreElems 0 es → fold_digit f es ≡ fold_values (digit_leaves es)
  fold_digit-eq [] h = refl
  fold_digit-eq (leaf a ∷ es) h =
      ap (λ g acc ce. and_then (f acc (leaf a) ce) g) (fold_digit-eq es h.1)
  fold_digit-eq (node2 n a b ∷ es) h = elim h.0 [ ]
  fold_digit-eq (node3 n a b c ∷ es) h = elim h.0 [ ]

  ft_foldl_spine-eq :
      (d : ℕ) (t : FTree A) (acc : B) (ce : C)
      → IsFt (suc d) t
      → ft_foldl_spine f t acc ce ≡ returns (fold_values (items t) acc ce)
  unfolding ft_foldl_spine
  ft_foldl_spine-eq d ft_empty acc ce h = refl
  ft_foldl_spine-eq d (ft_single e) acc ce h = spine_foldl-eq d e acc ce h
  ft_foldl_spine-eq d (ft_deep size left mid right) acc ce (_, l, m, r) =
      rw
        (
          fold_nodes-eq d left acc ce l.2,
          fold_values-append (digit_leaves left) (items mid ++ digit_leaves right),
          fold_values-append (items mid) (digit_leaves right),
        )
        (then_run-eq (fold_values (digit_leaves left) acc ce) _ _ λ b c.
          rw (ft_foldl_spine-eq (suc d) mid b c m) (
            then_run-eq (fold_values (items mid) b c) (fold_nodes f right) _
              λ b' c'. fold_nodes-eq d right b' c' r.2))

  -- On a well-formed tree the fold does not panic, and is the left fold over the values up to the first error.
  ft_foldl-eq :
      (t : FTree A) (acc : B) (ce : C)
      → IsFt 0 t
      → ft_foldl f t acc ce ≡ returns (fold_values (items t) acc ce)
  unfolding ft_foldl
  ft_foldl-eq ft_empty acc ce h = refl
  ft_foldl-eq (ft_single (leaf a)) acc ce h = ap returns (sym (and_then-ok (f acc (leaf a) ce)))
  ft_foldl-eq (ft_single (node2 n a b)) acc ce h = elim h [ ]
  ft_foldl-eq (ft_single (node3 n a b c)) acc ce h = elim h [ ]
  ft_foldl-eq (ft_deep size left mid right) acc ce (_, l, m, r) =
      rw
        (
          fold_digit-eq left l.2,
          fold_values-append (digit_leaves left) (items mid ++ digit_leaves right),
          fold_values-append (items mid) (digit_leaves right),
        )
        (then_run-eq (fold_values (digit_leaves left) acc ce) _ _ λ b c.
          rw (ft_foldl_spine-eq 0 mid b c m) (
            then_run-eq (fold_values (items mid) b c) _ _
              λ b' c'. ap (λ g. returns (g b' c')) (fold_digit-eq right r.2)))
