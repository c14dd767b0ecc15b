-- ===== src/FingerTree/Node.antt =====
-- The nodes of fingertree.go, their sizes, and the well-formed trees. A slice is a list. A spine value
-- wraps a `*node23`, which only `mkNode2` and `mkNode3` make, so the slice of its elements is two or
-- three arguments. Sizes are numbers: they count values in memory, which an `int` holds.
use gicel.Prelude.{
  ℕ, zero, suc, ◌+◌, ◌/◌, ◌≤◌, ◌≡◌, refl, List, [], ◌∷◌, ◌++◌, append_assoc, append-nil, length,
  take, drop, length-append, arith,
}
use gicel.Prelude.Outcome.{Outcome, returns, panics}

-- A value of the language, or a `HostVal` around a node with its stored size.
pub data Elem {ℓ} (A : Type ℓ) : Type ℓ where
  leaf : A → Elem A
  node2 : ℕ → Elem A → Elem A → Elem A
  node3 : ℕ → Elem A → Elem A → Elem A → Elem A

pub data FTree {ℓ} (A : Type ℓ) : Type ℓ where
  ft_empty : FTree A
  ft_single : Elem A → FTree A
  ft_deep : ℕ → List (Elem A) → FTree A → List (Elem A) → FTree A

module _ {ℓ} {A : Type ℓ} where
  abbrev pub elem_size : Elem A → ℕ
  elem_size (leaf a) = 1
  elem_size (node2 n a b) = n
  elem_size (node3 n a b c) = n

  abbrev pub mk_node2 : Elem A → Elem A → Elem A
  mk_node2 a b = node2 (elem_size a + elem_size b) a b

  abbrev pub mk_node3 : Elem A → Elem A → Elem A → Elem A
  mk_node3 a b c = node3 (elem_size a + elem_size b + elem_size c) a b c

  -- The elements of the node; a value of the language panics.
  abbrev pub as_node : Elem A → Outcome (List (Elem A))
  as_node (leaf a) = panics
  as_node (node2 n a b) = returns (a ∷ b ∷ [])
  as_node (node3 n a b c) = returns (a ∷ b ∷ c ∷ [])

  abbrev pub digit_size : List (Elem A) → ℕ
  digit_size [] = 0
  digit_size (v ∷ d) = elem_size v + digit_size d

  abbrev pub ftree_size : FTree A → ℕ
  ftree_size ft_empty = 0
  ftree_size (ft_single e) = elem_size e
  ftree_size (ft_deep size left mid right) = size

  abbrev pub deep_size : List (Elem A) → FTree A → List (Elem A) → ℕ
  deep_size left mid right = digit_size left + ftree_size mid + digit_size right

  abbrev pub mk_deep : List (Elem A) → FTree A → List (Elem A) → FTree A
  mk_deep left mid right = ft_deep (deep_size left mid right) left mid right

  unfoldable pub digit_to_tree : List (Elem A) → FTree A
  digit_to_tree [] = ft_empty
  digit_to_tree (e ∷ []) = ft_single e
  digit_to_tree (e ∷ e' ∷ es) =
      let d = e ∷ e' ∷ es in mk_deep (take (length d / 2) d) ft_empty (drop (length d / 2) d)

  -- The values in order.
  abbrev pub leaves : Elem A → List A
  leaves (leaf a) = a ∷ []
  leaves (node2 n a b) = leaves a ++ leaves b
  leaves (node3 n a b c) = leaves a ++ (leaves b ++ leaves c)

  abbrev pub digit_leaves : List (Elem A) → List A
  digit_leaves [] = []
  digit_leaves (e ∷ es) = leaves e ++ digit_leaves es

  abbrev pub items : FTree A → List A
  items ft_empty = []
  items (ft_single e) = leaves e
  items (ft_deep size left mid right) = digit_leaves left ++ (items mid ++ digit_leaves right)

  -- An element of the tree at depth `d`, with exact sizes.
  abbrev pub IsElem : ℕ → Elem A → Type 0
  IsElem zero (leaf a) = Unit
  IsElem zero (node2 n a b) = ⊥
  IsElem zero (node3 n a b c) = ⊥
  IsElem (suc d) (leaf a) = ⊥
  IsElem (suc d) (node2 n a b) = (n ≡ elem_size a + elem_size b) × IsElem d a × IsElem d b
  IsElem (suc d) (node3 n a b c) =
      (n ≡ elem_size a + elem_size b + elem_size c) × IsElem d a × IsElem d b × IsElem d c

  abbrev pub AreElems : ℕ → List (Elem A) → Type 0
  AreElems d [] = Unit
  AreElems d (e ∷ es) = IsElem d e × AreElems d es

  -- From one to four elements.
  abbrev pub IsDigit : ℕ → List (Elem A) → Type 0
  IsDigit d es = (1 ≤ length es) × (length es ≤ 4) × AreElems d es

  abbrev pub IsFt : ℕ → FTree A → Type 0
  IsFt d ft_empty = Unit
  IsFt d (ft_single e) = IsElem d e
  IsFt d (ft_deep size left mid right) =
      (size ≡ deep_size left mid right) × IsDigit d left × IsFt (suc d) mid × IsDigit d right

  -- Every stored size is the number of values below.
  pub elem_size-length : (d : ℕ) (e : Elem A) → IsElem d e → elem_size e ≡ length (leaves e)
  elem_size-length zero (leaf a) h = refl
  elem_size-length zero (node2 n a b) h = elim h [ ]
  elem_size-length zero (node3 n a b c) h = elim h [ ]
  elem_size-length (suc d) (leaf a) h = elim h [ ]
  elem_size-length (suc d) (node2 n a b) h = omega (
    arith,
    h.0,
    elem_size-length d a h.1,
    elem_size-length d b h.2,
    length-append (leaves a) (leaves b),
  )
  elem_size-length (suc d) (node3 n a b c) h = omega (
    arith,
    h.0,
    elem_size-length d a h.1,
    elem_size-length d b h.2,
    elem_size-length d c h.3,
    length-append (leaves a) (leaves b ++ leaves c),
    length-append (leaves b) (leaves c),
  )

  pub digit_size-length :
      (d : ℕ) (es : List (Elem A)) → AreElems d es → digit_size es ≡ length (digit_leaves es)
  digit_size-length d [] h = refl
  digit_size-length d (e ∷ es) h = omega (
    arith,
    elem_size-length d e h.0,
    digit_size-length d es h.1,
    length-append (leaves e) (digit_leaves es),
  )

  -- The size of a well-formed tree is the number of its values.
  pub ftree_size-length : (d : ℕ) (t : FTree A) → IsFt d t → ftree_size t ≡ length (items t)
  ftree_size-length d ft_empty h = refl
  ftree_size-length d (ft_single e) h = elem_size-length d e h
  ftree_size-length d (ft_deep size left mid right) h = omega (
    arith,
    h.0,
    digit_size-length d left h.1.2,
    ftree_size-length (suc d) mid h.2,
    digit_size-length d right h.3.2,
    length-append (digit_leaves left) (items mid ++ digit_leaves right),
    length-append (items mid) (digit_leaves right),
  )

  pub digit_leaves-append :
      (xs ys : List (Elem A)) → digit_leaves (xs ++ ys) ≡ digit_leaves xs ++ digit_leaves ys
  digit_leaves-append [] ys = refl
  digit_leaves-append (x ∷ xs) ys = simp (digit_leaves-append xs ys, append_assoc)

  pub AreElems-append :
      (d : ℕ) (xs ys : List (Elem A)) → AreElems d xs → AreElems d ys → AreElems d (xs ++ ys)
  AreElems-append d [] ys h k = k
  AreElems-append d (x ∷ xs) ys h k = (h.0, AreElems-append d xs ys h.1 k)

  -- `t` is well formed and holds `xs`.
  abbrev pub Holds : ℕ → List A → FTree A → Type ℓ
  Holds d xs t = IsFt d t × (items t ≡ xs)

  -- Digits of one to three elements.
  pub one-IsDigit : (d : ℕ) (a : Elem A) → IsElem d a → IsDigit d (a ∷ [])
  one-IsDigit d a p = (omega arith, omega arith, (p, tt))

  pub two-IsDigit : (d : ℕ) (a b : Elem A) → IsElem d a → IsElem d b → IsDigit d (a ∷ b ∷ [])
  two-IsDigit d a b p q = (omega arith, omega arith, (p, (q, tt)))

  pub digit_to_tree-Holds :
      (d : ℕ) (es : List (Elem A)) → IsDigit d es → Holds d (digit_leaves es) (digit_to_tree es)
  unfolding digit_to_tree
  digit_to_tree-Holds d [] h = (tt, refl)
  digit_to_tree-Holds d (a ∷ []) (_, _, (p, _)) = (p, simp append-nil)
  digit_to_tree-Holds d (a ∷ b ∷ []) (_, _, (p, (q, _))) =
      ((refl, one-IsDigit d _ p, tt, one-IsDigit d _ q), simp append-nil)
  digit_to_tree-Holds d (a ∷ b ∷ c ∷ []) (_, _, (p, (q, (r, _)))) =
      ((refl, one-IsDigit d _ p, tt, two-IsDigit d _ _ q r), simp append-nil)
  digit_to_tree-Holds d (a ∷ b ∷ c ∷ e ∷ []) (_, _, (p, (q, (r, (s, _))))) =
      ((refl, two-IsDigit d _ _ p q, tt, two-IsDigit d _ _ r s), simp (append_assoc, append-nil))
  digit_to_tree-Holds d (a ∷ b ∷ c ∷ e ∷ f ∷ es) (_, h, _) = absurd (omega (arith, h))
