-- ===== src/Caps/Build.antt =====
-- The two operations that build a new environment: the restriction to some labels, and the merge.
use gicel.Prelude.{
  ℕ, ◌<◌, ◌≡◌, refl, ap, ◌∙◌, Bool, true, false, ◌||◌, Option, none, some, List, [], ◌∷◌, length,
  arith, if◌then◌else◌,
}
use gicel.Prelude.Bytes.{Bytes, bytes_eq, bytes_eq_iff_eq}
use gicel.Caps.{
  CapMap, Heap, CapEnv, no_caps, map_at, contents, cap_get, add_labels, take_label, filtered,
  cap_filter, merged, cap_merge_with, copy_over,
}
use gicel.Caps.Isolation.{get_or-append_old, get_or-append_new}

abbrev pub is_listed : Bytes → List Bytes → Bool
is_listed l [] = false
is_listed l (label ∷ labels) = bytes_eq l label || is_listed l labels

module _ {V : Type 0} where
  always : (b : Bool) (x : Option V) → x ≡ (if b then x else x)
  always true x = refl
  always false x = refl

  -- A label takes what is found in the source, or leaves what was there before.
  taken :
      (label l : Bytes) (m : CapMap V) (found : Option V)
      → take_label found label m l
        ≡ (if bytes_eq l label then elim found [ none ↦ m l | some v ↦ some v ] else m l)
  taken label l m none = always (bytes_eq l label) (m l)
  taken label l m (some v) = refl

  add_labels-eq :
      (source : CapMap V) (labels : List Bytes) (m : CapMap V) (l : Bytes)
      → add_labels source labels m l
        ≡ (if is_listed l labels then elim (source l) [ none ↦ m l | some v ↦ some v ] else m l)
  add_labels-eq source [] m l = refl
  add_labels-eq source (label ∷ labels) m l =
      rw (add_labels-eq source labels _ l, taken label l m (source label))
        (ground (arith, (λ (e : bytes_eq l label ≡ true). ap source (bytes_eq_iff_eq l label e))))

  filtered-eq :
      (h : Heap V) (caps : Option ℕ) (labels : List Bytes) (l : Bytes)
      → contents (filtered h caps labels).1 (filtered h caps labels).0.caps l
        ≡ (if is_listed l labels then contents h caps l else none)
  filtered-eq h none labels l = always (is_listed l labels) none
  filtered-eq h (some a) [] l = refl
  filtered-eq h (some a) (k ∷ ks) l =
      ap (λ m. m l) (get_or-append_new h (add_labels (map_at h a) (k ∷ ks) no_caps) no_caps)
      ∙ add_labels-eq (map_at h a) (k ∷ ks) no_caps l
      ∙ ap (λ x. if is_listed l (k ∷ ks) then x else none) (kept (map_at h a l))
    where
      kept : (x : Option V) → elim x [ none ↦ none | some v ↦ some v ] ≡ x
      kept none = refl
      kept (some v) = refl

  filtered-below :
      (h : Heap V) (caps : Option ℕ) (labels : List Bytes) (a : ℕ)
      → a < length h
      → map_at (filtered h caps labels).1 a ≡ map_at h a
  filtered-below h none labels a u = refl
  filtered-below h (some b) [] a u = refl
  filtered-below h (some b) (k ∷ ks) a u = get_or-append_old h _ no_caps a u

  merged-eq :
      (h : Heap V) (c other : Option ℕ) (l : Bytes)
      → contents (merged h c other).1 (merged h c other).0.caps l
        ≡ copy_over (contents h c) (contents h other) l
  merged-eq h none none l = refl
  merged-eq h none (some b) l = ap (λ m. m l) (get_or-append_new h _ no_caps)
  merged-eq h (some a) other l =
      ap (λ m. m l) (get_or-append_new h _ no_caps) ∙ over (contents h other l) (map_at h a l)
    where
      over :
          (x y : Option V)
          → elim x [ none ↦ elim y [ none ↦ none | some v ↦ some v ] | some v ↦ some v ]
            ≡ elim x [ none ↦ y | some v ↦ some v ]
      over none none = refl
      over none (some v) = refl
      over (some w) y = refl

  merged-below :
      (h : Heap V) (c other : Option ℕ) (a : ℕ)
      → a < length h
      → map_at (merged h c other).1 a ≡ map_at h a
  merged-below h none none a u = refl
  merged-below h none (some b) a u = get_or-append_old h _ no_caps a u
  merged-below h (some b) other a u = get_or-append_old h _ no_caps a u

  -- The restriction reads the listed labels and no other, the merge reads the second environment and
  -- where that has nothing the first, and neither changes a map of the heap.
  filter_merge_eq :
      (h : Heap V) (c other : CapEnv) (labels : List Bytes)
      → let (c1, h1) = cap_filter h c labels in
        let (c2, h2) = cap_merge_with h c other in
        ((l : Bytes) → cap_get h1 c1 l ≡ (if is_listed l labels then cap_get h c l else none))
        × ((l : Bytes) → cap_get h2 c2 l ≡ copy_over (cap_get h c) (cap_get h other) l)
        × ((a : ℕ) → a < length h → (map_at h1 a ≡ map_at h a) × (map_at h2 a ≡ map_at h a))
  unfolding cap_filter cap_merge_with cap_get
  filter_merge_eq h c other labels = (
    filtered-eq h c.caps labels,
    merged-eq h c.caps other.caps,
    (λ a u. (filtered-below h c.caps labels a u, merged-below h c.caps other.caps a u)),
  )
