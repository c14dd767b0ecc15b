-- ===== src/Caps.antt =====
-- internal/runtime/eval/capenv.go: the capability environment, a handle on a map that is copied on the
-- first write through a shared handle. The maps live in a heap; a handle holds an address. A map is
-- the function of its lookups, so a copy is the same function at a new address.
pub mod Isolation
pub mod Build
mod Tests
use gicel.Prelude.{
  ℕ, ◌+◌, ◌<◌, Bool, true, false, Option, none, some, List, [], ◌∷◌, ◌++◌, length, get_or, set,
  if◌then◌else◌,
}
use gicel.Prelude.Bytes.{Bytes, bytes_eq}

abbrev pub CapMap : Type 0 → Type 0
CapMap V = Bytes → Option V

abbrev pub Heap : Type 0 → Type 0
Heap V = List (CapMap V)

-- A nil map, or the address of one.
pub record CapEnv : Type 0 where
  pub caps : Option ℕ
  pub shared : Bool

unfoldable pub empty_cap_env : CapEnv
empty_cap_env = record { caps = none; shared = false }

unfoldable pub new_cap_env : Option ℕ → CapEnv
new_cap_env m = record { caps = m; shared = true }

unfoldable pub mark_shared : CapEnv → CapEnv
mark_shared c = record c { shared = true }

module _ {V : Type 0} where
  abbrev pub no_caps : CapMap V
  no_caps label = none

  abbrev pub map_at : Heap V → ℕ → CapMap V
  map_at h a = get_or h a no_caps

  abbrev pub map_set : Bytes → V → CapMap V → CapMap V
  map_set label val m l = if bytes_eq l label then some val else m l

  abbrev pub map_delete : Bytes → CapMap V → CapMap V
  map_delete label m l = if bytes_eq l label then none else m l

  -- A handle on a new map.
  abbrev pub fresh : Heap V → CapMap V → CapEnv × Heap V
  fresh h m = (record { caps = some (length h); shared = false }, h ++ m ∷ [])

  abbrev pub contents : Heap V → Option ℕ → CapMap V
  contents h none = no_caps
  contents h (some a) = map_at h a

  unfoldable pub cap_get : Heap V → CapEnv → Bytes → Option V
  cap_get h c label = contents h c.caps label

  abbrev pub write_through : Heap V → CapEnv → Option ℕ → (CapMap V → CapMap V) → CapEnv × Heap V
  write_through h c none f = fresh h (f no_caps)
  write_through h c (some a) f =
      if c.shared then fresh h (f (map_at h a)) else (c, set h a (f (map_at h a)))

  unfoldable pub cap_set : Heap V → CapEnv → Bytes → V → CapEnv × Heap V
  cap_set h c label val = write_through h c c.caps (map_set label val)

  -- A deletion from a nil map makes none.
  abbrev pub deleted : Heap V → CapEnv → Option ℕ → Bytes → CapEnv × Heap V
  deleted h c none label = (c, h)
  deleted h c (some a) label = write_through h c (some a) (map_delete label)

  unfoldable pub cap_delete : Heap V → CapEnv → Bytes → CapEnv × Heap V
  cap_delete h c label = deleted h c c.caps label

  -- The loop over the labels, into a new map.
  abbrev pub take_label : Option V → Bytes → CapMap V → CapMap V
  take_label none label m = m
  take_label (some v) label m = map_set label v m

  abbrev pub add_labels : CapMap V → List Bytes → CapMap V → CapMap V
  add_labels source [] m = m
  add_labels source (label ∷ labels) m =
      add_labels source labels (take_label (source label) label m)

  abbrev pub filtered : Heap V → Option ℕ → List Bytes → CapEnv × Heap V
  filtered h none labels = (record { caps = none; shared = false }, h)
  filtered h (some a) [] = (record { caps = none; shared = false }, h)
  filtered h (some a) (l ∷ ls) = fresh h (add_labels (map_at h a) (l ∷ ls) no_caps)

  unfoldable pub cap_filter : Heap V → CapEnv → List Bytes → CapEnv × Heap V
  cap_filter h c labels = filtered h c.caps labels

  -- `maps.Copy`, whose second map has precedence.
  abbrev pub copy_over : CapMap V → CapMap V → CapMap V
  copy_over m other l = elim (other l) [ none ↦ m l | some v ↦ some v ]

  abbrev pub merged : Heap V → Option ℕ → Option ℕ → CapEnv × Heap V
  merged h none none = (record { caps = none; shared = false }, h)
  merged h c other = fresh h (copy_over (copy_over no_caps (contents h c)) (contents h other))

  unfoldable pub cap_merge_with : Heap V → CapEnv → CapEnv → CapEnv × Heap V
  cap_merge_with h c other = merged h c.caps other.caps
