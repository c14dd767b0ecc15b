-- ===== src/Suggest.antt =====
-- internal/infra/diagnostic/suggest.go: names that are close to a mistyped one. A name is the list of its
-- runes; the program's strings are their UTF-8 encodings.
pub mod Distance
pub mod Scripts
mod Tests
use gicel.Prelude.{
  ℕ, zero, suc, ◌+◌, Bool, true, false, ◌&&◌, ◌||◌, not, List, [], ◌∷◌, length, take, map,
  if◌then◌else◌, ltb, leb, ◌==◌,
}
use gicel.Prelude.Int.{ℤ, pos, ◌-ℤ◌, ltb_ℤ, pos_part, neg_part}
use gicel.Prelude.Bytes.{compare_bytes, bytes_eq}
use Prim.Native.Nat.{min}
use Prim.Native.Nat.Ordering.{lt, eq, gt}

abbrev pub Name : Type 0
Name = List ℕ

-- `len` of the string.
abbrev rune_len : ℕ → ℕ
rune_len r = if ltb r 128 then 1 else if ltb r 2048 then 2 else if ltb r 65536 then 3 else 4

unfoldable pub name_len : Name → ℕ
name_len [] = 0
name_len (r ∷ rs) = rune_len r + name_len rs

-- The first row: j at each position j.
unfoldable pub first_row : ℕ → Name → List ℕ
first_row j [] = j ∷ []
first_row j (y ∷ ys) = j ∷ first_row (j + 1) ys

-- The rest of a row, from its last value, the row above and the runes that are left.
unfoldable pub rest_of_row : ℕ → ℕ → List ℕ → Name → List ℕ
rest_of_row x last (above ∷ next ∷ more) (y ∷ ys) =
    let cost = if x == y then 0 else 1 in
    let c = min (last + 1) (min (next + 1) (above + cost)) in c ∷ rest_of_row x c (next ∷ more) ys
rest_of_row x last prev ys = []

unfoldable pub rows : ℕ → List ℕ → Name → Name → List ℕ
unfolding rest_of_row
rows i prev [] rb = prev
rows i prev (x ∷ ra) rb = rows (i + 1) (i ∷ rest_of_row x i prev rb) ra rb

abbrev pub last_of : List ℕ → ℕ
last_of [] = 0
last_of (x ∷ []) = x
last_of (x ∷ y ∷ ys) = last_of (y ∷ ys)

unfoldable pub levenshtein : Name → Name → ℕ
unfolding first_row rows
levenshtein [] rb = length rb
levenshtein (x ∷ ra) [] = length (x ∷ ra)
levenshtein (x ∷ ra) (y ∷ rb) = last_of (rows 1 (first_row 0 (y ∷ rb)) (x ∷ ra) (y ∷ rb))

pub record Hit : Type 0 where
  pub name : Name
  pub dist : ℕ

-- The comparison of the sorting is negative or zero: by distance, then by name.
abbrev hit_leb : Hit → Hit → Bool
hit_leb a b =
    if a.dist == b.dist
    then elim (compare_bytes a.name b.name) [ gt ↦ false | _ ↦ true ]
    else ltb a.dist b.dist

abbrev insert_hit : Hit → List Hit → List Hit
insert_hit h [] = h ∷ []
insert_hit h (x ∷ xs) = if hit_leb h x then h ∷ x ∷ xs else x ∷ insert_hit h xs

-- slices.SortFunc: hits that compare as equal are equal.
abbrev sort_hits : List Hit → List Hit
sort_hits [] = []
sort_hits (x ∷ xs) = insert_hit x (sort_hits xs)

-- The loop over the candidates.
unfoldable pub hits_of : Name → ℕ → List Name → List Hit
unfolding name_len levenshtein
hits_of target threshold [] = []
hits_of target threshold (c ∷ cs) =
    let rest = hits_of target threshold cs in
    let d = levenshtein target c in
    if bytes_eq c target
    then rest
    else if ltb (name_len target + threshold) (name_len c)
        || ltb (name_len c + threshold) (name_len target)
    then rest
    else if leb d threshold
    then record { name = c; dist = d } ∷ rest
    else rest

unfoldable pub suggest : Name → List Name → ℕ → ℕ → List Name
unfolding hits_of
suggest target candidates threshold max_results =
    map (λ h. h.name) (take max_results (sort_hits (hits_of target threshold candidates)))
