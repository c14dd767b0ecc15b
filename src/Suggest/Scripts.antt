-- ===== src/Suggest/Scripts.antt =====
-- internal/infra/diagnostic/suggest.go: levenshtein is the least cost of an edit script.
use gicel.Prelude.{
  ℕ, suc, true, ◌+◌, ◌≤◌, Option, none, some, List, [], ◌∷◌, length, if◌then◌else◌, ◌==◌, ◌≡◌, refl,
  sym, ap, subst, ◌∙◌, ◌⊎◌, inl, inr, arith, Bool-cases, ==_iff,
}
use gicel.Suggest.{Name, levenshtein}
use gicel.Suggest.Distance.{distance, onto, length-onto, levenshtein-distance, distance_bounds}
use Prim.Native.Nat.{min}

pub data Edit : Type 0 where
  keep : Edit
  delete : Edit
  change : ℕ → Edit
  insert : ℕ → Edit

abbrev pub cost : List Edit → ℕ
cost [] = 0
cost (keep ∷ s) = cost s
cost (delete ∷ s) = suc (cost s)
cost (change y ∷ s) = suc (cost s)
cost (insert y ∷ s) = suc (cost s)

abbrev in_front : ℕ → Option Name → Option Name
in_front y none = none
in_front y (some ys) = some (y ∷ ys)

-- The edits in turn, each on what is left of the name.
abbrev pub edit : List Edit → Name → Option Name
edit [] [] = some []
edit [] (x ∷ xs) = none
edit (keep ∷ s) [] = none
edit (keep ∷ s) (x ∷ xs) = in_front x (edit s xs)
edit (delete ∷ s) [] = none
edit (delete ∷ s) (x ∷ xs) = edit s xs
edit (change y ∷ s) [] = none
edit (change y ∷ s) (x ∷ xs) = in_front y (edit s xs)
edit (insert y ∷ s) xs = in_front y (edit s xs)

-- A script of the distance's cost.
abbrev Cheapest : Name → Name → ℕ → Type 0
Cheapest xs ys n = (s : List Edit) × (edit s xs ≡ some ys) × (cost s ≡ n)

delete_all : (xs : Name) → Cheapest xs [] (length xs)
delete_all [] = ([], refl, refl)
delete_all (x ∷ xs) = let (s, e, c) = delete_all xs in (delete ∷ s, e, ap suc c)

insert_all : (ys : Name) → Cheapest [] ys (length ys)
insert_all [] = ([], refl, refl)
insert_all (y ∷ ys) = let (s, e, c) = insert_all ys in (insert y ∷ s, ap (in_front y) e, ap suc c)

last_pair :
    (x y : ℕ) (xs ys : Name) (n : ℕ)
    → Cheapest xs ys n
    → Cheapest (x ∷ xs) (y ∷ ys) (n + (if x == y then 0 else 1))
last_pair x y xs ys n (s, e, c) = elim (Bool-cases (x == y)) [
  | inl t ↦ (
    keep ∷ s,
    ap (in_front x) e ∙ ap (λ z. some (z ∷ ys)) ((==_iff x y).0 t),
    c ∙ rw (t) (omega arith),
  )
  | inr t ↦ (change y ∷ s, ap (in_front y) e, rw (t) (omega (arith, c)))
]

least : (a b : ℕ) → (min a b ≡ a) ⊎ (min a b ≡ b)
least a b = ground arith

distance-Cheapest : (xs ys : Name) → Cheapest xs ys (distance xs ys)
distance-Cheapest [] ys = insert_all ys
distance-Cheapest (x ∷ xs) [] = delete_all (x ∷ xs)
distance-Cheapest (x ∷ xs) (y ∷ ys) =
    let (s, e, c) = distance-Cheapest (x ∷ xs) ys in
    let (t, f, d) = distance-Cheapest xs (y ∷ ys) in
    let one : Cheapest (x ∷ xs) (y ∷ ys) (distance (x ∷ xs) ys + 1) =
      (insert y ∷ s, ap (in_front y) e, omega (arith, c)) in
    let two : Cheapest (x ∷ xs) (y ∷ ys) (distance xs (y ∷ ys) + 1) =
      (delete ∷ t, f, omega (arith, d)) in
    let three = last_pair x y xs ys (distance xs ys) (distance-Cheapest xs ys) in
    choose _ _ one (choose _ _ two three)
  where
    choose :
        (a b : ℕ)
        → Cheapest (x ∷ xs) (y ∷ ys) a
        → Cheapest (x ∷ xs) (y ∷ ys) b
        → Cheapest (x ∷ xs) (y ∷ ys) (min a b)
    choose a b p q = elim (least a b) [
      | inl e ↦ subst (Cheapest (x ∷ xs) (y ∷ ys)) (sym e) p
      | inr e ↦ subst (Cheapest (x ∷ xs) (y ∷ ys)) (sym e) q
    ]

distance_insert : (y : ℕ) (xs ys : Name) → distance xs (y ∷ ys) ≤ distance xs ys + 1
distance_insert y [] ys = omega arith
distance_insert y (x ∷ xs) ys = omega arith

distance_delete : (x : ℕ) (xs ys : Name) → distance (x ∷ xs) ys ≤ distance xs ys + 1
distance_delete x xs [] = ground (arith, distance_bounds xs [])
distance_delete x xs (y ∷ ys) = omega arith

distance_change : (x y : ℕ) (xs ys : Name) → distance (x ∷ xs) (y ∷ ys) ≤ distance xs ys + 1
distance_change x y xs ys = elim (Bool-cases (x == y)) [
  | inl t ↦ rw (t) (omega arith)
  | inr t ↦ rw (t) (omega arith)
]

distance_keep : (x : ℕ) (xs ys : Name) → distance (x ∷ xs) (x ∷ ys) ≤ distance xs ys
distance_keep x xs ys = let same : x == x ≡ true = (==_iff x x).1 refl in rw (same) (omega arith)

abbrev or_nil : Option Name → Name
or_nil none = []
or_nil (some xs) = xs

in_front-cases :
    (y : ℕ) (o : Option Name) (ys : Name)
    → in_front y o ≡ some ys
    → (zs : Name) × (o ≡ some zs) × (y ∷ zs ≡ ys)
in_front-cases y none ys e = absurd (ground (arith, e))
in_front-cases y (some zs) ys e = (zs, refl, ap or_nil e)

distance_le-cost : (s : List Edit) (xs ys : Name) → edit s xs ≡ some ys → distance xs ys ≤ cost s
distance_le-cost [] [] ys e = subst (λ w. distance [] w ≤ 0) (ap or_nil e) (omega arith)
distance_le-cost [] (x ∷ xs) ys e = absurd (ground (arith, e))
distance_le-cost (keep ∷ s) [] ys e = absurd (ground (arith, e))
distance_le-cost (delete ∷ s) [] ys e = absurd (ground (arith, e))
distance_le-cost (change y ∷ s) [] ys e = absurd (ground (arith, e))
distance_le-cost (delete ∷ s) (x ∷ xs) ys e =
    omega (arith, distance_le-cost s xs ys e, distance_delete x xs ys)
distance_le-cost (keep ∷ s) (x ∷ xs) ys e =
    let (zs, f, q) = in_front-cases x (edit s xs) ys e in
    subst (λ w. distance (x ∷ xs) w ≤ cost s) q
      (omega (arith, distance_keep x xs zs, distance_le-cost s xs zs f))
distance_le-cost (change y ∷ s) (x ∷ xs) ys e =
    let (zs, f, q) = in_front-cases y (edit s xs) ys e in
    subst (λ w. distance (x ∷ xs) w ≤ suc (cost s)) q
      (omega (arith, distance_change x y xs zs, distance_le-cost s xs zs f))
distance_le-cost (insert y ∷ s) xs ys e =
    let (zs, f, q) = in_front-cases y (edit s xs) ys e in
    subst (λ w. distance xs w ≤ suc (cost s)) q
      (omega (arith, distance_insert y xs zs, distance_le-cost s xs zs f))

-- The edit distance of two names is the least cost of a script that turns one into the other, both read
-- from their ends, where keeping a rune is free and deleting, changing or inserting one costs one:
-- some script has that cost, and each has at least that. It is at least the difference of the lengths in
-- runes.
pub levenshtein_least :
    (a b : Name)
    → ((s : List Edit) × (edit s (onto [] a) ≡ some (onto [] b)) × (cost s ≡ levenshtein a b))
      × ((s : List Edit) → edit s (onto [] a) ≡ some (onto [] b) → levenshtein a b ≤ cost s)
      × (length a ≤ levenshtein a b + length b)
      × (length b ≤ levenshtein a b + length a)
levenshtein_least a b =
    let eq = levenshtein-distance a b in
    let (s, e, c) = distance-Cheapest (onto [] a) (onto [] b) in
    let bounds = distance_bounds (onto [] a) (onto [] b) in
    (
      (s, e, c ∙ sym eq),
      λ t f. omega (arith, eq, distance_le-cost t (onto [] a) (onto [] b) f),
      omega (arith, eq, bounds.0, length-onto [] a, length-onto [] b),
      omega (arith, eq, bounds.1, length-onto [] a, length-onto [] b),
    )
