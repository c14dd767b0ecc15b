-- ===== src/Suggest/Distance.antt =====
-- internal/infra/diagnostic/suggest.go: the rows of levenshtein hold the distances of the prefixes.
use gicel.Prelude.{
  ℕ, suc, ◌+◌, List, [], ◌∷◌, length, if◌then◌else◌, ◌==◌, ◌≤◌, ◌≡◌, refl, ap, ap₂, ◌∙◌, arith,
}
use gicel.Suggest.{Name, first_row, rest_of_row, rows, last_of, levenshtein}
use Prim.Native.Nat.{min}

-- The least number of insertions, deletions and changes that make one name of the other, by the last rune
-- of each: the lists are read from the end of the names.
abbrev pub distance : Name → Name → ℕ
distance [] ys = length ys
distance (x ∷ xs) [] = suc (length xs)
distance (x ∷ xs) (y ∷ ys) =
    let one = distance (x ∷ xs) ys in
    let two = distance xs (y ∷ ys) in
    let three = distance xs ys in min (one + 1) (min (two + 1) (three + (if x == y then 0 else 1)))

-- The reversed prefixes of a name, the runes read so far in front.
abbrev pub onto : Name → Name → Name
onto done [] = done
onto done (y ∷ ys) = onto (y ∷ done) ys

-- The row of a reversed prefix of the first name, behind the reversed prefix of the second.
abbrev row_tail : Name → Name → Name → List ℕ
row_tail xs done [] = []
row_tail xs done (y ∷ ys) = distance xs (y ∷ done) ∷ row_tail xs (y ∷ done) ys

abbrev row : Name → Name → Name → List ℕ
row xs done ys = distance xs done ∷ row_tail xs done ys

pub length-onto : (done xs : Name) → length (onto done xs) ≡ length done + length xs
length-onto done [] = omega arith
length-onto done (x ∷ xs) = omega (arith, length-onto (x ∷ done) xs)

distance_nil : (xs : Name) → distance xs [] ≡ length xs
distance_nil [] = refl
distance_nil (x ∷ xs) = refl

first_row-eq : (j : ℕ) (done ys : Name) → j ≡ length done → first_row j ys ≡ row [] done ys
unfolding first_row
first_row-eq j done [] e = ap (λ k. k ∷ []) e
first_row-eq j done (y ∷ ys) e =
    ap₂ (λ k r. k ∷ r) e (first_row-eq (j + 1) (y ∷ done) ys (omega (arith, e)))

rest_of_row-eq :
    (x : ℕ) (xs done ys : Name)
    → rest_of_row x (distance (x ∷ xs) done) (row xs done ys) ys ≡ row_tail (x ∷ xs) done ys
unfolding rest_of_row
rest_of_row-eq x xs done [] = refl
rest_of_row-eq x xs done (y ∷ ys) =
    ap (λ r. distance (x ∷ xs) (y ∷ done) ∷ r) (rest_of_row-eq x xs (y ∷ done) ys)

rows-eq :
    (i : ℕ) (xs ra rb : Name)
    → i ≡ suc (length xs)
    → rows i (row xs [] rb) ra rb ≡ row (onto xs ra) [] rb
unfolding rows
rows-eq i xs [] rb e = refl
rows-eq i xs (x ∷ ra) rb e =
    ap (λ k. rows (i + 1) (k ∷ rest_of_row x k (row xs [] rb) rb) ra rb) e
    ∙ ap (λ r. rows (i + 1) (suc (length xs) ∷ r) ra rb) (rest_of_row-eq x xs [] rb)
    ∙ rows-eq (i + 1) (x ∷ xs) ra rb (omega (arith, e))

last_of-row : (xs done ys : Name) → last_of (row xs done ys) ≡ distance xs (onto done ys)
last_of-row xs done [] = refl
last_of-row xs done (y ∷ ys) = last_of-row xs (y ∷ done) ys

pub levenshtein-distance : (a b : Name) → levenshtein a b ≡ distance (onto [] a) (onto [] b)
unfolding levenshtein
levenshtein-distance [] b = omega (arith, length-onto [] b)
levenshtein-distance (x ∷ a) [] =
    omega (arith, length-onto [] (x ∷ a), distance_nil (onto [] (x ∷ a)))
levenshtein-distance (x ∷ a) (y ∷ b) =
    ap (λ r. last_of (rows 1 r (x ∷ a) (y ∷ b))) (first_row-eq 0 [] (y ∷ b) refl)
    ∙ ap last_of (rows-eq 1 [] (x ∷ a) (y ∷ b) (omega arith))
    ∙ last_of-row (onto [] (x ∷ a)) [] (y ∷ b)

pub distance_bounds :
    (xs ys : Name)
    → (length xs ≤ distance xs ys + length ys) × (length ys ≤ distance xs ys + length xs)
distance_bounds [] ys = (omega arith, omega arith)
distance_bounds (x ∷ xs) [] = (omega arith, omega arith)
distance_bounds (x ∷ xs) (y ∷ ys) =
    let one = distance_bounds (x ∷ xs) ys in
    let two = distance_bounds xs (y ∷ ys) in
    let three = distance_bounds xs ys in
    (ground (arith, one.0, two.0, three.0), ground (arith, one.1, two.1, three.1))
