-- ===== src/Ir/Deps/Sums.antt =====
-- internal/lang/ir/deps.go: occurrences in lists of positions, and sums over the positions.
use gicel.Prelude.{
  ℕ, zero, suc, ◌+◌, ◌≤◌, ◌<◌, ◌==◌, Bool, true, false, ◌&&◌, List, [], ◌∷◌, ◌++◌, length, ltb, ◌≡◌,
  refl, sym, ap, ap₂, arith, length-append, lt→ltb, dec_lt,
}
use gicel.Ir.Deps.{range, filter}

abbrev pub num : Bool → ℕ
num true = 1
num false = 0

abbrev pub count : ℕ → List ℕ → ℕ
count j [] = 0
count j (x ∷ xs) = num (x == j) + count j xs

abbrev pub sum : ℕ → (ℕ → ℕ) → ℕ
sum zero f = 0
sum (suc n) f = sum n f + f n

pub count-append : (j : ℕ) (xs ys : List ℕ) → count j (xs ++ ys) ≡ count j xs + count j ys
count-append j [] ys = omega arith
count-append j (x ∷ xs) ys = omega (arith, count-append j xs ys)

pub filter-append {ℓ} :
    {A : Type ℓ} (p : A → Bool) (xs ys : List A) → filter p (xs ++ ys) ≡ filter p xs ++ filter p ys
filter-append p [] ys = refl
filter-append p (x ∷ xs) ys = ground (arith, filter-append p xs ys)

pub count-filter-range :
    (p : ℕ → Bool) (n j : ℕ) → count j (filter p (range n)) ≡ num (ltb j n && p j)
count-filter-range p zero j = ground arith
count-filter-range p (suc n) j = ground (
  arith,
  filter-append p (range n) (n ∷ []),
  count-append j (filter p (range n)) (filter p (n ∷ [])),
  count-filter-range p n j,
  ap p,
)

pub length-filter-range :
    (p : ℕ → Bool) (n : ℕ) → length (filter p (range n)) ≡ sum n (λ i. num (p i))
length-filter-range p zero = refl
length-filter-range p (suc n) = ground (
  arith,
  filter-append p (range n) (n ∷ []),
  length-append (filter p (range n)) (filter p (n ∷ [])),
  length-filter-range p n,
)

pub sum_congr : (n : ℕ) (f g : ℕ → ℕ) → ((i : ℕ) → i < n → f i ≡ g i) → sum n f ≡ sum n g
sum_congr zero f g h = refl
sum_congr (suc n) f g h = ap₂ ◌+◌ (sum_congr n f g (λ i l. h i (omega arith))) (h n (omega arith))

pub sum_add : (n : ℕ) (f g : ℕ → ℕ) → sum n (λ i. f i + g i) ≡ sum n f + sum n g
sum_add zero f g = refl
sum_add (suc n) f g = omega (arith, sum_add n f g)

pub sum_le : (n : ℕ) (f g : ℕ → ℕ) → ((i : ℕ) → i < n → f i ≤ g i) → sum n f ≤ sum n g
sum_le zero f g h = omega arith
sum_le (suc n) f g h = omega (arith, sum_le n f g (λ i l. h i (omega arith)), h n (omega arith))

pub sum_one : (n : ℕ) → sum n (λ i. 1) ≡ n
sum_one zero = refl
sum_one (suc n) = omega (arith, sum_one n)

sum_zero : (n : ℕ) → sum n (λ i. 0) ≡ 0
sum_zero zero = refl
sum_zero (suc n) = omega (arith, sum_zero n)

sum_at : (n k : ℕ) → sum n (λ i. num (k == i)) ≡ num (ltb k n)
sum_at zero k = ground arith
sum_at (suc n) k = ground (arith, sum_at n k)

pub sum_single : (n k : ℕ) (p : ℕ → Bool) → sum n (λ i. num (i == k && p i)) ≡ num (ltb k n && p k)
sum_single zero k p = ground arith
sum_single (suc n) k p = ground (arith, sum_single n k p, ap p)

-- The elements of a list of positions are as many as their occurrences.
pub length_counts :
    (n : ℕ) (xs : List ℕ) → ((j : ℕ) → n ≤ j → count j xs ≡ 0) → length xs ≡ sum n (λ j. count j xs)
length_counts n [] h = sym (sum_zero n)
length_counts n (x ∷ xs) h =
    let x_lt : x < n = ground (arith, h x) in
    let tail : (j : ℕ) → n ≤ j → count j xs ≡ 0 = λ j l. omega (arith, h j l) in
    omega (
      arith,
      length_counts n xs tail,
      sum_add n (λ j. num (x == j)) (λ j. count j xs),
      sum_at n x,
      ap num (lt→ltb x n x_lt),
    )

pub le_sum : (n : ℕ) (f : ℕ → ℕ) (i : ℕ) → i < n → f i ≤ sum n f
le_sum zero f i l = omega arith
le_sum (suc n) f i l = elim (dec_lt i n) [
  | yes p ↦ omega (arith, le_sum n f i p)
  | no p ↦ ground (arith, ap f)
]

-- A sum that is not zero has a term that is not.
pub term_of_sum : (n : ℕ) (f : ℕ → ℕ) → 0 < sum n f → (i : ℕ) × (i < n) × (0 < f i)
term_of_sum zero f h = elim h [ ]
term_of_sum (suc n) f h = elim (dec_lt 0 (f n)) [
  | yes p ↦ (n, omega arith, p)
  | no p ↦ let (i, l, m) = term_of_sum n f (omega arith) in (i, omega arith, m)
]
