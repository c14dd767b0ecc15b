-- ===== src/Prelude/Bytes.antt =====
-- A Go string is a sequence of bytes, compared byte by byte.
use Prim.Native.Nat.{ℕ, compare, Ordering}
use Prim.Native.Nat.Ordering.{lt, eq, gt}
use mathlib.Core.Path.{◌≡◌, refl}
use mathlib.Core.Bool.{Bool, true, false}
use mathlib.Core.List.{List, [], ◌∷◌}
use native.Mathlib.Omega.{arith}

abbrev pub Bytes : Type 0
Bytes = List ℕ

-- `<`, `==` and `>` of the language, in one.
abbrev pub compare_bytes : Bytes → Bytes → Ordering
compare_bytes [] [] = eq
compare_bytes [] (y ∷ ys) = lt
compare_bytes (x ∷ xs) [] = gt
compare_bytes (x ∷ xs) (y ∷ ys) =
    let rest = compare_bytes xs ys in elim (compare x y) [ lt ↦ lt | gt ↦ gt | eq ↦ rest ]

abbrev pub bytes_eq : Bytes → Bytes → Bool
bytes_eq s t = elim (compare_bytes s t) [ eq ↦ true | _ ↦ false ]

pub eq_of_compare_bytes : (s t : Bytes) → compare_bytes s t ≡ eq → s ≡ t
eq_of_compare_bytes [] [] h = refl
eq_of_compare_bytes [] (y ∷ ys) h = ground arith
eq_of_compare_bytes (x ∷ xs) [] h = ground arith
eq_of_compare_bytes (x ∷ xs) (y ∷ ys) h = ground (arith, eq_of_compare_bytes xs ys)

pub compare_bytes_refl : (s : Bytes) → compare_bytes s s ≡ eq
compare_bytes_refl [] = refl
compare_bytes_refl (x ∷ xs) = ground (arith, compare_bytes_refl xs)

pub lt_of_compare_bytes-gt : (s t : Bytes) → compare_bytes s t ≡ gt → compare_bytes t s ≡ lt
lt_of_compare_bytes-gt [] [] h = ground arith
lt_of_compare_bytes-gt [] (y ∷ ys) h = ground arith
lt_of_compare_bytes-gt (x ∷ xs) [] h = refl
lt_of_compare_bytes-gt (x ∷ xs) (y ∷ ys) h = ground (arith, lt_of_compare_bytes-gt xs ys)

pub bytes_eq_iff_eq : (s t : Bytes) → bytes_eq s t ≡ true → s ≡ t
bytes_eq_iff_eq s t h = ground (arith, eq_of_compare_bytes s t)

pub bytes_eq_refl : (s : Bytes) → bytes_eq s s ≡ true
bytes_eq_refl s = ground (arith, compare_bytes_refl s)
