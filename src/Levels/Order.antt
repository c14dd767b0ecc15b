-- ===== src/Levels/Order.antt =====
-- The equality test and the order of levels.
use gicel.Prelude.{ℕ, ◌≡◌, refl, ap, ap₂, true, arith, compare, Ordering, [], ◌∷◌}
use Prim.Native.Nat.Ordering.{lt, eq, gt}
use gicel.Prelude.Bytes.{Bytes, compare_bytes, bytes_eq_iff_eq, bytes_eq_refl, eq_of_compare_bytes}
use gicel.Levels.{
  LevelExpr, nil_level, level_lit, level_var, level_max, level_succ, level_meta, level_equal,
  level_compare, level_value,
}

-- Levels that the test equates have the same value.
pub level_equal-value :
    (v : Bytes → ℕ) (s : ℕ → ℕ) (a b : LevelExpr)
    → level_equal a b ≡ true
    → level_value v s a ≡ level_value v s b
unfolding level_equal
level_equal-value v s nil_level nil_level h = refl
level_equal-value v s nil_level (level_lit n) h = ground (arith, h)
level_equal-value v s (level_lit m) nil_level h = ground (arith, h)
level_equal-value v s (level_lit m) (level_lit n) h = ground (arith, h)
level_equal-value v s (level_var x) (level_var y) h = ap v (bytes_eq_iff_eq x y h)
level_equal-value v s (level_max a b) (level_max c d) h =
    ground (arith, h, level_equal-value v s a c, level_equal-value v s b d)
level_equal-value v s (level_succ e) (level_succ f) h = omega (arith, level_equal-value v s e f h)
level_equal-value v s (level_meta i) (level_meta j) h = ap s (ground (arith, h))
level_equal-value v s a b h = ground (arith, h)

-- No nil stands in the level.
abbrev pub NoNil : LevelExpr → Type 0
NoNil nil_level = ⊥
NoNil (level_max a b) = NoNil a × NoNil b
NoNil (level_succ e) = NoNil e
NoNil l = Unit {0}

-- Levels without nil that the test equates are the same.
pub eq_of_level_equal : (a b : LevelExpr) → NoNil a → NoNil b → level_equal a b ≡ true → a ≡ b
unfolding level_equal
eq_of_level_equal nil_level b p q h = elim p [ ]
eq_of_level_equal (level_lit m) (level_lit n) p q h = ap level_lit (ground (arith, h))
eq_of_level_equal (level_var x) (level_var y) p q h = ap level_var (bytes_eq_iff_eq x y h)
eq_of_level_equal (level_max a b) (level_max c d) p q h =
    ap₂ level_max (eq_of_level_equal a c p.0 q.0 (ground (arith, h)))
      (eq_of_level_equal b d p.1 q.1 (ground (arith, h)))
eq_of_level_equal (level_succ e) (level_succ f) p q h = ap level_succ (eq_of_level_equal e f p q h)
eq_of_level_equal (level_meta i) (level_meta j) p q h = ap level_meta (ground (arith, h))
eq_of_level_equal a nil_level p q h = elim q [ ]
eq_of_level_equal a b p q h = ground (arith, h)

pub level_equal_refl : (a : LevelExpr) → level_equal a a ≡ true
unfolding level_equal
level_equal_refl nil_level = refl
level_equal_refl (level_lit n) = ground arith
level_equal_refl (level_var x) = bytes_eq_refl x
level_equal_refl (level_max a b) = rw (level_equal_refl a, level_equal_refl b) refl
level_equal_refl (level_succ e) = level_equal_refl e
level_equal_refl (level_meta i) = ground arith

-- Levels that the order does not tell apart are equal to the test.
pub level_compare-eq : (a b : LevelExpr) → level_compare a b ≡ eq → level_equal a b ≡ true
unfolding level_compare level_equal
level_compare-eq (level_lit m) (level_lit n) h = ground (arith, h)
level_compare-eq (level_var x) (level_var y) h = rw (eq_of_compare_bytes x y h) (bytes_eq_refl y)
level_compare-eq (level_max a b) (level_max c d) h =
    ground (arith, h, level_compare-eq a c, level_compare-eq b d)
level_compare-eq (level_succ e) (level_succ f) h = level_compare-eq e f h
level_compare-eq (level_meta i) (level_meta j) h = ground (arith, h)
level_compare-eq nil_level nil_level h = refl
level_compare-eq a b h = ground (arith, h)

abbrev pub flip : Ordering → Ordering
flip lt = gt
flip eq = eq
flip gt = lt

compare_bytes-flip : (x y : Bytes) → compare_bytes y x ≡ flip (compare_bytes x y)
compare_bytes-flip [] [] = refl
compare_bytes-flip [] (y ∷ ys) = refl
compare_bytes-flip (x ∷ xs) [] = refl
compare_bytes-flip (x ∷ xs) (y ∷ ys) = ground (arith, compare_bytes-flip xs ys)

compare-flip : (m n : ℕ) → compare n m ≡ flip (compare m n)
compare-flip m n = ground arith

pub level_compare-flip : (a b : LevelExpr) → level_compare b a ≡ flip (level_compare a b)
unfolding level_compare
level_compare-flip (level_lit m) (level_lit n) = compare-flip m n
level_compare-flip (level_var x) (level_var y) = compare_bytes-flip x y
level_compare-flip (level_max a b) (level_max c d) =
    ground (arith, level_compare-flip a c, level_compare-flip b d)
level_compare-flip (level_succ e) (level_succ f) = level_compare-flip e f
level_compare-flip (level_meta i) (level_meta j) = compare-flip i j
level_compare-flip nil_level nil_level = refl
level_compare-flip a b = ground arith
