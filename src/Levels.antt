-- ===== src/Levels.antt =====
-- Universe levels: internal/lang/types/level.go, and the normalisation and order of
-- internal/compiler/check/unify/level_unify.go. A level is a natural number. Where the source returns
-- its argument because no child has changed, the rebuilt level is equal to it.
pub mod Order
pub mod Normal
pub mod Symmetry
mod Tests
use gicel.Prelude.{
  ℕ, suc, ◌+◌, ◌==◌, Bool, true, false, ◌&&◌, leb, if◌then◌else◌, compare, Ordering, max,
}
use Prim.Native.Nat.Ordering.{lt, eq, gt}
use gicel.Prelude.Bytes.{Bytes, bytes_eq, compare_bytes}

-- `nil_level` is a nil interface.
pub data LevelExpr : Type 0 where
  nil_level : LevelExpr
  level_lit : ℕ → LevelExpr
  level_var : Bytes → LevelExpr
  level_max : LevelExpr → LevelExpr → LevelExpr
  level_succ : LevelExpr → LevelExpr
  level_meta : ℕ → LevelExpr

-- The functions of level.go take nil as level 0.
unfoldable pub level_equal : LevelExpr → LevelExpr → Bool
level_equal nil_level nil_level = true
level_equal nil_level (level_lit n) = 0 == n
level_equal (level_lit m) nil_level = m == 0
level_equal (level_lit m) (level_lit n) = m == n
level_equal (level_var x) (level_var y) = bytes_eq x y
level_equal (level_max a b) (level_max c d) = level_equal a c && level_equal b d
level_equal (level_succ e) (level_succ f) = level_equal e f
level_equal (level_meta i) (level_meta j) = i == j
level_equal a b = false

unfoldable pub is_value_level : LevelExpr → Bool
is_value_level nil_level = true
is_value_level (level_lit n) = n == 0
is_value_level l = false

unfoldable pub is_kind_level : LevelExpr → Bool
is_kind_level (level_lit n) = n == 1
is_kind_level l = false

unfoldable pub is_sort_level : LevelExpr → Bool
is_sort_level (level_lit n) = leb 2 n
is_sort_level l = false

abbrev pub level_tag : LevelExpr → ℕ
level_tag (level_lit n) = 0
level_tag (level_var x) = 1
level_tag (level_meta i) = 2
level_tag (level_succ e) = 3
level_tag (level_max a b) = 4
level_tag nil_level = 5

-- The sign of the source's result. Different constructors compare by their tags.
unfoldable pub level_compare : LevelExpr → LevelExpr → Ordering
level_compare (level_lit m) (level_lit n) = compare m n
level_compare (level_var x) (level_var y) = compare_bytes x y
level_compare (level_meta i) (level_meta j) = compare i j
level_compare (level_succ e) (level_succ f) = level_compare e f
level_compare (level_max a b) (level_max c d) =
    let rest = level_compare b d in elim (level_compare a c) [ lt ↦ lt | gt ↦ gt | eq ↦ rest ]
level_compare a b = compare (level_tag a) (level_tag b)

-- The maximum of two normal levels, from the test for equality on.
abbrev pub join_other : LevelExpr → LevelExpr → LevelExpr
join_other a b =
    if level_equal a b
    then a
    else elim (level_compare a b) [ gt ↦ level_max b a | _ ↦ level_max a b ]

abbrev pub join_normal : LevelExpr → LevelExpr → LevelExpr
join_normal (level_lit m) (level_lit n) = if leb n m then level_lit m else level_lit n
join_normal (level_lit m) b = if m == 0 then b else join_other (level_lit m) b
join_normal a (level_lit n) = if n == 0 then a else join_other a (level_lit n)
join_normal a b = join_other a b

abbrev pub succ_normal : LevelExpr → LevelExpr
succ_normal (level_lit n) = level_lit (n + 1)
succ_normal e = level_succ e

unfoldable pub normalize_level : LevelExpr → LevelExpr
unfolding level_equal level_compare
normalize_level (level_max a b) = join_normal (normalize_level a) (normalize_level b)
normalize_level (level_succ e) = succ_normal (normalize_level e)
normalize_level l = l

-- The level under an assignment of the variables and the metavariables; nil is level 0.
abbrev pub level_value : (Bytes → ℕ) → (ℕ → ℕ) → LevelExpr → ℕ
level_value v s nil_level = 0
level_value v s (level_lit n) = n
level_value v s (level_var x) = v x
level_value v s (level_max a b) = max (level_value v s a) (level_value v s b)
level_value v s (level_succ e) = suc (level_value v s e)
level_value v s (level_meta i) = s i
