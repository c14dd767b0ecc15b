-- ===== src/Levels/Normal.antt =====
-- The normal form of a level has its value.
use gicel.Prelude.{ℕ, suc, ◌≡◌, refl, arith, ◌==◌, max, Ordering, Bool-cases, inl, inr}
use Prim.Native.Nat.Ordering.{lt, eq, gt}
use gicel.Prelude.Bytes.{Bytes}
use gicel.Levels.{
  LevelExpr, level_lit, level_max, level_succ, level_equal, level_compare, level_value, join_other,
  join_normal, succ_normal, normalize_level,
}
use gicel.Levels.Order.{level_equal-value}

module _ (v : Bytes → ℕ) (s : ℕ → ℕ) where
  abbrev value : LevelExpr → ℕ
  value = level_value v s

  ordered-value :
      (ord : Ordering) (a b : LevelExpr)
      → level_value v s (elim ord [ gt ↦ level_max b a | _ ↦ level_max a b ])
        ≡ max (level_value v s a) (level_value v s b)
  ordered-value lt a b = refl
  ordered-value eq a b = refl
  ordered-value gt a b = omega arith

  join_other-value :
      (a b : LevelExpr)
      → level_value v s (join_other a b) ≡ max (level_value v s a) (level_value v s b)
  join_other-value a b = elim (Bool-cases (level_equal a b)) [
    | inl t ↦ rw t (omega (arith, level_equal-value v s a b t))
    | inr f ↦ rw f (ordered-value (level_compare a b) a b)
  ]

  join_normal-value :
      (a b : LevelExpr)
      → level_value v s (join_normal a b) ≡ max (level_value v s a) (level_value v s b)
  join_normal-value (level_lit m) (level_lit n) = ground arith
  join_normal-value (level_lit m) b = elim (Bool-cases (m == 0)) [
    | inl t ↦ rw t (ground (arith, t))
    | inr f ↦ rw f (join_other-value (level_lit m) b)
  ]
  join_normal-value a (level_lit n) = elim (Bool-cases (n == 0)) [
    | inl t ↦ rw t (ground (arith, t))
    | inr f ↦ rw f (join_other-value a (level_lit n))
  ]
  join_normal-value a b = join_other-value a b

  succ_normal-value : (e : LevelExpr) → level_value v s (succ_normal e) ≡ suc (level_value v s e)
  succ_normal-value (level_lit n) = omega arith
  succ_normal-value e = refl

  -- Under every assignment of the variables and metavariables the normal form has the value of the level.
  pub normalize_level-value :
      (l : LevelExpr) → level_value v s (normalize_level l) ≡ level_value v s l
  unfolding normalize_level
  normalize_level-value (level_max a b) = omega (
    arith,
    join_normal-value (normalize_level a) (normalize_level b),
    normalize_level-value a,
    normalize_level-value b,
  )
  normalize_level-value (level_succ e) =
      omega (arith, succ_normal-value (normalize_level e), normalize_level-value e)
  normalize_level-value l = refl
