-- ===== src/Unify/Levels/Normal.antt =====
-- internal/compiler/check/unify/level_unify.go: what normalisation keeps of a zonked level.
use gicel.Prelude.{ℕ, suc, ◌+◌, ◌≤◌, ◌==◌, Bool, true, false, if◌then◌else◌, arith}
use Prim.Native.Nat.Ordering.{lt, eq, gt}
use gicel.Levels.{
  LevelExpr, nil_level, level_lit, level_var, level_max, level_succ, level_meta, level_equal,
  level_compare, normalize_level, join_normal, join_other, succ_normal,
}
use gicel.Unify.Levels.Assignment.{Solved, Clean, Within}

-- What a level and its normal form share.
module _ (P : LevelExpr → Type 0) (of_lit : (n : ℕ) → P (level_lit n))
    (of_max : (a b : LevelExpr) → P a → P b → P (level_max a b))
    (of_succ : (e : LevelExpr) → P e → P (level_succ e)) where
  join_other-P : (a b : LevelExpr) → P a → P b → P (join_other a b)
  join_other-P a b h k =
      elim (level_equal a b)
        as (λ t.
          P (
            if t then a else elim (level_compare a b) [ gt ↦ level_max b a | _ ↦ level_max a b ])) [
              | true ↦ h
              | false ↦
                  elim (level_compare a b)
                    as (λ o. P (elim o [ gt ↦ level_max b a | _ ↦ level_max a b ])) [
                      | gt ↦ of_max b a k h
                      | lt ↦ of_max a b h k
                      | eq ↦ of_max a b h k
                    ]
            ]

  choose-P : (t : Bool) (a b : LevelExpr) → P a → P b → P (if t then a else b)
  choose-P true a b h k = h
  choose-P false a b h k = k

  pub join_normal-P : (a b : LevelExpr) → P a → P b → P (join_normal a b)
  join_normal-P (level_lit m) (level_lit n) h k = choose-P _ _ _ (of_lit m) (of_lit n)
  join_normal-P (level_lit m) b h k = choose-P (m == 0) b _ k (join_other-P (level_lit m) b h k)
  join_normal-P a (level_lit n) h k = choose-P (n == 0) a _ h (join_other-P a (level_lit n) h k)
  join_normal-P a b h k = join_other-P a b h k

  pub succ_normal-P : (e : LevelExpr) → P e → P (succ_normal e)
  succ_normal-P (level_lit n) h = of_lit (n + 1)
  succ_normal-P e h = of_succ e h

abbrev pub level_size : LevelExpr → ℕ
level_size (level_max a b) = suc (level_size a + level_size b)
level_size (level_succ e) = suc (level_size e)
level_size e = 1

join_other-size :
    (a b : LevelExpr) → level_size (join_other a b) ≤ suc (level_size a + level_size b)
join_other-size a b =
    elim (level_equal a b)
      as (λ t.
        level_size
          (if t then a else elim (level_compare a b) [ gt ↦ level_max b a | _ ↦ level_max a b ])
        ≤ suc (level_size a + level_size b)) [
          | true ↦ omega arith
          | false ↦
              elim (level_compare a b)
                as (λ o.
                  level_size (elim o [ gt ↦ level_max b a | _ ↦ level_max a b ])
                  ≤ suc (level_size a + level_size b)) [
                    | gt ↦ omega arith
                    | lt ↦ omega arith
                    | eq ↦ omega arith
                  ]
        ]

choose-size :
    (t : Bool) (a b : LevelExpr) (n : ℕ)
    → level_size a ≤ n
    → level_size b ≤ n
    → level_size (if t then a else b) ≤ n
choose-size true a b n h k = h
choose-size false a b n h k = k

join_normal-size :
    (a b : LevelExpr) → level_size (join_normal a b) ≤ suc (level_size a + level_size b)
join_normal-size (level_lit m) (level_lit n) =
    choose-size _ (level_lit m) (level_lit n) _ (omega arith) (omega arith)
join_normal-size (level_lit m) b =
    choose-size (m == 0) b _ _ (omega arith) (join_other-size (level_lit m) b)
join_normal-size a (level_lit n) =
    choose-size (n == 0) a _ _ (omega arith) (join_other-size a (level_lit n))
join_normal-size a b = join_other-size a b

succ_normal-size : (e : LevelExpr) → level_size (succ_normal e) ≤ suc (level_size e)
succ_normal-size (level_lit n) = omega arith
succ_normal-size e = omega arith

pub normalize_level-size : (l : LevelExpr) → level_size (normalize_level l) ≤ level_size l
unfolding normalize_level
normalize_level-size (level_max a b) = omega (
  arith,
  join_normal-size (normalize_level a) (normalize_level b),
  normalize_level-size a,
  normalize_level-size b,
)
normalize_level-size (level_succ e) =
    omega (arith, succ_normal-size (normalize_level e), normalize_level-size e)
normalize_level-size nil_level = omega arith
normalize_level-size (level_lit n) = omega arith
normalize_level-size (level_var x) = omega arith
normalize_level-size (level_meta i) = omega arith

pub normalize_level-Clean : (m : Solved) (l : LevelExpr) → Clean m l → Clean m (normalize_level l)
unfolding normalize_level
normalize_level-Clean m (level_max a b) c =
    join_normal-P (Clean m) (λ n. tt) (λ x y h k. (h, k)) (λ e h. h) (normalize_level a)
      (normalize_level b) (normalize_level-Clean m a c.0) (normalize_level-Clean m b c.1)
normalize_level-Clean m (level_succ e) c =
    succ_normal-P (Clean m) (λ n. tt) (λ x y h k. (h, k)) (λ e h. h) (normalize_level e)
      (normalize_level-Clean m e c)
normalize_level-Clean m nil_level c = c
normalize_level-Clean m (level_lit n) c = c
normalize_level-Clean m (level_var x) c = c
normalize_level-Clean m (level_meta i) c = c

pub normalize_level-Within :
    (bound : ℕ) (l : LevelExpr) → Within bound l → Within bound (normalize_level l)
unfolding normalize_level
normalize_level-Within bound (level_max a b) c =
    join_normal-P (Within bound) (λ n. tt) (λ x y h k. (h, k)) (λ e h. h) (normalize_level a)
      (normalize_level b) (normalize_level-Within bound a c.0) (normalize_level-Within bound b c.1)
normalize_level-Within bound (level_succ e) c =
    succ_normal-P (Within bound) (λ n. tt) (λ x y h k. (h, k)) (λ e h. h) (normalize_level e)
      (normalize_level-Within bound e c)
normalize_level-Within bound nil_level c = c
normalize_level-Within bound (level_lit n) c = c
normalize_level-Within bound (level_var x) c = c
normalize_level-Within bound (level_meta i) c = c
