-- ===== src/Levels/Symmetry.antt =====
-- The normal form of a maximum does not depend on the order of its operands.
use gicel.Prelude.{
  ◌≡◌, refl, sym, ap, ap₂, Bool, true, false, arith, ◌==◌, leb, if◌then◌else◌, Ordering, Bool-cases,
  inl, inr,
}
use Prim.Native.Nat.Ordering.{lt, eq, gt}
use gicel.Levels.{
  LevelExpr, level_lit, level_max, level_succ, level_equal, level_compare, join_other, join_normal,
  succ_normal, normalize_level,
}
use gicel.Levels.Order.{
  NoNil, eq_of_level_equal, level_equal_refl, level_compare-eq, level_compare-flip, flip,
}

ordered_comm :
    (ord : Ordering) (a b : LevelExpr)
    → (ord ≡ eq → a ≡ b)
    → elim ord [ gt ↦ level_max b a | _ ↦ level_max a b ]
      ≡ elim (flip ord) [ gt ↦ level_max a b | _ ↦ level_max b a ]
ordered_comm lt a b h = refl
ordered_comm eq a b h = ap₂ level_max (h refl) (sym (h refl))
ordered_comm gt a b h = refl

join_other_comm : (a b : LevelExpr) → NoNil a → NoNil b → join_other a b ≡ join_other b a
join_other_comm a b p q = elim (Bool-cases (level_equal a b)) [
  | inl t ↦ (let e = eq_of_level_equal a b p q t in ap₂ join_other e (sym e))
  | inr f ↦ elim (Bool-cases (level_equal b a)) [
    | inl t ↦ (let e = eq_of_level_equal b a q p t in ap₂ join_other (sym e) e)
    | inr g ↦
        rw (f, g, level_compare-flip a b)
          (ordered_comm (level_compare a b) a b
            λ e. eq_of_level_equal a b p q (level_compare-eq a b e))
  ]
]

join_normal_comm : (a b : LevelExpr) → NoNil a → NoNil b → join_normal a b ≡ join_normal b a
join_normal_comm (level_lit m) (level_lit n) p q = ground arith
join_normal_comm (level_lit m) b p q =
    ap (λ x. if m == 0 then b else x) (join_other_comm (level_lit m) b p q)
join_normal_comm a (level_lit n) p q =
    ap (λ x. if n == 0 then a else x) (join_other_comm a (level_lit n) p q)
join_normal_comm a b p q = join_other_comm a b p q

NoNil-ordered :
    (ord : Ordering) (a b : LevelExpr)
    → NoNil a
    → NoNil b
    → NoNil (elim ord [ gt ↦ level_max b a | _ ↦ level_max a b ])
NoNil-ordered lt a b p q = (p, q)
NoNil-ordered eq a b p q = (p, q)
NoNil-ordered gt a b p q = (q, p)

NoNil-if : (t : Bool) (a b : LevelExpr) → NoNil a → NoNil b → NoNil (if t then a else b)
NoNil-if true a b p q = p
NoNil-if false a b p q = q

NoNil-join_other : (a b : LevelExpr) → NoNil a → NoNil b → NoNil (join_other a b)
NoNil-join_other a b p q =
    NoNil-if (level_equal a b) a _ p (NoNil-ordered (level_compare a b) a b p q)

NoNil-join_normal : (a b : LevelExpr) → NoNil a → NoNil b → NoNil (join_normal a b)
NoNil-join_normal (level_lit m) (level_lit n) p q =
    NoNil-if (leb n m) (level_lit m) (level_lit n) tt tt
NoNil-join_normal (level_lit m) b p q =
    NoNil-if (m == 0) b _ q (NoNil-join_other (level_lit m) b p q)
NoNil-join_normal a (level_lit n) p q =
    NoNil-if (n == 0) a _ p (NoNil-join_other a (level_lit n) p q)
NoNil-join_normal a b p q = NoNil-join_other a b p q

NoNil-succ_normal : (e : LevelExpr) → NoNil e → NoNil (succ_normal e)
NoNil-succ_normal (level_lit n) p = tt
NoNil-succ_normal e p = p

pub NoNil-normalize_level : (l : LevelExpr) → NoNil l → NoNil (normalize_level l)
unfolding normalize_level
NoNil-normalize_level (level_max a b) p =
    NoNil-join_normal (normalize_level a) (normalize_level b) (NoNil-normalize_level a p.0)
      (NoNil-normalize_level b p.1)
NoNil-normalize_level (level_succ e) p =
    NoNil-succ_normal (normalize_level e) (NoNil-normalize_level e p)
NoNil-normalize_level l p = p

-- Of levels without nil, the two orders of a maximum have one normal form, and so has the maximum of a
-- level with itself.
pub normalize_level_comm :
    (a b : LevelExpr)
    → NoNil a
    → NoNil b
    → (normalize_level (level_max a b) ≡ normalize_level (level_max b a))
      × (normalize_level (level_max a a) ≡ normalize_level a)
unfolding normalize_level
normalize_level_comm a b p q = (
  join_normal_comm (normalize_level a) (normalize_level b) (NoNil-normalize_level a p)
      (NoNil-normalize_level b q),
  idempotent (normalize_level a),
)
  where
    idempotent : (l : LevelExpr) → join_normal l l ≡ l
    idempotent (level_lit n) = ground arith
    idempotent l =
        ap
          (λ t.
            if t then l else elim (level_compare l l) [ gt ↦ level_max l l | _ ↦ level_max l l ])
          (level_equal_refl l)
