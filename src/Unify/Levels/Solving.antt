-- ===== src/Unify/Levels/Solving.antt =====
-- internal/compiler/check/unify/level_unify.go: a solution that is added keeps the map without cycles.
use gicel.Prelude.{
  ℕ, zero, suc, ◌+◌, ◌≤◌, ◌<◌, ◌==◌, true, false, some, if◌then◌else◌, ◌≡◌, refl, ap, ap₂, ◌∙◌, ◌⊎◌,
  arith, Bool-cases, inl, inr, ==_iff,
}
use gicel.Prelude.Bytes.{Bytes}
use gicel.Levels.{
  LevelExpr, nil_level, level_lit, level_var, level_max, level_succ, level_meta, level_value,
}
use gicel.Unify.Trail.{put}
use gicel.Unify.Levels.{level_occurs_in}
use gicel.Unify.Levels.Assignment.{is_some, Solved, Clean, Below, Ranked, AllWithin, SameSolved}

-- The solved metavariables below the bound.
abbrev pub solved_count : ℕ → Solved → ℕ
solved_count zero m = 0
solved_count (suc n) m = solved_count n m + (if is_some (m n) then 1 else 0)

pub solved_count_le : (n : ℕ) (m : Solved) → solved_count n m ≤ n
solved_count_le zero m = omega arith
solved_count_le (suc n) m = ground (arith, solved_count_le n m)

pub solved_count_congr :
    (n : ℕ) (m p : Solved) → SameSolved m p → solved_count n p ≡ solved_count n m
solved_count_congr zero m p e = refl
solved_count_congr (suc n) m p e =
    ap₂ (λ a b. a + (if b then 1 else 0)) (solved_count_congr n m p e) (e n)

solved_count-put_above :
    (n i : ℕ) (m : Solved) (l : LevelExpr)
    → n ≤ i
    → solved_count n (put m i (some l)) ≡ solved_count n m
solved_count-put_above zero i m l h = refl
solved_count-put_above (suc n) i m l h =
    ground (arith, solved_count-put_above n i m l (omega (arith, h)), h)

pub solved_count-put :
    (n i : ℕ) (m : Solved) (l : LevelExpr)
    → i < n
    → is_some (m i) ≡ false
    → solved_count n (put m i (some l)) ≡ suc (solved_count n m)
solved_count-put zero i m l h e = elim h [ ]
solved_count-put (suc n) i m l h e = elim (Bool-cases (i == n)) [
  | inl t ↦
      let q = (==_iff i n).0 t in
      ground (arith, solved_count-put_above n i m l (omega (arith, q)), e, t, ap m q)
  | inr t ↦ ground (arith, solved_count-put n i m l (ground (arith, h, t)) e, t)
]

-- The map of solutions has no cycle, and its metavariables have numbers below the bound.
pub record Wf (bound : ℕ) (m : Solved) : Type 0 where
  pub rank : ℕ → ℕ
  pub ranked : Ranked rank (solved_count bound m) m
  pub all_within : AllWithin bound m
  pub solved_within : (i : ℕ) → is_some (m i) ≡ true → i < bound

-- The assignment agrees with all solutions.
abbrev pub Fits : (Bytes → ℕ) → (ℕ → ℕ) → Solved → Type 0
Fits v s m = (i : ℕ) (l : LevelExpr) → m i ≡ some l → s i ≡ level_value v s l

-- What a step keeps, and what it has solved.
pub record Step (bound : ℕ) (m p : Solved) : Type 0 where
  pub wf : Wf bound p
  pub progress : SameSolved m p ⊎ (solved_count bound m < solved_count bound p)
  pub keeps : (v : Bytes → ℕ) (s : ℕ → ℕ) → Fits v s p → Fits v s m

pub Step_none : (bound : ℕ) (m : Solved) → Wf bound m → Step bound m m
Step_none bound m w = record { wf = w; progress = inl (λ i. refl); keeps = λ v s f. f }

pub Step_trans : (bound : ℕ) (m n p : Solved) → Step bound m n → Step bound n p → Step bound m p
Step_trans bound m n p a b = record {
  wf = b.wf;
  progress = elim a.progress [
    | inl e ↦ elim b.progress [
      | inl f ↦ inl (λ i. f i ∙ e i)
      | inr g ↦ inr (omega (arith, g, solved_count_congr bound m n e))
    ]
    | inr g ↦ elim b.progress [
      | inl f ↦ inr (omega (arith, g, solved_count_congr bound n p f))
      | inr k ↦ inr (omega (arith, g, k))
    ]
  ];
  keeps = λ v s f. a.keeps v s (b.keeps v s f);
}

-- Below every rank, apart from the metavariable that is solved.
pub Below-new :
    (r : ℕ → ℕ) (m : Solved) (i b : ℕ) (l l' : LevelExpr)
    → Clean m l
    → level_occurs_in i l ≡ false
    → Below r (put m i (some l')) b l
unfolding level_occurs_in
Below-new r m i b nil_level l' c o = tt
Below-new r m i b (level_lit n) l' c o = tt
Below-new r m i b (level_var x) l' c o = tt
Below-new r m i b (level_max x y) l' c o =
    (Below-new r m i b x l' c.0 (ground (arith, o)), Below-new r m i b y l' c.1 (ground (arith, o)))
Below-new r m i b (level_succ x) l' c o = Below-new r m i b x l' c o
Below-new r m i b (level_meta j) l' c o = λ h. absurd (ground (arith, c, o, h))

pub Below-raised :
    (r : ℕ → ℕ) (m : Solved) (i b : ℕ) (l l' : LevelExpr)
    → Below r m b l
    → Below (λ k. if k == i then 0 else suc (r k)) (put m i (some l')) (suc b) l
Below-raised r m i b nil_level l' h = tt
Below-raised r m i b (level_lit n) l' h = tt
Below-raised r m i b (level_var x) l' h = tt
Below-raised r m i b (level_max x y) l' h =
    (Below-raised r m i b x l' h.0, Below-raised r m i b y l' h.1)
Below-raised r m i b (level_succ x) l' h = Below-raised r m i b x l' h
Below-raised r m i b (level_meta j) l' h = λ t. ground (arith, t, h)
