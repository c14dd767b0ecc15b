-- ===== src/Unify/Levels/Assignment.antt =====
-- internal/compiler/check/unify/level_unify.go: the map of solutions without cycles, and the assignments
-- that agree with it.
use gicel.Prelude.{ℕ, ◌≤◌, ◌<◌, Bool, true, false, Option, none, some, ◌≡◌, refl, sym, ◌∙◌, arith}
use gicel.Prelude.Bytes.{Bytes}
use gicel.Levels.{
  LevelExpr, nil_level, level_lit, level_var, level_max, level_succ, level_meta, level_value,
}

abbrev pub is_some {ℓ} : {A : Type ℓ} → Option A → Bool
is_some none = false
is_some (some a) = true

abbrev pub Solved : Type 0
Solved = ℕ → Option LevelExpr

-- No metavariable of the level is solved, and it has no nil.
abbrev pub Clean : Solved → LevelExpr → Type 0
Clean m nil_level = ⊥
Clean m (level_lit n) = Unit
Clean m (level_var x) = Unit
Clean m (level_max a b) = Clean m a × Clean m b
Clean m (level_succ e) = Clean m e
Clean m (level_meta i) = is_some (m i) ≡ false

-- The solved metavariables of the level have a rank below the bound.
abbrev pub Below : (ℕ → ℕ) → Solved → ℕ → LevelExpr → Type 0
Below r m b nil_level = Unit
Below r m b (level_lit n) = Unit
Below r m b (level_var x) = Unit
Below r m b (level_max a c) = Below r m b a × Below r m b c
Below r m b (level_succ e) = Below r m b e
Below r m b (level_meta i) = is_some (m i) ≡ true → r i < b

-- The solutions have no cycle: what occurs in one has a lower rank. Ranks are below the limit.
abbrev pub Ranked : (ℕ → ℕ) → ℕ → Solved → Type 0
Ranked r limit m = (i : ℕ) (l : LevelExpr) → m i ≡ some l → (r i < limit) × Below r m (r i) l

-- The metavariables of the level have numbers below the bound, and those of all solutions.
abbrev pub Within : ℕ → LevelExpr → Type 0
Within bound nil_level = Unit
Within bound (level_lit n) = Unit
Within bound (level_var x) = Unit
Within bound (level_max a b) = Within bound a × Within bound b
Within bound (level_succ e) = Within bound e
Within bound (level_meta i) = i < bound

abbrev pub AllWithin : ℕ → Solved → Type 0
AllWithin bound m = (i : ℕ) (l : LevelExpr) → m i ≡ some l → Within bound l

-- The assignment agrees with the solutions of a rank below the bound.
abbrev pub Agrees : (ℕ → ℕ) → ℕ → (Bytes → ℕ) → (ℕ → ℕ) → Solved → Type 0
Agrees r b v s m = (i : ℕ) (l : LevelExpr) → m i ≡ some l → r i < b → s i ≡ level_value v s l

pub Clean-Below : (r : ℕ → ℕ) (m : Solved) (b : ℕ) (l : LevelExpr) → Clean m l → Below r m b l
Clean-Below r m b nil_level c = tt
Clean-Below r m b (level_lit n) c = tt
Clean-Below r m b (level_var x) c = tt
Clean-Below r m b (level_max a d) c = (Clean-Below r m b a c.0, Clean-Below r m b d c.1)
Clean-Below r m b (level_succ e) c = Clean-Below r m b e c
Clean-Below r m b (level_meta i) c = λ h. absurd (ground (arith, c, h))

-- Only which metavariables are solved matters.
abbrev pub SameSolved : Solved → Solved → Type 0
SameSolved m n = (i : ℕ) → is_some (n i) ≡ is_some (m i)

pub Below-congr :
    (r : ℕ → ℕ) (m n : Solved) (b : ℕ) (l : LevelExpr)
    → SameSolved m n
    → Below r m b l
    → Below r n b l
Below-congr r m n b nil_level e h = tt
Below-congr r m n b (level_lit k) e h = tt
Below-congr r m n b (level_var x) e h = tt
Below-congr r m n b (level_max a c) e h = (Below-congr r m n b a e h.0, Below-congr r m n b c e h.1)
Below-congr r m n b (level_succ l) e h = Below-congr r m n b l e h
Below-congr r m n b (level_meta i) e h = λ t. h (sym (e i) ∙ t)

pub Clean-congr : (m n : Solved) (l : LevelExpr) → SameSolved m n → Clean m l → Clean n l
Clean-congr m n nil_level e h = h
Clean-congr m n (level_lit k) e h = tt
Clean-congr m n (level_var x) e h = tt
Clean-congr m n (level_max a c) e h = (Clean-congr m n a e h.0, Clean-congr m n c e h.1)
Clean-congr m n (level_succ l) e h = Clean-congr m n l e h
Clean-congr m n (level_meta i) e h = e i ∙ h

module _ (r : ℕ → ℕ) (limit : ℕ) where
  -- What zonking gives for a level whose solved metavariables have a rank below the bound.
  pub record Post (b : ℕ) (m n : Solved) (l l' : LevelExpr) (changed : Bool) : Type 0 where
    pub ranked : Ranked r limit n
    pub same : SameSolved m n
    pub frame : (k : ℕ) → b ≤ r k → n k ≡ m k
    pub clean : Clean n l'
    pub kept : changed ≡ false → l' ≡ l
    pub back : (v : Bytes → ℕ) (s : ℕ → ℕ) → Agrees r b v s n → Agrees r b v s m
    pub forth : (v : Bytes → ℕ) (s : ℕ → ℕ) → Agrees r b v s m → Agrees r b v s n
    pub within :
        (bound : ℕ) → AllWithin bound m → Within bound l → AllWithin bound n × Within bound l'
    pub value :
        (v : Bytes → ℕ) (s : ℕ → ℕ) → Agrees r b v s n → level_value v s l' ≡ level_value v s l

  -- A level without metavariables of the map, and nothing written.
  pub Post-unchanged :
      (b : ℕ) (m : Solved) (l l' : LevelExpr) (c : Bool)
      → Ranked r limit m
      → Clean m l'
      → (c ≡ false → l' ≡ l)
      → ((bound : ℕ) → Within bound l → Within bound l')
      → ((v : Bytes → ℕ) (s : ℕ → ℕ) → level_value v s l' ≡ level_value v s l)
      → Post b m m l l' c
  Post-unchanged b m l l' c ranked clean kept within value = record {
    ranked = ranked;
    same = λ i. refl;
    frame = λ k h. refl;
    clean = clean;
    kept = kept;
    back = λ v s a. a;
    forth = λ v s a. a;
    within = λ bound a w. (a, within bound w);
    value = λ v s a. value v s;
  }
