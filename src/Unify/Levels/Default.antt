-- ===== src/Unify/Levels/Default.antt =====
-- internal/compiler/check/unify/level_unify.go: ZonkLevelDefault, where no metavariable is left.
use gicel.Prelude.{
  ℕ, zero, suc, ◌≤◌, ◌<◌, Option, none, some, ◌≡◌, refl, sym, ap, ap₂, ◌∙◌, arith, max,
}
use gicel.Prelude.Bytes.{Bytes}
use gicel.Levels.{
  LevelExpr, nil_level, level_lit, level_var, level_max, level_succ, level_meta, level_value,
  normalize_level,
}
use gicel.Levels.Normal.{normalize_level-value}
use gicel.Unify.Levels.{default_with, zonk_level_default}
use gicel.Unify.Levels.Assignment.{is_some, Solved, Clean, Below, Ranked}
use gicel.Unify.Levels.Solving.{solved_count, solved_count_le, Wf, Fits}
use gicel.Unify.Levels.Normal.{normalize_level-Clean}
use gicel.Unify.Levels.Total.{Ranked-Below_limit}

abbrev all_solved : Solved
all_solved i = some nil_level

-- The level has no metavariable and no nil.
abbrev pub Ground : LevelExpr → Type 0
Ground l = Clean all_solved l

-- The metavariables without a solution are zero.
abbrev pub ZeroElsewhere : (ℕ → ℕ) → Solved → Type 0
ZeroElsewhere s m = (i : ℕ) → m i ≡ none → s i ≡ 0

pub record Defaulted (m : Solved) (l : LevelExpr) (o : Option LevelExpr) : Type 0 where
  pub level : LevelExpr
  pub returns : o ≡ some level
  pub is_ground : Ground level
  pub value :
      (v : Bytes → ℕ) (s : ℕ → ℕ)
      → Fits v s m
      → ZeroElsewhere s m
      → level_value v s level ≡ level_value v s l

module _ (r : ℕ → ℕ) (m : Solved) where
  default_with-Defaulted :
      (next : LevelExpr → Option LevelExpr) (b : ℕ) (l : LevelExpr)
      → ((i : ℕ) (soln : LevelExpr) → m i ≡ some soln → r i < b → Defaulted m soln (next soln))
      → Below r m b l
      → Defaulted m l (default_with next m l)
  default_with-Defaulted next b nil_level h low = record {
    level = level_lit 0;
    returns = refl;
    is_ground = tt;
    value = λ v s f z. refl;
  }
  default_with-Defaulted next b (level_lit n) h low = record {
    level = level_lit n;
    returns = refl;
    is_ground = tt;
    value = λ v s f z. refl;
  }
  default_with-Defaulted next b (level_var x) h low = record {
    level = level_var x;
    returns = refl;
    is_ground = tt;
    value = λ v s f z. refl;
  }
  default_with-Defaulted next b (level_succ e) h low =
      let p = default_with-Defaulted next b e h low in
      record {
        level = normalize_level (level_succ p.level);
        returns = rw (p.returns) refl;
        is_ground = normalize_level-Clean all_solved (level_succ p.level) p.is_ground;
        value =
            λ v s f z. normalize_level-value v s (level_succ p.level) ∙ ap suc (p.value v s f z);
      }
  default_with-Defaulted next b (level_max c d) h low =
      let p = default_with-Defaulted next b c h low.0 in
      let q = default_with-Defaulted next b d h low.1 in
      record {
        level = normalize_level (level_max p.level q.level);
        returns = rw (p.returns, q.returns) refl;
        is_ground =
            normalize_level-Clean all_solved (level_max p.level q.level) (p.is_ground, q.is_ground);
        value = λ v s f z.
            normalize_level-value v s (level_max p.level q.level)
            ∙ ap₂ max (p.value v s f z) (q.value v s f z);
      }
  default_with-Defaulted next b (level_meta i) h low = by_entry (m i) refl
    where
      by_entry :
          (o : Option LevelExpr)
          → m i ≡ o
          → Defaulted m
              (level_meta i)
              (elim o [ none ↦ some (level_lit 0) | some soln ↦ next soln ])
      by_entry none e = record {
        level = level_lit 0;
        returns = refl;
        is_ground = tt;
        value = λ v s f z. sym (z i e);
      }
      by_entry (some soln) e =
          let p = h i soln e (low (ap is_some e)) in
          record {
            level = p.level;
            returns = p.returns;
            is_ground = p.is_ground;
            value = λ v s f z. p.value v s f z ∙ sym (f i soln e);
          }

  zonk_level_default-Defaulted :
      (limit fuel b : ℕ) (l : LevelExpr)
      → Ranked r limit m
      → b ≤ fuel
      → Below r m b l
      → Defaulted m l (zonk_level_default fuel m l)
  unfolding zonk_level_default
  zonk_level_default-Defaulted limit zero b l w n low =
      default_with-Defaulted (λ soln. none) b l (λ i soln e t. absurd (omega (arith, n, t))) low
  zonk_level_default-Defaulted limit (suc fuel) b l w n low =
      default_with-Defaulted (zonk_level_default fuel m) b l
        (λ i soln e t.
          zonk_level_default-Defaulted limit fuel (r i) soln w (omega (arith, n, t))
            ((w i soln e).1))
        low

-- Where the solutions have no cycle and all their metavariables have numbers below the bound, zonking
-- with defaults returns a level with the bound as its fuel. There is no metavariable in it, and it has
-- the value of the level under every assignment that fits the solutions and is zero where there is none.
pub zonk_level_default_ends :
    (bound : ℕ) (m : Solved) (l : LevelExpr)
    → Wf bound m
    → Defaulted m l (zonk_level_default bound m l)
zonk_level_default_ends bound m l w =
    zonk_level_default-Defaulted w.rank m (solved_count bound m) bound (solved_count bound m) l
      w.ranked (solved_count_le bound m)
      (Ranked-Below_limit w.rank (solved_count bound m) m l w.ranked)
