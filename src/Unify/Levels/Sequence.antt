-- ===== src/Unify/Levels/Sequence.antt =====
-- internal/compiler/check/unify/level_unify.go: two calls of UnifyLevels in a row.
use gicel.Prelude.{ℕ, ◌+◌, Option, none, some, ◌≡◌, refl, ap, ◌∙◌, arith}
use gicel.Prelude.Bytes.{Bytes}
use gicel.Levels.{LevelExpr, level_value}
use gicel.Unify.Trail.{Unifier}
use gicel.Unify.Levels.{LevelError, Unified, then_unify}
use gicel.Unify.Levels.Solving.{Step_trans}
use gicel.Unify.Levels.Ended.{Ended}

-- The equations of both parts give that of the whole.
abbrev pub Joined : LevelExpr → LevelExpr → LevelExpr → LevelExpr → LevelExpr → LevelExpr → Type 0
Joined a b c d x y =
    (v : Bytes → ℕ) (s : ℕ → ℕ)
    → level_value v s a ≡ level_value v s c
    → level_value v s b ≡ level_value v s d
    → level_value v s x ≡ level_value v s y

module _ {Ty Lbl Cb : Type 0} (bound : ℕ) where
  pub Ended-then_unify :
      (first : ℕ → Unified Ty Lbl Cb) (second : ℕ → Unifier Ty Lbl Cb → Unified Ty Lbl Cb)
      (u : Unifier Ty Lbl Cb) (a b c d x y : LevelExpr)
      → Joined a b c d x y
      → (one : Ended bound first u a c) → Ended bound (λ f. second f one.after) one.after b d
      → Ended bound (λ f. then_unify (first f) (second f)) u x y
  Ended-then_unify first second u a b c d x y j one two = by_error one.err refl
    where
      runs_both :
          (e : Option LevelError)
          → one.err ≡ e
          → (k : ℕ)
          → then_unify (first (one.fuel + two.fuel + k)) (second (one.fuel + two.fuel + k))
            ≡ then_unify (some (e, one.after)) (second (one.fuel + two.fuel + k))
      runs_both e q k =
          let shift : one.fuel + two.fuel + k ≡ one.fuel + (two.fuel + k) = omega arith in
          ap (λ t. then_unify t (second (one.fuel + two.fuel + k)))
            (ap first shift ∙ one.runs (two.fuel + k) ∙ ap (λ z. some (z, one.after)) q)

      by_error :
          (e : Option LevelError)
          → one.err ≡ e
          → Ended bound (λ f. then_unify (first f) (second f)) u x y
      by_error (some e) q = record {
        fuel = one.fuel + two.fuel;
        err = some e;
        after = one.after;
        runs = λ k. runs_both (some e) q k;
        solution = record { step = one.solution.step; equal = λ z. absurd (ground (arith, z)) };
      }
      by_error none q = record {
        fuel = one.fuel + two.fuel;
        err = two.err;
        after = two.after;
        runs = λ k.
            let shift : one.fuel + two.fuel + k ≡ two.fuel + (one.fuel + k) = omega arith in
            runs_both none q k ∙ ap (λ f. second f one.after) shift ∙ two.runs (one.fuel + k);
        solution = record {
          step = Step_trans bound _ _ _ one.solution.step two.solution.step;
          equal = λ z v s g.
              j v s (one.solution.equal q v s (two.solution.step.keeps v s g))
                (two.solution.equal z v s g);
        };
      }
