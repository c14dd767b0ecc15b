-- ===== src/Levels/Tests.antt =====
-- Runs of the normalisation.
use gicel.Prelude.{◌≡◌, refl, [], ◌∷◌}
use gicel.Levels.{
  LevelExpr, level_lit, level_var, level_max, level_succ, level_meta, level_value, normalize_level,
  level_equal, level_compare,
}
use gicel.Levels.Normal.{normalize_level-value}
use gicel.Levels.Symmetry.{normalize_level_comm}

abbrev nested : LevelExpr
nested = level_max (level_succ (level_lit 1)) (level_max (level_lit 0) (level_var (b'k' ∷ [])))

normalized : normalize_level nested ≡ level_max (level_lit 2) (level_var (b'k' ∷ []))
unfolding normalize_level level_equal level_compare
normalized = refl

normalize_level-value_example :
    level_value (λ x. 5) (λ i. i) (normalize_level nested) ≡ level_value (λ x. 5) (λ i. i) nested
normalize_level-value_example = normalize_level-value (λ x. 5) (λ i. i) nested

normalize_level_comm_example :
    (normalize_level (level_max nested (level_meta 3))
      ≡ normalize_level (level_max (level_meta 3) nested))
    × (normalize_level (level_max nested nested) ≡ normalize_level nested)
normalize_level_comm_example = normalize_level_comm nested (level_meta 3) (tt, (tt, tt)) tt
