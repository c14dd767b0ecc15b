-- ===== src/Unify/Trail/Tests.antt =====
-- Runs of the trail, and witnesses of its theorems.
use gicel.Prelude.{ℕ, Option, true, false, none, some, ◌≡◌, refl, []}
use gicel.Prelude.Int.{pos}
use gicel.Levels.{level_lit}
use gicel.Unify.Trail.{Unifier, put, snapshot, restore, begin_probe_isolated, end_probe_isolated}
use gicel.Unify.Trail.Actions.{
  Actions, done, write, trial, commit, isolated, given, run, solve_meta, solve_level, compress_soln,
  set_flex, label_context,
}
use gicel.Unify.Trail.Restore.{trial_rolls_back, end_probe_isolated-begin}

abbrev none_at : ℕ → Option ℕ
none_at i = none

-- A unifier in which metavariable 1 is solved and skolem 2 has a given equality.
abbrev one_solved : Unifier ℕ ℕ ℕ
one_solved = record {
  maps = record {
    soln = put none_at 1 (some 10);
    labels = none_at;
    skolem_soln = put none_at 2 (some 20);
    level_soln = λ i. none;
  };
  trail = [];
  snapshot_depth = pos 0;
  solver_level = pos 3;
  on_solve = some 8;
  family_reducer = some 9;
  alias_expander = none;
  flex_skolems = false;
}

abbrev some_work : Actions ℕ ℕ
some_work = write (solve_meta 4 40) (
    commit (write (compress_soln 1 11) (write (set_flex true) done)) (
      given 2 21
        (trial (write (solve_level 5 (level_lit 1)) done) (write (label_context 6 60) done))
        (isolated (write (solve_meta 7 70) done) done)))

trial_rolls_back_example :
    restore 0 (run some_work ((snapshot one_solved).1)) ≡ record one_solved { flex_skolems = true }
unfolding run snapshot restore
trial_rolls_back_example = trial_rolls_back one_solved 0 some_work refl

end_probe_isolated-begin_example :
    end_probe_isolated
      ((begin_probe_isolated one_solved).0)
      (run some_work ((begin_probe_isolated one_solved).1))
    ≡ one_solved
end_probe_isolated-begin_example = end_probe_isolated-begin one_solved 0 some_work refl
