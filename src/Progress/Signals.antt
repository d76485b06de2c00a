-- ===== src/Progress/Signals.antt =====
-- nexus/app/services/progress/signals.py: what counts as progress between two steps. Coverage is
-- counted in 1e-9 points, the tolerance of its comparison.
use ai_system_canonical.Prelude.{
  ℕ, ◌+◌, String, Bool, false, Option, none, some, List, [], ◌∷◌, ◌++◌, ◌&&◌, ◌||◌, not, any, ltb,
  is_cons, if◌then◌else◌,
}
use ai_system_canonical.Prelude.Text.{is_blank, mem_str}

pub record StepMeasurement : Type 0 where
  pub step_index : ℕ
  pub tests_passed : Option ℕ
  pub tests_total : Option ℕ
  pub error_count : Option ℕ
  pub coverage_pct : Option ℕ
  pub acceptance_met : Option Bool
  pub changed_paths : List String
  pub diff_text : String
  pub error_signature : Option String

unfoldable pub moved : StepMeasurement → Bool
moved m = is_cons m.changed_paths || not (is_blank m.diff_text)

-- both measured, and the first is below the second
abbrev both_below : Option ℕ → Option ℕ → Bool
both_below (some a) (some b) = ltb a b
both_below _ _ = false

-- x or 0
abbrev or_zero : Option ℕ → ℕ
or_zero none = 0
or_zero (some n) = n

abbrev truth : Option Bool → Bool
truth none = false
truth (some b) = b

abbrev above_tolerance : Option ℕ → Option ℕ → Bool
above_tolerance (some a) (some b) = ltb (a + 1) b
above_tolerance _ _ = false

module _ (prev cur : StepMeasurement) where
  unfoldable pub sig_tests_passed_up : Bool
  sig_tests_passed_up = both_below prev.tests_passed cur.tests_passed

  unfoldable pub sig_new_passing_test : Bool
  sig_new_passing_test =
      both_below prev.tests_total cur.tests_total
      && ltb (or_zero prev.tests_passed) (or_zero cur.tests_passed)

  unfoldable pub sig_errors_down : Bool
  sig_errors_down = both_below cur.error_count prev.error_count

  unfoldable pub sig_coverage_up : Bool
  sig_coverage_up = above_tolerance prev.coverage_pct cur.coverage_pct

  unfoldable pub sig_acceptance_flip : Bool
  sig_acceptance_flip = not (truth prev.acceptance_met) && truth cur.acceptance_met

unfoldable pub sig_new_target_file_touched : List String → StepMeasurement → Bool
sig_new_target_file_touched prev_paths cur = any (λ p. not (mem_str p prev_paths)) cur.changed_paths

pub data Signal : Type 0 where
  tests_passed_up new_passing_test errors_down coverage_up acceptance_flip new_target_file_touched :
      Signal

fired_if : Bool → Signal → List Signal
fired_if b s = if b then s ∷ [] else []

pair_signals : Option StepMeasurement → StepMeasurement → List Signal
unfolding fired_if
pair_signals none cur = []
pair_signals (some prev) cur =
    fired_if (sig_tests_passed_up prev cur) tests_passed_up
    ++ fired_if (sig_new_passing_test prev cur) new_passing_test
    ++ fired_if (sig_errors_down prev cur) errors_down
    ++ fired_if (sig_coverage_up prev cur) coverage_up
    ++ fired_if (sig_acceptance_flip prev cur) acceptance_flip

unfoldable pub hard_progress : Option StepMeasurement → StepMeasurement → List String → List Signal
unfolding pair_signals fired_if
hard_progress prev cur prior_touched =
    pair_signals prev cur
    ++ fired_if (sig_new_target_file_touched prior_touched cur) new_target_file_touched
