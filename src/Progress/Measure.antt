-- ===== src/Progress/Measure.antt =====
-- nexus/app/services/progress/measure.py: pytest's summary counts and the measurement of a step.
use mathlib.Core.Option
use ai_system_canonical.Prelude.{
  ℕ, ◌+◌, ◌-◌, ◌*◌, String, Bool, true, false, Option, none, some, List, [], ◌∷◌, ◌&&◌, ltb, leb,
  ◌==◌, is_some, if◌then◌else◌,
}
use ai_system_canonical.Prelude.Text.{codes, is_prefix_of, is_empty}
use ai_system_canonical.Progress.Signals.{StepMeasurement}

is_digit : ℕ → Bool
is_digit c = leb b'0' c && leb c b'9'

-- `(\d+)` and then the word; `seen` says whether a digit was read
count_here : List ℕ → ℕ → Bool → List ℕ → Option ℕ
unfolding is_digit
count_here word n seen [] = none
count_here word n seen (c ∷ cs) =
    let more = count_here word (n * 10 + (c - b'0')) true cs in
    if is_digit c then more else if seen && is_prefix_of word (c ∷ cs) then some n else none

-- the first match in the text
find_count : List ℕ → List ℕ → Option ℕ
unfolding count_here
find_count word [] = none
find_count word (c ∷ cs) =
    let rest = find_count word cs in
    elim (count_here word 0 false (c ∷ cs)) [ some n ↦ some n | none ↦ rest ]

abbrev or_zero : Option ℕ → ℕ
or_zero none = 0
or_zero (some n) = n

-- (passed, failed + errors), or `none` if no summary is found
unfoldable pub parse_pytest_counts : List ℕ → Option (ℕ × ℕ)
unfolding find_count
parse_pytest_counts out =
    let passed = find_count (codes " passed") out in
    let failed = find_count (codes " failed") out in
    let errors = find_count (codes " error") out in
    if is_some passed
    then some (or_zero passed, or_zero failed + or_zero errors)
    else if is_some failed
    then some (or_zero passed, or_zero failed + or_zero errors)
    else if is_some errors
    then some (or_zero passed, or_zero failed + or_zero errors)
    else none

-- `normalize_error`, which hashes, is a parameter
module _ (normalize_error : String → Option String) where
  unfoldable pub measure_step : ℕ → String → List String → String → String → StepMeasurement
  measure_step step_index pytest_output changed_paths diff_text stderr =
      let counts = parse_pytest_counts (codes pytest_output) in
      record {
        step_index = step_index;
        tests_passed = Option.map (λ (c : ℕ × ℕ). c.0) counts;
        tests_total = Option.map (λ (c : ℕ × ℕ). c.0 + c.1) counts;
        error_count = none;
        coverage_pct = none;
        acceptance_met = Option.map (λ (c : ℕ × ℕ). c.1 == 0 && ltb 0 c.0) counts;
        changed_paths = changed_paths;
        diff_text = diff_text;
        error_signature = elim counts [
          | none ↦ none
          | some c ↦
              if c.1 == 0
              then none
              else normalize_error (if is_empty stderr then pytest_output else stderr)
        ];
      }
