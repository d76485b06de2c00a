-- ===== src/Evaluation/Laws.antt =====
-- What an evaluation takes to promote, and how a canary's account runs.
use ai_system_canonical.Prelude.{
  ◌≡◌, ◌≤◌, ◌+◌, refl, String, Bool, true, false, Option, none, some, List, [], ◌∷◌, is_cons, map,
  length, last?, arith,
}
use ai_system_canonical.Prelude.Floats.{Floats}
use ai_system_canonical.Experience.Gates.{min_heldout}
use ai_system_canonical.Evaluation.Regression.{
  SuiteResult, run_suite, check_regression, certify, drop_points, minus,
}
use ai_system_canonical.Evaluation.Offline.{Question, is_sensitive, rate, evaluate}

-- What stands behind a promotion: enough held-out tasks, no loss of success, a human's approval where it
-- is sensitive, and a baseline that the suite neither falls below nor fails anew against.
pub record IsSafe (N : Floats) (q : Question) (run_with run_without : String → Bool)
    (suites : List SuiteResult) (candidate : SuiteResult) (ids : List String) : Type 0 where
  pub enough : min_heldout ≤ length ids
  pub no_loss :
      N.le
        (N.of_nat 0)
        (N.round_to 4 (N.sub (rate N (map run_with ids)) (rate N (map run_without ids))))
      ≡ true
  pub approved : is_sensitive q ≡ true → q.human_approved ≡ true
  pub baseline : SuiteResult
  pub latest : last? suites ≡ some baseline
  pub none_new : is_cons (minus candidate.failures baseline.failures) ≡ false
  pub held : N.le (drop_points N candidate baseline) (N.decimal 20 1) ≡ true

module _ (N : Floats) where
  open N use {Float, le, decimal}

  certified :
      (suites : List SuiteResult) (candidate : SuiteResult)
      → (certify N suites candidate).passed ≡ true
      → (b : SuiteResult) × (last? suites ≡ some b)
        × (is_cons (minus candidate.failures b.failures) ≡ false)
        × (le (drop_points N candidate b) (decimal 20 1) ≡ true)
  unfolding certify check_regression
  certified suites candidate h = at_last (last? suites) refl
    where
      at_last :
          (o : Option SuiteResult)
          → last? suites ≡ o
          → (b : SuiteResult) × (last? suites ≡ some b)
            × (is_cons (minus candidate.failures b.failures) ≡ false)
            × (le (drop_points N candidate b) (decimal 20 1) ≡ true)
      at_last none e = absurd (ground arith)
      at_last (some b) e = (b, e, ground arith, ground arith)

  -- Where `evaluate`, with the guardrail certified against the stored baselines, promotes a change, at
  -- least 10 tasks were held out, the success with the change is not below that without it, to four
  -- digits, a human approved what is sensitive, a baseline is stored, no guardrail
  -- task fails that did not fail in the latest one, and the pass rate is at most 2.0 points below it.
  pub evaluate-IsSafe :
      (q : Question) (run_with run_without : String → Bool) (suites : List SuiteResult)
      (candidate : SuiteResult) (ids : List String)
      → (evaluate N q run_with run_without (some (certify N suites candidate)) ids).promotes ≡ true
      → IsSafe N q run_with run_without suites candidate ids
  unfolding evaluate
  evaluate-IsSafe q run_with run_without suites candidate ids h =
      let (b, e, f, g) = certified suites candidate (ground arith) in
      record {
        enough = ground arith;
        no_loss = ground arith;
        approved = λ k. ground arith;
        baseline = b;
        latest = e;
        none_new = f;
        held = g;
      }

-- the suite's counts add up: each task passed or is listed as failed
pub run_suite-counts :
    (run_one : String → Option Bool) (ts : List String)
    → let r = run_suite run_one ts in (r.n ≡ length ts) × (r.passed + length r.failures ≡ length ts)
unfolding run_suite
run_suite-counts run_one [] = (refl, refl)
run_suite-counts run_one (t ∷ ts) =
    let both = run_suite-counts run_one ts in (ground arith, ground arith)
