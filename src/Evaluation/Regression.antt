-- ===== src/Evaluation/Regression.antt =====
-- nexus/app/services/eval/guardrail.py and regression.py: the suite's run and the gate on its result.
use ai_system_canonical.Prelude.{
  ℕ, suc, String, Bool, true, false, Option, none, some, List, [], ◌∷◌, ◌&&◌, not, is_cons, last?,
  ◌==◌, if◌then◌else◌,
}
use ai_system_canonical.Prelude.Text.{mem_str}
use ai_system_canonical.Prelude.Floats.{Floats, ratio}

pub record SuiteResult : Type 0 where
  pub n : ℕ
  pub passed : ℕ
  pub failures : List String

-- `GuardrailSuite.run` over the ids of the tasks: `none` is a run that raised
unfoldable pub run_suite : (String → Option Bool) → List String → SuiteResult
run_suite run_one [] = record { n = 0; passed = 0; failures = [] }
run_suite run_one (t ∷ ts) =
    let rest = run_suite run_one ts in
    elim (run_one t) [
      | some true ↦ record rest { n = suc rest.n; passed = suc rest.passed }
      | some false ↦ record rest { n = suc rest.n; failures = t ∷ rest.failures }
      | none ↦ record rest { n = suc rest.n; failures = t ∷ rest.failures }
    ]

-- the members of the first list that are not in the second, each once; the code sorts them
unfoldable pub minus : List String → List String → List String
unfolding mem_str
minus [] ys = []
minus (x ∷ xs) ys =
    let rest = minus xs ys in if not (mem_str x ys) && not (mem_str x rest) then x ∷ rest else rest

pub record RegressionResult (F : Type 0) : Type 0 where
  pub passed : Bool
  pub drop_pp : F
  pub newly_failing : List String
  pub recovered : List String

module _ (N : Floats) where
  open N use {Float, of_nat, decimal, sub, mul, le, round_to}

  -- `pass_rate`
  unfoldable pub pass_rate : SuiteResult → Float
  pass_rate r = if r.n == 0 then of_nat 0 else ratio N r.passed r.n

  unfoldable pub drop_points : SuiteResult → SuiteResult → Float
  unfolding pass_rate
  drop_points candidate baseline = mul (sub (pass_rate baseline) (pass_rate candidate)) (of_nat 100)

  unfoldable pub check_regression : SuiteResult → SuiteResult → RegressionResult Float
  check_regression candidate baseline =
      let newly = minus candidate.failures baseline.failures in
      let drop = drop_points candidate baseline in
      record {
        passed = le drop (decimal 20 1) && not (is_cons newly);
        drop_pp = round_to 2 drop;
        newly_failing = newly;
        recovered = minus baseline.failures candidate.failures;
      }

  -- `certify` against the baselines that the memory holds, oldest first
  unfoldable pub certify : List SuiteResult → SuiteResult → RegressionResult Float
  certify baselines candidate = elim (last? baselines) [
    | none ↦ record { passed = false; drop_pp = of_nat 0; newly_failing = []; recovered = [] }
    | some baseline ↦ check_regression candidate baseline
  ]
