-- ===== src/Budget.antt =====
-- nexus/app/services/budget/tracker.py: limits and admission. Amounts are counted in ten-thousandths,
-- the precision that `spent` rounds to; `elapsed` is the rounded time since the tracker was made.
pub mod Laws
use ai_system_canonical.Prelude.{
  ℕ, ◌+◌, ◌*◌, ◌≤◌, Bool, true, false, List, [], ◌∷◌, ◌&&◌, ◌||◌, any, ltb, leb, is_cons,
  if◌then◌else◌, String, not,
}
use ai_system_canonical.Contracts.Task.{
  TaskClass, qa_explain, code_edit_local, code_edit_broad, debug, research_web, doc_analysis,
  authoring, planning_arch, ops, Dimension, wall_clock_s, steps, model_cost_usd, other_dimension,
}

abbrev pub unit : ℕ
unit = 10000

abbrev limits_of : ℕ → ℕ → ℕ → List (Dimension × ℕ)
limits_of wall n cost =
    (wall_clock_s, wall * unit) ∷ (steps, n * unit) ∷ (model_cost_usd, cost * 100) ∷ []

-- `_DEFAULTS`; the cost is given in cents
unfoldable pub default_budget : TaskClass → List (Dimension × ℕ)
default_budget code_edit_local = limits_of 300 8 50
default_budget code_edit_broad = limits_of 1200 16 200
default_budget debug = limits_of 900 12 150
default_budget research_web = limits_of 900 12 150
default_budget authoring = limits_of 900 10 100
default_budget qa_explain = limits_of 120 3 20
default_budget planning_arch = limits_of 600 4 200
default_budget doc_analysis = limits_of 300 4 50
default_budget ops = limits_of 600 8 50

pub record BudgetTracker : Type 0 where
  pub limits : List (Dimension × ℕ)
  pub steps_taken : ℕ
  pub cost : ℕ

unfoldable pub new_tracker : List (Dimension × ℕ) → TaskClass → BudgetTracker
new_tracker budget cls = record {
  limits = if is_cons budget then budget else default_budget cls;
  steps_taken = 0;
  cost = 0;
}

unfoldable pub add_step : BudgetTracker → BudgetTracker
add_step b = record b { steps_taken = b.steps_taken + 1 }

unfoldable pub add_cost : BudgetTracker → ℕ → BudgetTracker
add_cost b usd = record b { cost = b.cost + usd }

-- spent().get(dim, 0.0)
unfoldable pub spent : BudgetTracker → ℕ → Dimension → ℕ
spent b elapsed wall_clock_s = elapsed
spent b elapsed steps = b.steps_taken * unit
spent b elapsed model_cost_usd = b.cost
spent b elapsed (other_dimension name) = 0

-- some limited dimension has spent at least `num / 10` of its limit
reaches : ℕ → BudgetTracker → ℕ → Bool
unfolding spent
reaches num b elapsed =
    any (λ (d : Dimension × ℕ). ltb 0 d.1 && leb (num * d.1) (10 * spent b elapsed d.0)) b.limits

-- SOFT = 0.8
unfoldable pub over_soft : BudgetTracker → ℕ → Bool
unfolding reaches
over_soft = reaches 8

-- HARD = 1.0
unfoldable pub over_hard : BudgetTracker → ℕ → Bool
unfolding reaches
over_hard = reaches 10

extra : ℕ → Dimension → ℕ
extra n steps = n * unit
extra n _ = 0

unfoldable pub would_exceed : BudgetTracker → ℕ → ℕ → Bool
unfolding extra spent
would_exceed b elapsed extra_steps =
    any (λ (d : Dimension × ℕ). ltb 0 d.1 && ltb d.1 (spent b elapsed d.0 + extra extra_steps d.0))
      b.limits
