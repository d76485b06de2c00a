-- ===== src/Evaluation/Offline.antt =====
-- nexus/app/services/eval/offline_eval.py: the decision on a change from its held-out runs.
use ai_system_canonical.Prelude.{
  ℕ, suc, String, Bool, true, false, Option, none, some, List, [], ◌∷◌, ◌++◌, ◌&&◌, not, map,
  is_cons, length, leb, if◌then◌else◌,
}
use ai_system_canonical.Prelude.Text.{codes, lower}
use ai_system_canonical.Prelude.Floats.{Floats, ratio}
use ai_system_canonical.Experience.Gates.{min_heldout}
use ai_system_canonical.Experience.Evaluate.{is_marked}
use ai_system_canonical.Evaluation.Regression.{RegressionResult}

unfoldable pub count_true : List Bool → ℕ
count_true [] = 0
count_true (true ∷ bs) = suc (count_true bs)
count_true (false ∷ bs) = count_true bs

-- the reasons of a report, in the order of their tests
pub data Ground : Type 0 where
  few_tasks success_dropped guardrail_failed human_required held : Ground

pub record EvalReport (F : Type 0) : Type 0 where
  pub subject : String
  pub heldout_n : ℕ
  pub with_success : F
  pub without_success : F
  pub delta : F
  pub guardrail : Option (RegressionResult F)
  pub promotes : Bool
  pub needs_human : Bool
  pub why : Ground

-- What `evaluate` is called with beside the ids: the subject, its context, and a human's approval.
pub record Question : Type 0 where
  pub subject : String
  pub security_context : String
  pub human_approved : Bool

-- `touches_security(subject, security_context)`
unfoldable pub is_sensitive : Question → Bool
unfolding lower is_marked
is_sensitive q = is_marked (map lower (codes q.subject ++ b' ' ∷ codes q.security_context))

module _ (N : Floats) where
  open N use {Float, of_nat, sub, lt, le, round_to}

  -- `_rate`
  unfoldable pub rate : List Bool → Float
  unfolding count_true
  rate rs = if is_cons rs then ratio N (count_true rs) (length rs) else of_nat 0

  abbrev pub guardrail_ok : Option (RegressionResult Float) → Bool
  guardrail_ok none = true
  guardrail_ok (some r) = r.passed

  -- `evaluate`, from the runs with and without the change and the result of the guardrail gate
  unfoldable pub evaluate :
      Question
      → (String → Bool)
      → (String → Bool)
      → Option (RegressionResult Float)
      → List String
      → EvalReport Float
  unfolding rate
  evaluate q run_with run_without guardrail ids =
      let w = rate (map run_with ids) in
      let wo = rate (map run_without ids) in
      let delta = round_to 4 (sub w wo) in
      let enough = leb min_heldout (length ids) in
      let promote = enough && le (of_nat 0) delta && guardrail_ok guardrail in
      let needs_human = promote && is_sensitive q && not q.human_approved in
      record {
        subject = q.subject;
        heldout_n = length ids;
        with_success = w;
        without_success = wo;
        delta = delta;
        guardrail = guardrail;
        promotes = promote && not needs_human;
        needs_human = needs_human;
        why =
            if not enough
            then few_tasks
            else if lt delta (of_nat 0)
            then success_dropped
            else if not (guardrail_ok guardrail)
            then guardrail_failed
            else if needs_human
            then human_required
            else held;
      }
