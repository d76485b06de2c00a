-- ===== src/Experience/Operations.antt =====
-- nexus/app/services/experience/store.py: the operations that use the gates.
use ai_system_canonical.Prelude.{
  ℕ, ◌+◌, ◌-◌, String, Bool, true, false, Option, none, some, List, [], ◌∷◌, ◌++◌, ◌&&◌, not, ltb,
  str_eq, if◌then◌else◌,
}
use ai_system_canonical.Prelude.Act.{pure, gets, ◌>>=◌, ◌>>◌}
use ai_system_canonical.Prelude.Floats.{Floats}
use ai_system_canonical.Experience.{
  ExperienceRecord, observed, candidate, validated, promoted, monitored, stale, quarantined,
  Metrics, ShadowRun, Why, after_promoted, reported, no_metrics, state_eq,
}
use ai_system_canonical.Experience.Gates.{
  gate_observed_to_candidate, gate_candidate_to_validated, should_go_stale, should_quarantine,
  count_or, value_or,
}
use ai_system_canonical.Experience.Evaluate.{PromoteDecision, promote_decision}
use ai_system_canonical.Experience.Store.{
  Act, represented, by_states, insert, update, get, is_live, move_to, advance,
}

-- What `capture` is called with, and what the record's defaults draw: an id and a time.
pub record Capture (F : Type 0) : Type 0 where
  pub signature : String
  pub strategy : String
  pub actions : List String
  pub evidence_refs : List String
  pub success_score : F
  pub verify_tier : String
  pub id : String
  pub ts : F

-- What `try_promote` reads of an `EvalReport`: `guardrail_drop` is abs(report.guardrail.drop_pp).
pub record Report (F : Type 0) : Type 0 where
  pub decision : String
  pub why : String
  pub guardrail_drop : Option F
  pub heldout_n : ℕ

module _ {F : Type 0} where
  -- a new record, as `capture` makes it: its outcome is the tier of the code's `verified@tier`
  abbrev pub captured : Capture F → ExperienceRecord F
  captured c = record {
    id = c.id;
    signature = c.signature;
    strategy = c.strategy;
    actions = c.actions;
    outcome = c.verify_tier;
    evidence_refs = c.evidence_refs;
    success_score = c.success_score;
    validation_state = observed;
    scope = "global";
    version = 1;
    promotion_history = [];
    monitoring_metrics = no_metrics;
    shadow_replay_log = [];
    guardrail_result = none;
    ts = c.ts;
  }

  abbrev pub admitted : Bool × Why → ExperienceRecord F → ExperienceRecord F
  admitted (false, _) exp = exp
  admitted (true, why) exp = move_to candidate why exp

  -- `capture`
  unfoldable pub capture : Capture F → Act F (ExperienceRecord F)
  capture c = do
    old ← gets (represented c.signature c.strategy)
    let exp : ExperienceRecord F =
        admitted (gate_observed_to_candidate c.verify_tier (not old)) (captured c)
    insert exp
    pure exp

  -- `add_shadow_result`, with the week that it is given or reads from the clock
  unfoldable pub add_shadow_result : String → ShadowRun F → Act F (ExperienceRecord F)
  add_shadow_result exp_id run = do
    exp ← get exp_id
    let exp' : ExperienceRecord F = record exp {
      shadow_replay_log = exp.shadow_replay_log ++ run ∷ [];
    }
    update exp'
    pure exp'

  -- the record with a report folded in
  abbrev pub with_guardrail : Option F → ExperienceRecord F → ExperienceRecord F
  with_guardrail none exp = exp
  with_guardrail (some drop) exp = record exp { guardrail_result = some drop }

  abbrev pub with_report : Report F → ExperienceRecord F → ExperienceRecord F
  with_report r exp = record (with_guardrail r.guardrail_drop exp) {
    monitoring_metrics = record exp.monitoring_metrics { heldout_n = some r.heldout_n };
  }

  -- the end of `try_promote`: VALIDATED goes to PROMOTED, and on to MONITORED
  unfoldable pub promote : String → Bool → Why → ExperienceRecord F → Act F (ExperienceRecord F)
  promote exp_id accepted why exp =
      if accepted && state_eq exp.validation_state validated
      then advance exp_id promoted why >> advance exp_id monitored after_promoted
      else pure exp

  -- `try_promote` with a report
  unfoldable pub promote_on : String → Report F → Act F (ExperienceRecord F)
  promote_on exp_id r = do
    exp ← get exp_id
    let exp' : ExperienceRecord F = with_report r exp
    update exp'
    promote exp_id (str_eq r.decision "promote") (reported r.why) exp'

module _ (N : Floats) where
  open N use {Float, of_nat, add, mul, div}

  -- the metrics after one more use
  unfoldable pub after_use : Metrics Float → Bool → Metrics Float
  after_use m verified =
      let n = count_or N 0 m.trailing_n + 1 in
      let succ = value_or N (of_nat 1) m.trailing_success in
      record m {
        trailing_n = some (if ltb n 20 then n else 20);
        trailing_success =
            some (
              div (add (mul succ (of_nat (n - 1))) (of_nat (if verified then 1 else 0)))
                (of_nat n));
      }

  -- the end of `record_use`: quarantine first, then staleness
  unfoldable pub settle_use :
      String → ExperienceRecord Float → Bool × Why → Bool × Why → Act Float (ExperienceRecord Float)
  settle_use exp_id exp (q, why) (s, swhy) =
      if q && not (state_eq exp.validation_state quarantined)
      then advance exp_id quarantined why
      else if s && is_live exp.validation_state
      then advance exp_id stale swhy
      else pure exp

  -- `record_use`
  unfoldable pub record_use : String → Bool → Bool → Act Float (ExperienceRecord Float)
  record_use exp_id verified catastrophic = do
    exp ← get exp_id
    let exp' : ExperienceRecord Float = record exp {
      monitoring_metrics = after_use exp.monitoring_metrics verified;
    }
    update exp'
    settle_use exp_id exp' (should_quarantine N exp' catastrophic) (should_go_stale N exp')

  abbrev pub validating :
      String → Bool × Why → ExperienceRecord Float → Act Float (ExperienceRecord Float × Bool × Why)
  validating exp_id (passed, why) exp =
      if passed && state_eq exp.validation_state candidate
      then (advance exp_id validated why >>= λ exp'. pure (exp', true, why))
      else pure (exp, false, why)

  -- `try_validate`
  unfoldable pub try_validate : String → Act Float (ExperienceRecord Float × Bool × Why)
  try_validate exp_id = do
    exp ← get exp_id
    validating exp_id (gate_candidate_to_validated N exp) exp

  -- `try_promote` without a report
  unfoldable pub try_promote : String → Bool → Act Float (ExperienceRecord Float × PromoteDecision)
  try_promote exp_id human_approved = do
    exp ← get exp_id
    let (exp', decision) = promote_decision N exp human_approved
    update exp'
    exp'' ← promote exp_id decision.accepted decision.why exp'
    pure (exp'', decision)

  -- the rest of the list after one more record, which is kept if it moved
  abbrev pub swept :
      ExperienceRecord Float
      → Bool × Why
      → Act Float (List (ExperienceRecord Float))
      → Act Float (List (ExperienceRecord Float))
  swept exp (false, _) rest = rest
  swept exp (true, why) rest = do moved ← advance exp.id stale why; more ← rest; pure (moved ∷ more)

  unfoldable pub sweep : List (ExperienceRecord Float) → Act Float (List (ExperienceRecord Float))
  sweep [] = pure []
  sweep (exp ∷ exps) = swept exp (should_go_stale N exp) (sweep exps)

  -- `sweep_stale`
  unfoldable pub sweep_stale : Act Float (List (ExperienceRecord Float))
  unfolding sweep
  sweep_stale = do live ← gets (by_states is_live); sweep live
