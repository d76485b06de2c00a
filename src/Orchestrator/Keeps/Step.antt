-- ===== src/Orchestrator/Keeps/Step.antt =====
-- An invariant is kept by a plan step, whichever way it ends.
use ai_system_canonical.Prelude.{String, Bool, List, [], ◌∷◌}
use ai_system_canonical.Contracts.{
  PlanStep, ActionProposal, PolicyDecision, CapabilityGrant, Decision, allow, require_approval,
  deny, require_verification, escalate,
}
use ai_system_canonical.Contracts.Task.{TaskContract}
use ai_system_canonical.Orchestrator.Act.{Act}
use ai_system_canonical.Orchestrator.Seams.{Stored, not_wired, kept, broken, Seams, BuildOutput}
use ai_system_canonical.Orchestrator.Base.{Run}
use ai_system_canonical.Orchestrator.Step.{
  on_stored, keep_artifact, time, grant_for, on_decision, refused, pass_policy, plan_file_grant,
  check_file, check_files, per_file_policy, check_changes, build, run_step,
}
use ai_system_canonical.Orchestrator.Keeps.{Keeps, keeps_rules, Keeps-bind, Keeps-pure}
use ai_system_canonical.Orchestrator.Invariant.{Invariant, record_note-Keeps}

on_decision-Keeps :
    {S A : Type 0} {P : S → Type 0} (d : Decision) (m ask bad : Act S A)
    → Keeps P m
    → Keeps P ask
    → Keeps P bad
    → Keeps P (on_decision d m ask bad)
unfolding on_decision
on_decision-Keeps allow m ask bad km ka kb = km
on_decision-Keeps require_approval m ask bad km ka kb = ka
on_decision-Keeps deny m ask bad km ka kb = kb
on_decision-Keeps require_verification m ask bad km ka kb = kb
on_decision-Keeps escalate m ask bad km ka kb = kb

module _ {W : Type 0} {P : Run W → Type 0} (inv : Invariant P) (sm : Seams W) (t : String) where
  grant_for-Keeps : (step : PlanStep) (ws : String) → Keeps P (grant_for sm t step ws)
  unfolding grant_for time
  grant_for-Keeps step ws = search (keeps_rules, record_note-Keeps inv) depth 12

  refused-Keeps :
      {A : Type 0} (action : String) (d : PolicyDecision) → Keeps P (refused sm t {A = A} action d)
  unfolding refused
  refused-Keeps action d = search (keeps_rules, inv.event) depth 12

  pass_policy-Keeps :
      (step : PlanStep) (p : ActionProposal) (d : PolicyDecision) (approved : List String)
      → Keeps P (pass_policy sm t step p d approved)
  unfolding pass_policy
  pass_policy-Keeps step p d approved =
      search (keeps_rules, on_decision-Keeps, refused-Keeps) depth 12

  plan_file_grant-Keeps :
      (steps : List PlanStep) (ws : String) → Keeps P (plan_file_grant sm t steps ws)
  unfolding plan_file_grant time
  plan_file_grant-Keeps steps ws = search (keeps_rules, inv.event) depth 12

  check_file-Keeps :
      (step : PlanStep) (ws : String) (g : CapabilityGrant) (rel : String)
      → Keeps P (check_file sm t step ws g rel)
  unfolding check_file
  check_file-Keeps step ws g rel =
      search (keeps_rules, inv.event, inv.called, inv.drawn, on_decision-Keeps, refused-Keeps) depth
        12

  check_files-Keeps :
      (step : PlanStep) (ws : String) (g : CapabilityGrant) (needs : Bool) (rels : List String)
      → Keeps P (check_files sm t step ws g needs rels)
  unfolding check_files
  check_files-Keeps step ws g needs [] = Keeps-pure needs
  check_files-Keeps step ws g needs (rel ∷ rest) =
      Keeps-bind _ _ (check_file-Keeps step ws g rel) (λ b. check_files-Keeps step ws g _ rest)

  per_file_policy-Keeps :
      (step : PlanStep) (ws : String) (g : CapabilityGrant) (changed approved : List String)
      (action : String)
      → Keeps P (per_file_policy sm t step ws g changed approved action)
  unfolding per_file_policy
  per_file_policy-Keeps step ws g changed approved action =
      search (keeps_rules, check_files-Keeps) depth 12

  check_changes-Keeps :
      (step : PlanStep) (ws : String) (g : CapabilityGrant) (out : BuildOutput)
      (approved : List String) (steps : List PlanStep) (action : String)
      → Keeps P (check_changes sm t step ws g out approved steps action)
  unfolding check_changes
  check_changes-Keeps step ws g out approved steps action =
      search (keeps_rules, per_file_policy-Keeps, plan_file_grant-Keeps) depth 12

  on_stored-Keeps : (o : Stored) → Keeps P (on_stored sm t o)
  unfolding on_stored
  on_stored-Keeps not_wired = Keeps-pure _
  on_stored-Keeps kept = Keeps-pure _
  on_stored-Keeps broken = search (keeps_rules, inv.event) depth 12

  pub keep_artifact-Keeps : Keeps P (keep_artifact sm t)
  unfolding keep_artifact
  keep_artifact-Keeps = search (keeps_rules, inv.drawn, on_stored-Keeps) depth 12

  build-Keeps : (step : PlanStep) (c : TaskContract) → Keeps P (build sm t step c)
  unfolding build
  build-Keeps step c = search (keeps_rules, inv.called) depth 12

  -- `_run_step` keeps the invariant.
  pub run_step-Keeps :
      (c : TaskContract) (step : PlanStep) (ws : String) (approved : List String)
      (steps : List PlanStep)
      → Keeps P (run_step sm t c step ws approved steps)
  unfolding run_step
  run_step-Keeps c step ws approved steps =
      search
        (
          keeps_rules, inv.event, inv.called, inv.drawn, grant_for-Keeps, pass_policy-Keeps,
          build-Keeps, keep_artifact-Keeps, check_changes-Keeps,
        )
        depth 24
