-- ===== src/Orchestrator/Step.antt =====
-- nexus/app/orchestration/orchestrator.py: one plan step, `_run_step`, with `_plan_file_grant` and
-- `_per_file_policy`.
use ai_system_canonical.Prelude.{
  ℕ, String, Bool, true, false, Option, none, some, List, [], ◌∷◌, ◌++◌, ◌&&◌, ◌||◌, not, is_cons,
  ltb, length, str_eq, ◌==◌, if◌then◌else◌,
}
use Prim.Native.String.{◌++◌ as ◌<>◌}
use ai_system_canonical.Prelude.Text.{is_empty, mem_str}
use ai_system_canonical.Contracts.{
  PlanStep, ActionProposal, CapabilityGrant, PolicyDecision, Decision, allow, require_approval,
  Rule, tainted_side_effect, text, user, allows_operation,
}
use ai_system_canonical.Contracts.Task.{TaskContract}
use ai_system_canonical.Capability.{issue_grant, normalize_token, primary_operation, spec_for}
use ai_system_canonical.Events.{
  error, progress, action_proposal, policy_decision, observation, artifact, capability_grant,
  taint_blocked,
}
use ai_system_canonical.Orchestrator.Act.{
  Act, build_error, capability_error, approval_pause, pure, throw, on_option, gets, ◌>>=◌, ◌>>◌,
}
use ai_system_canonical.Orchestrator.Seams.{
  Stored, not_wired, kept, broken, Seams, BuildOutput, primary, fallback,
}
use ai_system_canonical.Orchestrator.Base.{Run, call, draw, record_event, record_note}

-- the operations of every token of the plan that is registered
unfoldable pub plan_operations : List PlanStep → List String
plan_operations [] = []
plan_operations (s ∷ rest) =
    let others = plan_operations rest in
    elim (spec_for s.required_capability) [ none ↦ others | some spec ↦ spec.operations ++ others ]

-- the grant of `_plan_file_grant`, made at a time; a CapabilityGrant lives an hour by default
unfoldable pub widened : List PlanStep → String → ℕ → CapabilityGrant
unfolding plan_operations
widened steps ws now = record {
  step_id = "plan";
  token = "plan";
  scope_path = ws;
  operations = plan_operations steps;
  network_allowlist = [];
  issued_at = now;
  ttl = 3600;
}

unfoldable pub build_failed : BuildOutput → Bool
build_failed out =
    (elim out.error [ none ↦ false | some e ↦ not (is_empty e) ]) || not (out.exit_code == 0)

-- the branches on a decision: allowed, to be approved, and the rest
unfoldable pub on_decision : {S A : Type 0} → Decision → Act S A → Act S A → Act S A → Act S A
on_decision allow m ask bad = m
on_decision require_approval m ask bad = ask
on_decision _ m ask bad = bad

unfoldable pub is_taint_block : Rule → Bool
is_taint_block tainted_side_effect = true
is_taint_block _ = false

module _ {W : Type 0} (sm : Seams W) (t : String) where
  -- a denial, or a decision that is neither: a taint block is logged before it raises
  unfoldable pub refused : {A : Type 0} → String → PolicyDecision → Act (Run W) A
  unfolding is_taint_block
  refused action d =
      if is_taint_block d.rule
      then (do record_event t (taint_blocked action); throw build_error)
      else throw build_error

  unfoldable pub time : Act (Run W) ℕ
  time = gets (λ (s : Run W). sm.now s.world)

  unfoldable pub on_stored : Stored → Act (Run W) Bool
  on_stored not_wired = pure false
  on_stored kept = pure true
  on_stored broken = do record_event t (error "artifact store"); pure false

  -- `_store_artifact`: was it kept?
  unfoldable pub keep_artifact : Act (Run W) Bool
  unfolding on_stored
  keep_artifact = do o ← draw sm.store_artifact; on_stored o

  -- the grant for a step, its token repaired if it names no capability
  unfoldable pub grant_for : PlanStep → String → Act (Run W) (PlanStep × CapabilityGrant)
  unfolding time
  grant_for step ws = do
    now ← time
    on_option (issue_grant step ws [] now)
        (let fixed = normalize_token step.required_capability in
          let step' : PlanStep = record step { required_capability = fixed } in
          if str_eq fixed step.required_capability then throw build_error else do
            record_note t progress
            on_option (issue_grant step' ws [] now) (throw capability_error) (λ g. pure (step', g)))
        (λ g. pure (step, g))

  -- what the decision on the step's proposal lets through
  unfoldable pub pass_policy :
      PlanStep → ActionProposal → PolicyDecision → List String → Act (Run W) (Unit {0})
  unfolding refused
  pass_policy step p d approved =
      on_decision d.decision (pure tt)
        (if mem_str step.id approved then pure tt else throw (approval_pause p.action_id step.id))
        (refused p.action_id d)

  -- `_plan_file_grant`
  unfoldable pub plan_file_grant : List PlanStep → String → Act (Run W) (Option CapabilityGrant)
  unfolding time widened
  plan_file_grant steps ws =
      if ltb (length steps) 2 || not (is_cons (plan_operations steps)) then pure none else do
        now ← time
        record_event t (capability_grant (widened steps ws now))
        pure (some (widened steps ws now))

  unfoldable pub file_proposal : PlanStep → String → String → String → ActionProposal
  file_proposal step ws action rel = record {
    action_id = action;
    step_id = step.id;
    operation = "file.write";
    arguments = ("path", text rel) ∷ [];
    required_capability = "fs.write";
    workspace_scope = ws;
    idempotency_key = t <> ":" <> step.id <> ":" <> rel;
    trust = user;
  }

  -- one changed file: does it need approval?
  unfoldable pub check_file : PlanStep → String → CapabilityGrant → String → Act (Run W) Bool
  unfolding file_proposal refused
  check_file step ws g rel = do
    action ← draw sm.new_id
    d ← call (sm.decide (file_proposal step ws action rel) g)
    record_event t (policy_decision d)
    on_decision d.decision (pure false) (pure true) (refused action d)

  -- the loop of `_per_file_policy`: did some file need approval?
  unfoldable pub check_files :
      PlanStep → String → CapabilityGrant → Bool → List String → Act (Run W) Bool
  unfolding check_file
  check_files step ws g needs [] = pure needs
  check_files step ws g needs (rel ∷ rest) = do
    needs_it ← check_file step ws g rel
    check_files step ws g (needs || needs_it) rest

  -- `_per_file_policy`
  unfoldable pub per_file_policy :
      PlanStep
      → String
      → CapabilityGrant
      → List String
      → List String
      → String
      → Act (Run W) (Unit {0})
  unfolding check_files
  per_file_policy step ws g changed approved action = do
    needs ← check_files step ws g false changed
    if needs && not (mem_str step.id approved)
        then throw (approval_pause action step.id)
        else pure tt

  -- the changed files past the engine, under the step's grant or the plan's
  unfoldable pub check_changes :
      PlanStep
      → String
      → CapabilityGrant
      → BuildOutput
      → List String
      → List PlanStep
      → String
      → Act (Run W) (Unit {0})
  unfolding per_file_policy plan_file_grant
  check_changes step ws g out approved steps action =
      if sm.per_file_policy && not (build_failed out) && is_cons out.changed_paths
      then (if allows_operation g "file.write"
          then per_file_policy step ws g out.changed_paths approved action
          else do
            wider ← plan_file_grant steps ws
            per_file_policy step ws (elim wider [ none ↦ g | some w ↦ w ]) out.changed_paths
                approved action)
      else pure tt

  -- self.builder.execute(…)
  unfoldable pub build : PlanStep → TaskContract → Act (Run W) BuildOutput
  build step contract = do
    on_fallback ← gets (λ (s : Run W). s.on_fallback)
    call (sm.build (if on_fallback then fallback else primary) step contract)

  unfoldable pub step_proposal : PlanStep → String → String → ActionProposal
  step_proposal step ws action = record {
    action_id = action;
    step_id = step.id;
    operation = primary_operation step.required_capability;
    arguments = ("path", text ws) ∷ ("intent", text step.intent) ∷ [];
    required_capability = step.required_capability;
    workspace_scope = ws;
    idempotency_key = t <> ":" <> step.id;
    trust = user;
  }

  -- `_run_step`
  unfoldable pub run_step :
      TaskContract
      → PlanStep
      → String
      → List String
      → List PlanStep
      → Act (Run W) (ActionProposal × BuildOutput)
  unfolding grant_for pass_policy check_changes keep_artifact build step_proposal build_failed
  run_step contract step0 ws approved steps = do
    (step, g) ← grant_for step0 ws
    record_event t (capability_grant g)
    action ← draw sm.new_id
    let p = step_proposal step ws action
    record_event t (action_proposal p)
    d ← call (sm.decide p g)
    record_event t (policy_decision d)
    pass_policy step p d approved
    out ← build step contract
    check_changes step ws g out approved steps action
    keep_artifact
    record_event t (artifact out.changed_paths)
    record_event t
        (observation (record { step_id = step.id; exit_code = out.exit_code; error = out.error }))
    if build_failed out then throw build_error else pure (p, out)
