-- ===== src/Events/Projection.antt =====
-- nexus/app/events/projections.py: the snapshot of a task, folded from its events.
use ai_system_canonical.Prelude.{
  String, Bool, true, false, Option, none, some, List, [], ◌∷◌, ◌++◌, ◌&&◌, not, if◌then◌else◌,
}
use ai_system_canonical.Prelude.Text.{is_empty, mem_str}
use ai_system_canonical.State.{State, created, interpreting, executing}
use ai_system_canonical.Contracts.{
  Plan, PolicyDecision, CapabilityGrant, Observation, VerificationRecord, is_tier_0,
}
use ai_system_canonical.Contracts.Task.{TaskContract}
use ai_system_canonical.Events.{
  Event, Body, TaskResult, request, contract, clarification, plan, policy_decision, observation,
  verification, result, error, capability_grant, approval_request, approval_decision, taint_blocked,
}

pub record TaskSnapshot : Type 0 where
  pub task_id : String
  pub state : State
  pub request_text : Option String
  pub workspace_path : Option String
  pub contract : Option TaskContract
  pub plan : Option Plan
  pub observations : List Observation
  pub verification : Option VerificationRecord
  pub result : Option TaskResult
  pub last_error : Option String
  pub pending_approval : Option String
  pub approved_steps : List String
  pub open_clarification : Bool
  pub capability_grants : List CapabilityGrant
  pub policy_decisions : List PolicyDecision
  pub taint_blocks : List String
  pub advisory_verifications : List VerificationRecord

abbrev pub initial : String → TaskSnapshot
initial t = record {
  task_id = t;
  state = created;
  request_text = none;
  workspace_path = none;
  contract = none;
  plan = none;
  observations = [];
  verification = none;
  result = none;
  last_error = none;
  pending_approval = none;
  approved_steps = [];
  open_clarification = false;
  capability_grants = [];
  policy_decisions = [];
  taint_blocks = [];
  advisory_verifications = [];
}

-- `set.add`
add_step : String → List String → List String
add_step s steps = if mem_str s steps then steps else s ∷ steps

-- resuming clears the question
clears_question : State → Bool
clears_question interpreting = true
clears_question executing = true
clears_question _ = false

-- the body of the loop of `project_task`
unfoldable pub apply_body : TaskSnapshot → Body → TaskSnapshot
unfolding add_step clears_question
apply_body snap (request text ws) = record snap {
  request_text = some text;
  workspace_path = some ws;
}
apply_body snap (Body.state s) = record snap {
  state = s;
  open_clarification = if clears_question s then false else snap.open_clarification;
}
apply_body snap clarification = record snap { open_clarification = true }
apply_body snap (contract c) = record snap { contract = some c }
apply_body snap (plan p) = record snap { plan = some p }
apply_body snap (observation o) = record snap { observations = snap.observations ++ o ∷ [] }
apply_body snap (verification v) =
    if is_tier_0 v
    then record snap { verification = some v }
    else record snap { advisory_verifications = snap.advisory_verifications ++ v ∷ [] }
apply_body snap (result r) = record snap { result = some r }
apply_body snap (error e) = record snap { last_error = some e }
apply_body snap (approval_request action step) = record snap { pending_approval = some action }
apply_body snap (approval_decision action approved step) = record snap {
  pending_approval = none;
  approved_steps =
      if approved && not (is_empty step)
      then add_step step snap.approved_steps
      else snap.approved_steps;
}
apply_body snap (capability_grant g) = record snap {
  capability_grants = snap.capability_grants ++ g ∷ [];
}
apply_body snap (policy_decision d) = record snap {
  policy_decisions = snap.policy_decisions ++ d ∷ [];
}
apply_body snap (taint_blocked a) = record snap { taint_blocks = snap.taint_blocks ++ a ∷ [] }
apply_body snap _ = snap

abbrev pub apply_event : TaskSnapshot → Event → TaskSnapshot
apply_event snap e = apply_body snap e.body

unfoldable pub project_from : TaskSnapshot → List Event → TaskSnapshot
project_from snap [] = snap
project_from snap (e ∷ es) = project_from (apply_event snap e) es

-- `none`: it raises ValueError on an empty list
unfoldable pub project_task : List Event → Option TaskSnapshot
unfolding project_from
project_task [] = none
project_task (e ∷ es) = some (project_from (initial e.task_id) (e ∷ es))
