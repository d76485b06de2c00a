-- ===== src/State/Gate.antt =====
-- nexus/app/core/state.py: the gate predicates and `transition_ok`. A reason is the value that its
-- message is made of.
use ai_system_canonical.Prelude.{
  String, Bool, true, false, Option, none, some, List, [], ◌∷◌, ◌||◌, is_cons, if◌then◌else◌,
}
use ai_system_canonical.Prelude.Text.{is_empty}
use ai_system_canonical.State.{
  State, planning, waiting_for_user, executing, verifying, completed, is_allowed,
}
use ai_system_canonical.Contracts.{Plan, PlanStep, VerificationRecord, is_pass}
use ai_system_canonical.Contracts.Task.{TaskContract, ContractProblem, validate_contract}
use ai_system_canonical.Events.Projection.{TaskSnapshot}

pub data Reason : Type 0 where
  no_contract open_ambiguity nothing_to_ask no_plan_steps no_observation no_verification
        verification_did_not_pass :
      Reason
  contract_invalid : List ContractProblem → Reason
  incomplete_step : String → Reason
  not_an_allowed_transition : State → State → Reason

-- (true, "") is `none`
planning_gate : Option TaskContract → Option Reason
planning_gate none = some no_contract
planning_gate (some c) =
    let problems = validate_contract c in
    if is_cons problems
    then some (contract_invalid problems)
    else if is_cons c.ambiguity
    then some open_ambiguity
    else none

-- snap.contract.ambiguity or snap.contract_problems, of a contract that is there
unfoldable pub contract_asks : Option TaskContract → Bool
contract_asks none = false
contract_asks (some c) = is_cons c.ambiguity || is_cons (validate_contract c)

is_pending : Option String → Bool
is_pending none = false
is_pending (some action) = elim (is_empty action) [ true ↦ false | false ↦ true ]

unfoldable pub has_reason : TaskSnapshot → Bool
unfolding is_pending contract_asks
has_reason snap =
    is_pending snap.pending_approval || snap.open_clarification || contract_asks snap.contract

incomplete : List PlanStep → Option Reason
incomplete [] = none
incomplete (s ∷ rest) =
    if is_empty s.required_capability || is_empty s.expected_artifact_delta
    then some (incomplete_step s.id)
    else incomplete rest

unfoldable pub executing_gate : Option Plan → Option Reason
unfolding incomplete
executing_gate none = some no_plan_steps
executing_gate (some p) = if is_cons p.steps then incomplete p.steps else some no_plan_steps

unfoldable pub completed_gate : Option VerificationRecord → Option Reason
completed_gate none = some no_verification
completed_gate (some v) = if is_pass v then none else some verification_did_not_pass

-- Why the gate for entering the target does not hold; `none` where it does.
unfoldable pub gate_reason : State → TaskSnapshot → Option Reason
unfolding planning_gate has_reason executing_gate completed_gate
gate_reason planning snap = planning_gate snap.contract
gate_reason waiting_for_user snap = if has_reason snap then none else some nothing_to_ask
gate_reason executing snap = executing_gate snap.plan
gate_reason verifying snap = if is_cons snap.observations then none else some no_observation
gate_reason completed snap = completed_gate snap.verification
gate_reason _ snap = none

unfoldable pub transition_ok : State → State → TaskSnapshot → Option Reason
transition_ok current target snap =
    if is_allowed current target
    then gate_reason target snap
    else some (not_an_allowed_transition current target)
