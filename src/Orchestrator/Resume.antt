-- ===== src/Orchestrator/Resume.antt =====
-- nexus/app/orchestration/orchestrator.py: `resume`, `_apply_approval` and `_reconcile_and_resume`.
use ai_system_canonical.Prelude.{
  String, Bool, false, Option, none, some, List, [], ◌∷◌, str_eq, ◌&&◌, not, if◌then◌else◌,
}
use ai_system_canonical.Prelude.Text.{is_empty}
use ai_system_canonical.State.{
  State, interpreting, planning, waiting_for_user, executing, verifying, stalled, recovering,
  failed, is_terminal, state_eq,
}
use ai_system_canonical.Contracts.{Plan, CapabilityGrant}
use ai_system_canonical.Contracts.Task.{TaskContract}
use ai_system_canonical.Recovery.{Verdict, resume as go_on, repair, escalate, noop, reconcile}
use ai_system_canonical.Events.{
  Event, reconcile as reconcile_note, request, contract, plan, clarification, error,
  action_proposal, approval_decision, TaskResult, read,
}
use ai_system_canonical.Events.Projection.{TaskSnapshot}
use ai_system_canonical.Orchestrator.Act.{
  Act, Exc, no_events, stop_iteration, pure, throw, on_option, gets, catch, try_else, ◌>>=◌, ◌>>◌,
}
use ai_system_canonical.Orchestrator.Seams.{Seams}
use ai_system_canonical.Orchestrator.Base.{
  Run, record_event, record_note, transition, snapshot, finish, result_from_log,
}
use ai_system_canonical.Orchestrator.Settle.{execute_verify_settle}
use ai_system_canonical.Orchestrator.Drive.{failing}

-- the workspace of the first REQUEST
unfoldable pub first_path : List Event → Option String
first_path [] = none
first_path (e ∷ es) =
    let rest = first_path es in elim e.body [ request text path ↦ some path | _ ↦ rest ]

unfoldable pub last_plan : List Event → Option Plan
last_plan [] = none
last_plan (e ∷ es) = elim (last_plan es) [
  | some p ↦ some p
  | none ↦ elim e.body [ plan p ↦ some p | _ ↦ none ]
]

unfoldable pub last_contract : List Event → Option TaskContract
last_contract [] = none
last_contract (e ∷ es) = elim (last_contract es) [
  | some c ↦ some c
  | none ↦ elim e.body [ contract c ↦ some c | _ ↦ none ]
]

-- `_step_id_for_action`
unfoldable pub step_id_for_action : String → List Event → String
step_id_for_action action [] = ""
step_id_for_action action (e ∷ es) =
    let rest = step_id_for_action action es in
    elim e.body [
      | action_proposal p ↦ if str_eq p.action_id action then p.step_id else rest
      | _ ↦ rest
    ]

-- `next(…)` over an exhausted generator
abbrev pub next : {S A : Type 0} → Option A → Act S A
next none = throw stop_iteration
next (some a) = pure a

unfoldable pub or_empty : Option String → String
or_empty none = ""
or_empty (some s) = s

-- what a resumed pipeline starts from
pub record Inputs : Type 0 where
  pub in_path : String
  pub in_plan : Plan
  pub in_contract : TaskContract

module _ {W : Type 0} (sm : Seams W) (tool_grant : CapabilityGrant) (t : String) where
  unfoldable pub inputs : List Event → Act (Run W) Inputs
  unfolding first_path last_plan last_contract
  inputs events = do
    path ← next (first_path events)
    p ← next (last_plan events)
    c ← next (last_contract events)
    pure (record { in_path = path; in_plan = p; in_contract = c })

  abbrev pub fails : Exc → Act (Run W) TaskResult
  fails = failing sm tool_grant t

  -- the first `try` of `_apply_approval`, which catches StopIteration only
  unfoldable pub after_approval : Act (Run W) Inputs
  unfolding inputs
  after_approval = do
    transition t executing
    events ← gets (λ (s : Run W). read s.log t)
    inputs events

  unfoldable pub only_stop : Exc → Act (Run W) TaskResult
  only_stop stop_iteration = fails stop_iteration
  only_stop x = throw x

  -- `_apply_approval`
  unfoldable pub apply_approval : Bool → Act (Run W) TaskResult
  unfolding after_approval only_stop step_id_for_action or_empty
  apply_approval approved = do
    snap ← snapshot t
    events ← gets (λ (s : Run W). read s.log t)
    let action = or_empty snap.pending_approval
    record_event t (approval_decision action approved (step_id_for_action action events))
    if not approved
        then (do
          record_event t (error "approval denied by user")
          transition t failed
          finish t failed)
        else try_else after_approval
            (λ i.
              catch
                (do
                  snap' ← snapshot t
                  execute_verify_settle sm t i.in_contract i.in_plan i.in_path snap'.approved_steps)
                fails)
            only_stop

  -- the resumed pipeline
  unfoldable pub settle_again : List Event → TaskSnapshot → Act (Run W) TaskResult
  unfolding inputs
  settle_again events snap = do
    i ← inputs events
    execute_verify_settle sm t i.in_contract i.in_plan i.in_path snap.approved_steps

  -- the steering to EXECUTING, by the state that the interruption left
  unfoldable pub steer : List Event → TaskSnapshot → State → Act (Run W) TaskResult
  unfolding settle_again
  steer events snap interpreting = do
    transition t planning
    transition t executing
    settle_again events snap
  steer events snap planning = do transition t executing; settle_again events snap
  steer events snap recovering = do transition t executing; settle_again events snap
  steer events snap stalled = do
    transition t recovering
    transition t executing
    settle_again events snap
  steer events snap verifying = do
    transition t waiting_for_user
    record_event t clarification
    finish t waiting_for_user
  steer events snap _ = settle_again events snap

  unfoldable pub ask_review : Act (Run W) TaskResult
  ask_review = do
    record_event t clarification
    transition t waiting_for_user
    finish t waiting_for_user

  unfoldable pub on_verdict : List Event → Verdict → Act (Run W) TaskResult
  unfolding steer ask_review
  on_verdict events noop = result_from_log t
  on_verdict events go_on = do snap ← snapshot t; catch (steer events snap snap.state) fails
  on_verdict events repair = ask_review
  on_verdict events escalate = ask_review

  -- `_reconcile_and_resume`
  unfoldable pub reconcile_and_resume : Act (Run W) TaskResult
  unfolding on_verdict
  reconcile_and_resume = do
    events ← gets (λ (s : Run W). read s.log t)
    on_option (reconcile events) (throw no_events)
        (λ verdict. do record_note t reconcile_note; on_verdict events verdict)

  unfoldable pub is_pending : Option String → Bool
  is_pending none = false
  is_pending (some action) = not (is_empty action)

  -- `resume`; the approval is "approve" (true), "deny" (false) or anything else
  unfoldable pub resume : Option Bool → Act (Run W) TaskResult
  unfolding reconcile_and_resume is_pending apply_approval
  resume approval = do
    snap ← snapshot t
    if is_terminal snap.state
        then result_from_log t
        else if state_eq snap.state waiting_for_user && is_pending snap.pending_approval
        then on_option approval (finish t waiting_for_user) apply_approval
        else if state_eq snap.state waiting_for_user
        then finish t waiting_for_user
        else reconcile_and_resume
