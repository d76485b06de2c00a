-- ===== src/Orchestrator/Deliver.antt =====
-- nexus/app/orchestration/orchestrator.py: the deliverable paths that take no builder, `_run_research`,
-- `_run_doc_analysis`, `_run_qa_explain`, `_run_authoring` and `_run_tool_task`. What they produce
-- comes through the seam `deliver`; the events and transitions are theirs.
use ai_system_canonical.Prelude.{
  List, ℕ, String, true, false, Option, none, some, [], ◌∷◌, if◌then◌else◌,
}
use ai_system_canonical.State.{waiting_for_user, planning, executing, verifying, completed, failed}
use ai_system_canonical.Contracts.{
  PlanStep, PolicyDecision, CapabilityGrant, t0, Overall, pass, fail, VerificationRecord,
}
use ai_system_canonical.Contracts.Task.{TaskContract}
use ai_system_canonical.Events.{
  NoteKind, progress, agent_message, synthesis, tool_loop, clarification, artifact, error, plan,
  observation, verification, policy_decision, capability_grant, TaskResult,
}
use ai_system_canonical.Orchestrator.Act.{gets, Act, pure, for_each, catch, ◌>>=◌, ◌>>◌}
use ai_system_canonical.Orchestrator.Seams.{Seams, Deliverable}
use ai_system_canonical.Orchestrator.Step.{keep_artifact}
use ai_system_canonical.Orchestrator.Base.{
  Run, call, draw, record_event, record_note, record_notes, transition, finish, finish_with,
}

-- an answer that could not be had
unfoldable pub no_answer : Deliverable
no_answer = record {
  notes = [];
  is_empty_draft = false;
  write_failed = false;
  written = [];
  loop_risk = false;
  ok = true;
  decisions = [];
}

module _ {W : Type 0} (sm : Seams W) (t : String) where
  -- PLANNING, a plan of one step, what else is noted, EXECUTING
  unfoldable pub opened : String → List NoteKind → Act (Run W) PlanStep
  opened capability notes = do
    transition t planning
    id ← draw sm.new_id
    let step : PlanStep = record {
      id = id;
      intent = "deliver";
      expected_artifact_delta = "produce a deliverable";
      required_capability = capability;
    }
    record_event t (plan (record { steps = step ∷ [] }))
    record_notes t notes
    transition t executing
    pure step

  unfoldable pub observed : PlanStep → ℕ → Option String → Act (Run W) (Unit {0})
  observed step code err =
      record_event t (observation (record { step_id = step.id; exit_code = code; error = err }))

  -- the ARTIFACT event of a deliverable that a store kept
  unfoldable pub shelve : List String → Act (Run W) (Unit {0})
  shelve changed = do
    kept ← keep_artifact sm t
    if kept then record_event t (artifact changed) else pure tt

  -- the record that the path writes of itself
  unfoldable pub self_verified : Overall → Act (Run W) VerificationRecord
  self_verified o = do
    id ← draw sm.new_id
    let v : VerificationRecord = record { id = id; tier = t0; overall = o }
    record_event t (verification v)
    pure v

  unfoldable pub closed : Act (Run W) TaskResult
  unfolding self_verified
  closed = do
    transition t verifying
    v ← self_verified pass
    transition t completed
    finish_with t completed true (some v.id)

  -- `_run_research` and `_run_doc_analysis`, which differ in the step's capability
  unfoldable pub run_answer : String → TaskContract → Act (Run W) TaskResult
  unfolding opened observed closed shelve
  run_answer capability c = do
    step ← opened capability []
    d ← call (sm.deliver c)
    record_notes t d.notes
    record_note t synthesis
    shelve []
    record_note t agent_message
    observed step 0 none
    closed

  -- `_run_qa_explain`: the answer comes first, and a failing model call leaves an error event
  unfoldable pub run_qa_explain : TaskContract → Act (Run W) TaskResult
  unfolding opened observed closed no_answer shelve
  run_qa_explain c = do
    d ← catch (call (sm.deliver c)) (λ x. do record_event t (error "model call"); pure no_answer)
    step ← opened "fs.read" d.notes
    record_note t synthesis
    shelve []
    observed step 0 none
    record_note t agent_message
    closed

  -- `_run_authoring`
  unfoldable pub run_authoring : TaskContract → Act (Run W) TaskResult
  unfolding opened observed self_verified shelve
  run_authoring c = do
    office ← gets (λ (s : Run W). sm.office_format c s.world)
    step ← opened (if office then "fs.write" else "fs.read") []
    d ← call (sm.deliver c)
    if d.write_failed then record_event t (error "write") else pure tt
    record_notes t d.notes
    record_note t synthesis
    shelve d.written
    record_note t agent_message
    observed step 0 none
    transition t verifying
    v ← self_verified (if d.is_empty_draft then fail else pass)
    if d.is_empty_draft
        then (do transition t waiting_for_user; finish t waiting_for_user)
        else do transition t completed; finish_with t completed true (some v.id)

  -- `_run_tool_task`; `g` is the grant that `_tool_task_grant` makes
  unfoldable pub run_tool_task : CapabilityGrant → String → TaskContract → Act (Run W) TaskResult
  unfolding opened observed closed shelve
  run_tool_task g path c = do
    call sm.tool_loop
    step ← opened "fs.read" []
    call (sm.copy_workspace path)
    record_event t (capability_grant g)
    d ← call (sm.deliver c)
    for_each (λ (x : PolicyDecision). record_event t (policy_decision x)) d.decisions
    record_notes t d.notes
    record_note t tool_loop
    shelve []
    record_note t progress
    observed step (if d.ok then 0 else 1) (if d.ok then some "" else some "unfinished")
    if d.loop_risk
        then (do
          record_event t clarification
          transition t waiting_for_user
          finish t waiting_for_user)
        else if d.ok
        then closed
        else do transition t failed; finish t failed
