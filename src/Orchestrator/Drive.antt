-- ===== src/Orchestrator/Drive.antt =====
-- nexus/app/orchestration/orchestrator.py: `run` and `_drive`.
use ai_system_canonical.Prelude.{String, [], if◌then◌else◌}
use ai_system_canonical.State.{interpreting, planning, waiting_for_user, executing, failed}
use ai_system_canonical.State.Gate.{contract_asks}
use ai_system_canonical.Contracts.{CapabilityGrant}
use ai_system_canonical.Contracts.Task.{
  TaskContract, TaskClass, qa_explain, research_web, doc_analysis, authoring, ops,
}
use ai_system_canonical.Events.{
  model_run, agent_message, request, contract, clarification, error, plan, TaskResult,
}
use ai_system_canonical.Orchestrator.Act.{Act, Exc, catch, ◌>>=◌, ◌>>◌}
use ai_system_canonical.Orchestrator.Seams.{
  Seams, before_interpret, routing, before_plan, after_plan,
}
use ai_system_canonical.Orchestrator.Base.{
  Run, call, draw, record_event, record_note, transition, force_fail, snapshot, finish,
}
use ai_system_canonical.Orchestrator.Settle.{consult, execute_verify_settle}
use ai_system_canonical.Orchestrator.Deliver.{
  run_answer, run_qa_explain, run_authoring, run_tool_task,
}

module _ {W : Type 0} (sm : Seams W) (tool_grant : CapabilityGrant) (t : String) where
  -- `except Exception`: the error is logged and the task forced to FAILED
  unfoldable pub failing : Exc → Act (Run W) TaskResult
  failing x = do record_event t (error "exception"); force_fail t; finish t failed

  unfoldable pub ask_user : Act (Run W) TaskResult
  ask_user = do
    record_event t clarification
    transition t waiting_for_user
    finish t waiting_for_user

  -- from PLANNING on
  unfoldable pub plan_and_build : TaskContract → String → Act (Run W) TaskResult
  unfolding ask_user
  plan_and_build c path = do
    transition t planning
    consult sm t routing
    paused ← call sm.hardware_pause
    if paused then ask_user else do
      consult sm t before_plan
      p ← call (sm.make_plan c)
      record_event t (plan p)
      record_note t model_run
      record_note t agent_message
      consult sm t after_plan
      transition t executing
      execute_verify_settle sm t c p path []

  -- the clarification, or the way to the builder
  unfoldable pub clarify_or_plan : TaskContract → String → Act (Run W) TaskResult
  unfolding ask_user plan_and_build
  clarify_or_plan c path = do
    snap ← snapshot t
    if contract_asks snap.contract then ask_user else plan_and_build c path

  -- the class of the contract picks the path
  unfoldable pub by_class : TaskClass → TaskContract → String → Act (Run W) TaskResult
  unfolding clarify_or_plan
  by_class research_web c path =
      if sm.has_research then run_answer sm t "net.fetch" c else clarify_or_plan c path
  by_class doc_analysis c path =
      if sm.has_kb then run_answer sm t "fs.read" c else clarify_or_plan c path
  by_class authoring c path =
      if sm.has_authoring then run_authoring sm t c else clarify_or_plan c path
  by_class ops c path =
      if sm.has_tool_loop then run_tool_task sm t tool_grant path c else clarify_or_plan c path
  by_class qa_explain c path = run_qa_explain sm t c
  by_class _ c path = clarify_or_plan c path

  -- the body of the `try` of `_drive`
  unfoldable pub drive_body : String → String → Act (Run W) TaskResult
  unfolding by_class
  drive_body text path = do
    transition t interpreting
    consult sm t before_interpret
    c ← call (sm.interpret text)
    record_event t (contract c)
    record_note t model_run
    record_note t agent_message
    by_class c.task_class c path

  -- `_drive`
  unfoldable pub drive : String → String → Act (Run W) TaskResult
  drive text path = catch (drive_body text path) failing

module _ {W : Type 0} (sm : Seams W) (tool_grant : CapabilityGrant) where
  -- `run`
  unfoldable pub run : String → String → Act (Run W) TaskResult
  run text path = do
    t ← draw sm.new_id
    record_event t (request text path)
    drive sm tool_grant t text path
