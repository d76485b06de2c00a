-- ===== src/Orchestrator/Honest/Whole.antt =====
-- What `run` reports: a result is called verified exactly if its state is COMPLETED.
use ai_system_canonical.Prelude.{◌≡◌, String}
use ai_system_canonical.Contracts.{CapabilityGrant}
use ai_system_canonical.Contracts.Task.{
  TaskContract, TaskClass, code_edit_local, code_edit_broad, debug, planning_arch, qa_explain,
  research_web, doc_analysis, authoring, ops,
}
use ai_system_canonical.Events.{TaskResult}
use ai_system_canonical.Orchestrator.Act.{Exc, returns}
use ai_system_canonical.Orchestrator.Seams.{Seams}
use ai_system_canonical.Orchestrator.Base.{Run}
use ai_system_canonical.Orchestrator.Deliver.{
  closed, run_answer, run_qa_explain, run_authoring, run_tool_task,
}
use ai_system_canonical.Orchestrator.Drive.{
  failing, ask_user, plan_and_build, clarify_or_plan, by_class, drive_body, drive, run,
}
use ai_system_canonical.Prelude.Gives.{Gives, Gives-bind}
use ai_system_canonical.Orchestrator.Total.{run-returns}
use ai_system_canonical.Orchestrator.Honest.{IsHonest, honest_rules, execute_verify_settle-Gives}

module _ {W : Type 0} (sm : Seams W) (t : String) where
  closed-Gives : Gives IsHonest (closed sm t)
  unfolding closed
  closed-Gives = search (honest_rules) depth 12

  module _ (g : CapabilityGrant) where
    failing-Gives : (x : Exc) → Gives IsHonest (failing sm g t x)
    unfolding failing
    failing-Gives x = search (honest_rules) depth 12

    ask_user-Gives : Gives IsHonest (ask_user sm g t)
    unfolding ask_user
    ask_user-Gives = search (honest_rules) depth 12

    clarify_or_plan-Gives :
        (c : TaskContract) (path : String) → Gives IsHonest (clarify_or_plan sm g t c path)
    unfolding clarify_or_plan plan_and_build
    clarify_or_plan-Gives c path =
        search (honest_rules, ask_user-Gives, execute_verify_settle-Gives) depth 24

    by_class-Gives :
        (k : TaskClass) (c : TaskContract) (path : String)
        → Gives IsHonest (by_class sm g t k c path)
    unfolding by_class run_answer run_authoring run_tool_task run_qa_explain
    by_class-Gives research_web c path =
        search (honest_rules, closed-Gives, clarify_or_plan-Gives) depth 24
    by_class-Gives doc_analysis c path =
        search (honest_rules, closed-Gives, clarify_or_plan-Gives) depth 24
    by_class-Gives authoring c path = search (honest_rules, clarify_or_plan-Gives) depth 30
    by_class-Gives ops c path = search (honest_rules, closed-Gives, clarify_or_plan-Gives) depth 30
    by_class-Gives qa_explain c path = search (honest_rules, closed-Gives) depth 24
    by_class-Gives code_edit_local c path = clarify_or_plan-Gives c path
    by_class-Gives code_edit_broad c path = clarify_or_plan-Gives c path
    by_class-Gives debug c path = clarify_or_plan-Gives c path
    by_class-Gives planning_arch c path = clarify_or_plan-Gives c path

    drive-Gives : (text path : String) → Gives IsHonest (drive sm g t text path)
    unfolding drive drive_body
    drive-Gives text path = search (honest_rules, failing-Gives, by_class-Gives) depth 24

run-Gives :
    {W : Type 0} (sm : Seams W) (g : CapabilityGrant) (text path : String)
    → Gives IsHonest (run sm g text path)
unfolding run
run-Gives sm g text path = Gives-bind _ _ (λ t. Gives-bind _ _ (λ _. drive-Gives sm t g text path))

-- `run` returns a result, and the result is called verified, with a record that it refers to, exactly
-- if its state is COMPLETED.
pub run-IsHonest :
    {W : Type 0} (sm : Seams W) (g : CapabilityGrant) (text path : String) (s : Run W)
    → (r : TaskResult) × ((run sm g text path s).0 ≡ returns r) × IsHonest r
run-IsHonest sm g text path s =
    let (r, e) = run-returns sm g text path s in (r, e, (run-Gives sm g text path).given s r e)
