-- ===== src/Orchestrator/Keeps/Drive.antt =====
-- An invariant is kept by `run`, by the deliverable paths and by the steps of `_drive`.
use ai_system_canonical.Prelude.{List, ℕ, String, Option}
use ai_system_canonical.Contracts.{CapabilityGrant, PlanStep, Overall}
use ai_system_canonical.Contracts.Task.{
  TaskContract, TaskClass, code_edit_local, code_edit_broad, debug, planning_arch, qa_explain,
  research_web, doc_analysis, authoring, ops,
}
use ai_system_canonical.Orchestrator.Act.{Exc}
use ai_system_canonical.Orchestrator.Seams.{Seams}
use ai_system_canonical.Orchestrator.Base.{Run}
use ai_system_canonical.Orchestrator.Deliver.{
  shelve, opened, observed, self_verified, closed, run_answer, run_qa_explain, run_authoring,
  run_tool_task,
}
use ai_system_canonical.Orchestrator.Drive.{
  failing, ask_user, plan_and_build, clarify_or_plan, by_class, drive_body, drive, run,
}
use ai_system_canonical.Orchestrator.Keeps.{Keeps, keeps_rules, Keeps-bind, Keeps-if}
use ai_system_canonical.Events.{NoteKind}
use ai_system_canonical.Orchestrator.Keeps.Step.{keep_artifact-Keeps}
use ai_system_canonical.Orchestrator.Keeps.Settle.{consult-Keeps, execute_verify_settle-Keeps}
use ai_system_canonical.Orchestrator.Invariant.{
  Invariant, record_note-Keeps, record_notes-Keeps, finish_with-Keeps,
}

module _ {W : Type 0} {P : Run W → Type 0} (inv : Invariant P) (sm : Seams W) (t : String) where
  opened-Keeps : (cap : String) (ks : List NoteKind) → Keeps P (opened sm t cap ks)
  unfolding opened
  opened-Keeps cap ks =
      search (keeps_rules, inv.moved, inv.drawn, inv.event, record_notes-Keeps inv) depth 12

  observed-Keeps : (step : PlanStep) (n : ℕ) (e : Option String) → Keeps P (observed sm t step n e)
  unfolding observed
  observed-Keeps step n e = inv.event t _ tt

  shelve-Keeps : (changed : List String) → Keeps P (shelve sm t changed)
  unfolding shelve
  shelve-Keeps changed = search (keeps_rules, inv.event, keep_artifact-Keeps inv) depth 12

  self_verified-Keeps : (o : Overall) → Keeps P (self_verified sm t o)
  unfolding self_verified
  self_verified-Keeps o = search (keeps_rules, inv.drawn, inv.event) depth 12

  closed-Keeps : Keeps P (closed sm t)
  unfolding closed
  closed-Keeps =
      search (keeps_rules, inv.moved, self_verified-Keeps, finish_with-Keeps inv) depth 12

  run_answer-Keeps : (cap : String) (c : TaskContract) → Keeps P (run_answer sm t cap c)
  unfolding run_answer
  run_answer-Keeps cap c =
      search
        (
          keeps_rules,
          opened-Keeps,
          inv.called,
          record_notes-Keeps inv,
          record_note-Keeps inv,
          shelve-Keeps,
          observed-Keeps,
          closed-Keeps,
        )
        depth 16

  run_qa_explain-Keeps : (c : TaskContract) → Keeps P (run_qa_explain sm t c)
  unfolding run_qa_explain
  run_qa_explain-Keeps c =
      search
        (
          keeps_rules,
          opened-Keeps,
          inv.called,
          inv.event,
          record_note-Keeps inv,
          shelve-Keeps,
          observed-Keeps,
          closed-Keeps,
        )
        depth 16

  run_authoring-Keeps : (c : TaskContract) → Keeps P (run_authoring sm t c)
  unfolding run_authoring
  run_authoring-Keeps c =
      search
        (
          keeps_rules,
          opened-Keeps,
          inv.called,
          inv.moved,
          inv.event,
          record_notes-Keeps inv,
          record_note-Keeps inv,
          shelve-Keeps,
          observed-Keeps,
          self_verified-Keeps,
          finish_with-Keeps inv,
        )
        depth 24

  run_tool_task-Keeps :
      (g : CapabilityGrant) (path : String) (c : TaskContract)
      → Keeps P (run_tool_task sm t g path c)
  unfolding run_tool_task
  run_tool_task-Keeps g path c =
      search
        (
          keeps_rules,
          opened-Keeps,
          inv.called,
          inv.moved,
          inv.event,
          record_notes-Keeps inv,
          record_note-Keeps inv,
          shelve-Keeps,
          observed-Keeps,
          closed-Keeps,
          finish_with-Keeps inv,
        )
        depth 24

  module _ (g : CapabilityGrant) where
    pub failing-Keeps : (x : Exc) → Keeps P (failing sm g t x)
    unfolding failing
    failing-Keeps x = search (keeps_rules, inv.event, inv.forced, finish_with-Keeps inv) depth 12

    ask_user-Keeps : Keeps P (ask_user sm g t)
    unfolding ask_user
    ask_user-Keeps = search (keeps_rules, inv.event, inv.moved, finish_with-Keeps inv) depth 12

    plan_and_build-Keeps :
        (c : TaskContract) (path : String) → Keeps P (plan_and_build sm g t c path)
    unfolding plan_and_build
    plan_and_build-Keeps c path =
        search
          (
            keeps_rules,
            inv.moved,
            inv.called,
            inv.event,
            ask_user-Keeps,
            consult-Keeps inv,
            record_note-Keeps inv,
            execute_verify_settle-Keeps inv,
          )
          depth 24

    clarify_or_plan-Keeps :
        (c : TaskContract) (path : String) → Keeps P (clarify_or_plan sm g t c path)
    unfolding clarify_or_plan
    clarify_or_plan-Keeps c path =
        search (keeps_rules, inv.looked, ask_user-Keeps, plan_and_build-Keeps) depth 12

    by_class-Keeps :
        (k : TaskClass) (c : TaskContract) (path : String) → Keeps P (by_class sm g t k c path)
    unfolding by_class
    by_class-Keeps research_web c path =
        Keeps-if _ _ _ (run_answer-Keeps _ c) (clarify_or_plan-Keeps c path)
    by_class-Keeps doc_analysis c path =
        Keeps-if _ _ _ (run_answer-Keeps _ c) (clarify_or_plan-Keeps c path)
    by_class-Keeps authoring c path =
        Keeps-if _ _ _ (run_authoring-Keeps c) (clarify_or_plan-Keeps c path)
    by_class-Keeps ops c path =
        Keeps-if _ _ _ (run_tool_task-Keeps g path c) (clarify_or_plan-Keeps c path)
    by_class-Keeps qa_explain c path = run_qa_explain-Keeps c
    by_class-Keeps code_edit_local c path = clarify_or_plan-Keeps c path
    by_class-Keeps code_edit_broad c path = clarify_or_plan-Keeps c path
    by_class-Keeps debug c path = clarify_or_plan-Keeps c path
    by_class-Keeps planning_arch c path = clarify_or_plan-Keeps c path

    pub drive_body-Keeps : (text path : String) → Keeps P (drive_body sm g t text path)
    unfolding drive_body
    drive_body-Keeps text path =
        search
          (
            keeps_rules,
            inv.moved,
            inv.called,
            inv.event,
            consult-Keeps inv,
            record_note-Keeps inv,
            by_class-Keeps,
          )
          depth 24

    -- `_drive` keeps the invariant.
    pub drive-Keeps : (text path : String) → Keeps P (drive sm g t text path)
    unfolding drive
    drive-Keeps text path = search (keeps_rules, failing-Keeps, drive_body-Keeps) depth 12

module _ {W : Type 0} {P : Run W → Type 0} (inv : Invariant P) (sm : Seams W)
    (g : CapabilityGrant) where
  -- `run` keeps the invariant, whether it returns or throws.
  pub run-Keeps : (text path : String) → Keeps P (run sm g text path)
  unfolding run
  run-Keeps text path =
      Keeps-bind _ _ (inv.drawn _)
        (λ t. Keeps-bind _ _ (inv.event t _ tt) (λ _. drive-Keeps inv sm t g text path))
