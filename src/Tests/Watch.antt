-- ===== src/Tests/Watch.antt =====
-- The theorems on progress, recovery, the log and the ladder at concrete inputs.
use ai_system_canonical.Prelude.{
  ◌≡◌, ◌≢◌, refl, ℕ, ◌≤◌, ◌+◌, ◌*◌, ◌-◌, String, Bool, true, false, Option, none, some, List, [],
  ◌∷◌, ◌++◌, arith, length, if◌then◌else◌, str_eq,
}
use ai_system_canonical.State.{State, completed, executing, is_terminal}
use ai_system_canonical.State.Trace.{IsSound}
use ai_system_canonical.Contracts.{ActionProposal, user}
use ai_system_canonical.Events.{
  Event, EventLog, Body, empty, append, read, new_event, contract as contract_event,
  plan as plan_event, action_proposal, observation, verification, note, progress,
}
use ai_system_canonical.Events.Newest.{IsNewest, project_task-IsNewest}
use ai_system_canonical.Events.Projection.{TaskSnapshot, initial, project_from, project_task}
use ai_system_canonical.Recovery.{reconcile, resume}
use ai_system_canonical.Recovery.Laws.{CanResume, reconcile-CanResume}
use ai_system_canonical.Progress.Signals.{StepMeasurement}
use ai_system_canonical.Progress.Service.{new_service, ProgressService, observe, stalled}
use ai_system_canonical.Progress.Service.Laws.{
  after, Quiet, Quiet-run_stalls, observe_step, after_steps, events, EndsQuiet, stalled-EndsQuiet,
}
use ai_system_canonical.Progress.Loop.{new_detector, report}
use ai_system_canonical.Progress.Loop.Laws.{repeated, repeated_action_flagged}
use ai_system_canonical.Escalation.{new_ladder, rungs_length}
use ai_system_canonical.Orchestrator.Execute.{climb, run_ladder}
use ai_system_canonical.Orchestrator.Enough.{climb-enough}
use ai_system_canonical.Tests.World.{sm, contract, two_steps, passed}

-- a measurement that never changes
abbrev still : StepMeasurement
still = record {
  step_index = 1;
  tests_passed = some 1;
  tests_total = some 2;
  error_count = some 1;
  coverage_pct = none;
  acceptance_met = some false;
  changed_paths = [];
  diff_text = "";
  error_signature = none;
}

-- a service of patience 2, with its baseline
abbrev watched : ProgressService
watched = record { k = 2; history = still ∷ []; touched = []; run = 0 }

watched-Quiet : Quiet watched (still ∷ still ∷ still ∷ [])
unfolding observe ai_system_canonical.Progress.Signals.hard_progress
    ai_system_canonical.Progress.Signals.sig_tests_passed_up
    ai_system_canonical.Progress.Signals.sig_new_passing_test
    ai_system_canonical.Progress.Signals.sig_errors_down
    ai_system_canonical.Progress.Signals.sig_coverage_up
    ai_system_canonical.Progress.Signals.sig_acceptance_flip
    ai_system_canonical.Progress.Signals.sig_new_target_file_touched
watched-Quiet = (refl, (refl, (refl, tt)))

watched-quiet_next :
    (observe (after watched (still ∷ still ∷ still ∷ [])) still false false).1.made_progress ≡ false
unfolding observe after ai_system_canonical.Progress.Signals.hard_progress
    ai_system_canonical.Progress.Signals.sig_tests_passed_up
    ai_system_canonical.Progress.Signals.sig_new_passing_test
    ai_system_canonical.Progress.Signals.sig_errors_down
    ai_system_canonical.Progress.Signals.sig_coverage_up
    ai_system_canonical.Progress.Signals.sig_acceptance_flip
    ai_system_canonical.Progress.Signals.sig_new_target_file_touched
watched-quiet_next = refl

Quiet-run_stalls_example :
    (observe (after watched (still ∷ still ∷ still ∷ [])) still false false).1.classification
    ≡ stalled
Quiet-run_stalls_example =
    Quiet-run_stalls watched (still ∷ still ∷ still ∷ []) still refl watched-Quiet
      watched-quiet_next (omega arith)

-- a baseline and two steps that move nothing
abbrev start : ProgressService
start = (observe_step (new_service 2) (still, false, false)).0

idle-stalled :
    (observe_step
      (after_steps start ((still, false, false) ∷ []))
      (still, false, false)).1.classification
    ≡ stalled
unfolding observe after_steps ai_system_canonical.Progress.Service.classify
    ai_system_canonical.Progress.Signals.hard_progress
    ai_system_canonical.Progress.Signals.sig_tests_passed_up
    ai_system_canonical.Progress.Signals.sig_new_passing_test
    ai_system_canonical.Progress.Signals.sig_errors_down
    ai_system_canonical.Progress.Signals.sig_coverage_up
    ai_system_canonical.Progress.Signals.sig_acceptance_flip
    ai_system_canonical.Progress.Signals.sig_new_target_file_touched
    ai_system_canonical.Progress.Signals.moved ai_system_canonical.Prelude.Text.is_blank
idle-stalled = refl

stalled-EndsQuiet_example :
    (n : ℕ) × (2 ≤ n)
    × EndsQuiet (events start (((still, false, false) ∷ []) ++ (still, false, false) ∷ [])) n
stalled-EndsQuiet_example =
    stalled-EndsQuiet 2 (still, false, false) ((still, false, false) ∷ []) (still, false, false)
      idle-stalled

repeated_action_flagged_example :
    (report
      (repeated str_eq new_detector "h" ((none, "d") ∷ (none, "d2") ∷ (none, "d3") ∷ []))).risk
    ≡ true
repeated_action_flagged_example =
    repeated_action_flagged str_eq new_detector "h" (none, "d") ((none, "d2") ∷ (none, "d3") ∷ [])
      (omega arith) (omega arith)

climb-enough_example :
    climb sm "task" contract (rungs_length - 0 + 3) (new_ladder 2 true false false) "d"
    ≡ run_ladder sm "task" contract (new_ladder 2 true false false) "d"
climb-enough_example = climb-enough sm "task" contract 3 (new_ladder 2 true false false) "d"

abbrev write : ActionProposal
write = record {
  action_id = "a1";
  step_id = "s1";
  operation = "file.write";
  arguments = [];
  required_capability = "fs.write";
  workspace_scope = "ws";
  idempotency_key = "k";
  trust = user;
}

abbrev row : Body → Event
row b = record { seq = 1; task_id = "task"; body = b }

-- a task that was interrupted in its first step
abbrev interrupted : List Event
interrupted =
    row (contract_event contract)
    ∷ row (plan_event two_steps)
    ∷ row (Body.state executing)
    ∷ row (action_proposal write)
    ∷ []

interrupted-resume : reconcile interrupted ≡ some resume
unfolding reconcile project_task ai_system_canonical.Recovery.build_checkpoint
    ai_system_canonical.Recovery.decide_from is_terminal
    ai_system_canonical.Events.Projection.apply_body ai_system_canonical.Recovery.proposals
    ai_system_canonical.Recovery.is_external
interrupted-resume = refl

reconcile-CanResume_example :
    (snap : TaskSnapshot) × (project_task interrupted ≡ some snap) × CanResume interrupted snap
reconcile-CanResume_example = reconcile-CanResume interrupted interrupted-resume

-- a task that is verifying, with the record that completes it
abbrev verifying_snapshot : TaskSnapshot
verifying_snapshot = record (initial "task") { state = State.verifying }

abbrev completing : List Event
completing = row (verification passed) ∷ row (Body.state completed) ∷ []

not_completed : State.verifying ≢ completed
not_completed e = cc

completing-IsSound : IsSound verifying_snapshot completing
unfolding ai_system_canonical.State.Gate.transition_ok ai_system_canonical.State.is_allowed
    ai_system_canonical.Events.Projection.apply_body ai_system_canonical.State.Gate.gate_reason
completing-IsSound = (tt, (refl, tt))

completing-state : (project_from verifying_snapshot completing).state ≡ completed
unfolding project_from ai_system_canonical.Events.Projection.apply_body
completing-state = refl

abbrev completed_snapshot : TaskSnapshot
completed_snapshot = record (initial "task") { state = completed }

completed-terminal : is_terminal completed_snapshot.state ≡ true
unfolding is_terminal
completed-terminal = refl

abbrev two_tasks : EventLog
two_tasks = append (append empty "task" (contract_event contract)) "other" (note progress)

two_tasks-snapshot :
    project_task (read two_tasks "task")
    ≡ some (record (initial "task") { contract = some contract })
unfolding project_task read append ai_system_canonical.Events.Projection.apply_body
two_tasks-snapshot = refl

project_task-IsNewest_example :
    IsNewest (record (initial "task") { contract = some contract }) (read two_tasks "task")
project_task-IsNewest_example =
    project_task-IsNewest two_tasks "task" (record (initial "task") { contract = some contract })
      two_tasks-snapshot
