-- ===== src/Progress/Service.antt =====
-- nexus/app/services/progress/service.py and patience.py: each step classified by hard signals and
-- the length of the run without one.
pub mod Laws
use ai_system_canonical.Prelude.{
  ℕ, ◌+◌, ◌*◌, String, Bool, true, false, Option, none, some, List, [], ◌∷◌, ◌++◌, is_cons, last?,
  leb, if◌then◌else◌,
}
use ai_system_canonical.Contracts.Task.{
  TaskClass, qa_explain, code_edit_local, code_edit_broad, debug, research_web, doc_analysis,
  authoring, planning_arch, ops,
}
use ai_system_canonical.Progress.Signals.{StepMeasurement, Signal, moved, hard_progress}

-- `patience_for(task_class)`, with no extra steps
unfoldable pub patience_for : TaskClass → ℕ
patience_for debug = 6
patience_for code_edit_broad = 5
patience_for research_web = 4
patience_for planning_arch = 4
patience_for doc_analysis = 4
patience_for authoring = 4
patience_for code_edit_local = 3
patience_for qa_explain = 2
patience_for ops = 3

pub data ProgressClass : Type 0 where
  healthy_progress slow_progress stalled loop_risk resource_limited : ProgressClass

pub record ProgressEvent : Type 0 where
  pub step_index : ℕ
  pub classification : ProgressClass
  pub signals : List Signal
  pub made_progress : Bool
  pub no_progress_run : ℕ

pub record ProgressService : Type 0 where
  pub k : ℕ
  pub history : List StepMeasurement
  pub touched : List String
  pub run : ℕ

abbrev pub new_service : ℕ → ProgressService
new_service k = record { k = k; history = []; touched = []; run = 0 }

unfoldable pub classify : ℕ → ℕ → Bool → Bool → Bool → Bool → ProgressClass
classify k run made_progress moved loop_flag resource_flag =
    if loop_flag
    then loop_risk
    else if resource_flag
    then resource_limited
    else if made_progress
    then healthy_progress
    else if moved
    then (if leb (2 * k) run
        then stalled
        else if leb k run
        then slow_progress
        else healthy_progress)
    else (if leb k run then stalled else slow_progress)

remember : ProgressService → StepMeasurement → ℕ → ProgressService
remember p m run = record p {
  history = p.history ++ m ∷ [];
  touched = p.touched ++ m.changed_paths;
  run = run;
}

observe_after :
    Option StepMeasurement
    → ProgressService
    → StepMeasurement
    → Bool
    → Bool
    → ProgressService × ProgressEvent
unfolding remember
observe_after none p m loop_flag resource_flag = (
  remember p m p.run,
  record {
    step_index = m.step_index;
    classification = if resource_flag then resource_limited else healthy_progress;
    signals = [];
    made_progress = false;
    no_progress_run = 0;
  },
)
observe_after (some prev) p m loop_flag resource_flag =
    let signals = hard_progress (some prev) m p.touched in
    let made = is_cons signals in
    let run = if made then 0 else p.run + 1 in
    (
      remember p m run,
      record {
        step_index = m.step_index;
        classification = classify p.k run made (moved m) loop_flag resource_flag;
        signals = signals;
        made_progress = made;
        no_progress_run = run;
      },
    )

unfoldable pub observe :
    ProgressService → StepMeasurement → Bool → Bool → ProgressService × ProgressEvent
unfolding observe_after
observe p m = observe_after (last? p.history) p m
