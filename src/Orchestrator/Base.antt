-- ===== src/Orchestrator/Base.antt =====
-- nexus/app/orchestration/orchestrator.py: the log, the snapshot and the checked transition.
use ai_system_canonical.Prelude.{
  String, Bool, true, false, Option, none, some, List, [], ◌∷◌, if◌then◌else◌,
}
use ai_system_canonical.State.{
  State, executing, verifying, stalled, recovering, failed, is_allowed, is_terminal,
}
use ai_system_canonical.State.Gate.{Reason, transition_ok}
use ai_system_canonical.Events.{
  Event, EventLog, Body, NoteKind, checkpoint, note, result, TaskResult, append, read,
}
use ai_system_canonical.Events.Projection.{TaskSnapshot, project_task}
use ai_system_canonical.Orchestrator.Act.{
  Act, Outcome, returns, throws, transition_error, no_events, pure, throw, on_option, gets,
  for_each, ◌>>=◌, ◌>>◌,
}

-- The orchestrator's own state: its log, the builder in use, and the world of its components.
pub record Run (W : Type 0) : Type 0 where
  pub log : EventLog
  pub on_fallback : Bool
  pub world : W

-- `_CHECKPOINT_STATES`
unfoldable pub checkpoints : State → Bool
checkpoints executing = true
checkpoints verifying = true
checkpoints stalled = true
checkpoints recovering = true
checkpoints _ = false

unfoldable pub last_result : List Event → Option TaskResult
last_result [] = none
last_result (e ∷ es) = elim (last_result es) [
  | some r ↦ some r
  | none ↦ elim e.body [ result r ↦ some r | _ ↦ none ]
]

module _ {W : Type 0} where
  -- a call through a seam
  unfoldable pub call : {A : Type 0} → (W → Outcome A × W) → Act (Run W) A
  call f s = let (o, w) = f s.world in (o, record s { world = w })

  unfoldable pub draw : {A : Type 0} → (W → A × W) → Act (Run W) A
  draw f s = let (a, w) = f s.world in (returns a, record s { world = w })

  -- `self.log.append(task_id, …)`
  unfoldable pub record_event : String → Body → Act (Run W) (Unit {0})
  record_event t b s = (returns tt, record s { log = append s.log t b })

  unfoldable pub record_note : String → NoteKind → Act (Run W) (Unit {0})
  record_note t k = record_event t (note k)

  unfoldable pub record_notes : String → List NoteKind → Act (Run W) (Unit {0})
  record_notes t = for_each (record_note t)

  -- `_snap`: `project_task` raises on an empty list
  abbrev pub projected : Option TaskSnapshot → Act (Run W) TaskSnapshot
  projected none s = (throws no_events, s)
  projected (some snap) s = (returns snap, s)

  unfoldable pub snapshot : String → Act (Run W) TaskSnapshot
  snapshot t s = projected (project_task (read s.log t)) s

  -- the STATE event, and the checkpoint after it
  unfoldable pub enter : String → State → Act (Run W) (Unit {0})
  unfolding checkpoints
  enter t target = do
    record_event t (Body.state target)
    if checkpoints target then record_note t checkpoint else pure tt

  abbrev pub checked : String → State → TaskSnapshot → Option Reason → Act (Run W) (Unit {0})
  checked t target snap none = enter t target
  checked t target snap (some reason) = throw (transition_error snap.state target reason)

  -- `_transition`
  unfoldable pub transition : String → State → Act (Run W) (Unit {0})
  transition t target = do
    snap ← snapshot t
    checked t target snap (transition_ok snap.state target snap)

  -- `_force_fail`
  unfoldable pub force_fail : String → Act (Run W) (Unit {0})
  force_fail t = do
    snap ← snapshot t
    if is_terminal snap.state
        then pure tt
        else if is_allowed snap.state failed
        then record_event t (Body.state failed)
        else pure tt

  -- `_finish`, with what it is told of the verification
  unfoldable pub finish_with : String → State → Bool → Option String → Act (Run W) TaskResult
  finish_with t st verified ref = do
    let r : TaskResult = record {
      task_id = t;
      state = st;
      verified = verified;
      verification_ref = ref;
    }
    record_event t (result r)
    pure r

  abbrev pub finish : String → State → Act (Run W) TaskResult
  finish t st = finish_with t st false none

  -- `_result_from_log`
  unfoldable pub result_from_log : String → Act (Run W) TaskResult
  unfolding last_result
  result_from_log t = do
    events ← gets (λ (s : Run W). read s.log t)
    on_option (last_result events)
        (do
          snap ← snapshot t
          pure (record {
            task_id = t;
            state = snap.state;
            verified = false;
            verification_ref = none;
          }))
        pure
