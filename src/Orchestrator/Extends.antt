-- ===== src/Orchestrator/Extends.antt =====
-- What every method does to the log: it only appends, and the sequence numbers keep rising.
use mathlib.Core.List.{append-nil, append_assoc}
use ai_system_canonical.Prelude.{◌≡◌, sym, String, Bool, Option, none, some, List, [], ◌∷◌, ◌++◌}
use ai_system_canonical.State.{State}
use ai_system_canonical.State.Gate.{Reason}
use ai_system_canonical.Contracts.{CapabilityGrant}
use ai_system_canonical.Events.{Event, EventLog, Body, read, read_rows, append, new_event}
use ai_system_canonical.Events.Order.{IsOrdered, append-IsOrdered, read_rows-append}
use ai_system_canonical.Events.Projection.{TaskSnapshot, project_task}
use ai_system_canonical.Orchestrator.Seams.{Seams}
use ai_system_canonical.Orchestrator.Base.{
  Run, call, draw, record_event, record_note, snapshot, transition, force_fail, enter, projected,
  checked,
}
use ai_system_canonical.Orchestrator.Drive.{run}
use ai_system_canonical.Orchestrator.Resume.{resume}
use ai_system_canonical.Orchestrator.Keeps.{Keeps, keeps_rules, Keeps-throw, Keeps-bind}
use ai_system_canonical.Orchestrator.Keeps.Drive.{run-Keeps}
use ai_system_canonical.Orchestrator.Keeps.Resume.{resume-Keeps}
use ai_system_canonical.Orchestrator.Invariant.{Invariant}

-- A property of the log that appending any event keeps is an invariant.
module _ {W : Type 0} (Q : EventLog → Type 0)
    (keeps : (log : EventLog) (t : String) (b : Body) → Q log → Q (append log t b)) where
  event-OfLog : (t : String) (b : Body) → Keeps (λ (s : Run W). Q s.log) (record_event t b)
  unfolding record_event
  event-OfLog t b = record { holds = λ s h. keeps s.log t b h }

  snapshot-OfLog : (t : String) → Keeps (λ (s : Run W). Q s.log) (snapshot t)
  unfolding snapshot
  snapshot-OfLog t = record { holds = λ s h. kept (project_task (read s.log t)) s h }
    where
      kept : (o : Option TaskSnapshot) (s : Run W) → Q s.log → Q (projected o s).1.log
      kept none s h = h
      kept (some snap) s h = h

  checked-OfLog :
      (t : String) (target : State) (snap : TaskSnapshot) (o : Option Reason)
      → Keeps (λ (s : Run W). Q s.log) (checked t target snap o)
  unfolding enter record_note
  checked-OfLog t target snap (some reason) = Keeps-throw _
  checked-OfLog t target snap none = search (keeps_rules, event-OfLog) depth 12

  pub log-Invariant : Invariant (λ (s : Run W). Q s.log)
  unfolding transition force_fail call draw
  log-Invariant = record {
    event = λ t b p. event-OfLog t b;
    moved = λ t target. Keeps-bind _ _ (snapshot-OfLog t) (λ snap. checked-OfLog t target snap _);
    forced = λ t. search (keeps_rules, snapshot-OfLog, event-OfLog) depth 12;
    called = λ f. record { holds = λ s h. h };
    drawn = λ f. record { holds = λ s h. h };
    looked = snapshot-OfLog;
    switched = λ b s h. h;
  }

-- the rows of one log, then more
pub record Extends (log log' : EventLog) : Type 0 where
  pub tail : List Event
  pub rows_then : log'.rows ≡ log.rows ++ tail

append-Extends :
    (log log' : EventLog) (t : String) (b : Body) → Extends log log' → Extends log (append log' t b)
unfolding append
append-Extends log log' t b h = record {
  tail = h.tail ++ new_event log' t b ∷ [];
  rows_then = rw h.rows_then (append_assoc log.rows h.tail _);
}

Extends-refl : (log : EventLog) → Extends log log
Extends-refl log = record { tail = []; rows_then = sym (append-nil log.rows) }

-- What a task had is still there, before what was appended.
pub Extends-read :
    (log log' : EventLog) (t : String)
    → (h : Extends log log') → read log' t ≡ read log t ++ read_rows t h.tail
unfolding read
Extends-read log log' t h = rw h.rows_then (read_rows-append t log.rows h.tail)

-- `run` only appends to the log, whether it returns or throws.
pub run-Extends :
    {W : Type 0} (sm : Seams W) (g : CapabilityGrant) (text path : String) (s : Run W)
    → Extends s.log (run sm g text path s).1.log
run-Extends sm g text path s =
    (run-Keeps (log-Invariant (Extends s.log) (append-Extends s.log)) sm g text path).holds s
      (Extends-refl s.log)

-- `resume` only appends to the log, whether it returns or throws.
pub resume-Extends :
    {W : Type 0} (sm : Seams W) (g : CapabilityGrant) (t : String) (approval : Option Bool)
    (s : Run W)
    → Extends s.log (resume sm g t approval s).1.log
resume-Extends sm g t approval s =
    (resume-Keeps (log-Invariant (Extends s.log) (append-Extends s.log)) sm g t approval).holds s
      (Extends-refl s.log)

-- `run` keeps the sequence numbers of the log strictly rising.
pub run-IsOrdered :
    {W : Type 0} (sm : Seams W) (g : CapabilityGrant) (text path : String) (s : Run W)
    → IsOrdered s.log
    → IsOrdered (run sm g text path s).1.log
run-IsOrdered sm g text path s h =
    (run-Keeps (log-Invariant IsOrdered append-IsOrdered) sm g text path).holds s h
