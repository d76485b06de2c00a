-- ===== src/Orchestrator/Verified.antt =====
-- What `run` and `resume` leave in the log, whether they return or throw.
use ai_system_canonical.Prelude.{◌≡◌, subst, String, Bool, true, Option}
use ai_system_canonical.State.{completed, is_terminal}
use ai_system_canonical.State.Laws.{HasPassingT0, completed-HasPassingT0, terminal_absorbs}
use ai_system_canonical.Contracts.{CapabilityGrant}
use ai_system_canonical.Events.{EventLog, read, read_rows}
use ai_system_canonical.State.Trace.{IsSound, IsSound-append, project_from-append}
use ai_system_canonical.Orchestrator.Extends.{Extends, Extends-read, run-Extends, resume-Extends}
use ai_system_canonical.Events.Projection.{TaskSnapshot, initial, project_from}
use ai_system_canonical.Orchestrator.Seams.{Seams}
use ai_system_canonical.Orchestrator.Base.{Run}
use ai_system_canonical.Orchestrator.Drive.{run}
use ai_system_canonical.Orchestrator.Resume.{resume}
use ai_system_canonical.Orchestrator.Keeps.Drive.{run-Keeps}
use ai_system_canonical.Orchestrator.Keeps.Resume.{resume-Keeps}
use ai_system_canonical.Orchestrator.Sound.{Checked, Checked-Invariant}

-- the snapshot of a task, as the fold of its rows
abbrev pub state_of : EventLog → String → TaskSnapshot
state_of log t = project_from (initial t) (read log t)

-- From a checked log, `run` leaves a checked log: every STATE event that it wrote was allowed, and its
-- gate held, against the snapshot of the events before it.
pub run-Checked :
    {W : Type 0} (sm : Seams W) (g : CapabilityGrant) (text path : String) (s : Run W)
    → Checked s
    → Checked (run sm g text path s).1
run-Checked sm g text path s h = (run-Keeps Checked-Invariant sm g text path).holds s h

-- From a checked log, `resume` leaves a checked log.
pub resume-Checked :
    {W : Type 0} (sm : Seams W) (g : CapabilityGrant) (t : String) (approval : Option Bool)
    (s : Run W)
    → Checked s
    → Checked (resume sm g t approval s).1
resume-Checked sm g t approval s h = (resume-Keeps Checked-Invariant sm g t approval).holds s h

-- After `run` on a checked log, any task that its log projects to COMPLETED has a T0 verification
-- record with the verdict PASS in that log.
pub run_completed-HasPassingT0 :
    {W : Type 0} (sm : Seams W) (g : CapabilityGrant) (text path : String) (s : Run W) (t : String)
    → Checked s
    → (state_of (run sm g text path s).1.log t).state ≡ completed
    → HasPassingT0 (read (run sm g text path s).1.log t)
run_completed-HasPassingT0 sm g text path s t h done =
    completed-HasPassingT0 t _ ((run-Checked sm g text path s h).sound t) done

-- After `resume` on a checked log, any task that its log projects to COMPLETED has a T0 verification
-- record with the verdict PASS in that log.
pub resume_completed-HasPassingT0 :
    {W : Type 0} (sm : Seams W) (g : CapabilityGrant) (u : String) (approval : Option Bool)
    (s : Run W) (t : String)
    → Checked s
    → (state_of (resume sm g u approval s).1.log t).state ≡ completed
    → HasPassingT0 (read (resume sm g u approval s).1.log t)
resume_completed-HasPassingT0 sm g u approval s t h done =
    completed-HasPassingT0 t _ ((resume-Checked sm g u approval s h).sound t) done

stays :
    (log log' : EventLog) (t : String)
    → Extends log log'
    → IsSound (initial t) (read log' t)
    → is_terminal (state_of log t).state ≡ true
    → (state_of log' t).state ≡ (state_of log t).state
stays log log' t x k h =
    let grown = Extends-read log log' t x in
    let sound = subst (IsSound (initial t)) grown k in
    let later = IsSound-append (initial t) (read log t) (read_rows t x.tail) sound in
    rw (grown, project_from-append (initial t) (read log t) (read_rows t x.tail))
      (terminal_absorbs (state_of log t) (read_rows t x.tail) h later.1)

-- On a checked log, a task that is COMPLETED, FAILED or CANCELLED keeps that state under `run` of
-- any request.
pub run-keeps_terminal :
    {W : Type 0} (sm : Seams W) (g : CapabilityGrant) (text path : String) (s : Run W) (t : String)
    → Checked s
    → is_terminal (state_of s.log t).state ≡ true
    → (state_of (run sm g text path s).1.log t).state ≡ (state_of s.log t).state
run-keeps_terminal sm g text path s t k h =
    stays s.log _ t (run-Extends sm g text path s) ((run-Checked sm g text path s k).sound t) h

-- On a checked log, a task that is COMPLETED, FAILED or CANCELLED keeps that state under `resume` of
-- any task, with any approval.
pub resume-keeps_terminal :
    {W : Type 0} (sm : Seams W) (g : CapabilityGrant) (u : String) (approval : Option Bool)
    (s : Run W) (t : String)
    → Checked s
    → is_terminal (state_of s.log t).state ≡ true
    → (state_of (resume sm g u approval s).1.log t).state ≡ (state_of s.log t).state
resume-keeps_terminal sm g u approval s t k h =
    stays s.log _ t (resume-Extends sm g u approval s)
      ((resume-Checked sm g u approval s k).sound t) h
