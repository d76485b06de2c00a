-- ===== src/Orchestrator/Total.antt =====
-- `run` returns a result whatever its components throw.
use ai_system_canonical.Prelude.{
  ◌≡◌, refl, String, Bool, true, false, some, List, [], ◌∷◌, ◌++◌, str_eq, if◌then◌else◌,
  Bool-cases, inl, inr,
}
use text.Mathlib.TextEquality.{eq_iff}
use ai_system_canonical.State.{failed, is_allowed, is_terminal}
use ai_system_canonical.Contracts.{CapabilityGrant}
use ai_system_canonical.Events.{
  Event, EventLog, Body, error, request, TaskResult, read, append, new_event,
}
use ai_system_canonical.Events.Order.{read-append}
use ai_system_canonical.Events.Projection.{TaskSnapshot, project_task}
use ai_system_canonical.Orchestrator.Act.{
  Outcome, returns, throws, Exc, catch, handle, go_on, pure, ◌>>=◌,
}
use ai_system_canonical.Orchestrator.Seams.{Seams}
use ai_system_canonical.Orchestrator.Base.{
  Run, draw, record_event, snapshot, force_fail, finish, finish_with,
}
use ai_system_canonical.Orchestrator.Drive.{run, drive, failing}
use ai_system_canonical.Orchestrator.Extends.{log-Invariant}
use ai_system_canonical.Orchestrator.Keeps.Drive.{drive_body-Keeps}

abbrev IsNonempty : List Event → Type 0
IsNonempty [] = ⊥
IsNonempty (e ∷ es) = Unit

snoc-IsNonempty : (xs : List Event) (x : Event) → IsNonempty (xs ++ x ∷ [])
snoc-IsNonempty [] x = tt
snoc-IsNonempty (y ∷ ys) x = tt

-- a log with an event of the task
record HasRow (t : String) (log : EventLog) : Type 0 where
  row : IsNonempty (read log t)

append-own : (log : EventLog) (t : String) (b : Body) → HasRow t (append log t b)
append-own log t b = record {
  row =
      rw (read-append log t t b, (eq_iff t t).1 refl)
        (snoc-IsNonempty (read log t) (new_event log t b));
}

append-HasRow :
    (t : String) (log : EventLog) (u : String) (b : Body) → HasRow t log → HasRow t (append log u b)
append-HasRow t log u b h = elim (Bool-cases (str_eq u t)) [
  | inl same ↦ record {
    row = rw (read-append log u t b, same) (snoc-IsNonempty (read log t) (new_event log u b));
  }
  | inr other ↦ record { row = rw (read-append log u t b, other) h.row }
]

project_task-some :
    (es : List Event) → IsNonempty es → (snap : TaskSnapshot) × (project_task es ≡ some snap)
unfolding project_task
project_task-some [] h = absurd h
project_task-some (e ∷ es) h = (_, refl)

module _ {W : Type 0} where
  settled :
      (t : String) (b c : Bool) (s : Run W)
      → ((if b then pure tt else if c then record_event t (Body.state failed) else pure tt) s).0
        ≡ returns tt
  unfolding pure record_event
  settled t true c s = refl
  settled t false true s = refl
  settled t false false s = refl

  force_fail-returns : (t : String) (s : Run W) → HasRow t s.log → (force_fail t s).0 ≡ returns tt
  unfolding force_fail snapshot ◌>>=◌
  force_fail-returns t s h =
      let (snap, e) = project_task-some (read s.log t) h.row in
      rw e (settled t (is_terminal snap.state) (is_allowed snap.state failed) s)

  finished :
      (t : String) (o : Outcome (Unit {0})) (s : Run W)
      → o ≡ returns tt
      → (r : TaskResult) × ((go_on o (λ _. finish t failed) s).0 ≡ returns r)
  unfolding finish_with ◌>>=◌ record_event pure
  finished t (returns x) s h = (_, refl)
  finished t (throws x) s h = cc

  failing-returns :
      (sm : Seams W) (g : CapabilityGrant) (t : String) (x : Exc) (s : Run W)
      → HasRow t s.log
      → (r : TaskResult) × ((failing sm g t x s).0 ≡ returns r)
  unfolding failing record_event ◌>>=◌
  failing-returns sm g t x s h =
      finished t _ _ (force_fail-returns t _ (append-HasRow t s.log t (error "exception") h))

  handled :
      (sm : Seams W) (g : CapabilityGrant) (t : String) (o : Outcome TaskResult) (s : Run W)
      → HasRow t s.log
      → (r : TaskResult) × ((handle o (failing sm g t) s).0 ≡ returns r)
  handled sm g t (returns r) s h = (r, refl)
  handled sm g t (throws x) s h = failing-returns sm g t x s h

  drive-returns :
      (sm : Seams W) (g : CapabilityGrant) (t text path : String) (s : Run W)
      → HasRow t s.log
      → (r : TaskResult) × ((drive sm g t text path s).0 ≡ returns r)
  unfolding drive catch
  drive-returns sm g t text path s h =
      handled sm g t _ _
        ((drive_body-Keeps (log-Invariant (HasRow t) (append-HasRow t)) sm t g text path).holds s h)

-- `run` returns a result: no exception of a model, a builder, a verifier or a service, and no refused
-- transition, leaves it.
pub run-returns :
    {W : Type 0} (sm : Seams W) (g : CapabilityGrant) (text path : String) (s : Run W)
    → (r : TaskResult) × ((run sm g text path s).0 ≡ returns r)
unfolding run draw record_event ◌>>=◌
run-returns sm g text path s =
    drive-returns sm g _ text path _ (append-own s.log _ (request text path))
