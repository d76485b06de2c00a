-- ===== src/Events/Order.antt =====
-- The log only grows, its sequence numbers rise, and a read sees exactly the events of its task.
use mathlib.Core.List.{append-nil}
use ai_system_canonical.Prelude.{
  ℕ, ◌+◌, ◌≤◌, ◌<◌, String, ◌≡◌, some, subst, All, Bool-cases, inl, inr, true, eq_iff, refl, List,
  [], ◌∷◌, ◌++◌, arith, str_eq, eq_iff, Bool-cases, inl, inr, if◌then◌else◌, All, some, true,
}
use ai_system_canonical.Events.Projection.{TaskSnapshot, initial, project_from, project_task}
use ai_system_canonical.Events.{Event, EventLog, Body, new_event, append, read, read_rows}

pub read_rows-append :
    (t : String) (xs ys : List Event) → read_rows t (xs ++ ys) ≡ read_rows t xs ++ read_rows t ys
unfolding read_rows
read_rows-append t [] ys = refl
read_rows-append t (x ∷ xs) ys = ground (arith, read_rows-append t xs ys)

-- A read after an append gives the earlier events of its task, then the new one if it is the task's.
pub read-append :
    (log : EventLog) (t u : String) (b : Body)
    → read (append log t b) u
      ≡ (if str_eq t u then read log u ++ new_event log t b ∷ [] else read log u)
unfolding read append read_rows
read-append log t u b =
    ground (
      arith,
      read_rows-append u log.rows (new_event log t b ∷ []),
      append-nil (read_rows u log.rows),
    )

-- The sequence numbers rise strictly from one row to the next and end at `last_seq`.
abbrev pub RisesTo : ℕ → List Event → ℕ → Type 0
RisesTo from [] last = from ≤ last
RisesTo from (e ∷ es) last = (from < e.seq) × RisesTo e.seq es last

pub record IsOrdered (log : EventLog) : Type 0 where
  pub rises : RisesTo 0 log.rows log.last_seq

RisesTo-snoc :
    (from : ℕ) (es : List Event) (last : ℕ) (e : Event)
    → RisesTo from es last
    → e.seq ≡ last + 1
    → RisesTo from (es ++ e ∷ []) (last + 1)
RisesTo-snoc from [] last e h s = omega arith
RisesTo-snoc from (x ∷ es) last e h s = (h.0, RisesTo-snoc x.seq es last e h.1 s)

pub append-IsOrdered :
    (log : EventLog) (t : String) (b : Body) → IsOrdered log → IsOrdered (append log t b)
unfolding append
append-IsOrdered log t b h = record {
  rises = RisesTo-snoc 0 log.rows log.last_seq (new_event log t b) h.rises refl;
}

IsOwned : String → List Event → Type 0
IsOwned t es = All (λ (e : Event). str_eq e.task_id t ≡ true) es

read_rows-IsOwned : (t : String) (es : List Event) → IsOwned t (read_rows t es)
unfolding read_rows IsOwned
read_rows-IsOwned t [] = tt
read_rows-IsOwned t (e ∷ es) = elim (Bool-cases (str_eq e.task_id t)) [
  | inl mine ↦ rw mine (mine, read_rows-IsOwned t es)
  | inr other ↦ rw other (read_rows-IsOwned t es)
]

project_task-IsOwned :
    (t : String) (es : List Event) (snap : TaskSnapshot)
    → IsOwned t es
    → project_task es ≡ some snap
    → project_from (initial t) es ≡ snap
unfolding project_task IsOwned
project_task-IsOwned t [] snap h p = cc
project_task-IsOwned t (e ∷ es) snap h p =
    subst (λ u. project_from (initial u) (e ∷ es) ≡ snap) ((eq_iff e.task_id t).0 h.0)
      (ground arith)

-- The snapshot of a task is the fold of its own events from the initial snapshot of its id.
pub project_task-read :
    (log : EventLog) (t : String) (snap : TaskSnapshot)
    → project_task (read log t) ≡ some snap
    → project_from (initial t) (read log t) ≡ snap
unfolding read
project_task-read log t snap =
    project_task-IsOwned t (read_rows t log.rows) snap (read_rows-IsOwned t log.rows)
