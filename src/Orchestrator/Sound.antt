-- ===== src/Orchestrator/Sound.antt =====
-- Every method keeps the log checked: each STATE event that it appends was let through by
-- `transition_ok` against the snapshot of its moment.
use text.Mathlib.TextEquality.{eq_iff}
use ai_system_canonical.Prelude.{
  String, Bool, true, false, ◌≡◌, refl, subst, sym, Option, none, some, arith, str_eq, Bool-cases,
  inl, inr, if◌then◌else◌,
}
use ai_system_canonical.State.{State, failed, is_allowed, is_terminal}
use ai_system_canonical.State.Gate.{Reason, transition_ok, gate_reason}
use ai_system_canonical.State.Trace.{IsChecked, IsSound, IsSound-snoc}
use ai_system_canonical.Events.{EventLog, Body, NoteKind, checkpoint, note, new_event, append, read}
use ai_system_canonical.Events.Order.{read-append, project_task-read}
use ai_system_canonical.Events.Projection.{TaskSnapshot, initial, project_from, project_task}
use ai_system_canonical.Orchestrator.Act.{Act, Outcome, pure, throw, go_on, ◌>>=◌}
use ai_system_canonical.Orchestrator.Keeps.{Keeps, Keeps-if, Keeps-pure}
use ai_system_canonical.Orchestrator.Invariant.{IsPlain, Invariant}
use ai_system_canonical.Orchestrator.Base.{
  Run, call, draw, record_event, record_note, snapshot, transition, force_fail, enter, projected,
  checked, checkpoints,
}

-- The log of every task is checked.
pub record Checked {W : Type 0} (s : Run W) : Type 0 where
  pub sound : (u : String) → IsSound (initial u) (read s.log u)

append-IsSound :
    (log : EventLog) (t u : String) (b : Body)
    → IsSound (initial u) (read log u)
    → (str_eq t u ≡ true → IsChecked (project_from (initial u) (read log u)) b)
    → IsSound (initial u) (read (append log t b) u)
append-IsSound log t u b h k = elim (Bool-cases (str_eq t u)) [
  | inl same ↦
      rw (read-append log t u b, same)
        (IsSound-snoc (initial u) (read log u) (new_event log t b) h (k same))
  | inr other ↦ rw (read-append log t u b, other) h
]

IsPlain-IsChecked : (snap : TaskSnapshot) (b : Body) → IsPlain b → IsChecked snap b
IsPlain-IsChecked snap (Body.state s) p = absurd p
IsPlain-IsChecked snap (note k) p = tt
IsPlain-IsChecked snap _ p = tt

failing_ok :
    (snap : TaskSnapshot)
    → is_allowed snap.state failed ≡ true
    → transition_ok snap.state failed snap ≡ none
unfolding transition_ok gate_reason
failing_ok snap h = ground arith

module _ {W : Type 0} where
  pub record_event-Checked :
      (t : String) (b : Body) → IsPlain b → Keeps (Checked {W = W}) (record_event t b)
  unfolding record_event
  record_event-Checked t b p = record {
    holds = λ s h. record {
      sound = λ u.
          append-IsSound s.log t u b (h.sound u)
            (λ _. IsPlain-IsChecked (project_from (initial u) (read s.log u)) b p);
    };
  }

  -- a STATE event that the current snapshot lets through
  state-Checked :
      (t : String) (target : State) (s : Run W) (snap : TaskSnapshot)
      → Checked s
      → project_from (initial t) (read s.log t) ≡ snap
      → transition_ok snap.state target snap ≡ none
      → Checked (record_event t (Body.state target) s).1
  unfolding record_event
  state-Checked t target s snap h q ok = record {
    sound = λ u. append-IsSound s.log t u (Body.state target) (h.sound u) (λ same.
        subst (λ v. IsChecked (project_from (initial v) (read s.log v)) (Body.state target))
          ((eq_iff t u).0 same) (subst (λ x. transition_ok x.state target x ≡ none) (sym q) ok));
  }

  pub call-Checked : {A : Type 0} (f : W → Outcome A × W) → Keeps (Checked {W = W}) (call f)
  unfolding call
  call-Checked f = record { holds = λ s h. record { sound = h.sound } }

  pub draw-Checked : {A : Type 0} (f : W → A × W) → Keeps (Checked {W = W}) (draw f)
  unfolding draw
  draw-Checked f = record { holds = λ s h. record { sound = h.sound } }

  -- what follows a snapshot may use that it is the fold of the task's log
  Follows : {A : Type 0} → String → (TaskSnapshot → Act (Run W) A) → Type 0
  Follows t f =
      (snap : TaskSnapshot) (s : Run W)
      → Checked s
      → project_from (initial t) (read s.log t) ≡ snap
      → Checked (f snap s).1

  follow :
      {A : Type 0} (t : String) (f : TaskSnapshot → Act (Run W) A) (o : Option TaskSnapshot)
      (s : Run W)
      → project_task (read s.log t) ≡ o
      → Follows t f
      → Checked s
      → Checked (go_on (projected o s).0 f (projected o s).1).1
  unfolding Follows
  follow t f none s e k h = h
  follow t f (some snap) s e k h = k snap s h (project_task-read s.log t snap e)

  with_snapshot :
      {A : Type 0} (t : String) (f : TaskSnapshot → Act (Run W) A)
      → Follows t f
      → Keeps Checked (snapshot t >>= f)
  unfolding snapshot ◌>>=◌
  with_snapshot t f k = record {
    holds = λ s h. follow t f (project_task (read s.log t)) s refl k h;
  }

  pub snapshot-Checked : (t : String) → Keeps (Checked {W = W}) (snapshot t)
  unfolding snapshot
  snapshot-Checked t = record { holds = λ s h. kept (project_task (read s.log t)) s h }
    where
      kept : (o : Option TaskSnapshot) (s : Run W) → Checked s → Checked (projected o s).1
      kept none s h = h
      kept (some snap) s h = h

  note_if :
      (b : Bool) (t : String) (k : NoteKind)
      → Keeps (Checked {W = W}) (if b then record_note t k else pure tt)
  unfolding record_note
  note_if b t k = Keeps-if b _ _ (record_event-Checked t (note k) tt) (Keeps-pure tt)

  entered :
      (t : String) (target : State) (snap : TaskSnapshot) (o : Option Reason) (s : Run W)
      → Checked s
      → project_from (initial t) (read s.log t) ≡ snap
      → transition_ok snap.state target snap ≡ o
      → Checked (checked t target snap o s).1
  unfolding enter ◌>>=◌ record_event throw
  entered t target snap (some reason) s h q e = h
  entered t target snap none s h q e =
      (note_if (checkpoints target) t checkpoint).holds _ (state-Checked t target s snap h q e)

  -- `_transition` keeps the log checked.
  pub transition-Checked :
      (t : String) (target : State) → Keeps (Checked {W = W}) (transition t target)
  unfolding transition Follows
  transition-Checked t target =
      with_snapshot t (λ snap. checked t target snap (transition_ok snap.state target snap))
        (λ snap s h q. entered t target snap _ s h q refl)

  forced :
      (t : String) (b c : Bool) (snap : TaskSnapshot) (s : Run W)
      → Checked s
      → project_from (initial t) (read s.log t) ≡ snap
      → is_allowed snap.state failed ≡ c
      → Checked
          ((if b then pure tt else if c then record_event t (Body.state failed) else pure tt) s).1
  unfolding pure
  forced t true c snap s h q e = h
  forced t false true snap s h q e = state-Checked t failed s snap h q (failing_ok snap e)
  forced t false false snap s h q e = h

  -- `_force_fail` keeps the log checked, though it does not ask `transition_ok`.
  pub force_fail-Checked : (t : String) → Keeps (Checked {W = W}) (force_fail t)
  unfolding force_fail Follows
  force_fail-Checked t =
      with_snapshot t
        (λ snap.
          if is_terminal snap.state
          then pure tt
          else if is_allowed snap.state failed
          then record_event t (Body.state failed)
          else pure tt)
        (λ snap s h q. forced t (is_terminal snap.state) _ snap s h q refl)

  -- Every way to change the state keeps the log checked.
  pub Checked-Invariant : Invariant (Checked {W = W})
  Checked-Invariant = record {
    event = record_event-Checked;
    moved = transition-Checked;
    forced = force_fail-Checked;
    called = call-Checked;
    drawn = draw-Checked;
    looked = snapshot-Checked;
    switched = λ b s h. record { sound = h.sound };
  }
