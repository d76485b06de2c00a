-- ===== src/Orchestrator/Invariant.antt =====
-- What a property of the orchestrator's state has to satisfy so that every method keeps it.
use ai_system_canonical.Prelude.{String, Bool, Option, List}
use ai_system_canonical.State.{State}
use ai_system_canonical.Events.{Body, NoteKind, note}
use ai_system_canonical.Orchestrator.Act.{Outcome}
use ai_system_canonical.Orchestrator.Keeps.{Keeps, keeps_rules, Keeps-bind, Keeps-pure}
use ai_system_canonical.Orchestrator.Base.{
  Run, call, draw, record_event, record_note, record_notes, snapshot, transition, force_fail,
  finish_with, result_from_log,
}

-- an event that is no STATE event
abbrev pub IsPlain : Body → Type 0
IsPlain (Body.state s) = ⊥
IsPlain _ = Unit

-- The state changes only by plain events, checked transitions, the forced failure, what a component
-- does to its world, and the choice of the builder.
pub record Invariant {W : Type 0} (P : Run W → Type 0) : Type 1 where
  pub event : (t : String) (b : Body) → IsPlain b → Keeps P (record_event t b)
  pub moved : (t : String) (target : State) → Keeps P (transition t target)
  pub forced : (t : String) → Keeps P (force_fail t)
  pub called : {A : Type 0} (f : W → Outcome A × W) → Keeps P (call f)
  pub drawn : {A : Type 0} (f : W → A × W) → Keeps P (draw f)
  pub looked : (t : String) → Keeps P (snapshot t)
  pub switched : (b : Bool) (s : Run W) → P s → P (record s { on_fallback = b })

module _ {W : Type 0} {P : Run W → Type 0} (inv : Invariant P) where
  pub record_note-Keeps : (t : String) (k : NoteKind) → Keeps P (record_note t k)
  unfolding record_note
  record_note-Keeps t k = inv.event t (note k) tt

  pub record_notes-Keeps : (t : String) (ks : List NoteKind) → Keeps P (record_notes t ks)
  unfolding record_notes
  record_notes-Keeps t ks = search (keeps_rules, record_note-Keeps)

  pub finish_with-Keeps :
      (t : String) (st : State) (b : Bool) (ref : Option String) → Keeps P (finish_with t st b ref)
  unfolding finish_with
  finish_with-Keeps t st b ref = Keeps-bind _ _ (inv.event t _ tt) (λ _. Keeps-pure _)

  pub result_from_log-Keeps : (t : String) → Keeps P (result_from_log t)
  unfolding result_from_log
  result_from_log-Keeps t = search (keeps_rules, inv.looked)
