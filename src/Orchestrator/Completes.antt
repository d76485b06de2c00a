-- ===== src/Orchestrator/Completes.antt =====
-- Methods that return, from a snapshot of the task to the next: one rule for each way to build a method.
pub mod Answer
pub mod Whole
use ai_system_canonical.Prelude.{
  ◌≡◌, refl, ap, ◌∙◌, String, Bool, true, false, Option, none, some, List, [], ◌∷◌, ◌++◌, arith,
  str_eq, if◌then◌else◌,
}
use text.Mathlib.TextEquality.{eq_iff}
use ai_system_canonical.State.{State}
use ai_system_canonical.State.Gate.{transition_ok}
use ai_system_canonical.Events.{
  Event, EventLog, Body, NoteKind, note, checkpoint, read, append, new_event,
}
use ai_system_canonical.Events.Order.{read-append}
use ai_system_canonical.Events.Projection.{
  TaskSnapshot, initial, apply_body, apply_event, project_from, project_task,
}
use ai_system_canonical.Orchestrator.Act.{
  Act, Outcome, returns, throws, Exc, pure, catch, handle, go_on, for_each, ◌>>=◌,
}
use ai_system_canonical.Orchestrator.Base.{
  Run, call, draw, record_event, record_note, record_notes, snapshot, transition, enter, checked,
  checkpoints,
}

-- from a state that satisfies `P`, `m` returns, and `Q` holds of its value and of what it leaves
pub record Does {S A : Type 0} (P : S → Type 0) (m : Act S A) (Q : A → S → Type 0) : Type 0 where
  pub done : (s : S) → P s → (a : A) × ((m s).0 ≡ returns a) × Q a (m s).1

-- the task has a snapshot with the property
abbrev pub At : {W : Type 0} → String → (TaskSnapshot → Type 0) → Run W → Type 0
At t P s = (snap : TaskSnapshot) × (project_task (read s.log t) ≡ some snap) × P snap

-- a component that answers always
abbrev pub Answers : {W A : Type 0} → (W → Outcome A × W) → Type 0
Answers {W} {A} f = (w : W) → (a : A) × ((f w).0 ≡ returns a)

project_from-snoc :
    (snap : TaskSnapshot) (es : List Event) (e : Event)
    → project_from snap (es ++ e ∷ []) ≡ apply_event (project_from snap es) e
unfolding project_from
project_from-snoc snap [] e = refl
project_from-snoc snap (x ∷ es) e = project_from-snoc (apply_event snap x) es e

project_task-snoc :
    (es : List Event) (e : Event) (snap : TaskSnapshot)
    → project_task es ≡ some snap
    → project_task (es ++ e ∷ []) ≡ some (apply_event snap e)
unfolding project_task
project_task-snoc [] e snap h = cc
project_task-snoc (x ∷ es) e snap h =
    let same : project_from (initial x.task_id) (x ∷ es) ≡ snap = cc in
    ap some (
      project_from-snoc (initial x.task_id) (x ∷ es) e
      ∙ ap (λ (k : TaskSnapshot). apply_event k e) same)

append-snapshot :
    (log : EventLog) (t : String) (b : Body) (snap : TaskSnapshot)
    → project_task (read log t) ≡ some snap
    → project_task (read (append log t b) t) ≡ some (apply_body snap b)
append-snapshot log t b snap h =
    rw (read-append log t t b, (eq_iff t t).1 refl)
      (project_task-snoc (read log t) (new_event log t b) snap h)

module _ {S A B : Type 0} {P : S → Type 0} {R : A → S → Type 0} {Q : B → S → Type 0} where
  pub Does-bind :
      (m : Act S A) (f : A → Act S B)
      → Does P m R
      → ((a : A) → Does (R a) (f a) Q)
      → Does P (m >>= f) Q
  unfolding ◌>>=◌
  Does-bind m f d e = record {
    done = λ s p. let (a, r, q) = d.done s p in rw r ((e a).done (m s).1 q);
  }

module _ {S A : Type 0} where
  pub Does-return : {Q : A → S → Type 0} (a : A) → Does (Q a) (pure a) Q
  unfolding pure
  Does-return a = record { done = λ s p. (a, refl, p) }

  -- a fact that does not depend on the state
  pub Does-given :
      {P : S → Type 0} {Q : A → S → Type 0} (G : Type 0) (m : Act S A)
      → (G → Does P m Q)
      → Does (λ s. P s × G) m Q
  Does-given G m k = record { done = λ s p. (k p.1).done s p.0 }

module _ {S A : Type 0} {P : S → Type 0} where
  pub Does-pure : (a : A) → Does P (pure a) (λ _. P)
  unfolding pure
  Does-pure a = record { done = λ s p. (a, refl, p) }

  pub Does-if :
      {Q : A → S → Type 0} (test : Bool) (m n : Act S A)
      → Does P m Q
      → Does P n Q
      → Does P (if test then m else n) Q
  Does-if true m n d e = d
  Does-if false m n d e = e

module _ {W : Type 0} (t : String) where
  pub Does-event :
      {P Q : TaskSnapshot → Type 0} (b : Body)
      → ((snap : TaskSnapshot) → P snap → Q (apply_body snap b))
      → Does (At {W = W} t P) (record_event t b) (λ _. At t Q)
  unfolding record_event
  Does-event b step = record {
    done = λ s p. (tt, refl, (apply_body p.0 b, append-snapshot s.log t b p.0 p.1, step p.0 p.2));
  }

  pub Does-note :
      {P : TaskSnapshot → Type 0} (k : NoteKind)
      → Does (At {W = W} t P) (record_note t k) (λ _. At t P)
  unfolding record_note apply_body
  Does-note k = Does-event (note k) (λ snap p. p)

  pub Does-notes :
      {P : TaskSnapshot → Type 0} (ks : List NoteKind)
      → Does (At {W = W} t P) (record_notes t ks) (λ _. At t P)
  unfolding record_notes for_each
  Does-notes [] = Does-pure tt
  Does-notes (k ∷ ks) = Does-bind _ _ (Does-note k) (λ _. Does-notes ks)

  pub Does-call :
      {A : Type 0} {P : TaskSnapshot → Type 0} (f : W → Outcome A × W)
      → Answers f
      → Does (At t P) (call f) (λ _. At t P)
  unfolding call
  Does-call f h = record { done = λ s p. ((h s.world).0, (h s.world).1, p) }

  pub Does-draw :
      {A : Type 0} {P : TaskSnapshot → Type 0} (f : W → A × W)
      → Does (At t P) (draw f) (λ _. At t P)
  unfolding draw
  Does-draw f = record { done = λ s p. (_, refl, p) }

  entered :
      {P Q : TaskSnapshot → Type 0} (target : State)
      → ((snap : TaskSnapshot) → P snap → Q (apply_body snap (Body.state target)))
      → Does (At {W = W} t P) (enter t target) (λ _. At t Q)
  unfolding enter
  entered {P} {Q} target step =
      Does-bind {R = λ _. At t Q} _ _ (Does-event (Body.state target) step)
        (λ _. Does-if _ _ _ (Does-note checkpoint) (Does-pure tt))

  pub Does-transition :
      {P Q : TaskSnapshot → Type 0} (target : State)
      → ((snap : TaskSnapshot) → P snap → transition_ok snap.state target snap ≡ none)
      → ((snap : TaskSnapshot) → P snap → Q (apply_body snap (Body.state target)))
      → Does (At {W = W} t P) (transition t target) (λ _. At t Q)
  unfolding transition snapshot ◌>>=◌
  Does-transition target ok step = record {
    done = λ s p. rw (p.1, ok p.0 p.2) ((entered target step).done s p);
  }

  handled :
      {A : Type 0} {P : TaskSnapshot → Type 0} (o : Outcome A) (h : Exc → Act (Run W) A) (s : Run W)
      → ((x : Exc) → Does (At t P) (h x) (λ _. At t P))
      → At t P s
      → (a : A) × ((handle o h s).0 ≡ returns a) × At t P (handle o h s).1
  handled (returns a) h s k p = (a, refl, p)
  handled (throws x) h s k p = (k x).done s p

  -- a call that may raise, with a handler that goes on
  pub Does-catch :
      {A : Type 0} {P : TaskSnapshot → Type 0} (f : W → Outcome A × W) (h : Exc → Act (Run W) A)
      → ((x : Exc) → Does (At t P) (h x) (λ _. At t P))
      → Does (At t P) (catch (call f) h) (λ _. At t P)
  unfolding catch call
  Does-catch f h k = record {
    done = λ s p. handled (f s.world).0 h (record s { world = (f s.world).1 }) k p;
  }

  -- a call whose answer has a property
  pub Does-asked :
      {A : Type 0} {P : TaskSnapshot → Type 0} (G : A → Type 0) (f : W → Outcome A × W)
      → ((w : W) → (a : A) × ((f w).0 ≡ returns a) × G a)
      → Does (At t P) (call f) (λ a s. At t P s × G a)
  unfolding call
  Does-asked G f h = record { done = λ s p. ((h s.world).0, (h s.world).1, (p, (h s.world).2)) }

-- the snapshot of a task whose first event is its request
pub first_snapshot :
    (log : EventLog) (t : String) (b : Body)
    → read log t ≡ []
    → project_task (read (append log t b) t) ≡ some (apply_body (initial t) b)
unfolding project_task project_from
first_snapshot log t b h = rw (read-append log t t b, (eq_iff t t).1 refl, h) refl
