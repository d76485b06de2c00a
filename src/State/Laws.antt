-- ===== src/State/Laws.antt =====
-- What a checked log says of its task: terminal states absorb, and only a passing T0 record completes.
use ai_system_canonical.Prelude.{
  String, ◌≡◌, ◌≢◌, refl, true, false, Option, none, some, List, [], ◌∷◌, ◌++◌, arith, ◌⊎◌, inl,
  inr, ap, ◌∙◌, subst, sym,
}
use ai_system_canonical.State.{State, completed, is_allowed, is_terminal, State-discrete}
use ai_system_canonical.Contracts.{VerificationRecord, Overall, Tier}
use ai_system_canonical.Events.{Event, Body, verification}
use ai_system_canonical.Events.Projection.{
  TaskSnapshot, initial, apply_event, apply_body, project_from,
}
use ai_system_canonical.State.Gate.{transition_ok, gate_reason, completed_gate}
use ai_system_canonical.State.Trace.{IsChecked, IsSound}

-- Nothing is allowed from a terminal state.
pub terminal_allows_nothing : (s t : State) → is_terminal s ≡ true → is_allowed s t ≡ false
unfolding is_allowed is_terminal
terminal_allows_nothing s t h = ground arith

terminal_step :
    (snap : TaskSnapshot) (b : Body)
    → is_terminal snap.state ≡ true
    → IsChecked snap b
    → (apply_body snap b).state ≡ snap.state
unfolding apply_body transition_ok
terminal_step snap (Body.state s) h k = ground (arith, terminal_allows_nothing snap.state s)
terminal_step snap (verification v) h k = ground arith
terminal_step snap _ h k = refl

-- From a terminal state no checked continuation of the log leaves it.
pub terminal_absorbs :
    (snap : TaskSnapshot) (es : List Event)
    → is_terminal snap.state ≡ true
    → IsSound snap es
    → (project_from snap es).state ≡ snap.state
unfolding project_from
terminal_absorbs snap [] h k = refl
terminal_absorbs snap (e ∷ es) h k =
    let stays = terminal_step snap e.body h k.0 in
    terminal_absorbs (apply_event snap e) es (rw stays h) k.1 ∙ stays

abbrev pub HasBody : Body → List Event → Type 0
HasBody b [] = ⊥
HasBody b (e ∷ es) = (e.body ≡ b) ⊎ HasBody b es

verification_step :
    (snap : TaskSnapshot) (b : Body) (v : VerificationRecord)
    → (apply_body snap b).verification ≡ some v
    → (snap.verification ≡ some v) ⊎ ((b ≡ verification v) × (v.tier ≡ Tier.t0))
unfolding apply_body
verification_step snap (Body.state s) v h = inl h
verification_step snap (verification w) v h = ground arith
verification_step snap _ v h = inl h

-- The record that the snapshot holds was logged, as a T0 record.
pub verification_from :
    (snap : TaskSnapshot) (es : List Event) (v : VerificationRecord)
    → (project_from snap es).verification ≡ some v
    → (snap.verification ≡ some v) ⊎ (HasBody (verification v) es × (v.tier ≡ Tier.t0))
unfolding project_from
verification_from snap [] v h = inl h
verification_from snap (e ∷ es) v h = elim (verification_from (apply_event snap e) es v h) [
  | inr found ↦ inr (inr found.0, found.1)
  | inl here ↦ elim (verification_step snap e.body v here) [
    | inl before ↦ inl before
    | inr new ↦ inr (inl new.0, new.1)
  ]
]

completed_gate-pass :
    (o : Option VerificationRecord)
    → completed_gate o ≡ none
    → (v : VerificationRecord) × (o ≡ some v) × (v.overall ≡ Overall.pass)
unfolding completed_gate
completed_gate-pass none h = cc
completed_gate-pass (some v) h = (v, refl, ground arith)

transition_ok-gate :
    (s : State) (snap : TaskSnapshot)
    → transition_ok s completed snap ≡ none
    → completed_gate snap.verification ≡ none
unfolding transition_ok gate_reason
transition_ok-gate s snap h = ground arith

completed_step :
    (snap : TaskSnapshot) (b : Body)
    → snap.state ≢ completed
    → IsChecked snap b
    → (apply_body snap b).state ≡ completed
    → (v : VerificationRecord) × (snap.verification ≡ some v) × (v.overall ≡ Overall.pass)
unfolding apply_body
completed_step snap (Body.state s) n k h =
    completed_gate-pass snap.verification
      (transition_ok-gate snap.state snap (subst (λ t. transition_ok snap.state t snap ≡ none) h k))
completed_step snap (verification v) n k h = absurd (n (ground arith))
completed_step snap _ n k h = absurd (n h)

-- At some point of the log the snapshot holds a passing T0 record, which was logged before.
abbrev pub PassedBefore : TaskSnapshot → List Event → Type 0
PassedBefore snap es =
    (before : List Event) × (after : List Event) × (v : VerificationRecord) × (es ≡ before ++ after)
    × ((project_from snap before).verification ≡ some v)
    × (v.overall ≡ Overall.pass)

-- Where a checked run of events takes a task to COMPLETED, the snapshot held a passing record at some
-- point of it.
pub completed-PassedBefore :
    (snap : TaskSnapshot) (es : List Event)
    → snap.state ≢ completed
    → IsSound snap es
    → (project_from snap es).state ≡ completed
    → PassedBefore snap es
unfolding project_from
completed-PassedBefore snap [] n k h = absurd (n h)
completed-PassedBefore snap (e ∷ es) n k h =
    elim (State-discrete (apply_event snap e).state completed) [
      | yes now ↦
          let (v, held, ok) = completed_step snap e.body n k.0 now in
          ([], e ∷ es, v, refl, held, ok)
      | no later ↦
          let (before, after, v, split, held, ok) =
            completed-PassedBefore (apply_event snap e) es later k.1 h in
          (e ∷ before, after, v, ap (λ (l : List Event). e ∷ l) split, held, ok)
    ]

-- The evidence that completing a task takes: a passing T0 record in its log.
abbrev pub HasPassingT0 : List Event → Type 0
HasPassingT0 es =
    (v : VerificationRecord) × HasBody (verification v) es
    × (v.tier ≡ Tier.t0)
    × (v.overall ≡ Overall.pass)

HasBody-append : (b : Body) (xs ys : List Event) → HasBody b xs → HasBody b (xs ++ ys)
HasBody-append b [] ys h = absurd h
HasBody-append b (x ∷ xs) ys (inl e) = inl e
HasBody-append b (x ∷ xs) ys (inr h) = inr (HasBody-append b xs ys h)

pub completed-HasPassingT0 :
    (t : String) (es : List Event)
    → IsSound (initial t) es
    → (project_from (initial t) es).state ≡ completed
    → HasPassingT0 es
completed-HasPassingT0 t es k h =
    let (before, after, v, split, held, ok) = completed-PassedBefore (initial t) es (λ e. cc) k h in
    elim (verification_from (initial t) before v held) [
      | inl never ↦ cc
      | inr (logged, tier) ↦ (
        v,
        subst (HasBody (verification v)) (sym split)
            (HasBody-append (verification v) before after logged),
        tier,
        ok,
      )
    ]
