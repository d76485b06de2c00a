-- ===== src/Events/Newest.antt =====
-- What a snapshot holds of its task's events: the last of each kind, or all of them.
use mathlib.Core.List.{append_assoc, append-nil}
use ai_system_canonical.Prelude.{
  ◌≡◌, refl, sym, ap, ◌∙◌, String, Option, none, some, List, [], ◌∷◌, ◌++◌, if◌then◌else◌,
  Bool-cases, inl, inr,
}
use ai_system_canonical.State.{State, created}
use ai_system_canonical.Contracts.{Plan, Observation, VerificationRecord, PolicyDecision, is_tier_0}
use ai_system_canonical.Contracts.Task.{TaskContract}
use ai_system_canonical.Events.{
  Event, EventLog, Body, TaskResult, request, contract, clarification, plan, action_proposal,
  policy_decision, observation, artifact, verification, result, error, capability_grant,
  approval_request, approval_decision, taint_blocked, budget, note, read,
}
use ai_system_canonical.Events.Projection.{
  TaskSnapshot, initial, apply_body, project_from, project_task,
}
use ai_system_canonical.Events.Order.{project_task-read}

-- the payload of one kind of event
abbrev pub state_in : Body → Option State
state_in (Body.state s) = some s
state_in _ = none

abbrev pub contract_in : Body → Option TaskContract
contract_in (contract c) = some c
contract_in _ = none

abbrev pub plan_in : Body → Option Plan
plan_in (plan p) = some p
plan_in _ = none

abbrev pub result_in : Body → Option TaskResult
result_in (result r) = some r
result_in _ = none

abbrev pub observation_in : Body → Option Observation
observation_in (observation o) = some o
observation_in _ = none

abbrev pub decision_in : Body → Option PolicyDecision
decision_in (policy_decision d) = some d
decision_in _ = none

-- a record of tier T0
abbrev pub verdict_in : Body → Option VerificationRecord
verdict_in (verification v) = if is_tier_0 v then some v else none
verdict_in _ = none

abbrev pub or_else {ℓ} : {A : Type ℓ} → Option A → A → A
or_else none a = a
or_else (some b) a = b

abbrev pub either_of {ℓ} : {A : Type ℓ} → Option A → Option A → Option A
either_of none o = o
either_of (some b) o = some b

abbrev pub onto {ℓ} : {A : Type ℓ} → Option A → List A → List A
onto none as' = as'
onto (some a) as' = a ∷ as'

-- the payloads of one kind, in the order of the events, and the last of them
unfoldable pub gathered {ℓ} : {A : Type ℓ} → (Body → Option A) → List Event → List A
gathered pick [] = []
gathered pick (e ∷ es) = onto (pick e.body) (gathered pick es)

unfoldable pub newest {ℓ} : {A : Type ℓ} → (Body → Option A) → List Event → Option A
newest pick [] = none
newest pick (e ∷ es) = either_of (newest pick es) (pick e.body)

-- The second snapshot is the first one with these payloads.
record IsMade (snap snap' : TaskSnapshot) (s : Option State) (c : Option TaskContract)
    (p : Option Plan) (r : Option TaskResult) (v : Option VerificationRecord)
    (os : List Observation) (ds : List PolicyDecision) : Type 0 where
  state : snap'.state ≡ or_else s snap.state
  contract : snap'.contract ≡ either_of c snap.contract
  plan : snap'.plan ≡ either_of p snap.plan
  result : snap'.result ≡ either_of r snap.result
  verdict : snap'.verification ≡ either_of v snap.verification
  observations : snap'.observations ≡ snap.observations ++ os
  decisions : snap'.policy_decisions ≡ snap.policy_decisions ++ ds

abbrev MadeBy : TaskSnapshot → Body → Type 0
MadeBy snap b =
    IsMade snap (apply_body snap b) (state_in b) (contract_in b) (plan_in b) (result_in b)
      (verdict_in b) (onto (observation_in b) []) (onto (decision_in b) [])

no_more {ℓ} : {A : Type ℓ} (as' : List A) → as' ≡ as' ++ []
no_more as' = sym (append-nil as')

parts :
    {snap snap' : TaskSnapshot} {s : Option State} {c : Option TaskContract} {p : Option Plan}
    {r : Option TaskResult} {v : Option VerificationRecord} {os : List Observation}
    {ds : List PolicyDecision}
    → (snap'.state ≡ or_else s snap.state)
      × (snap'.contract ≡ either_of c snap.contract)
      × (snap'.plan ≡ either_of p snap.plan)
      × (snap'.result ≡ either_of r snap.result)
      × (snap'.verification ≡ either_of v snap.verification)
    → snap'.observations ≡ snap.observations ++ os
    → snap'.policy_decisions ≡ snap.policy_decisions ++ ds
    → IsMade snap snap' s c p r v os ds
parts (s, c, p, r, v) os ds = record {
  state = s;
  contract = c;
  plan = p;
  result = r;
  verdict = v;
  observations = os;
  decisions = ds;
}

made : (snap : TaskSnapshot) (b : Body) → MadeBy snap b
unfolding apply_body
made snap (request text ws) =
    parts (refl, refl, refl, refl, refl) (no_more snap.observations) (no_more snap.policy_decisions)
made snap (Body.state s) =
    parts (refl, refl, refl, refl, refl) (no_more snap.observations) (no_more snap.policy_decisions)
made snap (contract c) =
    parts (refl, refl, refl, refl, refl) (no_more snap.observations) (no_more snap.policy_decisions)
made snap clarification =
    parts (refl, refl, refl, refl, refl) (no_more snap.observations) (no_more snap.policy_decisions)
made snap (plan p) =
    parts (refl, refl, refl, refl, refl) (no_more snap.observations) (no_more snap.policy_decisions)
made snap (action_proposal a) =
    parts (refl, refl, refl, refl, refl) (no_more snap.observations) (no_more snap.policy_decisions)
made snap (policy_decision d) =
    parts (refl, refl, refl, refl, refl) (no_more snap.observations) refl
made snap (observation o) =
    parts (refl, refl, refl, refl, refl) refl (no_more snap.policy_decisions)
made snap (artifact paths) =
    parts (refl, refl, refl, refl, refl) (no_more snap.observations) (no_more snap.policy_decisions)
made snap (result r) =
    parts (refl, refl, refl, refl, refl) (no_more snap.observations) (no_more snap.policy_decisions)
made snap (error e) =
    parts (refl, refl, refl, refl, refl) (no_more snap.observations) (no_more snap.policy_decisions)
made snap (capability_grant g) =
    parts (refl, refl, refl, refl, refl) (no_more snap.observations) (no_more snap.policy_decisions)
made snap (approval_request a s) =
    parts (refl, refl, refl, refl, refl) (no_more snap.observations) (no_more snap.policy_decisions)
made snap (approval_decision a b s) =
    parts (refl, refl, refl, refl, refl) (no_more snap.observations) (no_more snap.policy_decisions)
made snap (taint_blocked a) =
    parts (refl, refl, refl, refl, refl) (no_more snap.observations) (no_more snap.policy_decisions)
made snap (budget l) =
    parts (refl, refl, refl, refl, refl) (no_more snap.observations) (no_more snap.policy_decisions)
made snap (note k) =
    parts (refl, refl, refl, refl, refl) (no_more snap.observations) (no_more snap.policy_decisions)
made snap (verification v) = elim (Bool-cases (is_tier_0 v)) [
  | inl first ↦ rw first (
      parts (refl, refl, refl, refl, refl) (no_more snap.observations)
        (no_more snap.policy_decisions))
  | inr other ↦ rw other (
      parts (refl, refl, refl, refl, refl) (no_more snap.observations)
        (no_more snap.policy_decisions))
]

either_assoc {ℓ} :
    {A : Type ℓ} (a b c : Option A) → either_of a (either_of b c) ≡ either_of (either_of a b) c
either_assoc none b c = refl
either_assoc (some a) b c = refl

or_else_assoc {ℓ} :
    {A : Type ℓ} (a b : Option A) (c : A) → or_else a (or_else b c) ≡ or_else (either_of a b) c
or_else_assoc none b c = refl
or_else_assoc (some a) b c = refl

onto-append {ℓ} :
    {A : Type ℓ} (as' : List A) (o : Option A) (bs : List A)
    → (as' ++ onto o []) ++ bs ≡ as' ++ onto o bs
onto-append as' none bs = ap (λ t. t ++ bs) (append-nil as')
onto-append as' (some a) bs = append_assoc as' (a ∷ []) bs

-- The snapshot after some events is the one before with the newest payloads of their kinds.
made_from :
    (snap : TaskSnapshot) (es : List Event)
    → IsMade snap
        (project_from snap es)
        (newest state_in es)
        (newest contract_in es)
        (newest plan_in es)
        (newest result_in es)
        (newest verdict_in es)
        (gathered observation_in es)
        (gathered decision_in es)
unfolding project_from newest gathered
made_from snap [] =
    parts (refl, refl, refl, refl, refl) (no_more snap.observations) (no_more snap.policy_decisions)
made_from snap (e ∷ es) =
    let one = made snap e.body in
    let rest = made_from (apply_body snap e.body) es in
    parts
      (
        rest.state
            ∙ ap (or_else (newest state_in es)) one.state
            ∙ or_else_assoc (newest state_in es) (state_in e.body) snap.state,
        rest.contract
            ∙ ap (either_of (newest contract_in es)) one.contract
            ∙ either_assoc (newest contract_in es) (contract_in e.body) snap.contract,
        rest.plan
            ∙ ap (either_of (newest plan_in es)) one.plan
            ∙ either_assoc (newest plan_in es) (plan_in e.body) snap.plan,
        rest.result
            ∙ ap (either_of (newest result_in es)) one.result
            ∙ either_assoc (newest result_in es) (result_in e.body) snap.result,
        rest.verdict
            ∙ ap (either_of (newest verdict_in es)) one.verdict
            ∙ either_assoc (newest verdict_in es) (verdict_in e.body) snap.verification,
      )
      (rest.observations
        ∙ ap (λ t. t ++ gathered observation_in es) one.observations
        ∙ onto-append snap.observations (observation_in e.body) (gathered observation_in es))
      (rest.decisions
        ∙ ap (λ t. t ++ gathered decision_in es) one.decisions
        ∙ onto-append snap.policy_decisions (decision_in e.body) (gathered decision_in es))

-- What a snapshot holds is what the events give.
pub record IsNewest (snap : TaskSnapshot) (es : List Event) : Type 0 where
  pub state : snap.state ≡ or_else (newest state_in es) created
  pub contract : snap.contract ≡ newest contract_in es
  pub plan : snap.plan ≡ newest plan_in es
  pub result : snap.result ≡ newest result_in es
  pub verdict : snap.verification ≡ newest verdict_in es
  pub observations : snap.observations ≡ gathered observation_in es
  pub decisions : snap.policy_decisions ≡ gathered decision_in es

or_none {ℓ} : {A : Type ℓ} (o : Option A) → either_of o none ≡ o
or_none none = refl
or_none (some a) = refl

-- The snapshot that `project_task` makes of a task's rows has the state of its last STATE event, or
-- CREATED; the last contract, plan and result, and the last verification record of tier T0, if any; and
-- all observations and policy decisions, in their order.
pub project_task-IsNewest :
    (log : EventLog) (t : String) (snap : TaskSnapshot)
    → project_task (read log t) ≡ some snap
    → IsNewest snap (read log t)
project_task-IsNewest log t snap h =
    let es = read log t in
    let m = made_from (initial t) es in
    let e = project_task-read log t snap h in
    record {
      state = ap (λ (x : TaskSnapshot). x.state) (sym e) ∙ m.state;
      contract = ap (λ (x : TaskSnapshot). x.contract) (sym e) ∙ m.contract ∙ or_none _;
      plan = ap (λ (x : TaskSnapshot). x.plan) (sym e) ∙ m.plan ∙ or_none _;
      result = ap (λ (x : TaskSnapshot). x.result) (sym e) ∙ m.result ∙ or_none _;
      verdict = ap (λ (x : TaskSnapshot). x.verification) (sym e) ∙ m.verdict ∙ or_none _;
      observations = ap (λ (x : TaskSnapshot). x.observations) (sym e) ∙ m.observations;
      decisions = ap (λ (x : TaskSnapshot). x.policy_decisions) (sym e) ∙ m.decisions;
    }
