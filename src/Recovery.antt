-- ===== src/Recovery.antt =====
-- nexus/app/services/recovery: completed keys, checkpoints, and the decision after a restart.
pub mod Laws
use ai_system_canonical.Prelude.{
  ℕ, ◌+◌, String, Bool, true, false, Option, none, some, List, [], ◌∷◌, ◌++◌, ◌&&◌, ◌||◌, not,
  length, is_cons, str_eq, ◌==◌, if◌then◌else◌,
}
use ai_system_canonical.Prelude.Text.{is_empty, mem_str}
use ai_system_canonical.State.{State, created, waiting_for_user, is_terminal, state_eq}
use ai_system_canonical.Contracts.{ActionProposal, Observation, Plan}
use ai_system_canonical.Contracts.Task.{TaskContract}
use ai_system_canonical.Capability.{is_side_effecting}
use ai_system_canonical.Events.{Event, Body, action_proposal, observation, artifact}
use ai_system_canonical.Events.Projection.{TaskSnapshot, project_task}

-- the ACTION_PROPOSAL payloads, in order
unfoldable pub proposals : List Event → List ActionProposal
proposals [] = []
proposals (e ∷ es) =
    let rest = proposals es in elim e.body [ action_proposal p ↦ p ∷ rest | _ ↦ rest ]

-- the OBSERVATION payloads, in order
unfoldable pub observations : List Event → List Observation
observations [] = []
observations (e ∷ es) =
    let rest = observations es in elim e.body [ observation o ↦ o ∷ rest | _ ↦ rest ]

-- proposals_by_step.get(step_id): a later proposal for the step replaces an earlier one
unfoldable pub proposal_of : String → List ActionProposal → Option ActionProposal
proposal_of step [] = none
proposal_of step (p ∷ ps) = elim (proposal_of step ps) [
  | some q ↦ some q
  | none ↦ if str_eq p.step_id step then some p else none
]

unfoldable pub succeeded : Observation → Bool
succeeded o = elim o.error [ none ↦ o.exit_code == 0 | some e ↦ is_empty e && o.exit_code == 0 ]

keys_of : List ActionProposal → List Observation → List String
keys_of ps [] = []
keys_of ps (o ∷ os) =
    let rest = keys_of ps os in
    if succeeded o
    then elim (proposal_of o.step_id ps) [ none ↦ rest | some p ↦ p.idempotency_key ∷ rest ]
    else rest

-- as a set
unfoldable pub completed_idempotency_keys : List Event → List String
unfolding keys_of
completed_idempotency_keys events = keys_of (proposals events) (observations events)

-- _EXTERNAL_OPS & SIDE_EFFECTING_OPS
unfoldable pub is_external : String → Bool
is_external op = (str_eq op "net.fetch" || str_eq op "secret.use") && is_side_effecting op

-- `step_id` is in `seen_obs_steps`
unfoldable pub has_observation : String → List Observation → Bool
has_observation step [] = false
has_observation step (o ∷ os) = str_eq o.step_id step || has_observation step os

uncertain : List Observation → List ActionProposal → List String
uncertain os [] = []
uncertain os (p ∷ ps) =
    let rest = uncertain os ps in
    if is_external p.operation && not (has_observation p.step_id os)
    then p.action_id ∷ rest
    else rest

last_state : State → List Event → State
last_state s [] = s
last_state s (e ∷ es) = elim e.body [ Body.state s' ↦ last_state s' es | _ ↦ last_state s es ]

changed_in : List Event → List String
changed_in [] = []
changed_in (e ∷ es) =
    let rest = changed_in es in elim e.body [ artifact ps ↦ ps ++ rest | _ ↦ rest ]

-- `changed_paths` and `completed_keys` are sets here: the code sorts them
pub record Checkpoint : Type 0 where
  pub task_id : String
  pub canonical_state : State
  pub step_index : ℕ
  pub changed_paths : List String
  pub completed_keys : List String
  pub uncertain_external_actions : List String

-- `none`: it raises ValueError on an empty list
unfoldable pub build_checkpoint : List Event → Option Checkpoint
unfolding last_state changed_in uncertain
build_checkpoint [] = none
build_checkpoint (e ∷ es) = some (record {
  task_id = e.task_id;
  canonical_state = last_state created (e ∷ es);
  step_index = length (observations (e ∷ es));
  changed_paths = changed_in (e ∷ es);
  completed_keys = completed_idempotency_keys (e ∷ es);
  uncertain_external_actions = uncertain (observations (e ∷ es)) (proposals (e ∷ es));
})

pub data Verdict : Type 0 where
  resume repair escalate noop : Verdict

unfoldable pub decide_from : TaskSnapshot → Checkpoint → Verdict
decide_from snap cp =
    if is_terminal snap.state
    then noop
    else if state_eq snap.state waiting_for_user
    then noop
    else if is_cons cp.uncertain_external_actions
    then escalate
    else elim snap.contract [
      | none ↦ repair
      | some _ ↦ elim snap.plan [ none ↦ repair | some _ ↦ resume ]
    ]

-- `none`: it raises on an empty list
unfoldable pub reconcile : List Event → Option Verdict
reconcile events = elim (project_task events) [
  | none ↦ none
  | some snap ↦ elim (build_checkpoint events) [
    | none ↦ none
    | some cp ↦ some (decide_from snap cp)
  ]
]
