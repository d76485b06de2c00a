-- ===== src/Events.antt =====
-- nexus/app/events/log.py: the append-only event log. A payload keeps what some fold of the log
-- reads; an event that is only recorded is a `note` of its kind.
pub mod Order
pub mod Newest
pub mod Projection
use ai_system_canonical.Prelude.{
  ℕ, ◌+◌, String, Bool, true, false, Option, List, [], ◌∷◌, ◌++◌, str_eq, if◌then◌else◌,
}
use ai_system_canonical.Prelude.Text.{mem_str}
use ai_system_canonical.State.{State}
use ai_system_canonical.Contracts.{
  Plan, ActionProposal, PolicyDecision, CapabilityGrant, Observation, VerificationRecord,
}
use ai_system_canonical.Contracts.Task.{TaskContract}

-- the event kinds whose payload nothing that is modelled reads
pub data NoteKind : Type 0 where
  model_run progress checkpoint reconcile escalation agent_message critic disagreement role_perf
        evidence composition memory experience route hardware eval canary regression repo impact
        research synthesis kb authoring engine selection telemetry tool tool_loop applied brainstorm
        egress_blocked capability_deny experience_transition :
      NoteKind

pub data BudgetLevel : Type 0 where
  soft hard : BudgetLevel

pub record TaskResult : Type 0 where
  pub task_id : String
  pub state : State
  pub verified : Bool
  pub verification_ref : Option String

pub data Body : Type 0 where
  request : String → String → Body
  state : State → Body
  contract : TaskContract → Body
  clarification : Body
  plan : Plan → Body
  action_proposal : ActionProposal → Body
  policy_decision : PolicyDecision → Body
  observation : Observation → Body
  artifact : List String → Body
  verification : VerificationRecord → Body
  result : TaskResult → Body
  error : String → Body
  capability_grant : CapabilityGrant → Body
  approval_request : String → String → Body
  approval_decision : String → Bool → String → Body
  taint_blocked : String → Body
  budget : BudgetLevel → Body
  note : NoteKind → Body

pub record Event : Type 0 where
  pub seq : ℕ
  pub task_id : String
  pub body : Body

-- The table `events`; `last_seq` is the counter that AUTOINCREMENT keeps.
pub record EventLog : Type 0 where
  pub rows : List Event
  pub last_seq : ℕ

abbrev pub empty : EventLog
empty = record { rows = []; last_seq = 0 }

abbrev pub new_event : EventLog → String → Body → Event
new_event log t b = record { seq = log.last_seq + 1; task_id = t; body = b }

unfoldable pub append : EventLog → String → Body → EventLog
append log t b = record { rows = log.rows ++ new_event log t b ∷ []; last_seq = log.last_seq + 1 }

unfoldable pub read_rows : String → List Event → List Event
read_rows t [] = []
read_rows t (e ∷ es) = let rest = read_rows t es in if str_eq e.task_id t then e ∷ rest else rest

-- `read` orders by `seq`, which is the order of insertion
unfoldable pub read : EventLog → String → List Event
unfolding read_rows
read log t = read_rows t log.rows

-- `GROUP BY task_id ORDER BY MIN(seq)`: each task once, by its first event
first_seen : List String → List Event → List String
unfolding mem_str
first_seen seen [] = []
first_seen seen (e ∷ es) = elim (mem_str e.task_id seen) [
  | true ↦ first_seen seen es
  | false ↦ e.task_id ∷ first_seen (e.task_id ∷ seen) es
]

unfoldable pub task_ids : EventLog → List String
unfolding first_seen
task_ids log = first_seen [] log.rows
