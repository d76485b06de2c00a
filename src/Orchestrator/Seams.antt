-- ===== src/Orchestrator/Seams.antt =====
-- The components that the orchestrator is given: the models, the builders, the verifiers, the policy
-- and the sandbox. Each may answer or throw, and reads and changes a world of its own.
use ai_system_canonical.Prelude.{ℕ, String, Bool, Option, List}
use ai_system_canonical.Contracts.{
  Plan, PlanStep, ActionProposal, CapabilityGrant, PolicyDecision, VerificationRecord,
}
use ai_system_canonical.Contracts.Task.{TaskContract}
use ai_system_canonical.Events.{NoteKind}
use ai_system_canonical.Orchestrator.Act.{Outcome}

-- nexus/app/services/build/base.py
pub record BuildOutput : Type 0 where
  pub changed_paths : List String
  pub diff : String
  pub stderr : String
  pub exit_code : ℕ
  pub error : Option String

pub data CriticVerdict : Type 0 where
  accept revise reject : CriticVerdict

-- the claims of its findings
pub record CriticReport : Type 0 where
  pub verdict : CriticVerdict
  pub findings : List String

-- the builder that is wired or that a route picks for the round, or the stronger one that `fallback_builder` holds
pub data Which : Type 0 where
  primary fallback : Which

-- Where optional services (memory, repository context, experience, routing, brainstorming,
-- composition, canaries) may log notes of their own.
pub data Hook : Type 0 where
  before_interpret routing before_plan after_plan after_build after_complete catastrophic
        settle_canaries :
      Hook

-- what a deliverable path other than plan, build and verify comes back with
pub record Deliverable : Type 0 where
  pub notes : List NoteKind
  pub is_empty_draft : Bool
  -- writing the document into the workspace failed, or left these files
  pub write_failed : Bool
  pub written : List String
  pub loop_risk : Bool
  pub ok : Bool
  pub decisions : List PolicyDecision

-- what became of an artifact: no store is wired, it was kept, or the store raised
pub data Stored : Type 0 where
  not_wired kept broken : Stored

pub record Seams (W : Type 0) : Type 0 where
  pub new_id : W → String × W
  pub now : W → ℕ
  pub elapsed : W → ℕ
  -- the factory of the tool loop, and the refusal of what is no ToolLoop
  pub tool_loop : W → Outcome (Unit {0}) × W
  pub copy_workspace : String → W → Outcome String × W
  pub interpret : String → W → Outcome TaskContract × W
  pub make_plan : TaskContract → W → Outcome Plan × W
  pub build : Which → PlanStep → TaskContract → W → Outcome BuildOutput × W
  pub decide : ActionProposal → CapabilityGrant → W → Outcome PolicyDecision × W
  pub run_target : TaskContract → W → Outcome String × W
  pub verify : TaskContract → String → W → Outcome VerificationRecord × W
  pub verify_t2 : TaskContract → String → W → Outcome VerificationRecord × W
  pub review : TaskContract → String → W → Outcome CriticReport × W
  pub do_research : TaskContract → W → Outcome (List NoteKind) × W
  -- whether an untried stronger provider was found
  pub stronger_model : TaskContract → W → Outcome Bool × W
  -- whether the hardware mode says pause
  pub hardware_pause : W → Outcome Bool × W
  pub service : Hook → W → Outcome (List NoteKind) × W
  pub store_artifact : W → Stored × W
  -- whether the document's format is docx or pptx
  pub office_format : TaskContract → W → Bool
  pub deliver : TaskContract → W → Outcome Deliverable × W
  pub similar : String → String → Bool
  pub normalize_error : String → Option String
  pub action_hash : ActionProposal → String
  -- what is wired
  pub has_critic : Bool
  pub has_t2 : Bool
  pub t2_on_escalation_only : Bool
  pub has_researcher : Bool
  pub has_router : Bool
  pub has_fallback : Bool
  pub per_file_policy : Bool
  pub has_research : Bool
  pub has_kb : Bool
  pub has_authoring : Bool
  pub has_tool_loop : Bool
