-- ===== src/Experience.antt =====
-- nexus/app/services/experience: the record of an experience, its states and their transition table.
pub mod Gates
pub mod Signature
pub mod Evaluate
pub mod Store
pub mod Operations
pub mod Invariant
pub mod Sequence
pub mod Valid
pub mod Final
pub mod Found
pub mod Life
pub mod Use
use ai_system_canonical.Prelude.{
  ℕ, String, Bool, true, false, Option, none, some, List, [], ◌∷◌, any, ◌==◌,
}

pub data ExperienceState : Type 0 where
  observed candidate validated promoted monitored stale quarantined : ExperienceState

-- A number for each state, to compare states by.
abbrev pub index : ExperienceState → ℕ
index observed = 0
index candidate = 1
index validated = 2
index promoted = 3
index monitored = 4
index stale = 5
index quarantined = 6

abbrev pub state_eq : ExperienceState → ExperienceState → Bool
state_eq a b = index a == index b

-- `ALLOWED`
unfoldable pub successors : ExperienceState → List ExperienceState
successors observed = candidate ∷ quarantined ∷ []
successors candidate = validated ∷ quarantined ∷ []
successors validated = promoted ∷ quarantined ∷ []
successors promoted = monitored ∷ stale ∷ quarantined ∷ []
successors monitored = stale ∷ quarantined ∷ []
successors stale = []
successors quarantined = []

unfoldable pub can_transition : ExperienceState → ExperienceState → Bool
unfolding successors
can_transition current target = any (state_eq target) (successors current)

-- What a gate or an evaluation gives as its reason: the text's kind, with what it quotes.
pub data Why : Type 0 where
  unknown_tier : String → Why
  human_verified already_represented : Why
  completed_at : String → Why
  few_shadow_tasks : ℕ → Why
  low_shadow_success high_cost : Why
  few_weeks : ℕ → Why
  shadow_passed : ℕ → Why
  few_heldout : ℕ → Why
  no_guardrail_result guardrail_dropped heldout_passed : Why
  trailing_success_low : ℕ → Why
  few_uses dependency_gone catastrophic_outcome : Why
  approval_required : Why
  evaluated : ℕ → Why
  after_promoted : Why
  reported : String → Why
  nothing : Why

-- An entry of `promotion_history`, which the code keeps as the text `from->to: note`.
pub record Move : Type 0 where
  pub source : ExperienceState
  pub target : ExperienceState
  pub why : Why

-- `monitoring_metrics`: a dictionary, of which the code uses these keys
pub record Metrics (F : Type 0) : Type 0 where
  pub heldout_n : Option ℕ
  pub trailing_n : Option ℕ
  pub trailing_success : Option F
  pub uses_60d : Option F
  pub dependency_missing : Bool

-- an entry of `shadow_replay_log`
pub record ShadowRun (F : Type 0) : Type 0 where
  pub verified : Bool
  pub cost_ratio : F
  pub week : ℕ

pub record ExperienceRecord (F : Type 0) : Type 0 where
  pub id : String
  pub signature : String
  pub strategy : String
  pub actions : List String
  pub outcome : String
  pub evidence_refs : List String
  pub success_score : F
  pub validation_state : ExperienceState
  pub scope : String
  pub version : ℕ
  pub promotion_history : List Move
  pub monitoring_metrics : Metrics F
  pub shadow_replay_log : List (ShadowRun F)
  pub guardrail_result : Option F
  pub ts : F

abbrev pub no_metrics : {F : Type 0} → Metrics F
no_metrics = record {
  heldout_n = none;
  trailing_n = none;
  trailing_success = none;
  uses_60d = none;
  dependency_missing = false;
}
