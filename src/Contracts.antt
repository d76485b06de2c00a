-- ===== src/Contracts.antt =====
-- nexus/app/schemas/contracts.py: the canonical records. Times are counted in ticks of the clock, and
-- the `id` that `new_id` draws is kept where some code reads it.
pub mod Task
use ai_system_canonical.Prelude.{
  ℕ, ◌+◌, String, Bool, true, false, Option, none, some, List, [], ◌∷◌, ◌||◌, any, ltb, str_eq, map,
}
use ai_system_canonical.Prelude.Text.{codes, lower, codes_eq, ends_with, strip, mem_str}

pub record PlanStep : Type 0 where
  pub id : String
  pub intent : String
  pub expected_artifact_delta : String
  pub required_capability : String

pub record Plan : Type 0 where
  pub steps : List PlanStep

pub data TrustLevel : Type 0 where
  user workspace tool_output retrieved_web doc_input : TrustLevel

-- A value of an argument dictionary, as far as the policy rules tell values apart.
pub data Value : Type 0 where
  text : String → Value
  texts : List String → Value
  null : Value
  -- any other value, with its truth
  other_value : Bool → Value

pub record ActionProposal : Type 0 where
  pub action_id : String
  pub step_id : String
  pub operation : String
  pub arguments : List (String × Value)
  pub required_capability : String
  pub workspace_scope : String
  pub idempotency_key : String
  pub trust : TrustLevel

pub data Decision : Type 0 where
  allow deny require_approval require_verification escalate : Decision

pub data Rule : Type 0 where
  no_grant capability_expired operation_not_granted path_out_of_scope tainted_side_effect
        egress_not_allowed risk_class_approval default_allow other_rule :
      Rule

pub record PolicyDecision : Type 0 where
  pub action_id : String
  pub decision : Decision
  pub rule : Rule

pub record CapabilityGrant : Type 0 where
  pub step_id : String
  pub token : String
  pub scope_path : String
  pub operations : List String
  pub network_allowlist : List String
  pub issued_at : ℕ
  pub ttl : ℕ

-- What `covers_path` asks of the operating system: the parts of a resolved path, `none` where
-- resolving raises. `locate root target` resolves `target`, taken under `root` when it is relative.
pub record FileSystem : Type 0 where
  pub resolve : String → Option (List String)
  pub locate : List String → String → Option (List String)

unfoldable pub is_expired : CapabilityGrant → ℕ → Bool
is_expired g now = ltb (g.issued_at + g.ttl) now

unfoldable pub allows_operation : CapabilityGrant → String → Bool
allows_operation g op = mem_str op g.operations

-- `resolved == root or root in resolved.parents`
unfoldable pub is_under : List String → List String → Bool
is_under [] parts = true
is_under (r ∷ root) [] = false
is_under (r ∷ root) (p ∷ parts) = elim (str_eq r p) [ true ↦ is_under root parts | false ↦ false ]

unfoldable pub covers_path : FileSystem → CapabilityGrant → String → Bool
unfolding is_under
covers_path fs g target = elim (fs.resolve g.scope_path) [
  | none ↦ false
  | some root ↦ elim (fs.locate root target) [ none ↦ false | some parts ↦ is_under root parts ]
]

-- any(h == a.lower() or h.endswith("." + a.lower()) for a in network_allowlist)
unfoldable pub allows_host : CapabilityGrant → String → Bool
unfolding strip codes_eq ends_with lower
allows_host g host =
    let h = map lower (strip (codes host)) in
    any (λ a. codes_eq h (map lower (codes a)) || ends_with h (b'.' ∷ map lower (codes a)))
      g.network_allowlist

pub record Observation : Type 0 where
  pub step_id : String
  pub exit_code : ℕ
  pub error : Option String

pub data Tier : Type 0 where
  t0 t1 t2 t3 : Tier

pub data Overall : Type 0 where
  pass fail : Overall

pub record VerificationRecord : Type 0 where
  pub id : String
  pub tier : Tier
  pub overall : Overall

abbrev pub is_pass : VerificationRecord → Bool
is_pass v = elim v.overall [ pass ↦ true | fail ↦ false ]

abbrev pub is_tier_0 : VerificationRecord → Bool
is_tier_0 v = elim v.tier [ t0 ↦ true | _ ↦ false ]
