-- ===== src/Policy.antt =====
-- nexus/app/services/policy/rules.py and engine.py: the ordered rules, and the engine that runs them.
-- `urlparse` is a parameter, and so are the file system and the time of the decision.
pub mod Glob
pub mod Laws
pub mod Authority
use ai_system_canonical.Prelude.{
  ℕ, String, Bool, true, false, Option, none, some, List, [], ◌∷◌, ◌++◌, ◌||◌, ◌&&◌, not, any, all,
  str_eq, ◌==◌, map, if◌then◌else◌,
}
use ai_system_canonical.Prelude.Text.{codes, lower, is_empty}
use ai_system_canonical.Contracts.{
  ActionProposal, CapabilityGrant, PolicyDecision, Decision, allow, deny, require_approval, Rule,
  no_grant, capability_expired, operation_not_granted, path_out_of_scope, tainted_side_effect,
  egress_not_allowed, risk_class_approval, default_allow, Value, text, texts, null, other_value,
  FileSystem, is_expired, allows_operation, covers_path, allows_host,
}
use ai_system_canonical.Capability.{is_side_effecting}
use ai_system_canonical.Taint.{blocks_side_effect}
use ai_system_canonical.Policy.Glob.{glob_matches}

-- What the engine reads beside its arguments. `hostname url` is
-- `urlparse(url).hostname or ""`, or `none` where this raises ValueError.
pub record PolicyEnv : Type 0 where
  pub file_system : FileSystem
  pub now : ℕ
  pub hostname : String → Option String
  pub risk_globs : List String

-- DEFAULT_RISK_GLOBS
abbrev pub default_risk_globs : List String
default_risk_globs =
    "*auth*" ∷ "*/auth/*" ∷ "*/migrations/*" ∷ "*secret*" ∷ "*/.github/*" ∷ "*/payments/*"
    ∷ "*/billing/*" ∷ "*.pem" ∷ "*.key" ∷ []

-- A rule fires, falls through, or raises (`urlparse` of a value that is no text).
pub data Verdict : Type 0 where
  passes raises : Verdict
  fires : Decision → Rule → Verdict

argument : String → List (String × Value) → Option Value
argument key [] = none
argument key ((k, v) ∷ rest) = if str_eq k key then some v else argument key rest

text_of : Option Value → List String
text_of (some (text s)) = s ∷ []
text_of _ = []

texts_of : Option Value → List String
texts_of (some (texts ss)) = ss
texts_of _ = []

unfoldable pub paths_in : ActionProposal → List String
unfolding text_of texts_of argument
paths_in p =
    text_of (argument "path" p.arguments)
    ++ text_of (argument "target" p.arguments)
    ++ text_of (argument "file" p.arguments)
    ++ text_of (argument "dir" p.arguments)
    ++ texts_of (argument "paths" p.arguments)

-- path.replace("\\", "/")
slashes : ℕ → ℕ
slashes c = if c == 92 then b'/' else c

is_risky_path : List String → String → Bool
unfolding slashes
is_risky_path globs path =
    let norm = map slashes (codes path) in
    any (λ g. glob_matches (codes g) norm || glob_matches (codes g) (map lower norm)) globs

unfoldable pub is_risky : List String → ActionProposal → Bool
unfolding is_risky_path
is_risky globs p = any (is_risky_path globs) (paths_in p)

-- `none`: `urlparse` raises; the host of no URL, or of a false value, is ""
unfoldable pub host_in : PolicyEnv → ActionProposal → Option String
unfolding argument
host_in env p = elim (argument "url" p.arguments) [
  | none ↦ some ""
  | some v ↦ elim v [
    | text u ↦ env.hostname u
    | null ↦ some ""
    | texts us ↦ elim us [ [] ↦ some "" | _ ∷ _ ↦ none ]
    | other_value truth ↦ elim truth [ true ↦ none | false ↦ some "" ]
  ]
]

module _ (env : PolicyEnv) (p : ActionProposal) (g : CapabilityGrant) where
  unfoldable pub rule_capability_expired : Verdict
  rule_capability_expired = if is_expired g env.now then fires deny capability_expired else passes

  unfoldable pub rule_operation_not_granted : Verdict
  rule_operation_not_granted =
      if allows_operation g p.operation then passes else fires deny operation_not_granted

  unfoldable pub rule_path_out_of_scope : Verdict
  rule_path_out_of_scope =
      if all (covers_path env.file_system g) (paths_in p)
      then passes
      else fires deny path_out_of_scope

  unfoldable pub rule_tainted_side_effect : Verdict
  rule_tainted_side_effect = if blocks_side_effect p then fires deny tainted_side_effect else passes

  egress_verdict : Option String → Verdict
  egress_verdict none = raises
  egress_verdict (some host) =
      if is_empty host || not (allows_host g host) then fires deny egress_not_allowed else passes

  unfoldable pub rule_egress_not_allowed : Verdict
  unfolding egress_verdict
  rule_egress_not_allowed =
      if str_eq p.operation "net.fetch" then egress_verdict (host_in env p) else passes

  unfoldable pub rule_risk_class_needs_approval : Verdict
  rule_risk_class_needs_approval =
      if is_side_effecting p.operation && is_risky env.risk_globs p
      then fires require_approval risk_class_approval
      else passes

  -- `ORDERED_RULES`
  abbrev pub ordered_rules : List Verdict
  ordered_rules =
      rule_capability_expired ∷ rule_operation_not_granted ∷ rule_path_out_of_scope
      ∷ rule_tainted_side_effect ∷ rule_egress_not_allowed ∷ rule_risk_class_needs_approval ∷ []

abbrev pub decided : ActionProposal → Decision → Rule → PolicyDecision
decided p d r = record { action_id = p.action_id; decision = d; rule = r }

-- the loop of `decide`: the first rule that fires wins, ALLOW if none does
unfoldable pub first_verdict : ActionProposal → List Verdict → Option PolicyDecision
first_verdict p [] = some (decided p allow default_allow)
first_verdict p (passes ∷ rest) = first_verdict p rest
first_verdict p (raises ∷ rest) = none
first_verdict p (fires d r ∷ rest) = some (decided p d r)

-- `none`: a rule raised
unfoldable pub decide : PolicyEnv → ActionProposal → Option CapabilityGrant → Option PolicyDecision
unfolding first_verdict
decide env p none = some (decided p deny no_grant)
decide env p (some g) = first_verdict p (ordered_rules env p g)
