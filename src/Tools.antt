-- ===== src/Tools.antt =====
-- nexus/app/services/tools: adapters, their registry, and the dispatch of an operation past the policy.
pub mod Parse
pub mod Loop
pub mod Authorised
pub mod Bounds
use ai_system_canonical.Prelude.{
  ℕ, String, Bool, true, false, Option, none, some, List, [], ◌∷◌, str_eq, if◌then◌else◌,
}
use ai_system_canonical.Prelude.Text.{codes, codes_eq, split_on}
use ai_system_canonical.Prelude.Act as Methods
use ai_system_canonical.Prelude.Act.{
  Outcome, pure, throw, on_option, gets, catch, try_else, ◌>>=◌, ◌>>◌,
}
use ai_system_canonical.Contracts.{
  ActionProposal, CapabilityGrant, PolicyDecision, Decision, allow, TrustLevel, workspace, Value,
}
use ai_system_canonical.Capability.{primary_operation}
use ai_system_canonical.Policy.{PolicyEnv, decide}

-- what the tools raise
pub data ToolError : Type 0 where
  policy_raised : ToolError
  adapter_raised : String → ToolError
  model_raised : String → ToolError

pub record ToolOp : Type 0 where
  pub op : String
  pub capability : String
  pub output_trust : TrustLevel
  pub side_effecting : Bool

-- What a failed call reports.
pub data Failure : Type 0 where
  no_failure unknown_op : Failure
  refused : PolicyDecision → Failure
  raised : ToolError → Failure
  reported : String → Failure

pub record ToolResult : Type 0 where
  pub succeeded : Bool
  pub op : String
  pub output : Option String
  pub trust : TrustLevel
  pub error : Failure

pub record DispatchContext : Type 0 where
  pub task_id : String
  pub grant : Option CapabilityGrant
  pub workspace : String
  pub trust : TrustLevel

abbrev pub Args : Type 0
Args = List (String × Value)

-- `ToolAdapter`, over the world that its calls change
pub record ToolAdapter (W : Type 0) : Type 0 where
  pub name : String
  pub ops : List ToolOp
  pub invoke : String → Args → DispatchContext → W → Outcome ToolError ToolResult × W

-- What the tools use beside the adapters: the policy's environment at a moment, and new ids.
pub record ToolWorld (W : Type 0) : Type 0 where
  pub policy_env : W → PolicyEnv
  pub new_id : W → String × W

abbrev pub Act : Type 0 → Type 0 → Type 0
Act W A = Methods.Act ToolError W A

abbrev pub head_codes : List (List ℕ) → List ℕ
head_codes [] = []
head_codes (c ∷ _) = c

-- `register`: a dictionary's entry is replaced where it stands
unfoldable pub register : {W : Type 0} → ToolAdapter W → List (ToolAdapter W) → List (ToolAdapter W)
register a [] = a ∷ []
register a (b ∷ bs) = if str_eq b.name a.name then a ∷ bs else b ∷ register a bs

unfoldable pub adapter_named : {W : Type 0} → List ℕ → List (ToolAdapter W) → Option (ToolAdapter W)
unfolding codes_eq
adapter_named name [] = none
adapter_named name (a ∷ as') =
    if codes_eq (codes a.name) name then some a else adapter_named name as'

unfoldable pub op_named : String → List ToolOp → Option ToolOp
op_named qualified [] = none
op_named qualified (o ∷ os) = if str_eq o.op qualified then some o else op_named qualified os

-- `find`: the adapter is named by what stands before the first dot
unfoldable pub find : {W : Type 0} → String → List (ToolAdapter W) → Option (ToolAdapter W × ToolOp)
unfolding adapter_named op_named split_on
find qualified registry =
    elim (adapter_named (head_codes (split_on b'.' (codes qualified))) registry) [
      | none ↦ none
      | some a ↦ elim (op_named qualified a.ops) [ none ↦ none | some o ↦ some (a, o) ]
    ]

abbrev pub failed : String → Failure → ToolResult
failed op e = record {
  succeeded = false;
  op = op;
  output = none;
  trust = TrustLevel.workspace;
  error = e;
}

-- `ctx.grant.scope_path if ctx.grant else ctx.workspace`
abbrev pub scope_of : DispatchContext → String
scope_of ctx = elim ctx.grant [ none ↦ ctx.workspace | some g ↦ g.scope_path ]

-- the proposal that `run` puts before the policy
abbrev pub proposal_of : ToolOp → Args → DispatchContext → String → String → ActionProposal
proposal_of o args ctx action_id key = record {
  action_id = action_id;
  step_id = "tool";
  operation = primary_operation o.capability;
  arguments = args;
  required_capability = o.capability;
  workspace_scope = scope_of ctx;
  idempotency_key = key;
  trust = ctx.trust;
}

-- an answer is stamped with the operation and with the trust that the manifest gives it
abbrev pub stamped : ToolOp → ToolResult → ToolResult
stamped o r = record r { op = o.op; trust = o.output_trust }

module _ {W : Type 0} where
  abbrev pub draws : (W → String × W) → Act W String
  draws f w = let (a, w') = f w in (Outcome.returns a, w')

  -- the call of the adapter, whose failure is a result
  unfoldable pub invoked :
      ToolAdapter W
      → ToolOp
      → Args
      → DispatchContext
      → PolicyDecision
      → Act W (ToolResult × Option PolicyDecision)
  invoked a o args ctx d =
      try_else (a.invoke o.op args ctx) (λ r. pure (stamped o r, some d))
        (λ x. pure (failed o.op (raised x), some d))

  abbrev pub on_decision :
      ToolAdapter W
      → ToolOp
      → Args
      → DispatchContext
      → PolicyDecision
      → Decision
      → Act W (ToolResult × Option PolicyDecision)
  on_decision a o args ctx d allow = invoked a o args ctx d
  on_decision a o args ctx d _ = pure (failed o.op (refused d), some d)

  -- the rest of `run`, with the operation that it found
  unfoldable pub dispatch_found :
      ToolWorld W
      → ToolAdapter W
      → ToolOp
      → Args
      → DispatchContext
      → Act W (ToolResult × Option PolicyDecision)
  dispatch_found tw a o args ctx = do
    action_id ← draws tw.new_id
    key ← draws tw.new_id
    env ← gets tw.policy_env
    on_option (decide env (proposal_of o args ctx action_id key) ctx.grant) (throw policy_raised)
        (λ d. on_decision a o args ctx d d.decision)

  -- `ToolDispatcher.run`
  unfoldable pub dispatch :
      ToolWorld W
      → List (ToolAdapter W)
      → String
      → Args
      → DispatchContext
      → Act W (ToolResult × Option PolicyDecision)
  unfolding dispatch_found
  dispatch tw registry qualified args ctx =
      on_option (find qualified registry) (pure (failed qualified unknown_op, none))
        (λ found. dispatch_found tw found.0 found.1 args ctx)
