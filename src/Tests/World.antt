-- ===== src/Tests/World.antt =====
-- A task with scripted components, for the tests: every id after the first is "x", the builder changes
-- one file, and the policy is the engine of nexus/app/services/policy.
use ai_system_canonical.Prelude.{
  ℕ, ◌+◌, true, false, none, some, [], ◌∷◌, str_eq, ◌==◌, if◌then◌else◌,
}
use ai_system_canonical.Contracts.{
  PlanStep, Plan, ActionProposal, CapabilityGrant, FileSystem, PolicyDecision, VerificationRecord,
  t0, pass,
}
use ai_system_canonical.Contracts.Task.{TaskContract, code_edit_local, low}
use ai_system_canonical.Policy.{PolicyEnv, default_risk_globs, decide}
use ai_system_canonical.Events.{empty}
use ai_system_canonical.Orchestrator.Act.{Outcome, returns, throws, raised}
use ai_system_canonical.Orchestrator.Seams.{Seams, BuildOutput, accept, kept}
use ai_system_canonical.Orchestrator.Base.{Run}

abbrev pub files : FileSystem
files = record { resolve = λ p. some (p ∷ []); locate = λ root p. some (p ∷ []) }

abbrev pub env : PolicyEnv
env = record { file_system = files; now = 5; hostname = some; risk_globs = default_risk_globs }

abbrev pub contract : TaskContract
contract = record {
  original_request = "fix it";
  objective = "fix it";
  task_class = code_edit_local;
  deliverables = [];
  constraints = [];
  ambiguity = [];
  success_criteria = "tests pass" ∷ [];
  required_evidence = "T0: pytest tests/test_a.py passes" ∷ [];
  risk_level = low;
  budget = [];
}

abbrev pub step : PlanStep
step = record {
  id = "s1";
  intent = "edit";
  expected_artifact_delta = "a.py changes";
  required_capability = "fs.write";
}

abbrev pub two_steps : Plan
two_steps = record { steps = step ∷ step ∷ [] }

abbrev pub output : BuildOutput
output = record {
  changed_paths = "a.py" ∷ [];
  diff = "+ fixed";
  stderr = "";
  exit_code = 0;
  error = none;
}

abbrev pub passed : VerificationRecord
passed = record { id = "v1"; tier = t0; overall = pass }

unfoldable pub engine : ActionProposal → CapabilityGrant → Outcome PolicyDecision
engine p g = elim (decide env p (some g)) [ none ↦ throws (raised "policy") | some d ↦ returns d ]

abbrev pub sm : Seams ℕ
sm = record {
  new_id = λ n. (if n == 0 then "task" else "x", n + 1);
  now = λ n. 5;
  elapsed = λ n. 0;
  tool_loop = λ n. (returns tt, n);
  copy_workspace = λ p n. (returns "ws", n);
  interpret = λ r n. (returns contract, n);
  make_plan = λ c n. (returns two_steps, n);
  build = λ which s c n. (returns output, n);
  decide = λ p g n. (engine p g, n);
  run_target = λ c n. (returns "1 passed", n);
  verify = λ c d n. (returns passed, n);
  verify_t2 = λ c d n. (returns passed, n);
  review = λ c d n. (returns (record { verdict = accept; findings = [] }), n);
  do_research = λ c n. (returns [], n);
  stronger_model = λ c n. (returns false, n);
  hardware_pause = λ n. (returns false, n);
  service = λ h n. (returns [], n);
  store_artifact = λ n. (kept, n);
  office_format = λ c n. false;
  deliver = λ c n. (throws (raised "deliver"), n);
  similar = λ a b. str_eq a b;
  normalize_error = λ e. none;
  action_hash = λ p. p.operation;
  has_critic = true;
  has_t2 = true;
  t2_on_escalation_only = false;
  has_researcher = false;
  has_router = false;
  has_fallback = false;
  per_file_policy = false;
  has_research = false;
  has_kb = false;
  has_authoring = false;
  has_tool_loop = false;
}

abbrev pub grant : CapabilityGrant
grant = record {
  step_id = "s1";
  token = "fs.write";
  scope_path = "ws";
  operations = "file.read" ∷ "file.write" ∷ [];
  network_allowlist = [];
  issued_at = 0;
  ttl = 3600;
}

-- nothing logged yet
abbrev pub fresh : Run ℕ
fresh = record { log = empty; on_fallback = false; world = 0 }
