-- ===== src/Tests/Parts.antt =====
-- The theorems on the orchestrator's parts at concrete inputs.
use ai_system_canonical.Prelude.{
  ◌≡◌, ◌≢◌, refl, ℕ, ◌≤◌, ◌+◌, ◌<◌, String, Bool, true, false, Option, none, some, List, [], ◌∷◌,
  arith, All, is_some, all, map, if◌then◌else◌, leb, ◌&&◌,
}
use ai_system_canonical.Contracts.{
  ActionProposal, PolicyDecision, CapabilityGrant, TrustLevel, retrieved_web, user, text, allow,
  deny, default_allow, tainted_side_effect, VerificationRecord, t0, t2, pass, fail,
}
use ai_system_canonical.Contracts.Task.{TaskContract, high, Dimension, steps}
use ai_system_canonical.Policy.{decide, decided, is_risky}
use ai_system_canonical.Policy.Authority.{IsAuthorised, decide-IsAuthorised, untrusted_part_denied}
use ai_system_canonical.Taint.{assemble, authorises, effective_trust}
use ai_system_canonical.Agents.{resolve, escalate, is_consequential}
use ai_system_canonical.Budget.{BudgetTracker, add_step, over_hard, would_exceed, spent}
use ai_system_canonical.Budget.Laws.{would_exceed-add_step}
use ai_system_canonical.Capability.{is_side_effecting, issue_grant, normalize_token}
use ai_system_canonical.Capability.Laws.{normalize_token-issue_grant}
use ai_system_canonical.Taint.{effective_trust-authorises}
use ai_system_canonical.Escalation.{new_ladder}
use ai_system_canonical.Escalation.Laws.{count_replans, rungs_of, count_replans-rungs_of}
use ai_system_canonical.Orchestrator.Act.{returns}
use ai_system_canonical.Orchestrator.Step.{pass_policy}
use ai_system_canonical.Orchestrator.Permit.{IsPermitted, pass_policy-IsAuthorised}
use ai_system_canonical.Tests.World.{sm, fresh, step, env, grant, contract, passed}

-- a write inside the workspace
abbrev write : ActionProposal
write = record {
  action_id = "a1";
  step_id = "s1";
  operation = "file.write";
  arguments = ("path", text "ws") ∷ [];
  required_capability = "fs.write";
  workspace_scope = "ws";
  idempotency_key = "k";
  trust = user;
}

write-allow : decide env write (some grant) ≡ some (decided write allow default_allow)
unfolding decide ai_system_canonical.Policy.rule_capability_expired
    ai_system_canonical.Contracts.is_expired ai_system_canonical.Policy.rule_operation_not_granted
    ai_system_canonical.Contracts.allows_operation ai_system_canonical.Prelude.Text.mem_str
    ai_system_canonical.Policy.rule_path_out_of_scope ai_system_canonical.Policy.paths_in
    ai_system_canonical.Contracts.covers_path ai_system_canonical.Policy.rule_tainted_side_effect
    ai_system_canonical.Taint.blocks_side_effect is_side_effecting
    ai_system_canonical.Policy.rule_egress_not_allowed
    ai_system_canonical.Policy.rule_risk_class_needs_approval is_risky
    ai_system_canonical.Policy.Glob.glob_matches ai_system_canonical.Prelude.Text.lower
write-allow = refl

not_deny : allow ≢ deny
not_deny e = cc

decide-IsAuthorised_example :
    (g : CapabilityGrant) × (some grant ≡ some g) × IsAuthorised env write g
decide-IsAuthorised_example =
    decide-IsAuthorised env write (some grant) (decided write allow default_allow) write-allow
      not_deny

write-is_side_effecting : is_side_effecting write.operation ≡ true
unfolding is_side_effecting
write-is_side_effecting = refl

abbrev parts : List (String × TrustLevel)
parts = ("the request", user) ∷ ("a page", retrieved_web) ∷ []

-- the same write, asked for by a page
abbrev web_write : ActionProposal
web_write = record write { trust = retrieved_web }

web_write-trust : web_write.trust ≡ (assemble true parts).1
unfolding assemble effective_trust
web_write-trust = refl

parts-untrusted : all authorises (map (λ (q : String × TrustLevel). q.1) parts) ≡ false
parts-untrusted = refl

web_write-deny :
    decide env web_write (some grant) ≡ some (decided web_write deny tainted_side_effect)
unfolding decide ai_system_canonical.Policy.rule_capability_expired
    ai_system_canonical.Contracts.is_expired ai_system_canonical.Policy.rule_operation_not_granted
    ai_system_canonical.Contracts.allows_operation ai_system_canonical.Prelude.Text.mem_str
    ai_system_canonical.Policy.rule_path_out_of_scope ai_system_canonical.Policy.paths_in
    ai_system_canonical.Contracts.covers_path ai_system_canonical.Policy.rule_tainted_side_effect
    ai_system_canonical.Taint.blocks_side_effect is_side_effecting
web_write-deny = refl

untrusted_part_denied_example : deny ≡ deny
untrusted_part_denied_example =
    untrusted_part_denied env web_write (some grant) (decided web_write deny tainted_side_effect)
      parts web_write-trust parts-untrusted write-is_side_effecting web_write-deny

-- a contract of high risk
abbrev risky : TaskContract
risky = record contract { risk_level = high }

abbrev objection : VerificationRecord
objection = record { id = "v2"; tier = t2; overall = fail }

risky-escalates : resolve risky passed objection ≡ escalate
unfolding resolve is_consequential
risky-escalates = refl

-- two steps of two
abbrev spent_budget : BudgetTracker
spent_budget = record { limits = (steps, 20000) ∷ []; steps_taken = 2; cost = 0 }

spent_budget-over_hard : over_hard spent_budget 0 ≡ true
unfolding over_hard
spent_budget-over_hard = refl

-- one step of two
abbrev half_budget : BudgetTracker
half_budget = record { limits = (steps, 20000) ∷ []; steps_taken = 1; cost = 0 }

half_budget-admits : would_exceed half_budget 0 1 ≡ false
unfolding would_exceed
half_budget-admits = refl

would_exceed-add_step_example :
    All
      (λ (d : Dimension × ℕ). 0 < d.1 → spent (add_step half_budget) 0 d.0 ≤ d.1)
      half_budget.limits
would_exceed-add_step_example = would_exceed-add_step half_budget 0 half_budget-admits

normalize_token-issue_grant_example :
    is_some (
      issue_grant
        (record (record step { required_capability = "write_file" }) {
          required_capability = normalize_token "write_file";
        })
        "ws"
        []
        5)
    ≡ true
normalize_token-issue_grant_example =
    normalize_token-issue_grant (record step { required_capability = "write_file" }) "ws" [] 5

count_replans-rungs_of_example :
    count_replans (rungs_of 6 (new_ladder 2 true false false))
    ≡ (if leb 2 6 && leb 1 2 then 1 else 0)
count_replans-rungs_of_example = count_replans-rungs_of 6 2 true false false

write-passes :
    (pass_policy sm "task" step write (decided write allow default_allow) [] fresh).0 ≡ returns tt
unfolding pass_policy ai_system_canonical.Orchestrator.Step.on_decision
    ai_system_canonical.Orchestrator.Act.pure
write-passes = refl

pass_policy-IsAuthorised_example : IsPermitted step [] allow × IsAuthorised env write grant
pass_policy-IsAuthorised_example =
    pass_policy-IsAuthorised sm "task" env step write grant (decided write allow default_allow) []
      fresh write-allow write-passes
