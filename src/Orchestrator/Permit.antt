-- ===== src/Orchestrator/Permit.antt =====
-- What lets a plan step past the policy engine.
use ai_system_canonical.Prelude.{
  ◌≡◌, subst, ◌≢◌, refl, String, Bool, true, false, some, List, sym, if◌then◌else◌,
}
use ai_system_canonical.Prelude.Text.{mem_str}
use ai_system_canonical.Contracts.{
  PlanStep, ActionProposal, PolicyDecision, CapabilityGrant, Decision, allow, deny,
  require_approval, require_verification, escalate,
}
use ai_system_canonical.Policy.{PolicyEnv, decide}
use ai_system_canonical.Policy.Authority.{IsAuthorised, decide-IsAuthorised}
use ai_system_canonical.Orchestrator.Act.{Act, returns, Exc, pure, throw}
use ai_system_canonical.Orchestrator.Seams.{Seams}
use ai_system_canonical.Orchestrator.Base.{Run}
use ai_system_canonical.Prelude.Gives.{Gives, gives_rules, Gives-throw}
use ai_system_canonical.Orchestrator.Step.{refused, on_decision, pass_policy}

-- the step may go on: it is allowed, or it needs an approval that was given
abbrev pub IsPermitted : PlanStep → List String → Decision → Type 0
IsPermitted step approved allow = Unit
IsPermitted step approved require_approval = mem_str step.id approved ≡ true
IsPermitted step approved _ = ⊥

asked-Gives :
    {S : Type 0} (b : Bool) (x : Exc)
    → Gives {S = S} (λ _. b ≡ true) (if b then pure tt else throw x)
asked-Gives true x = record { given = λ s a e. refl }
asked-Gives false x = Gives-throw x

module _ {W : Type 0} (sm : Seams W) (t : String) where
  refused-Gives :
      {A : Type 0} (Q : A → Type 0) (action : String) (d : PolicyDecision)
      → Gives Q (refused sm t {A = A} action d)
  unfolding refused
  refused-Gives Q action d = search (gives_rules) depth 12

  on_decision-Gives :
      (step : PlanStep) (approved : List String) (x : Exc) (bad : Act (Run W) (Unit {0}))
      (c : Decision)
      → ((Q : Unit {0} → Type 0) → Gives Q bad)
      → Gives
          (λ _. IsPermitted step approved c)
          (on_decision c (pure tt) (if mem_str step.id approved then pure tt else throw x) bad)
  unfolding on_decision
  on_decision-Gives step approved x bad allow g = record { given = λ s a e. tt }
  on_decision-Gives step approved x bad require_approval g =
      asked-Gives (mem_str step.id approved) x
  on_decision-Gives step approved x bad deny g = g _
  on_decision-Gives step approved x bad require_verification g = g _
  on_decision-Gives step approved x bad escalate g = g _

  pass_policy-Gives :
      (step : PlanStep) (p : ActionProposal) (d : PolicyDecision) (approved : List String)
      → Gives (λ _. IsPermitted step approved d.decision) (pass_policy sm t step p d approved)
  unfolding pass_policy
  pass_policy-Gives step p d approved =
      on_decision-Gives step approved _ _ d.decision (λ Q. refused-Gives Q p.action_id d)

permitted-not_deny :
    (step : PlanStep) (approved : List String) (c : Decision)
    → IsPermitted step approved c
    → c ≢ deny
permitted-not_deny step approved allow h e = cc
permitted-not_deny step approved require_approval h e = cc
permitted-not_deny step approved deny h e = h
permitted-not_deny step approved require_verification h e = h
permitted-not_deny step approved escalate h e = h

-- A plan step that the engine's decision lets on to the builder was allowed, or needs an approval that
-- the user gave, and the grant that the engine saw authorises its proposal.
pub pass_policy-IsAuthorised :
    {W : Type 0} (sm : Seams W) (t : String) (env : PolicyEnv) (step : PlanStep)
    (p : ActionProposal) (g : CapabilityGrant) (d : PolicyDecision) (approved : List String)
    (s : Run W)
    → decide env p (some g) ≡ some d
    → (pass_policy sm t step p d approved s).0 ≡ returns tt
    → IsPermitted step approved d.decision × IsAuthorised env p g
pass_policy-IsAuthorised sm t env step p g d approved s h e =
    let permitted = (pass_policy-Gives sm t step p d approved).given s tt e in
    let (g', same, auth) =
      decide-IsAuthorised env p (some g) d h
        (permitted-not_deny step approved d.decision permitted) in
    let seen : g ≡ g' = cc same in (permitted, subst (IsAuthorised env p) (sym seen) auth)
