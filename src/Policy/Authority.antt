-- ===== src/Policy/Authority.antt =====
-- What a decision of the engine guarantees, and that taint is never let through.
use ai_system_canonical.Prelude.{
  ◌+◌, ◌≤◌, String, ◌≡◌, ◌≢◌, refl, true, false, Option, none, some, List, arith, All, all, map,
  ◌⊎◌, inl, inr,
}
use ai_system_canonical.Prelude.Text.{is_empty}
use ai_system_canonical.Contracts.{
  ActionProposal, CapabilityGrant, PolicyDecision, Decision, allow, deny, TrustLevel,
  allows_operation, covers_path, allows_host,
}
use ai_system_canonical.Capability.{is_side_effecting}
use ai_system_canonical.Taint.{authorises, effective_trust-authorises, assemble}
use ai_system_canonical.Policy.{
  PolicyEnv, paths_in, is_risky, host_in, decide, first_verdict, rule_risk_class_needs_approval,
}
use ai_system_canonical.Policy.Laws.{
  alive_of, granted_of, confined_of, trusted_of, reachable_of, five_passed,
}

-- What must hold of a proposal under a grant before it may run without a human.
pub record IsAuthorised (env : PolicyEnv) (p : ActionProposal) (g : CapabilityGrant) : Type 0 where
  pub alive : env.now ≤ g.issued_at + g.ttl
  pub granted : allows_operation g p.operation ≡ true
  pub confined : All (λ path. covers_path env.file_system g path ≡ true) (paths_in p)
  pub trusted : is_side_effecting p.operation ≡ true → authorises p.trust ≡ true
  pub reachable :
      p.operation ≡ "net.fetch"
      → (host : String) × (host_in env p ≡ some host)
        × (is_empty host ≡ false)
        × (allows_host g host ≡ true)

IsAuthorised-fields :
    (env : PolicyEnv) (p : ActionProposal) (g : CapabilityGrant) (r : PolicyDecision)
    → decide env p (some g) ≡ some r
    → r.decision ≢ deny
    → IsAuthorised env p g
IsAuthorised-fields env p g r h n =
    let (a, b, c, d, e, _) = five_passed env p g r h n in
    record {
      alive = alive_of env p g a;
      granted = granted_of env p g b;
      confined = confined_of env p g c;
      trusted = trusted_of env p g d;
      reachable = reachable_of env p g e;
    }

-- Whatever the engine does not deny holds a grant that authorises it: unexpired, naming the operation,
-- covering every path, with an authorising trust if it has a side effect, and a listed host if it
-- fetches.
pub decide-IsAuthorised :
    (env : PolicyEnv) (p : ActionProposal) (grant : Option CapabilityGrant) (r : PolicyDecision)
    → decide env p grant ≡ some r
    → r.decision ≢ deny
    → (g : CapabilityGrant) × (grant ≡ some g) × IsAuthorised env p g
unfolding decide
decide-IsAuthorised env p none r h n = absurd (n (ground arith))
decide-IsAuthorised env p (some g) r h n = (g, refl, IsAuthorised-fields env p g r h n)

-- A side effect that the engine allows touches no path of a risk class.
pub allow-not_risky :
    (env : PolicyEnv) (p : ActionProposal) (g : CapabilityGrant) (r : PolicyDecision)
    → decide env p (some g) ≡ some r
    → r.decision ≡ allow
    → is_side_effecting p.operation ≡ true
    → is_risky env.risk_globs p ≡ false
unfolding first_verdict rule_risk_class_needs_approval
allow-not_risky env p g r h a s =
    let (_, _, _, _, _, last) = five_passed env p g r h (λ e. cc) in ground arith

Decision-cases : (d : Decision) → (d ≡ deny) ⊎ (d ≢ deny)
Decision-cases deny = inl refl
Decision-cases _ = inr (λ e. cc)

-- A side effect of a proposal whose trust was assembled from a context with an untrusted part is
-- denied, under every grant, whatever the rest of the context says.
pub untrusted_part_denied :
    (env : PolicyEnv) (p : ActionProposal) (grant : Option CapabilityGrant) (r : PolicyDecision)
    (parts : List (String × TrustLevel))
    → p.trust ≡ (assemble true parts).1
    → all authorises (map (λ (q : String × TrustLevel). q.1) parts) ≡ false
    → is_side_effecting p.operation ≡ true
    → decide env p grant ≡ some r
    → r.decision ≡ deny
unfolding assemble
untrusted_part_denied env p grant r parts t u s h = elim (Decision-cases r.decision) [
  | inl denied ↦ denied
  | inr other ↦
      let (g, _, auth) = decide-IsAuthorised env p grant r h other in
      let trusted = auth.trusted s in
      ground (arith, effective_trust-authorises (map (λ (q : String × TrustLevel). q.1) parts))
]
