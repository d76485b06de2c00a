-- ===== src/Policy/Laws.antt =====
-- What each rule guarantees when it falls through, and that only the last may decide otherwise.
use ai_system_canonical.Prelude.{
  ◌+◌, ◌≤◌, String, ◌≡◌, ◌≢◌, refl, Bool, true, false, Option, none, some, List, [], ◌∷◌, arith,
  All, all, str_eq, eq_iff, if◌then◌else◌,
}
use ai_system_canonical.Prelude.Text.{is_empty}
use ai_system_canonical.Contracts.{
  ActionProposal, CapabilityGrant, PolicyDecision, deny, egress_not_allowed, is_expired,
  allows_operation, covers_path, allows_host,
}
use ai_system_canonical.Capability.{is_side_effecting}
use ai_system_canonical.Taint.{authorises, blocks_side_effect}
use ai_system_canonical.Policy.{
  PolicyEnv, Verdict, passes, fires, raises, paths_in, host_in, decide, first_verdict,
  rule_capability_expired, rule_operation_not_granted, rule_path_out_of_scope,
  rule_tainted_side_effect, rule_egress_not_allowed, rule_risk_class_needs_approval, egress_verdict,
}

all→All {ℓ} : {A : Type ℓ} (f : A → Bool) (xs : List A) → all f xs ≡ true → All (λ x. f x ≡ true) xs
all→All f [] h = tt
all→All f (x ∷ xs) h = (ground arith, all→All f xs (ground arith))

pub alive_of :
    (env : PolicyEnv) (p : ActionProposal) (g : CapabilityGrant)
    → rule_capability_expired env p g ≡ passes
    → env.now ≤ g.issued_at + g.ttl
unfolding rule_capability_expired is_expired
alive_of env p g h = ground arith

pub granted_of :
    (env : PolicyEnv) (p : ActionProposal) (g : CapabilityGrant)
    → rule_operation_not_granted env p g ≡ passes
    → allows_operation g p.operation ≡ true
unfolding rule_operation_not_granted
granted_of env p g h = ground arith

pub confined_of :
    (env : PolicyEnv) (p : ActionProposal) (g : CapabilityGrant)
    → rule_path_out_of_scope env p g ≡ passes
    → All (λ path. covers_path env.file_system g path ≡ true) (paths_in p)
unfolding rule_path_out_of_scope
confined_of env p g h = all→All (covers_path env.file_system g) (paths_in p) (ground arith)

pub trusted_of :
    (env : PolicyEnv) (p : ActionProposal) (g : CapabilityGrant)
    → rule_tainted_side_effect env p g ≡ passes
    → is_side_effecting p.operation ≡ true
    → authorises p.trust ≡ true
unfolding rule_tainted_side_effect blocks_side_effect
trusted_of env p g h s = ground arith

egress_of :
    (env : PolicyEnv) (p : ActionProposal) (g : CapabilityGrant) (o : Option String)
    → egress_verdict env p g o ≡ passes
    → (host : String) × (o ≡ some host) × (is_empty host ≡ false) × (allows_host g host ≡ true)
unfolding egress_verdict
egress_of env p g none h = cc
egress_of env p g (some host) h = (host, refl, ground arith, ground arith)

pub reachable_of :
    (env : PolicyEnv) (p : ActionProposal) (g : CapabilityGrant)
    → rule_egress_not_allowed env p g ≡ passes
    → p.operation ≡ "net.fetch"
    → (host : String) × (host_in env p ≡ some host)
      × (is_empty host ≡ false)
      × (allows_host g host ≡ true)
unfolding rule_egress_not_allowed
reachable_of env p g h e =
    egress_of env p g (host_in env p) (ground (arith, eq_iff p.operation "net.fetch"))

-- A rule that fires only to deny.
abbrev OnlyDenies : Verdict → Type 0
OnlyDenies passes = Unit
OnlyDenies raises = Unit
OnlyDenies (fires d r) = d ≡ deny

if-OnlyDenies :
    (b : Bool) (x y : Verdict) → OnlyDenies x → OnlyDenies y → OnlyDenies (if b then x else y)
if-OnlyDenies true x y hx hy = hx
if-OnlyDenies false x y hx hy = hy

egress-OnlyDenies :
    (env : PolicyEnv) (p : ActionProposal) (g : CapabilityGrant) (o : Option String)
    → OnlyDenies (egress_verdict env p g o)
unfolding egress_verdict
egress-OnlyDenies env p g none = tt
egress-OnlyDenies env p g (some host) =
    if-OnlyDenies _ (fires deny egress_not_allowed) passes refl tt

passed_on :
    (p : ActionProposal) (v : Verdict) (rest : List Verdict) (r : PolicyDecision)
    → OnlyDenies v
    → first_verdict p (v ∷ rest) ≡ some r
    → r.decision ≢ deny
    → (v ≡ passes) × (first_verdict p rest ≡ some r)
unfolding first_verdict
passed_on p passes rest r o h n = (refl, h)
passed_on p raises rest r o h n = cc
passed_on p (fires d x) rest r o h n = absurd (n (ground arith))

-- The first five rules passed, and the last one decided.
pub five_passed :
    (env : PolicyEnv) (p : ActionProposal) (g : CapabilityGrant) (r : PolicyDecision)
    → decide env p (some g) ≡ some r
    → r.decision ≢ deny
    → (rule_capability_expired env p g ≡ passes)
      × (rule_operation_not_granted env p g ≡ passes)
      × (rule_path_out_of_scope env p g ≡ passes)
      × (rule_tainted_side_effect env p g ≡ passes)
      × (rule_egress_not_allowed env p g ≡ passes)
      × (first_verdict p (rule_risk_class_needs_approval env p g ∷ []) ≡ some r)
unfolding decide rule_capability_expired rule_operation_not_granted rule_path_out_of_scope
    rule_tainted_side_effect rule_egress_not_allowed
five_passed env p g r h n =
    let (a, h1) = passed_on p _ _ r (if-OnlyDenies _ (fires deny _) passes refl tt) h n in
    let (b, h2) = passed_on p _ _ r (if-OnlyDenies _ passes (fires deny _) tt refl) h1 n in
    let (c, h3) = passed_on p _ _ r (if-OnlyDenies _ passes (fires deny _) tt refl) h2 n in
    let (d, h4) = passed_on p _ _ r (if-OnlyDenies _ (fires deny _) passes refl tt) h3 n in
    let (e, h5) =
      passed_on p _ _ r
        (if-OnlyDenies (str_eq p.operation "net.fetch") (egress_verdict env p g (host_in env p))
          passes (egress-OnlyDenies env p g (host_in env p)) tt)
        h4 n in
    (a, b, c, d, e, h5)
