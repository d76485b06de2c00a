-- ===== src/Capability/Laws.antt =====
-- The repair of a token always yields a registered one, so a grant can be issued for it.
use mathlib.Core.Option
use ai_system_canonical.Prelude.{
  ℕ, String, ◌≡◌, refl, Bool, true, false, Option, none, some, List, [], ◌∷◌, is_some, any, ◌∙◌,
  All, Bool-cases, inl, inr, if◌then◌else◌,
}
use ai_system_canonical.Contracts.{PlanStep}
use ai_system_canonical.Prelude.Text.{codes, codes_eq}
use ai_system_canonical.Capability.{
  token_parts, grant_of, spec_for, normalize_token, first_hint, normalize_hints, issue_grant,
  CapabilitySpec,
}

abbrev pub IsKnown : String → Type 0
IsKnown t = is_some (spec_for t) ≡ true

fs_read-IsKnown : IsKnown "fs.read"
unfolding spec_for
fs_read-IsKnown = refl

hints-IsKnown : All (λ (h : List String × String). IsKnown h.1) normalize_hints
unfolding spec_for
hints-IsKnown = (refl, (refl, (refl, (refl, (refl, (refl, (refl, (refl, tt))))))))

choose : (b : Bool) (t u : String) → IsKnown t → IsKnown u → IsKnown (if b then t else u)
choose true t u h k = h
choose false t u h k = k

first_hint-IsKnown :
    (parts : List (List ℕ)) (hints : List (List String × String))
    → All (λ (h : List String × String). IsKnown h.1) hints
    → IsKnown (first_hint parts hints)
unfolding first_hint
first_hint-IsKnown parts [] h = fs_read-IsKnown
first_hint-IsKnown parts ((keywords, target) ∷ rest) h =
    choose (any (λ p. any (λ k. codes_eq p (codes k)) keywords) parts) target
      (first_hint parts rest) h.0 (first_hint-IsKnown parts rest h.1)

-- Whatever the planner names, the repaired token is registered, and a registered token is kept.
pub normalize_token-IsKnown : (t : String) → IsKnown (normalize_token t)
unfolding normalize_token
normalize_token-IsKnown t = elim (Bool-cases (is_some (spec_for t))) [
  | inl known ↦ rw known known
  | inr unknown ↦ rw unknown (first_hint-IsKnown (token_parts t) normalize_hints hints-IsKnown)
]

issue_grant-is_some :
    (step : PlanStep) (root : String) (allowlist : List String) (now : ℕ)
    → is_some (issue_grant step root allowlist now) ≡ is_some (spec_for step.required_capability)
unfolding issue_grant
issue_grant-is_some step root allowlist now = is_some-map (spec_for step.required_capability)
  where
    is_some-map :
        (o : Option CapabilitySpec)
        → is_some (Option.map (grant_of step root allowlist now) o) ≡ is_some o
    is_some-map none = refl
    is_some-map (some s) = refl

-- After the repair of its token a step is always granted, whatever token the planner wrote.
pub normalize_token-issue_grant :
    (step : PlanStep) (root : String) (allowlist : List String) (now : ℕ)
    → is_some (
        issue_grant
          (record step { required_capability = normalize_token step.required_capability })
          root
          allowlist
          now)
      ≡ true
normalize_token-issue_grant step root allowlist now =
    issue_grant-is_some
      (record step { required_capability = normalize_token step.required_capability }) root
      allowlist now
    ∙ normalize_token-IsKnown step.required_capability
