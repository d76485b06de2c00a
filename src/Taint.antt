-- ===== src/Taint.antt =====
-- nexus/app/services/taint/boundary.py and check.py: trust of assembled contexts.
use ai_system_canonical.Prelude.{
  ℕ, String, ◌≡◌, Bool, true, false, List, [], ◌∷◌, ◌&&◌, not, arith, all, ltb, if◌then◌else◌, map,
  String,
}
use ai_system_canonical.Contracts.{
  TrustLevel, user, workspace, tool_output, retrieved_web, doc_input, ActionProposal,
}
use ai_system_canonical.Capability.{is_side_effecting}

-- `_RANK`
abbrev pub rank : TrustLevel → ℕ
rank user = 0
rank workspace = 1
rank tool_output = 2
rank retrieved_web = 3
rank doc_input = 3

worst_from : TrustLevel → List TrustLevel → TrustLevel
worst_from worst [] = worst
worst_from worst (t ∷ ts) = worst_from (if ltb (rank worst) (rank t) then t else worst) ts

unfoldable pub effective_trust : List TrustLevel → TrustLevel
unfolding worst_from
effective_trust = worst_from user

abbrev pub authorises : TrustLevel → Bool
authorises user = true
authorises workspace = true
authorises _ = false

-- a part of a context as the model sees it: fenced as untrusted content, or bare
pub data Block : Type 0 where
  fenced : String → TrustLevel → Block
  bare : String → Block

block : Bool → String × TrustLevel → Block
block labelled (text, t) = if labelled && not (authorises t) then fenced text t else bare text

unfoldable pub assemble : Bool → List (String × TrustLevel) → List Block × TrustLevel
unfolding block
assemble labelled parts =
    (map (block labelled) parts, effective_trust (map (λ (p : String × TrustLevel). p.1) parts))

-- a reason, if the proposal must be denied for taint
unfoldable pub blocks_side_effect : ActionProposal → Bool
blocks_side_effect p = is_side_effecting p.operation && not (authorises p.trust)

-- The effective trust is at least as untrusted as each part, and it is the trust of one, or `user`.
worst_from-authorises :
    (w : TrustLevel) (ts : List TrustLevel)
    → authorises (worst_from w ts) ≡ (authorises w && all authorises ts)
unfolding worst_from
worst_from-authorises w [] = ground arith
worst_from-authorises w (t ∷ ts) =
    ground (arith, worst_from-authorises w ts, worst_from-authorises t ts)

-- No laundering: a context authorises exactly when each of its parts does.
pub effective_trust-authorises :
    (ts : List TrustLevel) → authorises (effective_trust ts) ≡ all authorises ts
unfolding effective_trust
effective_trust-authorises ts = worst_from-authorises user ts
