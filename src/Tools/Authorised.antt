-- ===== src/Tools/Authorised.antt =====
-- An adapter is called only where the policy allowed the call under a grant that authorises it.
use ai_system_canonical.Prelude.{
  ◌≡◌, ◌≢◌, refl, ap, sym, ◌∙◌, String, true, false, Option, none, some, List, ◌⊎◌, inl, inr,
}
use ai_system_canonical.Prelude.Act.{pure, throw, on_option, gets, ◌>>=◌}
use ai_system_canonical.Contracts.{
  ActionProposal, CapabilityGrant, PolicyDecision, Decision, allow, deny, require_approval,
  require_verification, escalate,
}
use ai_system_canonical.Capability.{is_side_effecting}
use ai_system_canonical.Policy.{decide, is_risky}
use ai_system_canonical.Policy.Authority.{IsAuthorised, decide-IsAuthorised, allow-not_risky}
use ai_system_canonical.Tools.{
  Act, Args, ToolAdapter, ToolOp, ToolWorld, ToolResult, DispatchContext, find, proposal_of,
  dispatch, dispatch_found, on_decision, policy_raised,
}

not_deny : allow ≢ deny
not_deny e = cc

module _ {W : Type 0} (tw : ToolWorld W) (registry : List (ToolAdapter W)) (op : String)
    (args : Args) (ctx : DispatchContext) where
  -- the world after the two ids of a proposal were drawn
  abbrev pub drawn : W → W
  drawn w = (tw.new_id (tw.new_id w).1).1

  abbrev pub proposed : ToolOp → W → ActionProposal
  proposed o w = proposal_of o args ctx (tw.new_id w).0 (tw.new_id (tw.new_id w).1).0

  -- What stands behind a call of an adapter.
  pub record MayInvoke (w : W) : Type 0 where
    pub grant : CapabilityGrant
    pub tool : ToolOp
    pub adapter : ToolAdapter W
    pub registered : find op registry ≡ some (adapter, tool)
    pub granted : ctx.grant ≡ some grant
    pub authorised : IsAuthorised (tw.policy_env (drawn w)) (proposed tool w) grant
    pub not_risky :
        is_side_effecting (proposed tool w).operation ≡ true
        → is_risky (tw.policy_env (drawn w)).risk_globs (proposed tool w) ≡ false

  -- the two ids at most are drawn, or a call may be made
  abbrev pub IsGuarded : W → W → Type 0
  IsGuarded w w' = (w' ≡ w) ⊎ (w' ≡ drawn w) ⊎ MayInvoke w

  decided_on :
      (w : W) (a : ToolAdapter W) (o : ToolOp) (r : PolicyDecision) (d : Decision)
      → find op registry ≡ some (a, o)
      → decide (tw.policy_env (drawn w)) (proposed o w) ctx.grant ≡ some r
      → r.decision ≡ d
      → IsGuarded w (on_decision a o args ctx r d (drawn w)).1
  unfolding pure
  decided_on w a o r allow f h e =
      let (g, eg, auth) =
        decide-IsAuthorised (tw.policy_env (drawn w)) (proposed o w) ctx.grant r h
          (λ k. not_deny (sym e ∙ k)) in
      inr (
        inr (record {
          grant = g;
          tool = o;
          adapter = a;
          registered = f;
          granted = eg;
          authorised = auth;
          not_risky =
              allow-not_risky (tw.policy_env (drawn w)) (proposed o w) g r
                (sym (ap (decide (tw.policy_env (drawn w)) (proposed o w)) eg) ∙ h) e;
        }))
  decided_on w a o r deny f h e = inr (inl refl)
  decided_on w a o r require_approval f h e = inr (inl refl)
  decided_on w a o r require_verification f h e = inr (inl refl)
  decided_on w a o r escalate f h e = inr (inl refl)

  answered :
      (w : W) (a : ToolAdapter W) (o : ToolOp) (r : Option PolicyDecision)
      → find op registry ≡ some (a, o)
      → decide (tw.policy_env (drawn w)) (proposed o w) ctx.grant ≡ r
      → IsGuarded w
          (on_option r
            (throw policy_raised)
            (λ d. on_decision a o args ctx d d.decision)
            (drawn w)).1
  unfolding on_option throw
  answered w a o none f h = inr (inl refl)
  answered w a o (some r) f h = decided_on w a o r r.decision f h refl

  looked_up :
      (w : W) (found : Option (ToolAdapter W × ToolOp))
      → find op registry ≡ found
      → IsGuarded w
          (on_option found
            (pure (ai_system_canonical.Tools.failed op ai_system_canonical.Tools.unknown_op, none))
            (λ (p : ToolAdapter W × ToolOp). dispatch_found tw p.0 p.1 args ctx)
            w).1
  unfolding on_option pure dispatch_found gets ◌>>=◌
  looked_up w none f = inl refl
  looked_up w (some (a, o)) f = answered w a o _ f refl

  -- Beyond drawing the ids of its proposal, `ToolDispatcher.run` changes the world only where the
  -- operation is registered and the policy allowed it: the context holds a grant that authorises the
  -- proposal, and a side effect touches no path of a risk class. This holds of a raise as well.
  pub dispatch-IsGuarded : (w : W) → IsGuarded w (dispatch tw registry op args ctx w).1
  unfolding dispatch
  dispatch-IsGuarded w = looked_up w (find op registry) refl
