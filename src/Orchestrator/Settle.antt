-- ===== src/Orchestrator/Settle.antt =====
-- nexus/app/orchestration/orchestrator.py: `_execute_verify_settle`, with `_t2_pass` and
-- `_emit_handoff`. The two bounded retries are optional continuations: one by the stronger builder
-- while `builder_round` is 0, one after a critic's rejection while `critic_round` is 0.
use Prim.Native.String.{◌++◌ as ◌<>◌}
use ai_system_canonical.Prelude.{
  ℕ, zero, suc, String, Bool, true, false, Option, none, some, List, [], ◌∷◌, ◌++◌, ◌&&◌, not,
  is_some, if◌then◌else◌,
}
use ai_system_canonical.Prelude.Text.{is_empty, is_blank}
use ai_system_canonical.State.{
  waiting_for_user, executing, verifying, stalled, recovering, completed, failed,
}
use ai_system_canonical.Contracts.{Plan, VerificationRecord, is_pass}
use ai_system_canonical.Contracts.Task.{TaskContract}
use ai_system_canonical.Agents.{Resolution, t0_authoritative, escalate, resolve, same_overall}
use ai_system_canonical.Events.{
  progress, model_run, escalation, agent_message, disagreement, clarification, budget, hard,
  approval_request, verification, TaskResult,
}
use ai_system_canonical.Orchestrator.Act.{
  Act, Exc, build_error, approval_pause, stalled_escalation, budget_exhausted, unbound_local, pure,
  throw, modify, on_option, gets, when, try_else, finally, ◌>>=◌, ◌>>◌,
}
use ai_system_canonical.Orchestrator.Seams.{
  Seams, CriticReport, Hook, after_build, after_complete, catastrophic, settle_canaries,
}
use ai_system_canonical.Orchestrator.Base.{
  Run, call, record_event, record_note, record_notes, transition, finish, finish_with,
}
use ai_system_canonical.Orchestrator.Execute.{execute, critic_pass, rejects}

-- the arguments that differ from one round to the next
pub record Round : Type 0 where
  pub contract : TaskContract
  pub prev_diff : String

-- [f"critic: {f.claim}" for f in report.findings if f.claim]
unfoldable pub critic_claims : List String → List String
critic_claims [] = []
critic_claims (c ∷ cs) =
    let rest = critic_claims cs in if is_empty c then rest else ("critic: " <> c) ∷ rest

unfoldable pub revised : TaskContract → CriticReport → TaskContract
unfolding critic_claims
revised c r = record c { constraints = c.constraints ++ critic_claims r.findings }

unfoldable pub is_escalate : Resolution → Bool
is_escalate escalate = true
is_escalate t0_authoritative = false

module _ {W : Type 0} (sm : Seams W) (t : String) where
  -- the notes of an optional service
  unfoldable pub consult : Hook → Act (Run W) (Unit {0})
  consult h = do notes ← call (sm.service h); record_notes t notes

  -- `_t2_pass`: does a human have to review?
  unfoldable pub t2_pass : TaskContract → String → VerificationRecord → Act (Run W) Bool
  unfolding is_escalate consult
  t2_pass c diff v0 = do
    v2 ← call (sm.verify_t2 c diff)
    record_event t (verification v2)
    record_note t model_run
    record_note t agent_message
    if same_overall v0.overall v2.overall then pure false else do
      record_note t disagreement
      if is_escalate (resolve c v0 v2)
          then (do
            record_event t clarification
            if is_pass v0 && not (is_pass v2) then consult catastrophic else pure tt
            pure true)
          else pure false

  -- STALLED, RECOVERING, EXECUTING: the way back to the builder
  unfoldable pub redrive : Act (Run W) (Unit {0})
  redrive = do transition t stalled; transition t recovering; transition t executing

  -- with the stronger builder in place of the one in use, restored at the end
  unfoldable pub with_fallback : Act (Run W) TaskResult → Act (Run W) TaskResult
  with_fallback m = do
    before ← gets (λ (s : Run W). s.on_fallback)
    modify (λ (s : Run W). record s { on_fallback = true })
    finally m (λ (s : Run W). record s { on_fallback = before })

  unfoldable pub ask : Act (Run W) TaskResult
  ask = do record_event t clarification; transition t waiting_for_user; finish t waiting_for_user

  module _ (p : Plan) (path : String) (approved : List String)
      (builder_retry critic_retry : Option (Round → Act (Run W) TaskResult)) where
    -- the body of the `try` once `combined_diff` is bound
    unfoldable pub after_execute : Round → String → Act (Run W) String
    after_execute r diff = do
      chosen ←
          (if is_blank diff && not (is_blank r.prev_diff)
            then (do record_note t progress; pure r.prev_diff)
            else pure diff)
      record_note t agent_message
      pure chosen

    -- The escalation to the stronger builder, `none` where this round has none to escalate to.
    unfoldable pub fallback_of : Option (Round → Act (Run W) TaskResult)
    fallback_of = if sm.has_fallback then builder_retry else none

    -- a read of `combined_diff`, which no `except` clause binds
    unfoldable pub read_diff : Option String → Act (Run W) String
    read_diff diff = on_option diff (throw unbound_local) pure

    -- the `except` clauses, with the `combined_diff` that the `try` had bound, if any
    unfoldable pub handle_build : Round → Option String → Exc → Act (Run W) TaskResult
    unfolding ask with_fallback redrive fallback_of read_diff
    handle_build r bound (approval_pause action step) = do
      record_event t (approval_request action step)
      transition t waiting_for_user
      finish t waiting_for_user
    handle_build r bound (stalled_escalation cls) = on_option fallback_of ask (λ again. do
      record_note t escalation
      redrive
      with_fallback (again (record { contract = r.contract; prev_diff = "" })))
    handle_build r bound budget_exhausted = do record_event t (budget hard); ask
    handle_build r bound build_error = on_option fallback_of (throw build_error) (λ again. do
      record_note t escalation
      redrive
      with_fallback
          (do diff ← read_diff bound; again (record { contract = r.contract; prev_diff = diff })))
    handle_build r bound x = throw x

    -- a failed verification: one retry with the stronger builder, or FAILED
    unfoldable pub unverified : Round → String → VerificationRecord → Act (Run W) TaskResult
    unfolding with_fallback redrive fallback_of consult
    unverified r diff v =
        on_option fallback_of
          (do consult settle_canaries; transition t failed; finish_with t failed false (some v.id))
          (λ again. do
            record_note t escalation
            record_note t agent_message
            redrive
            with_fallback (again (record { contract = r.contract; prev_diff = diff })))

    unfoldable pub completes : VerificationRecord → Act (Run W) TaskResult
    unfolding consult
    completes v = do
      transition t completed
      consult after_complete
      consult settle_canaries
      finish_with t completed true (some v.id)

    -- the verdict of T0 settles the task
    unfoldable pub settle_on : Round → String → VerificationRecord → Act (Run W) TaskResult
    unfolding completes unverified
    settle_on r diff v = if is_pass v then completes v else unverified r diff v

    -- the critic's pass, which can only send back a diff that T0 failed
    unfoldable pub criticise : Round → String → VerificationRecord → Act (Run W) TaskResult
    unfolding settle_on redrive revised
    criticise r diff v = if not sm.has_critic then settle_on r diff v else do
      report ← critic_pass sm t r.contract r.contract diff
      if not (is_pass v) && rejects report
          then on_option critic_retry (settle_on r diff v) (λ again. do
            record_note t agent_message
            redrive
            again (record { contract = revised r.contract report; prev_diff = "" }))
          else do
            when (is_pass v && rejects report) (record_note t disagreement)
            settle_on r diff v

    -- is the T2 ensemble asked, and does it want a human?
    unfoldable pub second_opinion : Round → String → VerificationRecord → Act (Run W) Bool
    unfolding t2_pass
    second_opinion r diff v =
        if not sm.has_t2
        then pure false
        else if sm.t2_on_escalation_only && is_some builder_retry && is_pass v
        then (do record_note t progress; pure false)
        else t2_pass r.contract diff v

    -- what follows the build
    unfoldable pub verify_phase : Round → String → Act (Run W) TaskResult
    unfolding second_opinion criticise consult
    verify_phase r diff = do
      consult after_build
      transition t verifying
      v ← call (sm.verify r.contract diff)
      record_event t (verification v)
      record_note t agent_message
      human ← second_opinion r diff v
      if human
          then (do transition t waiting_for_user; finish t waiting_for_user)
          else criticise r diff v

    unfoldable pub settle_round : Round → Act (Run W) TaskResult
    unfolding after_execute verify_phase handle_build
    settle_round r =
        try_else
          (execute sm t r.contract p path approved (is_some builder_retry && sm.has_fallback))
          (λ diff. try_else (after_execute r diff) (verify_phase r) (handle_build r (some diff)))
          (handle_build r none)

  -- `_execute_verify_settle`, with how many retries of each kind are left
  unfoldable pub settle : ℕ → ℕ → Plan → String → List String → Round → Act (Run W) TaskResult
  settle zero zero p path approved r = settle_round p path approved none none r
  settle (suc c) zero p path approved r =
      settle_round p path approved none (some (settle c zero p path approved)) r
  settle zero (suc b) p path approved r =
      settle_round p path approved (some (settle zero b p path approved)) none r
  settle (suc c) (suc b) p path approved r =
      settle_round p path approved (some (settle (suc c) b p path approved))
        (some (settle c (suc b) p path approved)) r

  -- the first call: critic_round = 0, builder_round = 0, prev_diff = ""
  unfoldable pub execute_verify_settle :
      TaskContract → Plan → String → List String → Act (Run W) TaskResult
  unfolding settle
  execute_verify_settle c p path approved =
      settle 1 1 p path approved (record { contract = c; prev_diff = "" })
