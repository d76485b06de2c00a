-- ===== src/Orchestrator/Honest.antt =====
-- What a settled task reports: a result is called verified exactly if its state is COMPLETED.
pub mod Whole
use ai_system_canonical.Prelude.{
  ℕ, zero, suc, ◌≡◌, ◌≢◌, refl, subst, List, String, Bool, true, false, Option, none, some, is_some,
  if◌then◌else◌,
}
use ai_system_canonical.State.{State, completed, failed, waiting_for_user}
use ai_system_canonical.Contracts.{Plan, VerificationRecord, CapabilityGrant}
use ai_system_canonical.Contracts.Task.{
  TaskContract, TaskClass, code_edit_local, code_edit_broad, debug, planning_arch, qa_explain,
  research_web, doc_analysis, authoring, ops,
}
use ai_system_canonical.Events.{TaskResult}
use ai_system_canonical.Orchestrator.Act.{
  Act, Exc, returns, pure, ◌>>=◌, ◌>>◌, on_option, transition_error, build_error, capability_error,
  approval_pause, stalled_escalation, budget_exhausted, unbound_local, no_events, stop_iteration,
  raised,
}
use ai_system_canonical.Orchestrator.Seams.{Seams, settle_canaries}
use ai_system_canonical.Orchestrator.Base.{Run, transition, finish, finish_with}
use ai_system_canonical.Orchestrator.Settle.{
  consult, Round, with_fallback, ask, fallback_of, handle_build, unverified, completes, settle_on,
  criticise, verify_phase, settle_round, settle, execute_verify_settle,
}
use ai_system_canonical.Orchestrator.Deliver.{
  closed, run_answer, run_qa_explain, run_authoring, run_tool_task,
}
use ai_system_canonical.Orchestrator.Drive.{
  failing, ask_user, plan_and_build, clarify_or_plan, by_class, drive_body, drive, run,
}
use ai_system_canonical.Prelude.Gives.{
  Gives, gives_rules, Gives-bind, Gives-pure, Gives-throw, Gives-if, Gives-catch, Gives-finally,
}
use ai_system_canonical.Orchestrator.Total.{run-returns}

-- a result is called verified, with the record it rests on, exactly if its state is COMPLETED
pub record IsHonest (r : TaskResult) : Type 0 where
  pub rests : r.verified ≡ true → (r.state ≡ completed) × (is_some r.verification_ref ≡ true)
  pub tells : r.state ≡ completed → r.verified ≡ true

module _ {W : Type 0} where
  finish-Gives :
      (t : String) (st : State) → st ≢ completed → Gives {S = Run W} IsHonest (finish t st)
  unfolding finish_with
  finish-Gives t st n =
      Gives-bind _ _ (λ _. Gives-pure _ (record { rests = λ e. cc; tells = λ e. absurd (n e) }))

  pub failed_with-Gives :
      (t : String) (ref : Option String)
      → Gives {S = Run W} IsHonest (finish_with t failed false ref)
  unfolding finish_with
  failed_with-Gives t ref =
      Gives-bind _ _ (λ _. Gives-pure _ (record { rests = λ e. cc; tells = λ e. cc }))

  pub completed_with-Gives :
      (t : String) (id : String)
      → Gives {S = Run W} IsHonest (finish_with t completed true (some id))
  unfolding finish_with
  completed_with-Gives t id =
      Gives-bind _ _ (λ _. Gives-pure _ (record { rests = λ e. (refl, refl); tells = λ e. refl }))

pub waiting-Gives :
    {W : Type 0} (t : String) → Gives {S = Run W} IsHonest (finish t waiting_for_user)
waiting-Gives t = finish-Gives t waiting_for_user (λ e. cc)

pub failed-Gives : {W : Type 0} (t : String) → Gives {S = Run W} IsHonest (finish t failed)
failed-Gives t = finish-Gives t failed (λ e. cc)

pub ruleset honest_rules =
    (gives_rules, waiting-Gives, failed-Gives, failed_with-Gives, completed_with-Gives)

module _ {W : Type 0} (sm : Seams W) (t : String) where
  -- what a retry would report is honest too
  abbrev HonestRetry : Option (Round → Act (Run W) TaskResult) → Type 0
  HonestRetry none = Unit
  HonestRetry (some again) = (r : Round) → Gives IsHonest (again r)

  on_retry-Gives :
      (o : Option (Round → Act (Run W) TaskResult)) (m : Act (Run W) TaskResult)
      (f : (Round → Act (Run W) TaskResult) → Act (Run W) TaskResult)
      → HonestRetry o
      → Gives IsHonest m
      → ((again : Round → Act (Run W) TaskResult)
          → ((r : Round) → Gives IsHonest (again r))
          → Gives IsHonest (f again))
      → Gives IsHonest (on_option o m f)
  unfolding on_option
  on_retry-Gives none m f k g h = g
  on_retry-Gives (some again) m f k g h = h again k

  if_retry-Honest :
      (b : Bool) (o : Option (Round → Act (Run W) TaskResult))
      → HonestRetry o
      → HonestRetry (if b then o else none)
  if_retry-Honest true o k = k
  if_retry-Honest false o k = tt

  with_fallback-Gives :
      (m : Act (Run W) TaskResult) → Gives IsHonest m → Gives IsHonest (with_fallback sm t m)
  unfolding with_fallback
  with_fallback-Gives m g = Gives-bind _ _ (λ b. Gives-bind _ _ (λ _. Gives-finally m _ g))

  ask-Gives : Gives IsHonest (ask sm t)
  unfolding ask
  ask-Gives = search (honest_rules) depth 12

  module _ (p : Plan) (path : String) (approved : List String)
      (builder_retry critic_retry : Option (Round → Act (Run W) TaskResult))
      (hb : HonestRetry builder_retry) (hc : HonestRetry critic_retry) where
    fallback_of-Honest : HonestRetry (fallback_of sm t p path approved builder_retry critic_retry)
    unfolding fallback_of
    fallback_of-Honest = if_retry-Honest sm.has_fallback builder_retry hb

    handle_build-Gives :
        (r : Round) (bound : Option String) (x : Exc)
        → Gives IsHonest (handle_build sm t p path approved builder_retry critic_retry r bound x)
    unfolding handle_build
    handle_build-Gives r bound (approval_pause action step) = search (honest_rules) depth 12
    handle_build-Gives r bound (stalled_escalation cls) =
        on_retry-Gives _ _ _ fallback_of-Honest ask-Gives
          (λ again k. search (honest_rules, k, with_fallback-Gives) depth 12)
    handle_build-Gives r bound budget_exhausted = search (honest_rules, ask-Gives) depth 12
    handle_build-Gives r bound build_error =
        on_retry-Gives _ _ _ fallback_of-Honest (Gives-throw _)
          (λ again k. search (honest_rules, k, with_fallback-Gives) depth 12)
    handle_build-Gives r bound (transition_error a b c) = Gives-throw _
    handle_build-Gives r bound capability_error = Gives-throw _
    handle_build-Gives r bound unbound_local = Gives-throw _
    handle_build-Gives r bound no_events = Gives-throw _
    handle_build-Gives r bound stop_iteration = Gives-throw _
    handle_build-Gives r bound (raised e) = Gives-throw _

    completes-Gives :
        (v : VerificationRecord)
        → Gives IsHonest (completes sm t p path approved builder_retry critic_retry v)
    unfolding completes
    completes-Gives v = search (honest_rules) depth 12

    fails-Gives :
        (v : VerificationRecord)
        → Gives IsHonest (do
          consult sm t settle_canaries
          transition t failed
          finish_with t failed false (some v.id))
    fails-Gives v = search (honest_rules) depth 12

    unverified-Gives :
        (r : Round) (diff : String) (v : VerificationRecord)
        → Gives IsHonest (unverified sm t p path approved builder_retry critic_retry r diff v)
    unfolding unverified
    unverified-Gives r diff v =
        on_retry-Gives _ _ _ fallback_of-Honest (fails-Gives v)
          (λ again k. search (honest_rules, k, with_fallback-Gives) depth 12)

    settle_on-Gives :
        (r : Round) (diff : String) (v : VerificationRecord)
        → Gives IsHonest (settle_on sm t p path approved builder_retry critic_retry r diff v)
    unfolding settle_on
    settle_on-Gives r diff v = Gives-if _ _ _ (completes-Gives v) (unverified-Gives r diff v)

    criticise-Gives :
        (r : Round) (diff : String) (v : VerificationRecord)
        → Gives IsHonest (criticise sm t p path approved builder_retry critic_retry r diff v)
    unfolding criticise
    criticise-Gives r diff v = Gives-if _ _ _ (settle_on-Gives r diff v) (
        Gives-bind _ _ (λ report.
          Gives-if _ _ _
            (on_retry-Gives _ _ _ hc (settle_on-Gives r diff v)
              (λ again k. search (honest_rules, k) depth 12))
            (Gives-bind _ _ (λ _. settle_on-Gives r diff v))))

    settle_round-Gives :
        (r : Round)
        → Gives IsHonest (settle_round sm t p path approved builder_retry critic_retry r)
    unfolding settle_round verify_phase
    settle_round-Gives r = search (honest_rules, criticise-Gives, handle_build-Gives) depth 24

  settle-Gives :
      (c b : ℕ) (p : Plan) (path : String) (approved : List String) (r : Round)
      → Gives IsHonest (settle sm t c b p path approved r)
  unfolding settle
  settle-Gives zero zero p path approved r = settle_round-Gives p path approved none none tt tt r
  settle-Gives (suc c) zero p path approved r =
      settle_round-Gives p path approved none (some _) tt (settle-Gives c zero p path approved) r
  settle-Gives zero (suc b) p path approved r =
      settle_round-Gives p path approved (some _) none (settle-Gives zero b p path approved) tt r
  settle-Gives (suc c) (suc b) p path approved r =
      settle_round-Gives p path approved (some _) (some _) (settle-Gives (suc c) b p path approved)
        (settle-Gives c (suc b) p path approved) r

  pub execute_verify_settle-Gives :
      (c : TaskContract) (p : Plan) (path : String) (approved : List String)
      → Gives IsHonest (execute_verify_settle sm t c p path approved)
  unfolding execute_verify_settle
  execute_verify_settle-Gives c p path approved = settle-Gives 1 1 p path approved _
