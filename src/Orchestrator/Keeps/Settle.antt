-- ===== src/Orchestrator/Keeps/Settle.antt =====
-- An invariant is kept by the build, the verification and the settling of a task.
use ai_system_canonical.Prelude.{
  ℕ, zero, suc, String, Bool, Option, none, some, List, true, false, ◌&&◌, if◌then◌else◌,
}
use ai_system_canonical.Contracts.{Plan, VerificationRecord, is_pass}
use ai_system_canonical.Contracts.Task.{TaskContract}
use ai_system_canonical.Orchestrator.Execute.{rejects}
use ai_system_canonical.Events.{disagreement, TaskResult}
use ai_system_canonical.Orchestrator.Act.{
  Exc, Act, Exc, transition_error, build_error, capability_error, approval_pause,
  stalled_escalation, budget_exhausted, unbound_local, no_events, stop_iteration, raised, modify,
  on_option, when,
}
use ai_system_canonical.Orchestrator.Seams.{Seams, Hook}
use ai_system_canonical.Orchestrator.Base.{Run, record_note}
use ai_system_canonical.Orchestrator.Settle.{
  Round, consult, t2_pass, redrive, with_fallback, ask, after_execute, read_diff, fallback_of,
  handle_build, unverified, completes, settle_on, criticise, second_opinion, verify_phase,
  settle_round, settle, execute_verify_settle,
}
use ai_system_canonical.Orchestrator.Keeps.{
  Keeps, keeps_rules, Keeps-pure, Keeps-gets, Keeps-finally, Keeps-if, Keeps-bind, Keeps-throw,
}
use ai_system_canonical.Orchestrator.Keeps.Execute.{execute-Keeps, critic_pass-Keeps}
use ai_system_canonical.Orchestrator.Invariant.{
  Invariant, record_note-Keeps, record_notes-Keeps, finish_with-Keeps,
}

module _ {W : Type 0} {P : Run W → Type 0} (inv : Invariant P) (sm : Seams W) (t : String) where
  pub consult-Keeps : (h : Hook) → Keeps P (consult sm t h)
  unfolding consult
  consult-Keeps h = search (keeps_rules, inv.called, record_notes-Keeps inv) depth 12

  t2_pass-Keeps :
      (c : TaskContract) (diff : String) (v : VerificationRecord) → Keeps P (t2_pass sm t c diff v)
  unfolding t2_pass
  t2_pass-Keeps c diff v =
      search (keeps_rules, inv.called, inv.event, record_note-Keeps inv, consult-Keeps) depth 24

  redrive-Keeps : Keeps P (redrive sm t)
  unfolding redrive
  redrive-Keeps = search (keeps_rules, inv.moved) depth 12

  use_fallback-Keeps : Keeps {X = Exc} P (modify (λ (s : Run W). record s { on_fallback = true }))
  unfolding modify
  use_fallback-Keeps = record { holds = λ s h. inv.switched true s h }

  with_fallback-Keeps : (m : Act (Run W) TaskResult) → Keeps P m → Keeps P (with_fallback sm t m)
  unfolding with_fallback
  with_fallback-Keeps m k =
      Keeps-bind _ _ (Keeps-gets _) (λ before.
        Keeps-bind _ _ use_fallback-Keeps (λ _. Keeps-finally m _ k (inv.switched before)))

  noted : (b : Bool) → Keeps P (when b (record_note t disagreement))
  noted true = record_note-Keeps inv t disagreement
  noted false = Keeps-pure tt

  ask-Keeps : Keeps P (ask sm t)
  unfolding ask
  ask-Keeps = search (keeps_rules, inv.event, inv.moved, finish_with-Keeps inv) depth 12

  -- what a retry would do is kept too
  abbrev KeptRetry : Option (Round → Act (Run W) TaskResult) → Type 0
  KeptRetry none = Unit
  KeptRetry (some again) = (r : Round) → Keeps P (again r)

  if_retry :
      (b : Bool) (o : Option (Round → Act (Run W) TaskResult))
      → KeptRetry o
      → KeptRetry (if b then o else none)
  if_retry true o k = k
  if_retry false o k = tt

  on_retry-Keeps :
      (o : Option (Round → Act (Run W) TaskResult)) (m : Act (Run W) TaskResult)
      (f : (Round → Act (Run W) TaskResult) → Act (Run W) TaskResult)
      → KeptRetry o
      → Keeps P m
      → ((again : Round → Act (Run W) TaskResult)
          → ((r : Round) → Keeps P (again r))
          → Keeps P (f again))
      → Keeps P (on_option o m f)
  unfolding on_option
  on_retry-Keeps none m f k km kf = km
  on_retry-Keeps (some again) m f k km kf = kf again k

  module _ (p : Plan) (path : String) (approved : List String)
      (builder_retry critic_retry : Option (Round → Act (Run W) TaskResult))
      (kb : KeptRetry builder_retry) (kc : KeptRetry critic_retry) where
    after_execute-Keeps :
        (r : Round) (diff : String)
        → Keeps P (after_execute sm t p path approved builder_retry critic_retry r diff)
    unfolding after_execute
    after_execute-Keeps r diff = search (keeps_rules, record_note-Keeps inv) depth 16

    read_diff-Keeps :
        (bound : Option String)
        → Keeps P (read_diff sm t p path approved builder_retry critic_retry bound)
    unfolding read_diff
    read_diff-Keeps bound = search (keeps_rules) depth 4

    fallback_of-KeptRetry : KeptRetry (fallback_of sm t p path approved builder_retry critic_retry)
    unfolding fallback_of
    fallback_of-KeptRetry = if_retry sm.has_fallback builder_retry kb

    handle_build-Keeps :
        (r : Round) (bound : Option String) (x : Exc)
        → Keeps P (handle_build sm t p path approved builder_retry critic_retry r bound x)
    unfolding handle_build
    handle_build-Keeps r bound (approval_pause action step) =
        search (keeps_rules, inv.event, inv.moved, finish_with-Keeps inv) depth 12
    handle_build-Keeps r bound (stalled_escalation cls) =
        on_retry-Keeps _ _ _ fallback_of-KeptRetry ask-Keeps (λ again k.
          search (keeps_rules, k, record_note-Keeps inv, redrive-Keeps, with_fallback-Keeps) depth
            12)
    handle_build-Keeps r bound budget_exhausted =
        search (keeps_rules, inv.event, ask-Keeps) depth 12
    handle_build-Keeps r bound build_error =
        on_retry-Keeps _ _ _ fallback_of-KeptRetry (Keeps-throw _) (λ again k.
          search
            (
              keeps_rules,
              k,
              read_diff-Keeps,
              record_note-Keeps inv,
              redrive-Keeps,
              with_fallback-Keeps,
            )
            depth 12)
    handle_build-Keeps r bound (transition_error a b c) = Keeps-throw _
    handle_build-Keeps r bound capability_error = Keeps-throw _
    handle_build-Keeps r bound unbound_local = Keeps-throw _
    handle_build-Keeps r bound no_events = Keeps-throw _
    handle_build-Keeps r bound stop_iteration = Keeps-throw _
    handle_build-Keeps r bound (raised e) = Keeps-throw _

    unverified-Keeps :
        (r : Round) (diff : String) (v : VerificationRecord)
        → Keeps P (unverified sm t p path approved builder_retry critic_retry r diff v)
    unfolding unverified
    unverified-Keeps r diff v =
        on_retry-Keeps _ _ _ fallback_of-KeptRetry
          (search (keeps_rules, consult-Keeps, inv.moved, finish_with-Keeps inv) depth 12)
          (λ again k.
            search (keeps_rules, k, record_note-Keeps inv, redrive-Keeps, with_fallback-Keeps) depth
              12)

    completes-Keeps :
        (v : VerificationRecord)
        → Keeps P (completes sm t p path approved builder_retry critic_retry v)
    unfolding completes
    completes-Keeps v =
        search (keeps_rules, consult-Keeps, inv.moved, finish_with-Keeps inv) depth 12

    settle_on-Keeps :
        (r : Round) (diff : String) (v : VerificationRecord)
        → Keeps P (settle_on sm t p path approved builder_retry critic_retry r diff v)
    unfolding settle_on
    settle_on-Keeps r diff v = search (keeps_rules, completes-Keeps, unverified-Keeps) depth 12

    criticise-Keeps :
        (r : Round) (diff : String) (v : VerificationRecord)
        → Keeps P (criticise sm t p path approved builder_retry critic_retry r diff v)
    unfolding criticise
    criticise-Keeps r diff v = Keeps-if _ _ _ (settle_on-Keeps r diff v) (
        Keeps-bind _ _ (critic_pass-Keeps inv sm t r.contract r.contract diff) (λ report.
          Keeps-if _ _ _
            (on_retry-Keeps _ _ _ kc (settle_on-Keeps r diff v)
              (λ again k. search (keeps_rules, k, record_note-Keeps inv, redrive-Keeps) depth 12))
            (Keeps-bind _ _ (noted (is_pass v && rejects report)) (λ _. settle_on-Keeps r diff v))))

    second_opinion-Keeps :
        (r : Round) (diff : String) (v : VerificationRecord)
        → Keeps P (second_opinion sm t p path approved builder_retry critic_retry r diff v)
    unfolding second_opinion
    second_opinion-Keeps r diff v =
        search (keeps_rules, record_note-Keeps inv, t2_pass-Keeps) depth 12

    verify_phase-Keeps :
        (r : Round) (diff : String)
        → Keeps P (verify_phase sm t p path approved builder_retry critic_retry r diff)
    unfolding verify_phase
    verify_phase-Keeps r diff =
        search
          (
            keeps_rules,
            inv.event,
            inv.called,
            inv.moved,
            consult-Keeps,
            record_note-Keeps inv,
            second_opinion-Keeps,
            criticise-Keeps,
            finish_with-Keeps inv,
          )
          depth 16

    settle_round-Keeps :
        (r : Round) → Keeps P (settle_round sm t p path approved builder_retry critic_retry r)
    unfolding settle_round
    settle_round-Keeps r =
        search
          (
            keeps_rules,
            execute-Keeps inv,
            after_execute-Keeps,
            verify_phase-Keeps,
            handle_build-Keeps,
          )
          depth 12

  settle-Keeps :
      (c b : ℕ) (p : Plan) (path : String) (approved : List String) (r : Round)
      → Keeps P (settle sm t c b p path approved r)
  unfolding settle
  settle-Keeps zero zero p path approved r = settle_round-Keeps p path approved none none tt tt r
  settle-Keeps (suc c) zero p path approved r =
      settle_round-Keeps p path approved none (some _) tt (settle-Keeps c zero p path approved) r
  settle-Keeps zero (suc b) p path approved r =
      settle_round-Keeps p path approved (some _) none (settle-Keeps zero b p path approved) tt r
  settle-Keeps (suc c) (suc b) p path approved r =
      settle_round-Keeps p path approved (some _) (some _) (settle-Keeps (suc c) b p path approved)
        (settle-Keeps c (suc b) p path approved) r

  -- `_execute_verify_settle` keeps the invariant.
  pub execute_verify_settle-Keeps :
      (c : TaskContract) (p : Plan) (path : String) (approved : List String)
      → Keeps P (execute_verify_settle sm t c p path approved)
  unfolding execute_verify_settle
  execute_verify_settle-Keeps c p path approved = settle-Keeps 1 1 p path approved _
