-- ===== src/Orchestrator/Keeps/Resume.antt =====
-- An invariant is kept by `resume`.
use ai_system_canonical.Prelude.{String, Bool, Option, none, some, List}
use ai_system_canonical.State.{
  State, created, interpreting, planning, waiting_for_user, executing, verifying, stalled,
  recovering, completed, failed, cancelled,
}
use ai_system_canonical.Contracts.{CapabilityGrant}
use ai_system_canonical.Recovery.{Verdict, resume as go_on, repair, escalate, noop}
use ai_system_canonical.Events.{Event}
use ai_system_canonical.Events.Projection.{TaskSnapshot}
use ai_system_canonical.Orchestrator.Act.{
  Exc, transition_error, build_error, capability_error, approval_pause, stalled_escalation,
  budget_exhausted, unbound_local, no_events, stop_iteration, raised,
}
use ai_system_canonical.Orchestrator.Seams.{Seams}
use ai_system_canonical.Orchestrator.Base.{Run}
use ai_system_canonical.Orchestrator.Resume.{
  next, inputs, fails, after_approval, only_stop, apply_approval, settle_again, steer, ask_review,
  on_verdict, reconcile_and_resume, resume,
}
use ai_system_canonical.Orchestrator.Keeps.{Keeps, keeps_rules, Keeps-throw, Keeps-pure}
use ai_system_canonical.Orchestrator.Keeps.Settle.{execute_verify_settle-Keeps}
use ai_system_canonical.Orchestrator.Keeps.Drive.{failing-Keeps}
use ai_system_canonical.Orchestrator.Invariant.{
  Invariant, record_note-Keeps, finish_with-Keeps, result_from_log-Keeps,
}

next-Keeps : {S A : Type 0} {P : S → Type 0} (o : Option A) → Keeps P (next o)
next-Keeps none = Keeps-throw _
next-Keeps (some a) = Keeps-pure a

module _ {W : Type 0} {P : Run W → Type 0} (inv : Invariant P) (sm : Seams W) (g : CapabilityGrant)
    (t : String) where
  inputs-Keeps : (events : List Event) → Keeps P (inputs sm g t events)
  unfolding inputs
  inputs-Keeps events = search (keeps_rules, next-Keeps) depth 12

  fails-Keeps : (x : Exc) → Keeps P (fails sm g t x)
  fails-Keeps x = failing-Keeps inv sm t g x

  after_approval-Keeps : Keeps P (after_approval sm g t)
  unfolding after_approval
  after_approval-Keeps = search (keeps_rules, inv.moved, inputs-Keeps) depth 12

  only_stop-Keeps : (x : Exc) → Keeps P (only_stop sm g t x)
  unfolding only_stop
  only_stop-Keeps stop_iteration = fails-Keeps stop_iteration
  only_stop-Keeps (transition_error a b c) = Keeps-throw _
  only_stop-Keeps build_error = Keeps-throw _
  only_stop-Keeps capability_error = Keeps-throw _
  only_stop-Keeps (approval_pause a b) = Keeps-throw _
  only_stop-Keeps (stalled_escalation c) = Keeps-throw _
  only_stop-Keeps budget_exhausted = Keeps-throw _
  only_stop-Keeps unbound_local = Keeps-throw _
  only_stop-Keeps no_events = Keeps-throw _
  only_stop-Keeps (raised e) = Keeps-throw _

  apply_approval-Keeps : (approved : Bool) → Keeps P (apply_approval sm g t approved)
  unfolding apply_approval
  apply_approval-Keeps approved =
      search
        (
          keeps_rules,
          inv.looked,
          inv.event,
          inv.moved,
          finish_with-Keeps inv,
          after_approval-Keeps,
          only_stop-Keeps,
          fails-Keeps,
          execute_verify_settle-Keeps inv,
        )
        depth 24

  settle_again-Keeps :
      (events : List Event) (snap : TaskSnapshot) → Keeps P (settle_again sm g t events snap)
  unfolding settle_again
  settle_again-Keeps events snap =
      search (keeps_rules, inputs-Keeps, execute_verify_settle-Keeps inv) depth 12

  ask_review-Keeps : Keeps P (ask_review sm g t)
  unfolding ask_review
  ask_review-Keeps = search (keeps_rules, inv.event, inv.moved, finish_with-Keeps inv) depth 12

  steer-Keeps :
      (events : List Event) (snap : TaskSnapshot) (st : State)
      → Keeps P (steer sm g t events snap st)
  unfolding steer
  steer-Keeps events snap interpreting =
      search (keeps_rules, inv.moved, settle_again-Keeps) depth 12
  steer-Keeps events snap planning = search (keeps_rules, inv.moved, settle_again-Keeps) depth 12
  steer-Keeps events snap recovering = search (keeps_rules, inv.moved, settle_again-Keeps) depth 12
  steer-Keeps events snap stalled = search (keeps_rules, inv.moved, settle_again-Keeps) depth 12
  steer-Keeps events snap verifying =
      search (keeps_rules, inv.moved, inv.event, finish_with-Keeps inv) depth 12
  steer-Keeps events snap created = settle_again-Keeps events snap
  steer-Keeps events snap waiting_for_user = settle_again-Keeps events snap
  steer-Keeps events snap executing = settle_again-Keeps events snap
  steer-Keeps events snap completed = settle_again-Keeps events snap
  steer-Keeps events snap failed = settle_again-Keeps events snap
  steer-Keeps events snap cancelled = settle_again-Keeps events snap

  on_verdict-Keeps : (events : List Event) (v : Verdict) → Keeps P (on_verdict sm g t events v)
  unfolding on_verdict
  on_verdict-Keeps events noop = result_from_log-Keeps inv t
  on_verdict-Keeps events go_on =
      search (keeps_rules, inv.looked, steer-Keeps, fails-Keeps) depth 12
  on_verdict-Keeps events repair = ask_review-Keeps
  on_verdict-Keeps events escalate = ask_review-Keeps

  -- `resume` keeps the invariant, whether it returns or throws.
  pub resume-Keeps : (approval : Option Bool) → Keeps P (resume sm g t approval)
  unfolding resume reconcile_and_resume
  resume-Keeps approval =
      search
        (
          keeps_rules,
          inv.looked,
          result_from_log-Keeps inv,
          finish_with-Keeps inv,
          apply_approval-Keeps,
          on_verdict-Keeps,
          record_note-Keeps inv,
        )
        depth 24
