-- ===== src/Orchestrator/Execute.antt =====
-- nexus/app/orchestration/orchestrator.py: the loop over the plan's steps, `_execute`, with the
-- escalation ladder, `_run_ladder`.
use ai_system_canonical.Prelude.{
  ℕ, zero, suc, ◌-◌, String, Bool, true, false, Option, none, some, List, [], ◌∷◌, ◌&&◌, not,
  is_cons, ltb, length, if◌then◌else◌,
}
use ai_system_canonical.Prelude.Text.{is_empty, is_blank}
use ai_system_canonical.Contracts.{Plan, PlanStep, ActionProposal}
use ai_system_canonical.Contracts.Task.{TaskContract}
use ai_system_canonical.Escalation.{
  Ladder, RungName, inspect, change_strategy, critic, research, stronger_model, ask_user,
  new_ladder, advance, exhausted, rungs_length,
}
use ai_system_canonical.Budget.{
  BudgetTracker, new_tracker, add_step, would_exceed, over_soft, over_hard,
}
use ai_system_canonical.Progress.Service.{
  ProgressService, ProgressClass, stalled, loop_risk, new_service, observe, patience_for,
}
use ai_system_canonical.Progress.Loop.{LoopDetector, new_detector, record_step}
use ai_system_canonical.Progress.Measure.{measure_step}
use ai_system_canonical.Events.{
  progress, model_run, escalation, agent_message, critic as critic_note, route, plan, budget, soft,
}
use ai_system_canonical.Orchestrator.Act.{
  Act, build_error, stalled_escalation, budget_exhausted, pure, throw, gets, on_option, ◌>>=◌, ◌>>◌,
}
use ai_system_canonical.Orchestrator.Seams.{Seams, BuildOutput, CriticReport, reject}
use ai_system_canonical.Orchestrator.Base.{Run, call, record_event, record_note, record_notes}
use ai_system_canonical.Orchestrator.Step.{run_step}

-- _MAX_STEPS
abbrev pub max_steps : ℕ
max_steps = 16

abbrev pub rejects : CriticReport → Bool
rejects r = elim r.verdict [ reject ↦ true | _ ↦ false ]

-- The variables of the loop of `_execute`, beside the steps that are left.
pub record Frame : Type 0 where
  pub steps : List PlanStep
  pub tracker : BudgetTracker
  pub progress : ProgressService
  pub detector : LoopDetector
  pub ladder : Ladder
  pub measure : Bool
  pub soft_warned : Bool
  pub diff : String

unfoldable pub is_met : Option Bool → Bool
is_met none = false
is_met (some b) = b

unfoldable pub is_stuck : ProgressClass → Bool
is_stuck stalled = true
is_stuck loop_risk = true
is_stuck _ = false

module _ {W : Type 0} (sm : Seams W) (t : String) (contract : TaskContract) where
  -- `_critic_pass`
  unfoldable pub critic_pass : TaskContract → String → Act (Run W) CriticReport
  critic_pass c diff = do
    report ← call (sm.review c diff)
    record_note t critic_note
    record_note t model_run
    record_note t agent_message
    pure report

  -- `_replan`
  unfoldable pub replan : Act (Run W) (List PlanStep)
  replan = do
    p ← call (sm.make_plan contract)
    record_event t (plan p)
    record_note t model_run
    pure p.steps

  unfoldable pub replanned : Ladder → Act (Run W) (Ladder × Option (List PlanStep))
  unfolding replan
  replanned l = do steps ← replan; pure (l, some steps)

  -- what a rung does: `go` climbs on, and the ladder is the one past this rung
  unfoldable pub on_rung :
      RungName
      → Ladder
      → String
      → Act (Run W) (Ladder × Option (List PlanStep))
      → Act (Run W) (Ladder × Option (List PlanStep))
  unfolding replanned critic_pass
  on_rung inspect l diff go = go
  on_rung critic l diff go =
      if sm.has_critic
      then (do
        report ← critic_pass contract diff
        if rejects report && is_cons report.findings
            then (do record_note t agent_message; replanned l)
            else go)
      else go
  on_rung research l diff go =
      if sm.has_researcher
      then (do notes ← call (sm.do_research contract); record_notes t notes; go)
      else go
  on_rung stronger_model l diff go = do
    found ← call (sm.stronger_model contract)
    if found then (do record_note t route; replanned l) else go
  on_rung change_strategy l diff go = replanned l
  on_rung ask_user l diff go = pure (l, none)

  -- the loop of `_run_ladder`, with the rungs that are left; `none` is "ask_user"
  unfoldable pub climb : ℕ → Ladder → String → Act (Run W) (Ladder × Option (List PlanStep))
  unfolding on_rung
  climb zero l diff = pure (l, none)
  climb (suc n) l diff =
      let go = climb n (advance l).0 diff in
      if exhausted l then pure (l, none) else do
        record_note t escalation
        if (advance l).1.actionable then on_rung (advance l).1.name (advance l).0 diff go else go

  -- `_run_ladder`
  unfoldable pub run_ladder : Ladder → String → Act (Run W) (Ladder × Option (List PlanStep))
  unfolding climb
  run_ladder l = climb (rungs_length - l.i) l

  unfoldable pub elapsed : Act (Run W) ℕ
  elapsed = gets (λ (s : Run W). sm.elapsed s.world)

  -- budget.over_hard() raises; budget.over_soft() warns once
  unfoldable pub check_budget : Frame → Act (Run W) Frame
  unfolding elapsed
  check_budget fr = do
    now ← elapsed
    if over_hard fr.tracker now
        then throw budget_exhausted
        else if over_soft fr.tracker now && not fr.soft_warned
        then (do record_event t (budget soft); pure (record fr { soft_warned = true }))
        else pure fr

  -- what the measurement of a step leaves of the loop's variables
  unfoldable pub measured :
      Frame → ℕ → ActionProposal → BuildOutput → String → Frame × ProgressClass × Bool
  unfolding is_met
  measured fr executed p out step_out =
      let m =
        measure_step sm.normalize_error executed step_out out.changed_paths out.diff out.stderr in
      let (service, pe) = observe fr.progress m false false in
      let (detector, lr) =
        record_step sm.similar fr.detector (sm.action_hash p) m.error_signature out.diff
          pe.made_progress in
      (
        record fr { progress = service; detector = detector },
        if lr.risk then loop_risk else pe.classification,
        is_met m.acceptance_met,
      )

  -- the frame after a re-plan: the new steps from the first, watched by new detectors
  unfoldable pub restarted : Frame → Ladder → List PlanStep → Frame
  restarted fr l new = record fr {
    steps = new;
    ladder = l;
    measure = true;
    progress = new_service (patience_for contract.task_class);
    detector = new_detector;
  }

  -- the `while` loop of `_execute`: `left` is how many steps may still run, and the list is `steps[i:]`
  unfoldable pub loop : ℕ → String → List String → Frame → List PlanStep → Act (Run W) String
  unfolding check_budget measured run_ladder elapsed restarted is_stuck
  loop left ws approved fr [] = pure fr.diff
  loop zero ws approved fr (step ∷ rest) = throw build_error
  loop (suc left) ws approved fr (step ∷ rest) = do
    now ← elapsed
    if would_exceed fr.tracker now 1 then throw budget_exhausted else do
      (p, out) ← run_step sm t contract step ws approved fr.steps
      let fr1 : Frame = record fr {
        tracker = add_step fr.tracker;
        diff = if is_empty out.diff then fr.diff else out.diff;
      }
      if not fr1.measure then loop left ws approved fr1 rest else do
        step_out ← call (sm.run_target contract)
        let (fr2, effective, met) = measured fr1 (max_steps - left) p out step_out
        record_note t progress
        if met && not (is_blank fr2.diff) && is_cons rest
            then (do record_note t progress; pure fr2.diff)
            else do
              fr3 ← check_budget fr2
              if is_stuck effective
                  then (do
                    (l, outcome) ← run_ladder fr3.ladder fr3.diff
                    on_option outcome (throw (stalled_escalation effective)) (λ new. do
                      call (sm.run_target contract)
                      loop left ws approved (restarted fr3 l new) new))
                  else loop left ws approved fr3 rest

  -- the variables at the start of `_execute`
  unfoldable pub start : List PlanStep → Bool → Frame
  start steps fast_escalate = record {
    steps = steps;
    tracker = new_tracker contract.budget contract.task_class;
    progress = new_service (patience_for contract.task_class);
    detector = new_detector;
    ladder =
        new_ladder (if fast_escalate then 0 else 2) (sm.has_critic && not fast_escalate)
          (sm.has_researcher && not fast_escalate) sm.has_router;
    measure = ltb 1 (length steps);
    soft_warned = false;
    diff = "";
  }

  -- the baseline that a plan of several steps is measured against
  unfoldable pub baseline : Frame → Act (Run W) Frame
  baseline fr =
      if fr.measure
      then (do
        out ← call (sm.run_target contract)
        let m = measure_step sm.normalize_error 0 out [] "" ""
        pure (record fr { progress = (observe fr.progress m false false).0 }))
      else pure fr

  -- `_execute`
  unfoldable pub execute : Plan → String → List String → Bool → Act (Run W) String
  unfolding loop start baseline
  execute p path approved fast_escalate = do
    ws ← call (sm.copy_workspace path)
    fr ← baseline (start p.steps fast_escalate)
    loop max_steps ws approved fr p.steps
