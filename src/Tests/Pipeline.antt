-- ===== src/Tests/Pipeline.antt =====
-- Runs of the orchestrator on the scripted task.
use ai_system_canonical.Prelude.{◌∷◌, [], ◌≡◌, refl, ap, ◌∙◌, ℕ, true, none}
use ai_system_canonical.State.{State, completed, is_terminal}
use ai_system_canonical.Events.{TaskResult, read}
use ai_system_canonical.Orchestrator.Base.{Run}
use ai_system_canonical.Orchestrator.Drive.{run}
use ai_system_canonical.Orchestrator.Sound.{Checked}
use ai_system_canonical.Orchestrator.Verified.{
  state_of, run-Checked, resume-Checked, run_completed-HasPassingT0, resume_completed-HasPassingT0,
  run-keeps_terminal, resume-keeps_terminal,
}
use ai_system_canonical.Orchestrator.Extends.{Extends, run-Extends}
use ai_system_canonical.Orchestrator.Total.{run-returns}
use ai_system_canonical.Orchestrator.Act.{returns, build_error}
use ai_system_canonical.Orchestrator.Resume.{resume}
use ai_system_canonical.State.Laws.{HasPassingT0}
use ai_system_canonical.Orchestrator.Honest.{IsHonest}
use ai_system_canonical.Orchestrator.Honest.Whole.{run-IsHonest}
use ai_system_canonical.Orchestrator.Settle.{Round, handle_build, settle}
use ai_system_canonical.Contracts.Task.{TaskContract, qa_explain}
use ai_system_canonical.Orchestrator.Seams.{Seams}
use ai_system_canonical.Orchestrator.Completes.Answer.{IsReady, IsDelivered}
use ai_system_canonical.Orchestrator.Completes.Whole.{run-Answers}
use ai_system_canonical.Tests.World.{contract, two_steps, sm, grant, fresh}

fresh-Checked : Checked fresh
unfolding read
fresh-Checked = record { sound = λ u. tt }

fixed_state : (state_of (run sm grant "fix it" "/repo" fresh).1.log "task").state ≡ completed
unfolding ai_system_canonical.Policy.paths_in ai_system_canonical.Policy.is_risky
    ai_system_canonical.Policy.rule_capability_expired
    ai_system_canonical.Policy.rule_operation_not_granted
    ai_system_canonical.Policy.rule_path_out_of_scope
    ai_system_canonical.Policy.rule_tainted_side_effect
    ai_system_canonical.Policy.rule_egress_not_allowed
    ai_system_canonical.Policy.rule_risk_class_needs_approval ai_system_canonical.Policy.decide
    ai_system_canonical.Budget.default_budget ai_system_canonical.Budget.new_tracker
    ai_system_canonical.Budget.would_exceed ai_system_canonical.Taint.blocks_side_effect
    ai_system_canonical.State.is_allowed ai_system_canonical.Contracts.is_expired
    ai_system_canonical.Contracts.allows_operation ai_system_canonical.Contracts.covers_path
    ai_system_canonical.Capability.is_side_effecting ai_system_canonical.Capability.spec_for
    ai_system_canonical.Capability.primary_operation ai_system_canonical.Capability.issue_grant
    ai_system_canonical.Events.append ai_system_canonical.Events.read
    ai_system_canonical.Contracts.Task.names_t0 ai_system_canonical.Contracts.Task.validate_contract
    ai_system_canonical.Orchestrator.Drive.drive_body ai_system_canonical.Orchestrator.Drive.drive
    ai_system_canonical.Orchestrator.Drive.run ai_system_canonical.Orchestrator.Act.pure
    ai_system_canonical.Orchestrator.Act.◌>>=◌ ai_system_canonical.Orchestrator.Act.catch
    ai_system_canonical.Orchestrator.Act.try_else ai_system_canonical.Orchestrator.Act.on_option
    ai_system_canonical.Orchestrator.Act.gets ai_system_canonical.Orchestrator.Act.for_each
    ai_system_canonical.Orchestrator.Settle.settle_round
    ai_system_canonical.Orchestrator.Settle.execute_verify_settle
    ai_system_canonical.Orchestrator.Step.on_decision ai_system_canonical.Orchestrator.Step.run_step
    ai_system_canonical.Orchestrator.Base.call ai_system_canonical.Orchestrator.Base.draw
    ai_system_canonical.Orchestrator.Base.record_event
    ai_system_canonical.Orchestrator.Base.record_note
    ai_system_canonical.Orchestrator.Base.record_notes
    ai_system_canonical.Orchestrator.Base.snapshot ai_system_canonical.Orchestrator.Base.enter
    ai_system_canonical.Orchestrator.Base.transition
    ai_system_canonical.Orchestrator.Base.finish_with
    ai_system_canonical.Orchestrator.Execute.execute ai_system_canonical.Tests.World.engine
    ai_system_canonical.Policy.Glob.glob_matches ai_system_canonical.Events.Projection.apply_body
    ai_system_canonical.Events.Projection.project_task ai_system_canonical.State.Gate.gate_reason
    ai_system_canonical.State.Gate.transition_ok
    ai_system_canonical.Progress.Measure.parse_pytest_counts
    ai_system_canonical.Progress.Measure.measure_step
fixed_state = refl

-- the orchestrator when the task is done
abbrev done : Run ℕ
done = (run sm grant "fix it" "/repo" fresh).1

run-Checked_example : Checked done
run-Checked_example = run-Checked sm grant "fix it" "/repo" fresh fresh-Checked

run_completed-HasPassingT0_example : HasPassingT0 (read done.log "task")
run_completed-HasPassingT0_example =
    run_completed-HasPassingT0 sm grant "fix it" "/repo" fresh "task" fresh-Checked fixed_state

run-returns_example : (r : TaskResult) × ((run sm grant "fix it" "/repo" fresh).0 ≡ returns r)
run-returns_example = run-returns sm grant "fix it" "/repo" fresh

done-Checked : Checked done
done-Checked = run-Checked sm grant "fix it" "/repo" fresh fresh-Checked

completed-is_terminal : is_terminal completed ≡ true
unfolding is_terminal
completed-is_terminal = refl

done-is_terminal : is_terminal (state_of done.log "task").state ≡ true
done-is_terminal = ap is_terminal fixed_state ∙ completed-is_terminal

run-keeps_terminal_example :
    (state_of (run sm grant "next" "/repo" done).1.log "task").state
    ≡ (state_of done.log "task").state
run-keeps_terminal_example =
    run-keeps_terminal sm grant "next" "/repo" done "task" done-Checked done-is_terminal

resume-keeps_terminal_example :
    (state_of (resume sm grant "task" none done).1.log "task").state
    ≡ (state_of done.log "task").state
resume-keeps_terminal_example =
    resume-keeps_terminal sm grant "task" none done "task" done-Checked done-is_terminal

resume-Checked_example : Checked (resume sm grant "task" none done).1
resume-Checked_example = resume-Checked sm grant "task" none done done-Checked

done-stays_completed : (state_of (resume sm grant "task" none done).1.log "task").state ≡ completed
done-stays_completed =
    resume-keeps_terminal sm grant "task" none done "task" done-Checked done-is_terminal
    ∙ fixed_state

resume_completed-HasPassingT0_example :
    HasPassingT0 (read (resume sm grant "task" none done).1.log "task")
resume_completed-HasPassingT0_example =
    resume_completed-HasPassingT0 sm grant "task" none done "task" done-Checked done-stays_completed

run-Extends_example : Extends fresh.log done.log
run-Extends_example = run-Extends sm grant "fix it" "/repo" fresh

run-IsHonest_example :
    (r : TaskResult) × ((run sm grant "fix it" "/repo" fresh).0 ≡ returns r) × IsHonest r
run-IsHonest_example = run-IsHonest sm grant "fix it" "/repo" fresh

abbrev first_round : Round
first_round = record { contract = contract; prev_diff = "" }

-- a question, and a model call that raises
abbrev question : TaskContract
question = record contract { task_class = qa_explain; required_evidence = "answer" ∷ [] }

abbrev asked : Seams ℕ
asked = record sm { interpret = λ r n. (returns question, n) }

question-IsReady : IsReady question
unfolding ai_system_canonical.Contracts.Task.validate_contract
question-IsReady = record { sound = refl; clear = refl }

nothing_logged : read fresh.log "task" ≡ []
unfolding read
nothing_logged = refl

run-Answers_example :
    (r : TaskResult) × ((run asked grant "why?" "/repo" fresh).0 ≡ returns r) × IsDelivered r
run-Answers_example =
    run-Answers asked grant "why?" "/repo" fresh nothing_logged (λ w. ([], refl))
      (λ w. (question, refl, record { asks = refl; ready = question-IsReady }))
