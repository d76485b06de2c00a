-- ===== src/Orchestrator/Keeps/Execute.antt =====
-- An invariant is kept by the escalation ladder and by the loop over the plan's steps.
use ai_system_canonical.Prelude.{ℕ, zero, suc, String, Bool, Option, List, [], ◌∷◌}
use ai_system_canonical.Contracts.{Plan, PlanStep}
use ai_system_canonical.Contracts.Task.{TaskContract}
use ai_system_canonical.Escalation.{
  Ladder, RungName, inspect, change_strategy, critic, research, stronger_model, ask_user, advance,
  exhausted,
}
use ai_system_canonical.Orchestrator.Act.{Act}
use ai_system_canonical.Orchestrator.Seams.{Seams}
use ai_system_canonical.Orchestrator.Base.{Run}
use ai_system_canonical.Orchestrator.Execute.{
  Frame, critic_pass, replan, replanned, on_rung, climb, run_ladder, elapsed, check_budget, loop,
  baseline, execute,
}
use ai_system_canonical.Orchestrator.Keeps.{
  Keeps, keeps_rules, Keeps-pure, Keeps-if, Keeps-bind, Keeps-throw,
}
use ai_system_canonical.Orchestrator.Keeps.Step.{run_step-Keeps}
use ai_system_canonical.Orchestrator.Invariant.{Invariant, record_note-Keeps, record_notes-Keeps}

module _ {W : Type 0} {P : Run W → Type 0} (inv : Invariant P) (sm : Seams W) (t : String)
    (c : TaskContract) where
  pub critic_pass-Keeps : (c : TaskContract) (diff : String) → Keeps P (critic_pass sm t c c diff)
  unfolding critic_pass
  critic_pass-Keeps c diff = search (keeps_rules, inv.called, record_note-Keeps) depth 12

  replanned-Keeps : (l : Ladder) → Keeps P (replanned sm t c l)
  unfolding replanned replan
  replanned-Keeps l = search (keeps_rules, inv.called, inv.event, record_note-Keeps) depth 12

  on_rung-Keeps :
      (r : RungName) (l : Ladder) (diff : String)
      (go : Act (Run W) (Ladder × Option (List PlanStep)))
      → Keeps P go
      → Keeps P (on_rung sm t c r l diff go)
  unfolding on_rung
  on_rung-Keeps inspect l diff go k = k
  on_rung-Keeps critic l diff go k =
      search (keeps_rules, critic_pass-Keeps, record_note-Keeps inv, replanned-Keeps) depth 12
  on_rung-Keeps research l diff go k =
      search (keeps_rules, inv.called, record_notes-Keeps inv) depth 12
  on_rung-Keeps stronger_model l diff go k =
      search (keeps_rules, inv.called, record_note-Keeps inv, replanned-Keeps) depth 12
  on_rung-Keeps change_strategy l diff go k = replanned-Keeps l
  on_rung-Keeps ask_user l diff go k = Keeps-pure _

  climb-Keeps : (n : ℕ) (l : Ladder) (diff : String) → Keeps P (climb sm t c n l diff)
  unfolding climb
  climb-Keeps zero l diff = Keeps-pure _
  climb-Keeps (suc n) l diff =
      let go = climb-Keeps n (advance l).0 diff in
      Keeps-if (exhausted l) _ _ (Keeps-pure _) (
        Keeps-bind _ _ (record_note-Keeps inv t _) (λ _.
          Keeps-if (advance l).1.actionable _ _
            (on_rung-Keeps (advance l).1.name (advance l).0 diff _ go) go))

  run_ladder-Keeps : (l : Ladder) (diff : String) → Keeps P (run_ladder sm t c l diff)
  unfolding run_ladder
  run_ladder-Keeps l diff = climb-Keeps _ l diff

  check_budget-Keeps : (fr : Frame) → Keeps P (check_budget sm t c fr)
  unfolding check_budget elapsed
  check_budget-Keeps fr = search (keeps_rules, inv.event) depth 12

  baseline-Keeps : (fr : Frame) → Keeps P (baseline sm t c fr)
  unfolding baseline
  baseline-Keeps fr = search (keeps_rules, inv.called) depth 12

  loop-Keeps :
      (n : ℕ) (ws : String) (approved : List String) (fr : Frame) (steps : List PlanStep)
      → Keeps P (loop sm t c n ws approved fr steps)
  unfolding loop elapsed
  loop-Keeps n ws approved fr [] = Keeps-pure _
  loop-Keeps zero ws approved fr (s ∷ rest) = Keeps-throw _
  loop-Keeps (suc n) ws approved fr (s ∷ rest) =
      let go = loop-Keeps n ws approved in
      search
        (
          keeps_rules,
          go,
          inv.called,
          run_step-Keeps inv,
          record_note-Keeps inv,
          check_budget-Keeps,
          run_ladder-Keeps,
        )
        depth 24

  -- `_execute` keeps the invariant.
  pub execute-Keeps :
      (p : Plan) (path : String) (approved : List String) (fast : Bool)
      → Keeps P (execute sm t c p path approved fast)
  unfolding execute
  execute-Keeps p path approved fast =
      search (keeps_rules, inv.called, baseline-Keeps, loop-Keeps) depth 12
