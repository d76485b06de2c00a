-- ===== src/Orchestrator/Completes/Whole.antt =====
-- A question is answered: `run` returns a verified result, whatever the model call does.
use ai_system_canonical.Prelude.{◌≡◌, refl, String, [], none}
use ai_system_canonical.State.{created, interpreting}
use ai_system_canonical.State.Gate.{transition_ok, gate_reason}
use ai_system_canonical.State.{is_allowed}
use ai_system_canonical.Contracts.{CapabilityGrant}
use ai_system_canonical.Contracts.Task.{TaskContract, TaskClass, qa_explain}
use ai_system_canonical.Events.{request, contract, TaskResult, read, append}
use ai_system_canonical.Events.Projection.{TaskSnapshot, apply_body}
use ai_system_canonical.Orchestrator.Act.{returns, catch, ◌>>=◌}
use ai_system_canonical.Orchestrator.Seams.{Seams, before_interpret}
use ai_system_canonical.Orchestrator.Base.{Run, draw, record_event}
use ai_system_canonical.Orchestrator.Drive.{run, drive, drive_body, by_class}
use ai_system_canonical.Orchestrator.Completes.{
  Does, At, Answers, Does-bind, Does-event, Does-note, Does-transition, Does-asked, Does-given,
  first_snapshot,
}
use ai_system_canonical.Orchestrator.Completes.Answer.{
  IsDelivered, IsReady, Holding, In, Does-consult, Does-qa_explain,
}

-- a question whose contract the gate of PLANNING admits
pub record IsQuestion (c : TaskContract) : Type 0 where
  pub asks : c.task_class ≡ qa_explain
  pub ready : IsReady c

module _ {W : Type 0} (sm : Seams W) (g : CapabilityGrant) (t text path : String) where
  may_interpret :
      (snap : TaskSnapshot) → In created snap → transition_ok snap.state interpreting snap ≡ none
  unfolding transition_ok is_allowed gate_reason
  may_interpret snap h = rw h refl

  Does-by_class :
      (k : TaskClass) (c : TaskContract)
      → k ≡ qa_explain
      → IsReady c
      → Does (At t (Holding interpreting c)) (by_class sm g t k c path) (λ r _. IsDelivered r)
  unfolding by_class
  Does-by_class k c e r = rw e (Does-qa_explain sm t c r)

  Does-drive_body :
      Answers (sm.service before_interpret)
      → ((w : W) → (c : TaskContract) × ((sm.interpret text w).0 ≡ returns c) × IsQuestion c)
      → Does (At t (In created)) (drive_body sm g t text path) (λ r _. IsDelivered r)
  unfolding drive_body apply_body
  Does-drive_body a h =
      Does-bind {R = λ _. At t (In interpreting)} _ _
        (Does-transition t interpreting may_interpret (λ snap e. refl))
        (λ _.
          Does-bind {R = λ _. At t (In interpreting)} _ _ (Does-consult sm t before_interpret a)
            (λ _.
              Does-bind {R = λ c s. At t (In interpreting) s × IsQuestion c} _ _
                (Does-asked t IsQuestion _ h)
                (λ c. Does-given (IsQuestion c) _ (λ q.
                  Does-bind {R = λ _. At t (Holding interpreting c)} _ _
                    (Does-event t (contract c) (λ snap e. (e, refl)))
                    (λ _.
                      Does-bind {R = λ _. At t (Holding interpreting c)} _ _ (Does-note t _) (λ _.
                        Does-bind {R = λ _. At t (Holding interpreting c)} _ _ (Does-note t _)
                          (λ _. Does-by_class c.task_class c q.asks q.ready)))))))

-- A request that is interpreted as a question ends in a verified, COMPLETED result: where the id is new
-- to the log, the notes of memory and workspace before the interpretation can be had, and the contract
-- is one that the gate of PLANNING admits. The model call that answers may raise or return anything.
pub run-Answers :
    {W : Type 0} (sm : Seams W) (g : CapabilityGrant) (text path : String) (s : Run W)
    → read s.log (sm.new_id s.world).0 ≡ []
    → Answers (sm.service before_interpret)
    → ((w : W) → (c : TaskContract) × ((sm.interpret text w).0 ≡ returns c) × IsQuestion c)
    → (r : TaskResult) × ((run sm g text path s).0 ≡ returns r) × IsDelivered r
unfolding run drive draw record_event ◌>>=◌ catch apply_body
run-Answers {W} sm g text path s fresh a h =
    let t = (sm.new_id s.world).0 in
    let begun : Run W = record {
      log = append s.log t (request text path);
      on_fallback = s.on_fallback;
      world = (sm.new_id s.world).1;
    } in
    let (r, e, d) =
      (Does-drive_body sm g t text path a h).done begun
        (_, first_snapshot s.log t (request text path) fresh, refl) in
    (r, rw e refl, d)
