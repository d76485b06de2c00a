-- ===== src/Orchestrator/Completes/Answer.antt =====
-- A question is answered: `_run_qa_explain` takes its task to COMPLETED.
use ai_system_canonical.Prelude.{
  ◌≡◌, refl, String, true, false, none, some, List, [], ◌∷◌, ◌++◌, is_cons, arith,
}
use ai_system_canonical.Prelude.Text.{is_empty}
use ai_system_canonical.State.{
  State, interpreting, planning, executing, verifying, completed, is_allowed,
}
use ai_system_canonical.State.Gate.{transition_ok, gate_reason, executing_gate, completed_gate}
use ai_system_canonical.Contracts.{Plan, PlanStep, VerificationRecord, pass, t0}
use ai_system_canonical.Contracts.Task.{TaskContract, validate_contract}
use ai_system_canonical.Events.{error, artifact, verification, NoteKind, TaskResult}
use ai_system_canonical.Events.Projection.{TaskSnapshot, apply_body}
use ai_system_canonical.Orchestrator.Act.{pure, catch, ◌>>=◌, ◌>>◌}
use ai_system_canonical.Orchestrator.Seams.{Seams, Hook, Stored}
use ai_system_canonical.Orchestrator.Step.{keep_artifact, on_stored}
use ai_system_canonical.Orchestrator.Settle.{consult}
use ai_system_canonical.Orchestrator.Base.{call, record_event, finish_with}
use ai_system_canonical.Orchestrator.Deliver.{
  opened, observed, shelve, self_verified, closed, run_qa_explain, no_answer,
}
use ai_system_canonical.Orchestrator.Completes.{
  Does, At, Answers, Does-bind, Does-pure, Does-if, Does-event, Does-note, Does-notes, Does-call,
  Does-draw, Does-transition, Does-return, Does-catch,
}

-- the result of a task that is completed, verified, and names its record
pub record IsDelivered (r : TaskResult) : Type 0 where
  pub ended : r.state ≡ completed
  pub verified : r.verified ≡ true

-- the contract that `planning` admits
pub record IsReady (c : TaskContract) : Type 0 where
  pub sound : validate_contract c ≡ []
  pub clear : c.ambiguity ≡ []

abbrev pub In : State → TaskSnapshot → Type 0
In st snap = snap.state ≡ st

abbrev pub Holding : State → TaskContract → TaskSnapshot → Type 0
Holding st c snap = (snap.state ≡ st) × (snap.contract ≡ some c)

abbrev With : State → Plan → TaskSnapshot → Type 0
With st p snap = (snap.state ≡ st) × (snap.plan ≡ some p)

abbrev Seen : TaskSnapshot → Type 0
Seen snap = (snap.state ≡ executing) × (is_cons snap.observations ≡ true)

abbrev Passed : VerificationRecord → TaskSnapshot → Type 0
Passed v snap = (snap.state ≡ verifying) × (snap.verification ≡ some v) × (v.overall ≡ pass)

snoc-is_cons : {A : Type 0} (xs : List A) (x : A) → is_cons (xs ++ x ∷ []) ≡ true
snoc-is_cons [] x = refl
snoc-is_cons (y ∷ xs) x = refl

may_plan :
    (c : TaskContract) (snap : TaskSnapshot)
    → IsReady c
    → Holding interpreting c snap
    → transition_ok snap.state planning snap ≡ none
unfolding transition_ok is_allowed gate_reason
may_plan c snap r h = ground arith

may_execute :
    (step : PlanStep) (snap : TaskSnapshot)
    → is_empty step.required_capability ≡ false
    → is_empty step.expected_artifact_delta ≡ false
    → With planning (record { steps = step ∷ [] }) snap
    → transition_ok snap.state executing snap ≡ none
unfolding transition_ok is_allowed gate_reason executing_gate
may_execute step snap r d h = ground arith

may_verify : (snap : TaskSnapshot) → Seen snap → transition_ok snap.state verifying snap ≡ none
unfolding transition_ok is_allowed gate_reason
may_verify snap h = rw (h.0, h.1) refl

may_complete :
    (v : VerificationRecord) (snap : TaskSnapshot)
    → Passed v snap
    → transition_ok snap.state completed snap ≡ none
unfolding transition_ok is_allowed gate_reason completed_gate
may_complete v snap h = ground arith

module _ {W : Type 0} (sm : Seams W) (t : String) where
  pub Does-consult :
      {P : TaskSnapshot → Type 0} (h : Hook)
      → Answers (sm.service h)
      → Does (At t P) (consult sm t h) (λ _. At t P)
  unfolding consult
  Does-consult {P} h a =
      Does-bind {R = λ _. At t P} _ _ (Does-call t _ a) (λ notes. Does-notes t notes)

  stored :
      {P : TaskSnapshot → Type 0} (o : Stored)
      → ((snap : TaskSnapshot) → P snap → P (apply_body snap (error "artifact store")))
      → Does (At t P) (on_stored sm t o) (λ _. At t P)
  unfolding on_stored
  stored Stored.not_wired k = Does-pure false
  stored Stored.kept k = Does-pure true
  stored {P} Stored.broken k =
      Does-bind {R = λ _. At t P} _ _ (Does-event t _ k) (λ _. Does-pure false)

  Does-shelve :
      {P : TaskSnapshot → Type 0} (paths : List String)
      → ((snap : TaskSnapshot) → P snap → P (apply_body snap (error "artifact store")))
      → ((snap : TaskSnapshot) → P snap → P (apply_body snap (artifact paths)))
      → Does (At t P) (shelve sm t paths) (λ _. At t P)
  unfolding shelve keep_artifact
  Does-shelve {P} paths k l =
      Does-bind {R = λ _. At t P} _ _
        (Does-bind {R = λ _. At t P} _ _ (Does-draw t _) (λ o. stored o k))
        (λ b. Does-if b _ _ (Does-event t _ l) (Does-pure tt))

  Does-opened :
      (c : TaskContract) (capability : String) (notes : List NoteKind)
      → IsReady c
      → is_empty capability ≡ false
      → Does
          (At t (Holding interpreting c))
          (opened sm t capability notes)
          (λ _. At t (In executing))
  unfolding opened apply_body
  Does-opened c capability notes r k =
      Does-bind {R = λ _. At t (In planning)} _ _
        (Does-transition t planning (λ snap h. may_plan c snap r h) (λ snap h. refl))
        (λ _. Does-bind {R = λ _. At t (In planning)} _ _ (Does-draw t _) (λ id.
          let step : PlanStep = record {
            id = id;
            intent = "deliver";
            expected_artifact_delta = "produce a deliverable";
            required_capability = capability;
          } in
          let held = With planning (record { steps = step ∷ [] }) in
          Does-bind {R = λ _. At t held} _ _ (Does-event t _ (λ snap h. (h, refl))) (λ _.
            Does-bind {R = λ _. At t held} _ _ (Does-notes t notes) (λ _.
              Does-bind {R = λ _. At t (In executing)} _ _
                (Does-transition t executing (λ snap h. may_execute step snap k refl h)
                  (λ snap h. refl))
                (λ _. Does-pure step)))))

  finishes :
      (v : VerificationRecord)
      → Does
          (At {W = W} t (In completed))
          (finish_with t completed true (some v.id))
          (λ r _. IsDelivered r)
  unfolding finish_with record_event ◌>>=◌ pure
  finishes v = record { done = λ s p. (_, refl, record { ended = refl; verified = refl }) }

  Does-closed : Does (At t Seen) (closed sm t) (λ r _. IsDelivered r)
  unfolding closed self_verified apply_body
  Does-closed =
      Does-bind {R = λ _. At t (In verifying)} _ _
        (Does-transition t verifying may_verify (λ snap h. refl))
        (λ _.
          Does-bind {R = λ v. At t (Passed v)} _ _
            (Does-bind {R = λ _. At t (In verifying)} _ _ (Does-draw t _) (λ id.
              let v : VerificationRecord = record { id = id; tier = t0; overall = pass } in
              Does-bind {R = λ _. At t (Passed v)} _ _
                (Does-event t (verification v) (λ snap h. (h, refl, refl))) (λ _. Does-return v)))
            (λ v.
              Does-bind {R = λ _. At t (In completed)} _ _
                (Does-transition t completed (may_complete v) (λ snap h. refl)) (λ _. finishes v)))

  -- the answer, or an error event and none
  Does-deliver :
      (c : TaskContract)
      → Does
          (At t (Holding interpreting c))
          (catch
            (call (sm.deliver c))
            (λ x. do record_event t (error "model call"); pure no_answer))
          (λ _. At t (Holding interpreting c))
  unfolding apply_body
  Does-deliver c = Does-catch t _ _ (λ x.
      Does-bind {R = λ _. At t (Holding interpreting c)} _ _ (Does-event t _ (λ snap h. h))
        (λ _. Does-pure no_answer))

  pub Does-qa_explain :
      (c : TaskContract)
      → IsReady c
      → Does (At t (Holding interpreting c)) (run_qa_explain sm t c) (λ r _. IsDelivered r)
  unfolding run_qa_explain observed apply_body
  Does-qa_explain c r =
      Does-bind {R = λ _. At t (Holding interpreting c)} _ _ (Does-deliver c) (λ d.
        Does-bind {R = λ _. At t (In executing)} _ _ (Does-opened c "fs.read" d.notes r refl)
          (λ step. Does-bind {R = λ _. At t (In executing)} _ _ (Does-note t _) (λ _.
            Does-bind {R = λ _. At t (In executing)} _ _
              (Does-shelve [] (λ snap h. h) (λ snap h. h))
              (λ _.
                Does-bind {R = λ _. At t Seen} _ _
                  (Does-event t _ (λ snap h. (h, snoc-is_cons snap.observations _)))
                  (λ _. Does-bind {R = λ _. At t Seen} _ _ (Does-note t _) (λ _. Does-closed))))))
