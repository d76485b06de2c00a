-- ===== src/Recovery/Laws.antt =====
-- What a RESUME decision rests on.
use ai_system_canonical.Prelude.{
  true, false, ◌≡◌, refl, some, List, [], ◌∷◌, is_cons, arith, All, is_some,
}
use ai_system_canonical.State.{waiting_for_user, is_terminal, state_eq}
use ai_system_canonical.Contracts.{ActionProposal, Observation}
use ai_system_canonical.Events.{Event}
use ai_system_canonical.Events.Projection.{TaskSnapshot, initial, project_task, project_from}
use ai_system_canonical.Recovery.{
  Checkpoint, resume, is_external, has_observation, uncertain, observations, proposals,
  build_checkpoint, decide_from, reconcile,
}

-- Each proposal that reaches outside the workspace copy has an observation of its step.
abbrev pub Confirmed : List Observation → List ActionProposal → Type 0
Confirmed os ps =
    All
      (λ (p : ActionProposal). is_external p.operation ≡ true → has_observation p.step_id os ≡ true)
      ps

uncertain-Confirmed :
    (os : List Observation) (ps : List ActionProposal)
    → is_cons (uncertain os ps) ≡ false
    → Confirmed os ps
unfolding uncertain
uncertain-Confirmed os [] h = tt
uncertain-Confirmed os (p ∷ ps) h = (ground arith, uncertain-Confirmed os ps (ground arith))

pub record CanResume (events : List Event) (snap : TaskSnapshot) : Type 0 where
  pub live : is_terminal snap.state ≡ false
  pub not_waiting : state_eq snap.state waiting_for_user ≡ false
  pub has_contract : is_some snap.contract ≡ true
  pub has_plan : is_some snap.plan ≡ true
  pub confirmed : Confirmed (observations events) (proposals events)

decide_from-CanResume :
    (events : List Event) (snap : TaskSnapshot) (cp : Checkpoint)
    → build_checkpoint events ≡ some cp
    → decide_from snap cp ≡ resume
    → CanResume events snap
unfolding decide_from build_checkpoint
decide_from-CanResume [] snap cp b h = cc
decide_from-CanResume (e ∷ es) snap cp b h = record {
  live = ground arith;
  not_waiting = ground arith;
  has_contract = ground arith;
  has_plan = ground arith;
  confirmed = uncertain-Confirmed (observations (e ∷ es)) (proposals (e ∷ es)) (ground arith);
}

-- A restart resumes only a task that is neither terminal nor waiting, has a contract and a plan, and
-- whose every external side effect was observed.
pub reconcile-CanResume :
    (events : List Event)
    → reconcile events ≡ some resume
    → (snap : TaskSnapshot) × (project_task events ≡ some snap) × CanResume events snap
unfolding reconcile project_task build_checkpoint
reconcile-CanResume [] h = cc
reconcile-CanResume (e ∷ es) h =
    let snap = project_from (initial e.task_id) (e ∷ es) in
    (snap, refl, decide_from-CanResume (e ∷ es) snap _ refl (cc h))
