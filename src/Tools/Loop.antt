-- ===== src/Tools/Loop.antt =====
-- nexus/app/services/tools/loop.py: the bounded loop in which a model calls tools.
use ai_system_canonical.Prelude.{
  ℕ, zero, suc, ◌+◌, ◌-◌, String, Bool, true, false, Option, none, some, List, [], ◌∷◌, ◌++◌, ◌&&◌,
  not, leb, if◌then◌else◌,
}
use ai_system_canonical.Prelude.Text.{is_empty, mem_str}
use ai_system_canonical.Prelude.Act.{Outcome, pure, ◌>>=◌}
use ai_system_canonical.Contracts.{PolicyDecision, Decision, allow}
use ai_system_canonical.Progress.Loop.{LoopDetector, LoopFlag, LoopReport, record_step}
use ai_system_canonical.Tools.{
  Act, Args, ToolAdapter, ToolWorld, ToolResult, DispatchContext, ToolError, Failure, dispatch,
}
use ai_system_canonical.Tools.Parse.{json_object}

-- What a parsed reply says: it is done, or it calls an operation, whose name is stripped.
pub data Reply : Type 0 where
  finished : String → Reply
  calling : String → Args → Reply

-- an entry of the transcript
pub data Turn : Type 0 where
  error_turn : Turn
  done_turn : String → Turn
  call_turn : String → Args → Turn
  result_turn : ToolResult → Turn
  risk_turn : List LoopFlag → Turn

pub data Ending : Type 0 where
  summarised : String → Ending
  unparseable_replies no_op_named iteration_cap : Ending
  at_risk : List LoopFlag → Ending

pub record ToolLoopResult : Type 0 where
  pub succeeded : Bool
  pub done : Bool
  pub iterations : ℕ
  pub ending : Ending
  pub transcript : List Turn
  pub denials : ℕ
  pub decisions : List PolicyDecision
  pub loop_risk : Bool

-- The loop's variables.
pub record Progress : Type 0 where
  pub transcript : List Turn
  pub decisions : List PolicyDecision
  pub denials : ℕ
  pub parse_left : ℕ
  pub detector : LoopDetector
  pub ok_hashes : List String

-- What the loop uses that is not part of it: the model; `json.loads` with the reading of the object's
-- keys (`none` where the text is no JSON); the hash of an action, the signature of an error and the
-- similarity of two outputs.
pub record LoopSeams (W : Type 0) : Type 0 where
  pub tools : ToolWorld W
  pub ask : String → List Turn → W → Outcome ToolError String × W
  pub loads : List ℕ → Option Reply
  pub action_hash : String → Args → String
  pub error_signature : String → Failure → String
  pub similar : String → String → Bool
  pub excerpt : Option String → String

abbrev pub parsed : (List ℕ → Option Reply) → Option (List ℕ) → Option Reply
parsed loads none = none
parsed loads (some cs) = loads cs

-- a decision other than ALLOW is counted and kept
abbrev pub counted : Progress → PolicyDecision → Decision → Progress
counted p d allow = p
counted p d _ = record p { denials = p.denials + 1; decisions = p.decisions ++ d ∷ [] }

unfoldable pub count_denial : Option PolicyDecision → Progress → Progress
count_denial none p = p
count_denial (some d) p = counted p d d.decision

abbrev pub result_of : Bool → ℕ → Ending → Progress → ToolLoopResult
result_of success it ending p = record {
  succeeded = success;
  done = success;
  iterations = it;
  ending = ending;
  transcript = p.transcript;
  denials = p.denials;
  decisions = p.decisions;
  loop_risk = false;
}

abbrev pub noted : Turn → Progress → Progress
noted t p = record p { transcript = p.transcript ++ t ∷ [] }

module _ {W : Type 0} (sm : LoopSeams W) (max_iters : ℕ) (detect_loops : Bool) where
  -- the variables after a call and its result, and the detector's report
  unfoldable pub after_call :
      String → Args → ToolResult → Option PolicyDecision → Progress → Progress × LoopReport
  after_call op args r d p =
      let hash = sm.action_hash op args in
      let progress = r.succeeded && not (mem_str hash p.ok_hashes) in
      let (detector, report) =
        record_step sm.similar p.detector hash
          (if r.succeeded then none else some (sm.error_signature op r.error)) (sm.excerpt r.output)
          progress in
      (
        record (count_denial d p) {
          transcript = p.transcript ++ call_turn op args ∷ result_turn r ∷ [];
          detector = detector;
          ok_hashes = if progress then hash ∷ p.ok_hashes else p.ok_hashes;
        },
        report,
      )

  -- a reply that cannot be used: it is noted, and ends the loop with the budget
  abbrev pub wasted :
      ℕ → Ending → Progress → (Progress → Act W ToolLoopResult) → Act W ToolLoopResult
  wasted it ending p next =
      let p' = record (noted error_turn p) { parse_left = p.parse_left - 1 } in
      if leb p.parse_left 1 then pure (result_of false it ending p') else next p'

  abbrev pub judged :
      ℕ → Progress × LoopReport → (Progress → Act W ToolLoopResult) → Act W ToolLoopResult
  judged it (p, report) next =
      if detect_loops && report.risk
      then pure
          (record (result_of false it (at_risk report.flags) (noted (risk_turn report.flags) p)) {
            loop_risk = true;
          })
      else next p

  -- the rest of a round, with the reply as it was parsed
  unfoldable pub on_reply :
      List (ToolAdapter W)
      → DispatchContext
      → ℕ
      → Progress
      → Option Reply
      → (Progress → Act W ToolLoopResult)
      → Act W ToolLoopResult
  unfolding after_call
  on_reply registry ctx it p none next = wasted it unparseable_replies p next
  on_reply registry ctx it p (some (finished summary)) next =
      pure (result_of true it (summarised summary) (noted (done_turn summary) p))
  on_reply registry ctx it p (some (calling op args)) next =
      if is_empty op
      then wasted it no_op_named p next
      else (dispatch sm.tools registry op args ctx >>= λ out.
          judged it (after_call op args out.0 out.1 p) next)

  -- the rounds that are left
  unfoldable pub rounds :
      String → List (ToolAdapter W) → DispatchContext → ℕ → Progress → Act W ToolLoopResult
  rounds objective registry ctx zero p = pure (result_of false max_iters iteration_cap p)
  rounds objective registry ctx (suc left) p = do
    reply ← sm.ask objective p.transcript
    on_reply registry ctx (max_iters - left) p (parsed sm.loads (json_object reply))
        (rounds objective registry ctx left)

  -- `ToolLoop.run`
  unfoldable pub run_tools :
      String → List (ToolAdapter W) → DispatchContext → ℕ → LoopDetector → Act W ToolLoopResult
  unfolding rounds
  run_tools objective registry ctx parse_budget detector =
      rounds objective registry ctx max_iters (record {
        transcript = [];
        decisions = [];
        denials = 0;
        parse_left = parse_budget;
        detector = detector;
        ok_hashes = [];
      })
