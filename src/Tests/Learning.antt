-- ===== src/Tests/Learning.antt =====
-- The theorems on experiences and evaluations at concrete inputs, with decimal numbers of four digits.
use Prim.Native.Nat.{◌/◌, ◌^◌}
use ai_system_canonical.Prelude.{
  ◌≡◌, refl, ℕ, ◌+◌, ◌-◌, ◌*◌, String, Bool, true, false, Option, none, some, List, [], ◌∷◌, ltb,
  leb,
}
use ai_system_canonical.Prelude.Floats.{Floats}
use ai_system_canonical.Experience.{
  ExperienceRecord, ShadowRun, Metrics, Move, validated, quarantined, monitored, candidate,
  observed, can_transition, no_metrics, human_verified, shadow_passed, catastrophic_outcome, stale,
}
use ai_system_canonical.Experience.Evaluate.{promote_decision, folded}
use ai_system_canonical.Experience.Store.{Table, find, row_of, is_live, not_allowed, move_to}
use ai_system_canonical.Experience.Operations.{try_promote, record_use, after_use}
use ai_system_canonical.Experience.Sequence.{uses, sweeps, validates, perform_all}
use ai_system_canonical.Experience.Valid.{IsValid, perform_all-IsValid}
use ai_system_canonical.Experience.Final.{Holds, quarantined-IsFinal, perform_all-final}
use ai_system_canonical.Experience.Life.{IsEarned, doubly, try_promote-IsEarned}
use ai_system_canonical.Experience.Use.{used, Leaves, record_use-catastrophic}
use ai_system_canonical.Evaluation.Regression.{SuiteResult, certify}
use ai_system_canonical.Evaluation.Offline.{Question, evaluate}
use ai_system_canonical.Evaluation.Laws.{IsSafe, evaluate-IsSafe}
use ai_system_canonical.Prelude.Act.{returns, throws}

abbrev pub fixed : Floats
fixed = record {
  Float = ℕ;
  of_nat = λ n. n * 10000;
  decimal = λ n k. n * 10000 / 10 ^ k;
  add = λ a b. a + b;
  sub = λ a b. a - b;
  mul = λ a b. a * b / 10000;
  div = λ a b. a * 10000 / b;
  absolute = λ a. a;
  round_to = λ k a. a;
  lt = ltb;
  le = leb;
}

abbrev good_run : ShadowRun ℕ
good_run = record { verified = true; cost_ratio = 10000; week = 3 }

abbrev known : ExperienceRecord ℕ
known = record {
  id = "e1";
  signature = "debug|tags=-|tools=-";
  strategy = "guard the index";
  actions = [];
  outcome = "T3";
  evidence_refs = [];
  success_score = 10000;
  validation_state = validated;
  scope = "global";
  version = 1;
  promotion_history =
      record { source = observed; target = candidate; why = human_verified }
      ∷ record { source = candidate; target = validated; why = shadow_passed 10 }
      ∷ [];
  monitoring_metrics = no_metrics;
  shadow_replay_log =
      good_run ∷ good_run ∷ good_run ∷ good_run ∷ good_run ∷ good_run ∷ good_run ∷ good_run
      ∷ good_run ∷ good_run ∷ [];
  guardrail_result = none;
  ts = 0;
}

-- a table of one record
abbrev table : Table ℕ
table = row_of known ∷ []

table-IsValid : IsValid table
unfolding can_transition ai_system_canonical.Experience.Store.has_id
table-IsValid = record {
  consistent = (
    record { same_id = refl; same_state = refl; explained = (refl, refl, (refl, refl, refl)) },
    tt,
  );
  unique = (refl, tt);
}

perform_all-IsValid_example : IsValid (perform_all fixed (sweeps ∷ uses "e1" true false ∷ []) [])
perform_all-IsValid_example = perform_all-IsValid fixed (sweeps ∷ uses "e1" true false ∷ [])

abbrev bad : ExperienceRecord ℕ
bad = move_to quarantined catastrophic_outcome known

bad_table-IsValid : IsValid (row_of bad ∷ [])
unfolding can_transition ai_system_canonical.Experience.Store.has_id
bad_table-IsValid = record {
  consistent = (
    record {
      same_id = refl;
      same_state = refl;
      explained = (refl, refl, (refl, refl, (refl, refl, refl)));
    },
    tt,
  );
  unique = (refl, tt);
}

bad_table-Holds : Holds "e1" quarantined bad.promotion_history (row_of bad ∷ [])
unfolding find
bad_table-Holds = (bad, refl, refl, refl)

perform_all-final_example :
    IsValid (perform_all fixed (validates "e1" ∷ sweeps ∷ []) (row_of bad ∷ []))
    × Holds "e1" quarantined bad.promotion_history
        (perform_all fixed (validates "e1" ∷ sweeps ∷ []) (row_of bad ∷ []))
perform_all-final_example =
    perform_all-final fixed (validates "e1" ∷ sweeps ∷ []) (row_of bad ∷ []) "e1" quarantined
      bad.promotion_history bad_table-IsValid quarantined-IsFinal bad_table-Holds

found : find "e1" table ≡ some known
unfolding find
found = refl

abbrev live : ExperienceRecord ℕ
live = doubly (promote_decision fixed known false).1.why (folded fixed known)

promotes_known : find "e1" (try_promote fixed "e1" false table).1 ≡ some live
unfolding find try_promote ai_system_canonical.Prelude.Act.◌>>=◌
    ai_system_canonical.Experience.Store.get ai_system_canonical.Prelude.Act.gets
    ai_system_canonical.Prelude.Act.on_option ai_system_canonical.Prelude.Act.pure
    ai_system_canonical.Experience.Store.update ai_system_canonical.Prelude.Act.modify
    ai_system_canonical.Experience.Operations.promote
    ai_system_canonical.Experience.Evaluate.promote_decision
    ai_system_canonical.Experience.Gates.gate_validated_to_promoted
    ai_system_canonical.Experience.Evaluate.run_offline_eval
    ai_system_canonical.Prelude.Floats.sum_onto ai_system_canonical.Experience.Gates.shadow_rate
    ai_system_canonical.Experience.Evaluate.touches_security
    ai_system_canonical.Experience.Store.advance can_transition
    ai_system_canonical.Prelude.Act.throw
promotes_known = refl

try_promote-IsEarned_example : IsEarned fixed known false
try_promote-IsEarned_example =
    try_promote-IsEarned fixed table "e1" false known live table-IsValid found refl promotes_known
      refl

record_use-catastrophic_example :
    (can_transition validated quarantined ≡ true
      → Leaves fixed
          (returns (move_to quarantined catastrophic_outcome (used fixed known false)))
          "e1"
          (move_to quarantined catastrophic_outcome (used fixed known false))
          (record_use fixed "e1" false true table))
    × (validated ≡ quarantined
        → Leaves fixed
            (returns (used fixed known false))
            "e1"
            (used fixed known false)
            (record_use fixed "e1" false true table))
    × (validated ≡ stale
        → Leaves fixed
            (throws (not_allowed stale quarantined))
            "e1"
            (used fixed known false)
            (record_use fixed "e1" false true table))
record_use-catastrophic_example =
    record_use-catastrophic fixed table "e1" known false table-IsValid found

abbrev suite : SuiteResult
suite = record { n = 2; passed = 2; failures = [] }

abbrev tasks : List String
tasks = "a" ∷ "b" ∷ "c" ∷ "d" ∷ "e" ∷ "f" ∷ "g" ∷ "h" ∷ "i" ∷ "j" ∷ []

abbrev question : Question
question = record { subject = "e1"; security_context = ""; human_approved = false }

question-promotes :
    (evaluate fixed question
      (λ t. true)
      (λ t. false)
      (some (certify fixed (suite ∷ []) suite))
      tasks).promotes
    ≡ true
unfolding evaluate certify ai_system_canonical.Evaluation.Regression.check_regression
    ai_system_canonical.Evaluation.Regression.drop_points
    ai_system_canonical.Evaluation.Regression.minus
    ai_system_canonical.Evaluation.Offline.is_sensitive
question-promotes = refl

evaluate-IsSafe_example : IsSafe fixed question (λ t. true) (λ t. false) (suite ∷ []) suite tasks
evaluate-IsSafe_example =
    evaluate-IsSafe fixed question (λ t. true) (λ t. false) (suite ∷ []) suite tasks
      question-promotes
