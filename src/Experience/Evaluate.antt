-- ===== src/Experience/Evaluate.antt =====
-- nexus/app/services/experience/eval.py: the offline evaluation and the decision to promote.
use ai_system_canonical.Prelude.{
  ℕ, String, Bool, true, false, some, List, [], ◌∷◌, ◌++◌, ◌&&◌, not, length, map, any, is_cons,
  if◌then◌else◌,
}
use ai_system_canonical.Prelude.Text.{codes, lower, occurs_in}
use ai_system_canonical.Prelude.Floats.{Floats, sum_onto}
use ai_system_canonical.Experience.{ExperienceRecord, Why, approval_required, evaluated}
use ai_system_canonical.Experience.Gates.{shadow_rate, gate_validated_to_promoted}

-- " ".join(words)
unfoldable pub joined : List String → List ℕ
joined [] = []
joined (w ∷ []) = codes w
joined (w ∷ v ∷ ws) = codes w ++ b' ' ∷ joined (v ∷ ws)

-- `_SECURITY_MARKERS`
abbrev pub security_markers : List String
security_markers =
    "auth" ∷ "security" ∷ "policy" ∷ "capability" ∷ "sandbox" ∷ "egress" ∷ "secret" ∷ []

-- any(m in hay for m in _SECURITY_MARKERS)
unfoldable pub is_marked : List ℕ → Bool
unfolding occurs_in
is_marked hay = any (λ m. occurs_in m hay) security_markers

unfoldable pub touches_security : {F : Type 0} → ExperienceRecord F → Bool
unfolding joined lower is_marked
touches_security exp =
    is_marked
      (map lower (codes exp.signature ++ b' ' ∷ codes exp.strategy ++ b' ' ∷ joined exp.actions))

pub record EvalResult (F : Type 0) : Type 0 where
  pub heldout_n : ℕ
  pub guardrail_drop_pp : F

pub record PromoteDecision : Type 0 where
  pub accepted : Bool
  pub needs_human : Bool
  pub why : Why

module _ (N : Floats) where
  open N use {Float, of_nat, decimal, sub, mul, div, lt, round_to}

  -- the baselines of `GUARDRAIL_SET`
  unfoldable pub baselines : List Float
  baselines =
      decimal 10 1
      ∷ decimal 10 1
      ∷ decimal 10 1
      ∷ decimal 9 1
      ∷ decimal 9 1
      ∷ decimal 10 1
      ∷ decimal 95 2
      ∷ decimal 10 1
      ∷ []

  unfoldable pub mean : List Float → Float
  mean xs = div (sum_onto N (of_nat 0) xs) (of_nat (length xs))

  -- max(0.0, x)
  abbrev pub clamped : Float → Float
  clamped x = if lt (of_nat 0) x then x else of_nat 0

  -- the pairs that `heldout_n` counts hold their index, so no two are equal
  unfoldable pub run_offline_eval : ExperienceRecord Float → EvalResult Float
  unfolding baselines mean
  run_offline_eval exp =
      let log = exp.shadow_replay_log in
      let rate = if is_cons log then shadow_rate N log else of_nat 0 in
      record {
        heldout_n = length log;
        guardrail_drop_pp = round_to 2 (clamped (mul (sub (mean baselines) rate) (of_nat 100)));
      }

  -- the record with the evaluation folded in
  abbrev pub folded : ExperienceRecord Float → ExperienceRecord Float
  folded exp =
      let ev = run_offline_eval exp in
      record exp {
        monitoring_metrics = record exp.monitoring_metrics { heldout_n = some ev.heldout_n };
        guardrail_result = some ev.guardrail_drop_pp;
      }

  abbrev pub decided : ExperienceRecord Float → Bool → Bool × Why → PromoteDecision
  decided exp human_approved (false, why) = record {
    accepted = false;
    needs_human = false;
    why = why;
  }
  decided exp human_approved (true, _) =
      if touches_security exp && not human_approved
      then record { accepted = false; needs_human = true; why = approval_required }
      else record {
        accepted = true;
        needs_human = false;
        why = evaluated (length exp.shadow_replay_log);
      }

  -- `promote_decision` at its own evaluation: the record as it leaves it, and the decision
  unfoldable pub promote_decision :
      ExperienceRecord Float → Bool → ExperienceRecord Float × PromoteDecision
  promote_decision exp human_approved =
      let exp' = folded exp in
      (exp', decided exp' human_approved (gate_validated_to_promoted N exp'))
