-- ===== src/Experience/Gates.antt =====
-- nexus/app/services/experience/lifecycle.py: the gates between the states.
use ai_system_canonical.Prelude.{
  ℕ, zero, suc, ◌+◌, String, Bool, true, false, Option, none, some, List, [], ◌∷◌, ◌&&◌, not,
  length, map, ltb, leb, ◌==◌, str_eq, if◌then◌else◌, any,
}
use Prim.Native.Nat.{◌/◌}
use ai_system_canonical.Prelude.Text.{mem_str}
use ai_system_canonical.Prelude.Floats.{Floats, ratio}
use ai_system_canonical.Experience.{
  ExperienceRecord, ShadowRun, Why, unknown_tier, human_verified, already_represented, completed_at,
  few_shadow_tasks, low_shadow_success, high_cost, few_weeks, shadow_passed, few_heldout,
  no_guardrail_result, guardrail_dropped, heldout_passed, trailing_success_low, few_uses,
  dependency_gone, catastrophic_outcome, nothing,
}

abbrev pub min_shadow_tasks : ℕ
min_shadow_tasks = 5

abbrev pub min_distinct_weeks : ℕ
min_distinct_weeks = 3

abbrev pub min_heldout : ℕ
min_heldout = 10

-- `gate_observed_to_candidate`: its third test holds of no tier that is left
unfoldable pub gate_observed_to_candidate : String → Bool → Bool × Why
unfolding mem_str
gate_observed_to_candidate verify_tier is_new =
    if not (mem_str verify_tier ("T0" ∷ "T1" ∷ "T2" ∷ "T3" ∷ []))
    then (false, unknown_tier verify_tier)
    else if str_eq verify_tier "T3"
    then (true, human_verified)
    else if not is_new
    then (false, already_represented)
    else (true, completed_at verify_tier)

-- the `week`s of the log, each once
unfoldable pub distinct : List ℕ → List ℕ
distinct [] = []
distinct (w ∷ ws) = let rest = distinct ws in if any (λ v. v == w) rest then rest else w ∷ rest

unfoldable pub successes : {F : Type 0} → List (ShadowRun F) → ℕ
successes [] = 0
successes (r ∷ rs) = if r.verified then 1 + successes rs else successes rs

module _ (N : Floats) where
  open N use {Float, of_nat, decimal, div, lt}

  -- `sorted`, by insertion behind the entries that are not greater
  unfoldable pub insert : Float → List Float → List Float
  insert x [] = x ∷ []
  insert x (y ∷ ys) = let rest = insert x ys in if lt x y then x ∷ y ∷ ys else y ∷ rest

  unfoldable pub sorted : List Float → List Float
  unfolding insert
  sorted [] = []
  sorted (x ∷ xs) = insert x (sorted xs)

  -- xs[n], and 1.0 where the list is too short, which `median` never meets
  unfoldable pub nth : ℕ → List Float → Float
  nth n [] = of_nat 1
  nth zero (x ∷ xs) = x
  nth (suc n) (x ∷ xs) = nth n xs

  -- sorted(costs)[len(costs) // 2]
  unfoldable pub median : List Float → Float
  unfolding sorted nth
  median costs = nth (length costs / 2) (sorted costs)

  -- the share of verified runs in a log that is not empty
  unfoldable pub shadow_rate : List (ShadowRun Float) → Float
  unfolding successes
  shadow_rate log = ratio N (successes log) (length log)

  unfoldable pub gate_candidate_to_validated : ExperienceRecord Float → Bool × Why
  unfolding shadow_rate median distinct
  gate_candidate_to_validated exp =
      let log = exp.shadow_replay_log in
      let weeks = distinct (map (λ (r : ShadowRun Float). r.week) log) in
      if ltb (length log) min_shadow_tasks
      then (false, few_shadow_tasks (length log))
      else if lt (shadow_rate log) (decimal 80 2)
      then (false, low_shadow_success)
      else if lt (decimal 120 2) (median (map (λ (r : ShadowRun Float). r.cost_ratio) log))
      then (false, high_cost)
      else if ltb (length weeks) min_distinct_weeks
      then (false, few_weeks (length weeks))
      else (true, shadow_passed (length log))

  abbrev pub guardrail_holds : Option Float → Bool × Why
  guardrail_holds none = (false, no_guardrail_result)
  guardrail_holds (some drop) =
      if lt (decimal 20 1) drop then (false, guardrail_dropped) else (true, heldout_passed)

  abbrev pub count_or : ℕ → Option ℕ → ℕ
  count_or n none = n
  count_or n (some k) = k

  abbrev pub value_or : Float → Option Float → Float
  value_or x none = x
  value_or x (some y) = y

  unfoldable pub gate_validated_to_promoted : ExperienceRecord Float → Bool × Why
  gate_validated_to_promoted exp =
      let heldout = count_or 0 exp.monitoring_metrics.heldout_n in
      if ltb heldout min_heldout
      then (false, few_heldout heldout)
      else guardrail_holds exp.guardrail_result

  unfoldable pub should_go_stale : ExperienceRecord Float → Bool × Why
  should_go_stale exp =
      let m = exp.monitoring_metrics in
      let n = count_or 0 m.trailing_n in
      if leb 20 n && lt (value_or (of_nat 1) m.trailing_success) (decimal 70 2)
      then (true, trailing_success_low n)
      else if lt (value_or (of_nat 99) m.uses_60d) (of_nat 3)
      then (true, few_uses)
      else if m.dependency_missing
      then (true, dependency_gone)
      else (false, nothing)

  unfoldable pub should_quarantine : ExperienceRecord Float → Bool → Bool × Why
  should_quarantine exp catastrophic =
      let m = exp.monitoring_metrics in
      let n = count_or 0 m.trailing_n in
      if catastrophic
      then (true, catastrophic_outcome)
      else if leb 5 n && lt (value_or (of_nat 1) m.trailing_success) (decimal 40 2)
      then (true, trailing_success_low n)
      else (false, nothing)
