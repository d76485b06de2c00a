-- ===== src/Agents.antt =====
-- nexus/app/services/agents/disagreement.py and nexus/app/services/repo/breadth.py: advisory verdicts.
use ai_system_canonical.Prelude.{
  String, Bool, true, false, ◌≡◌, List, [], ◌∷◌, ◌++◌, ◌&&◌, ◌||◌, any, map, if◌then◌else◌, arith,
  ◌⊎◌,
}
use ai_system_canonical.Prelude.Text.{codes, lower, is_infix_of}
use ai_system_canonical.Contracts.{VerificationRecord, Overall, pass, fail, is_pass}
use ai_system_canonical.Contracts.Task.{TaskContract, TaskClass, code_edit_broad, RiskLevel, low}

pub data Resolution : Type 0 where
  t0_authoritative escalate : Resolution

-- `_RISKY_MARKERS`
abbrev risky_markers : List String
risky_markers = "auth" ∷ "secret" ∷ "migration" ∷ "payment" ∷ "billing" ∷ ".pem" ∷ ".key" ∷ []

-- `_risky`
unfoldable pub is_risky_text : String → Bool
unfolding is_infix_of lower
is_risky_text text = any (λ m. is_infix_of (codes m) (map lower (codes text))) risky_markers

abbrev above_low : RiskLevel → Bool
above_low low = false
above_low _ = true

unfoldable pub is_consequential : TaskContract → Bool
is_consequential c = above_low c.risk_level || any is_risky_text (c.deliverables ++ c.constraints)

abbrev pub same_overall : Overall → Overall → Bool
same_overall pass pass = true
same_overall fail fail = true
same_overall _ _ = false

abbrev is_failure : VerificationRecord → Bool
is_failure v = elim v.overall [ pass ↦ false | fail ↦ true ]

-- `resolve`
unfoldable pub resolve : TaskContract → VerificationRecord → VerificationRecord → Resolution
resolve c t0 t2 =
    if same_overall t0.overall t2.overall
    then t0_authoritative
    else if is_pass t0 && is_failure t2 && is_consequential c
    then escalate
    else t0_authoritative

-- T0 stands but in one case: it passes, T2 fails, and the task is consequential.
pub resolve-escalate :
    (c : TaskContract) (t0 t2 : VerificationRecord)
    → resolve c t0 t2 ≡ escalate
    → (t0.overall ≡ pass) × (t2.overall ≡ fail) × (is_consequential c ≡ true)
unfolding resolve
resolve-escalate c t0 t2 h = ground arith

pub data RiskFlag : Type 0 where
  public_api risk_path symbol_removed signature_changed wide_change : RiskFlag

pub data Level : Type 0 where
  local broad : Level

pub record BreadthAdvice : Type 0 where
  pub level : Level
  pub escalate_review : Bool

-- `_BROAD_FLAGS`
is_broad_flag : RiskFlag → Bool
is_broad_flag public_api = true
is_broad_flag risk_path = true
is_broad_flag wide_change = true
is_broad_flag _ = false

abbrev hints_broad : TaskClass → Bool
hints_broad code_edit_broad = true
hints_broad _ = false

unfoldable pub classify_breadth : TaskClass → List RiskFlag → BreadthAdvice
unfolding is_broad_flag
classify_breadth hint flags =
    if hints_broad hint || any is_broad_flag flags
    then record { level = broad; escalate_review = any is_broad_flag flags || hints_broad hint }
    else record { level = local; escalate_review = false }

-- A review is escalated exactly for the broad level.
pub classify_breadth-escalates :
    (hint : TaskClass) (flags : List RiskFlag)
    → let advice = classify_breadth hint flags in
      ((advice.level ≡ broad) × (advice.escalate_review ≡ true))
      ⊎ ((advice.level ≡ local) × (advice.escalate_review ≡ false))
unfolding classify_breadth
classify_breadth-escalates hint flags = ground arith
