-- ===== src/Contracts/Task.antt =====
-- nexus/app/schemas/contracts.py: `TaskContract` and the gate `validate_contract`.
use Prim.Native.Nat.{ℕ}
use ai_system_canonical.Prelude.{
  String, Bool, true, false, ◌&&◌, ◌||◌, not, List, [], ◌∷◌, ◌++◌, map, any, is_cons, ◌==◌,
  if◌then◌else◌,
}
use ai_system_canonical.Prelude.Text.{codes, lower, is_blank, is_space, all_space, is_infix_of}

pub data TaskClass : Type 0 where
  qa_explain code_edit_local code_edit_broad debug research_web doc_analysis authoring planning_arch
        ops :
      TaskClass

pub data RiskLevel : Type 0 where
  low medium high : RiskLevel

-- the keys of a budget
pub data Dimension : Type 0 where
  wall_clock_s steps model_cost_usd : Dimension
  other_dimension : String → Dimension

pub record TaskContract : Type 0 where
  pub original_request : String
  pub objective : String
  pub task_class : TaskClass
  pub deliverables : List String
  pub constraints : List String
  pub ambiguity : List String
  pub success_criteria : List String
  pub required_evidence : List String
  pub risk_level : RiskLevel
  pub budget : List (Dimension × ℕ)

pub data ContractProblem : Type 0 where
  objective_is_empty no_success_criteria no_required_evidence no_runnable_t0_target :
      ContractProblem

-- `_T0_REQUIRED_CLASSES`
unfoldable pub t0_required : TaskClass → Bool
t0_required code_edit_local = true
t0_required code_edit_broad = true
t0_required debug = true
t0_required _ = false

-- A letter under `re.IGNORECASE`, with the four letters beside ASCII that match one.
fold_case : ℕ → ℕ
unfolding lower
fold_case c =
    if c == 0x130 || c == 0x131
    then b'i'
    else if c == 0x17f
    then b's'
    else if c == 0x212a
    then b'k'
    else lower c

abbrev t0_keywords : List (List ℕ)
t0_keywords = codes "pytest" ∷ codes "gradle" ∷ codes "android" ∷ []

-- `\s+\S+`
after_keyword : List ℕ → Bool
unfolding is_space all_space
after_keyword [] = false
after_keyword (c ∷ cs) = is_space c && not (all_space cs)

keyword_here : List ℕ → List ℕ → Bool
unfolding after_keyword
keyword_here [] cs = after_keyword cs
keyword_here (_ ∷ _) [] = false
keyword_here (k ∷ ks) (c ∷ cs) = k == c && keyword_here ks cs

-- `(pytest|gradle|android)\s+\S+` matched at the start of a text
t0_here : List ℕ → Bool
unfolding keyword_here
t0_here cs = any (λ k. keyword_here k cs) t0_keywords

-- `_T0_PYTEST_RE.search`, on a text whose case is folded
unfoldable pub t0_pattern : List ℕ → Bool
unfolding t0_here
t0_pattern [] = false
t0_pattern (c ∷ cs) = t0_here (c ∷ cs) || t0_pattern cs

-- ("t0" in e.lower()) and _T0_PYTEST_RE.search(e)
unfoldable pub names_t0 : String → Bool
unfolding is_infix_of lower t0_pattern fold_case
names_t0 e = is_infix_of (codes "t0") (map lower (codes e)) && t0_pattern (map fold_case (codes e))

-- the problem that `required_evidence` leaves
unfoldable pub evidence_problems : TaskClass → List String → List ContractProblem
unfolding t0_required
evidence_problems cls [] = no_required_evidence ∷ []
evidence_problems cls (e ∷ es) =
    if t0_required cls && not (any names_t0 (e ∷ es)) then no_runnable_t0_target ∷ [] else []

unfoldable pub validate_contract : TaskContract → List ContractProblem
unfolding evidence_problems is_blank
validate_contract c =
    (if is_blank c.objective then objective_is_empty ∷ [] else [])
    ++ (if is_cons c.success_criteria then [] else no_success_criteria ∷ [])
    ++ evidence_problems c.task_class c.required_evidence
