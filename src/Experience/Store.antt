-- ===== src/Experience/Store.antt =====
-- nexus/app/services/experience/store.py: the table of experiences and the operations on it.
use ai_system_canonical.Prelude.{
  String, Bool, Option, none, some, List, [], ◌∷◌, ◌++◌, ◌&&◌, ◌||◌, map, any, str_eq,
  if◌then◌else◌,
}
use ai_system_canonical.Prelude.Act as Methods
use ai_system_canonical.Prelude.Act.{pure, throw, on_option, modify, gets, ◌>>=◌, ◌>>◌}
use ai_system_canonical.Experience.{
  ExperienceRecord, ExperienceState, promoted, monitored, quarantined, Why, can_transition,
  state_eq,
}
use ai_system_canonical.Experience.Signature.{signatures_match}

-- what the operations raise: KeyError, ValueError, and the table's IntegrityError on a repeated id
pub data StoreError : Type 0 where
  key_error : String → StoreError
  not_allowed : ExperienceState → ExperienceState → StoreError
  integrity_error : String → StoreError

-- a row of `experience`: its payload, with the columns that queries read
pub record Row (F : Type 0) : Type 0 where
  pub id : String
  pub signature : String
  pub strategy : String
  pub state : ExperienceState
  pub payload : ExperienceRecord F

-- the rows, by `seq`
abbrev pub Table : Type 0 → Type 0
Table F = List (Row F)

abbrev pub Act : Type 0 → Type 0 → Type 0
Act F A = Methods.Act StoreError (Table F) A

abbrev pub is_live : ExperienceState → Bool
is_live s = state_eq s promoted || state_eq s monitored

module _ {F : Type 0} where
  -- SELECT … WHERE id=?
  unfoldable pub find : String → Table F → Option (ExperienceRecord F)
  find exp_id [] = none
  find exp_id (r ∷ rows) = if str_eq r.id exp_id then some r.payload else find exp_id rows

  unfoldable pub represented : String → String → Table F → Bool
  represented signature strategy rows =
      any (λ (r : Row F). str_eq r.signature signature && str_eq r.strategy strategy) rows

  -- SELECT … WHERE state IN … ORDER BY seq
  unfoldable pub by_states : (ExperienceState → Bool) → Table F → List (ExperienceRecord F)
  by_states wanted [] = []
  by_states wanted (r ∷ rows) =
      let rest = by_states wanted rows in if wanted r.state then r.payload ∷ rest else rest

  abbrev pub row_of : ExperienceRecord F → Row F
  row_of exp = record {
    id = exp.id;
    signature = exp.signature;
    strategy = exp.strategy;
    state = exp.validation_state;
    payload = exp;
  }

  unfoldable pub has_id : String → Table F → Bool
  has_id exp_id rows = any (λ (r : Row F). str_eq r.id exp_id) rows

  -- `_insert`
  unfoldable pub insert : ExperienceRecord F → Act F (Unit {0})
  unfolding has_id
  insert exp rows =
      if has_id exp.id rows
      then throw (integrity_error exp.id) rows
      else modify (λ rs. rs ++ row_of exp ∷ []) rows

  abbrev pub updated : ExperienceRecord F → Row F → Row F
  updated exp r =
      if str_eq r.id exp.id then record r { state = exp.validation_state; payload = exp } else r

  -- `_update`
  unfoldable pub update : ExperienceRecord F → Act F (Unit {0})
  update exp = modify (map (updated exp))

  -- `exp = self.get(exp_id)`, and KeyError where there is none
  unfoldable pub get : String → Act F (ExperienceRecord F)
  get exp_id = gets (find exp_id) >>= λ o. on_option o (throw (key_error exp_id)) pure

  -- `retrieve`, at its default states
  unfoldable pub matching : String → List (ExperienceRecord F) → List (ExperienceRecord F)
  matching signature [] = []
  matching signature (exp ∷ exps) =
      let rest = matching signature exps in
      if state_eq exp.validation_state quarantined
      then rest
      else if signatures_match exp.signature signature
      then exp ∷ rest
      else rest

  unfoldable pub retrieve : String → Table F → List (ExperienceRecord F)
  unfolding by_states matching
  retrieve signature rows = matching signature (by_states is_live rows)

  abbrev pub move_to : ExperienceState → Why → ExperienceRecord F → ExperienceRecord F
  move_to target why exp = record exp {
    promotion_history =
        exp.promotion_history
        ++ record { source = exp.validation_state; target = target; why = why } ∷ [];
    validation_state = target;
  }

  -- `advance`
  unfoldable pub advance : String → ExperienceState → Why → Act F (ExperienceRecord F)
  advance exp_id target why = do
    exp ← get exp_id
    if can_transition exp.validation_state target
        then update (move_to target why exp) >> pure (move_to target why exp)
        else throw (not_allowed exp.validation_state target)
