-- ===== src/Selection.antt =====
-- nexus/app/services/routing/selection.py: when the routing of a task class follows the data.

pub mod Laws
use ai_system_canonical.Prelude.{
  ℕ, String, Bool, true, false, Option, none, some, List, [], ◌∷◌, ◌++◌, ◌&&◌, ◌||◌, ltb, not,
  last?, length, str_eq, if◌then◌else◌,
}
use ai_system_canonical.Prelude.Act as Methods
use ai_system_canonical.Prelude.Act.{Outcome, returns, throws, pure, modify, gets, ◌>>=◌, ◌>>◌}
use ai_system_canonical.Prelude.Floats.{Floats}
use ai_system_canonical.Memory.{MemoryError, MemoryRecord, Table, system, put, all, content_of}

pub data Mode : Type 0 where
  static data_driven : Mode

-- `WeightSet`, less the weights themselves, which this code only hands on
pub record WeightSet (F : Type 0) : Type 0 where
  pub task_class : String
  pub n_train : ℕ
  pub val_accuracy : F
  pub degenerate : Bool

-- The reasons of `evaluate`, each with what its text quotes, and that of a demotion.
pub data Why (F : Type 0) : Type 0 where
  few_models : ℕ → Why F
  no_weights : Why F
  weak_weights : ℕ → Bool → Why F
  low_accuracy : F → Why F
  guardrail : Why F
  justified_by : ℕ → ℕ → F → Why F
  demoted_for : String → Why F

pub record Decision (F : Type 0) : Type 0 where
  pub mode : Mode
  pub why : Why F

-- the payload of a SELECTION event
pub record Selected (F : Type 0) : Type 0 where
  pub task_id : String
  pub task_class : String
  pub decision : Decision F
  pub n_train : ℕ
  pub val_accuracy : F

abbrev pub min_eligible_models : ℕ
min_eligible_models = 2

abbrev pub min_train : ℕ
min_train = 40

module _ (N : Floats) where
  open N use {Float, of_nat, decimal, lt}

  -- The texts of payloads: `json.dumps` of each, and what is read back from one, if anything.
  pub record Codec : Type 0 where
    pub dump_mode : Decision Float → String
    pub load_mode : String → Option Mode
    pub dump_weights : WeightSet Float → String
    pub load_weights : String → Option (WeightSet Float)

  -- the controller's memory, with the SELECTION events of the log that it is given
  pub record Controller : Type 0 where
    pub memory : Table N
    pub selections : List (Selected Float)

  abbrev pub Act : Type 0 → Type 0
  Act A = Methods.Act MemoryError Controller A

  -- The row of `_put`, with the id and the time that it draws.
  abbrev pub kept_row : String → String → String → String → Float → MemoryRecord N
  kept_row kind task_class content new_id now = record {
    id = new_id;
    task_id = "";
    tier = system;
    kind = kind;
    content = content;
    scope = task_class;
    trust = "workspace";
    version = 1;
    ts = now;
    superseded_by = none;
  }

  abbrev pub settled : Outcome MemoryError (MemoryRecord N) → Act (Unit {0})
  settled (returns m) s = (returns tt, s)
  settled (throws x) s = (throws x, s)

  -- `_put`
  unfoldable pub keep : String → String → String → String → Float → Act (Unit {0})
  keep kind task_class content new_id now s =
      let (o, rows) = put N (kept_row kind task_class content new_id now) s.memory in
      settled o (record s { memory = rows })

  unfoldable pub of_kind : String → String → Table N → Table N
  of_kind kind task_class [] = []
  of_kind kind task_class (m ∷ rows) =
      let rest = of_kind kind task_class rows in
      if str_eq m.kind kind && str_eq m.scope task_class then m ∷ rest else rest

  -- `_latest`, before `json.loads`
  unfoldable pub latest : String → String → Table N → Option String
  unfolding of_kind
  latest kind task_class rows =
      content_of N (last? (of_kind kind task_class (all N (some system) false rows)))

  module _ (codec : Codec) where
    abbrev pub weights_in : Option String → Option (WeightSet Float)
    weights_in none = none
    weights_in (some text) = codec.load_weights text

    -- `weights_for`
    unfoldable pub weights_for : String → Table N → Option (WeightSet Float)
    unfolding latest
    weights_for task_class rows = weights_in (latest "weight_set" task_class rows)

    abbrev pub or_static : Option Mode → Mode
    or_static none = static
    or_static (some m) = m

    abbrev pub mode_in : Option String → Mode
    mode_in none = static
    mode_in (some text) = or_static (codec.load_mode text)

    -- `mode`
    unfoldable pub mode : String → Table N → Mode
    unfolding latest
    mode task_class rows = mode_in (latest "selection_mode" task_class rows)

    -- `set_weights`
    unfoldable pub set_weights : WeightSet Float → String → Float → Act (Unit {0})
    unfolding keep
    set_weights ws new_id now = keep "weight_set" ws.task_class (codec.dump_weights ws) new_id now

    abbrev pub stays : Why Float → Decision Float
    stays why = record { mode = static; why = why }

    -- a regression check that was asked for and did not pass
    abbrev pub regressed : Option Bool → Bool
    regressed none = false
    regressed (some passed) = not passed

    -- the tests of a weight set
    unfoldable pub weighed : ℕ → WeightSet Float → Option Bool → Decision Float
    weighed eligible ws check =
        if ws.degenerate || ltb ws.n_train min_train
        then stays (weak_weights ws.n_train ws.degenerate)
        else if lt ws.val_accuracy (decimal 65 2)
        then stays (low_accuracy ws.val_accuracy)
        else if regressed check
        then stays guardrail
        else record { mode = data_driven; why = justified_by eligible ws.n_train ws.val_accuracy }

    -- `evaluate`, given the number of models that the statistics find eligible
    unfoldable pub evaluate : String → ℕ → Option Bool → Table N → Decision Float
    unfolding weights_for weighed
    evaluate task_class eligible check rows =
        if ltb eligible min_eligible_models
        then stays (few_models eligible)
        else elim (weights_for task_class rows) [
          | none ↦ stays no_weights
          | some ws ↦ weighed eligible ws check
        ]

    abbrev pub event_of :
        String → String → Decision Float → Option (WeightSet Float) → Selected Float
    event_of task_id task_class d none = record {
      task_id = task_id;
      task_class = task_class;
      decision = d;
      n_train = 0;
      val_accuracy = of_nat 0;
    }
    event_of task_id task_class d (some ws) = record {
      task_id = task_id;
      task_class = task_class;
      decision = d;
      n_train = ws.n_train;
      val_accuracy = ws.val_accuracy;
    }

    -- `_emit`
    unfoldable pub emit : Bool → String → String → Decision Float → Act (Unit {0})
    unfolding weights_for
    emit false task_id task_class d = pure tt
    emit true task_id task_class d = modify (λ (s : Controller). record s {
      selections =
          s.selections ++ event_of task_id task_class d (weights_for task_class s.memory) ∷ [];
    })

    -- what `promote` keeps of a decision
    unfoldable pub keep_decision : String → Decision Float → String → Float → Act (Unit {0})
    unfolding keep
    keep_decision task_class d new_id now = elim d.mode [
      | static ↦ pure tt
      | data_driven ↦ keep "selection_mode" task_class (codec.dump_mode d) new_id now
    ]

    -- `promote`
    unfoldable pub promote :
        String → ℕ → Option Bool → Bool → String → String → Float → Act (Decision Float)
    unfolding evaluate emit keep_decision
    promote task_class eligible check logged task_id new_id now = do
      d ← gets (λ (s : Controller). evaluate task_class eligible check s.memory)
      keep_decision task_class d new_id now
      emit logged task_id task_class d
      pure d

    abbrev pub demotion : String → Decision Float
    demotion reason = stays (demoted_for reason)

    -- `demote`
    unfoldable pub demote : String → String → Bool → String → String → Float → Act (Unit {0})
    unfolding emit keep
    demote task_class reason logged task_id new_id now = do
      keep "selection_mode" task_class (codec.dump_mode (demotion reason)) new_id now
      emit logged task_id task_class (demotion reason)
