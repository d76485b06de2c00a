-- ===== src/Memory/Performance.antt =====
-- nexus/app/services/agents/performance.py: the outcomes of shadow runs by role and task class.
use ai_system_canonical.Prelude.{
  ℕ, String, Bool, true, false, Option, none, some, List, [], ◌∷◌, ◌++◌, ◌+◌, ◌&&◌, ◌||◌, ltb, map,
  str_eq, if◌then◌else◌,
}
use ai_system_canonical.Prelude.Act as Methods
use ai_system_canonical.Prelude.Act.{
  Outcome, returns, throws, pure, throw, modify, gets, on_option, ◌>>=◌, ◌>>◌,
}
use ai_system_canonical.Prelude.Floats.{Floats, ratio}
use ai_system_canonical.Memory.{
  MemoryError, MemoryRecord, Table, record_role_perf, latest_role_perf,
}

-- what the memory raises, and the refusal of a payload by `json.loads` or `model_validate`
pub data PerformanceError : Type 0 where
  memory_error : MemoryError → PerformanceError
  invalid : String → PerformanceError

pub record RolePerformance (F : Type 0) : Type 0 where
  pub role : String
  pub task_class : String
  pub samples : ℕ
  pub baseline_success : F
  pub with_role_success : F
  pub defects_caught : ℕ
  pub rework_delta : F

-- what `record` is told of a run
pub record Run (F : Type 0) : Type 0 where
  pub baseline_pass : Bool
  pub with_role_pass : Bool
  pub defect_caught : Bool
  pub rework_delta : F

-- an item of `_by_key`, with its key
pub record Entry (F : Type 0) : Type 0 where
  pub role : String
  pub task_class : String
  pub value : RolePerformance F

module _ (N : Floats) where
  open N use {Float, of_nat, decimal, add, sub, mul, div, le}

  pub record RolePerformanceStore : Type 0 where
    pub by_key : List (Entry Float)
    pub memory : Option (Table N)

  abbrev pub Act : Type 0 → Type 0
  Act A = Methods.Act PerformanceError RolePerformanceStore A

  abbrev pub is_at : String → String → Entry Float → Bool
  is_at role task_class e = str_eq e.role role && str_eq e.task_class task_class

  -- `get`
  unfoldable pub get : String → String → List (Entry Float) → Option (RolePerformance Float)
  get role task_class [] = none
  get role task_class (e ∷ es) =
      if is_at role task_class e then some e.value else get role task_class es

  -- an item that is changed in place
  abbrev pub set : String → String → RolePerformance Float → List (Entry Float) → List (Entry Float)
  set role task_class rp es =
      map (λ (e : Entry Float). if is_at role task_class e then record e { value = rp } else e) es

  abbrev pub empty : String → String → RolePerformance Float
  empty role task_class = record {
    role = role;
    task_class = task_class;
    samples = 0;
    baseline_success = of_nat 0;
    with_role_success = of_nat 0;
    defects_caught = 0;
    rework_delta = of_nat 0;
  }

  abbrev pub one_if : Bool → ℕ
  one_if true = 1
  one_if false = 0

  -- (mean * n + x) / (n + 1)
  abbrev pub averaged : Float → ℕ → Float → Float
  averaged mean n x = div (add (mul mean (of_nat n)) x) (of_nat (n + 1))

  unfoldable pub folded : RolePerformance Float → Run Float → RolePerformance Float
  folded rp run = record rp {
    baseline_success = averaged rp.baseline_success rp.samples (of_nat (one_if run.baseline_pass));
    with_role_success =
        averaged rp.with_role_success rp.samples (of_nat (one_if run.with_role_pass));
    rework_delta = averaged rp.rework_delta rp.samples run.rework_delta;
    defects_caught = rp.defects_caught + one_if run.defect_caught;
    samples = rp.samples + 1;
  }

  abbrev pub payload_of : String → String → Option (Table N) → Option String
  payload_of role task_class none = none
  payload_of role task_class (some rows) = latest_role_perf N role task_class rows

  abbrev pub put_back : Outcome MemoryError (MemoryRecord N) → Act (Unit {0})
  put_back (returns m) s = (returns tt, s)
  put_back (throws x) s = (throws (memory_error x), s)

  -- `dumps` is `json.dumps` of `model_dump`, and `loads` the `model_validate` of `json.loads`
  module _ (dumps : RolePerformance Float → String)
      (loads : String → Option (RolePerformance Float)) where
    -- `_get`
    unfoldable pub hydrated : String → String → Act (RolePerformance Float)
    hydrated role task_class = do
      payload ← gets (λ (s : RolePerformanceStore). payload_of role task_class s.memory)
      on_option payload (pure (empty role task_class))
          (λ (text : String). on_option (loads text) (throw (invalid text)) pure)

    abbrev pub keep_at :
        String → String → RolePerformance Float → RolePerformanceStore → RolePerformanceStore
    keep_at role task_class rp s = record s {
      by_key = s.by_key ++ record { role = role; task_class = task_class; value = rp } ∷ [];
    }

    unfoldable pub get_or_new : String → String → Act (RolePerformance Float)
    unfolding get hydrated
    get_or_new role task_class = do
      known ← gets (λ (s : RolePerformanceStore). get role task_class s.by_key)
      on_option known
          (do rp ← hydrated role task_class; modify (keep_at role task_class rp); pure rp) pure

    -- `_persist`, with the id and the time of the row
    unfoldable pub persist : RolePerformance Float → String → Float → Act (Unit {0})
    persist rp new_id now s = elim s.memory [
      | none ↦ (returns tt, s)
      | some rows ↦
          let (o, rows') = record_role_perf N rp.role rp.task_class (dumps rp) new_id now rows in
          put_back o (record s { memory = some rows' })
    ]

    -- what `record` does with the value of `_get`
    unfoldable pub counted :
        String
        → String
        → Run Float
        → String
        → Float
        → RolePerformance Float
        → Act (RolePerformance Float)
    unfolding folded persist
    counted role task_class run new_id now rp = do
      modify (λ (s : RolePerformanceStore). record s {
        by_key = set role task_class (folded rp run) s.by_key;
      })
      persist (folded rp run) new_id now
      pure (folded rp run)

    -- `record`
    unfoldable pub record_run :
        String → String → Run Float → String → Float → Act (RolePerformance Float)
    unfolding get_or_new counted
    record_run role task_class run new_id now =
        get_or_new role task_class >>= counted role task_class run new_id now

  -- The two bars: at least 5 points of success, or a defect in ten tasks
  abbrev pub earns : RolePerformance Float → Bool
  earns rp =
      le (decimal 5 2) (sub rp.with_role_success rp.baseline_success)
      || le (decimal 10 2) (ratio N rp.defects_caught rp.samples)

  -- `meets_promotion_criterion`
  unfoldable pub meets_promotion_criterion : String → String → List (Entry Float) → Bool
  unfolding get
  meets_promotion_criterion role task_class es = elim (get role task_class es) [
    | none ↦ false
    | some rp ↦ if ltb rp.samples 5 then false else earns rp
  ]
