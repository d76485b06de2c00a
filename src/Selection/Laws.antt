-- ===== src/Selection/Laws.antt =====
-- When a task class is routed by the data.
use mathlib.Core.Logic.{⊎_map}
use ai_system_canonical.Prelude.{
  ℕ, ◌≡◌, ◌≤◌, ◌⊎◌, ◌↔◌, refl, String, Bool, true, false, Option, none, some, [], ◌∷◌, ◌++◌,
  last-append, eq_iff, arith, inl, inr,
}
use ai_system_canonical.Prelude.Act.{returns, pure, modify, gets, ◌>>=◌}
use ai_system_canonical.Prelude.Floats.{Floats}
use ai_system_canonical.Memory.{Table, system, has_id, all}
use ai_system_canonical.Memory.Laws.{all-append, put-new}
use ai_system_canonical.Selection.{
  Mode, static, data_driven, WeightSet, Why, Decision, Codec, Controller, kept_row, keep, of_kind,
  latest, weights_for, mode, regressed, weighed, evaluate, emit, keep_decision, promote, demotion,
  demote,
}

module _ (N : Floats) where
  open N use {Float, decimal, lt}

  of_kind-append :
      (kind task_class : String) (xs ys : Table N)
      → of_kind N kind task_class (xs ++ ys)
        ≡ of_kind N kind task_class xs ++ of_kind N kind task_class ys
  unfolding of_kind
  of_kind-append kind task_class [] ys = refl
  of_kind-append kind task_class (x ∷ xs) ys = ground (arith, of_kind-append kind task_class xs ys)

  only_one :
      (kind task_class content new_id : String) (now : Float)
      → of_kind N kind task_class
          (all N (some system) false (kept_row N kind task_class content new_id now ∷ []))
        ≡ kept_row N kind task_class content new_id now ∷ []
  unfolding of_kind all
  only_one kind task_class content new_id now =
      rw ((eq_iff kind kind).1 refl, (eq_iff task_class task_class).1 refl) refl

  latest-kept :
      (kind task_class content new_id : String) (now : Float) (rows : Table N)
      → latest N kind task_class (rows ++ kept_row N kind task_class content new_id now ∷ [])
        ≡ some content
  unfolding latest
  latest-kept kind task_class content new_id now rows =
      let m = kept_row N kind task_class content new_id now in
      rw
        (
          all-append N (some system) false rows (m ∷ []),
          of_kind-append kind task_class (all N (some system) false rows)
              (all N (some system) false (m ∷ [])),
          only_one kind task_class content new_id now,
          last-append (of_kind N kind task_class (all N (some system) false rows)) m,
        )
        refl

  keep-runs :
      (kind task_class content new_id : String) (now : Float) (s : Controller N)
      → has_id N new_id s.memory ≡ false
      → keep N kind task_class content new_id now s ≡ (
        returns tt,
        record s { memory = s.memory ++ kept_row N kind task_class content new_id now ∷ [] },
      )
  unfolding keep
  keep-runs kind task_class content new_id now s h =
      rw (put-new N (kept_row N kind task_class content new_id now) s.memory h) refl

  module _ (codec : Codec N) where
    -- What it takes to route by the data, read off the memory.
    pub record IsJustified (task_class : String) (eligible : ℕ) (check : Option Bool)
        (rows : Table N) : Type 0 where
      pub weights : WeightSet Float
      pub has_weights : weights_for N codec task_class rows ≡ some weights
      pub two_models : 2 ≤ eligible
      pub forty_runs : 40 ≤ weights.n_train
      pub not_degenerate : weights.degenerate ≡ false
      pub accurate : lt weights.val_accuracy (decimal 65 2) ≡ false
      pub not_regressed : regressed N codec check ≡ false

    weighed-justifies :
        (task_class : String) (eligible : ℕ) (check : Option Bool) (rows : Table N)
        (o : Option (WeightSet Float))
        → weights_for N codec task_class rows ≡ o
        → (evaluate N codec task_class eligible check rows).mode ≡ data_driven
        → IsJustified task_class eligible check rows
    unfolding evaluate weighed
    weighed-justifies task_class eligible check rows none e h = absurd (ground arith)
    weighed-justifies task_class eligible check rows (some ws) e h = record {
      weights = ws;
      has_weights = e;
      two_models = ground arith;
      forty_runs = ground arith;
      not_degenerate = ground arith;
      accurate = ground arith;
      not_regressed = ground arith;
    }

    justified-drives :
        (task_class : String) (eligible : ℕ) (check : Option Bool) (rows : Table N)
        → IsJustified task_class eligible check rows
        → (evaluate N codec task_class eligible check rows).mode ≡ data_driven
    unfolding evaluate weighed
    justified-drives task_class eligible check rows j = ground arith

    emit-memory :
        (logged : Bool) (task_id task_class : String) (d : Decision Float) (s : Controller N)
        → ((emit N codec logged task_id task_class d s).0 ≡ returns tt)
          × ((emit N codec logged task_id task_class d s).1.memory ≡ s.memory)
    unfolding emit pure modify
    emit-memory true task_id task_class d s = (refl, refl)
    emit-memory false task_id task_class d s = (refl, refl)

    -- the table once a decision is kept
    abbrev after_decision : String → Decision Float → Mode → String → Float → Table N → Table N
    after_decision task_class d static new_id now rows = rows
    after_decision task_class d data_driven new_id now rows =
        rows ++ kept_row N "selection_mode" task_class (codec.dump_mode d) new_id now ∷ []

    kept_as :
        (m : Mode) (w : Why Float) (task_class new_id : String) (now : Float) (s : Controller N)
        → has_id N new_id s.memory ≡ false
        → let d : Decision Float = record { mode = m; why = w } in
          keep_decision N codec task_class d new_id now s
          ≡ (returns tt, record s { memory = after_decision task_class d m new_id now s.memory })
    unfolding keep_decision pure
    kept_as static w task_class new_id now s h = refl
    kept_as data_driven w task_class new_id now s h =
        keep-runs "selection_mode" task_class _ new_id now s h

    decision_kept :
        (d : Decision Float) (task_class new_id : String) (now : Float) (s : Controller N)
        → has_id N new_id s.memory ≡ false
        → keep_decision N codec task_class d new_id now s ≡ (
          returns tt,
          record s { memory = after_decision task_class d d.mode new_id now s.memory },
        )
    decision_kept d task_class new_id now s h = kept_as d.mode d.why task_class new_id now s h

    mode_kept :
        (task_class : String) (d : Decision Float) (new_id : String) (now : Float) (rows : Table N)
        → codec.load_mode (codec.dump_mode d) ≡ some d.mode
        → mode N codec task_class
            (rows ++ kept_row N "selection_mode" task_class (codec.dump_mode d) new_id now ∷ [])
          ≡ d.mode
    unfolding mode
    mode_kept task_class d new_id now rows reads =
        rw (latest-kept "selection_mode" task_class (codec.dump_mode d) new_id now rows, reads) refl

    moved_to :
        (m : Mode) (w : Why Float) (task_class new_id : String) (now : Float) (rows : Table N)
        → let d : Decision Float = record { mode = m; why = w } in
          codec.load_mode (codec.dump_mode d) ≡ some m
          → (mode N codec task_class (after_decision task_class d m new_id now rows) ≡ data_driven)
            ↔ ((m ≡ data_driven) ⊎ (mode N codec task_class rows ≡ data_driven))
    moved_to static w task_class new_id now rows reads = (inr, only_before)
      where
        only_before :
            (static ≡ data_driven) ⊎ (mode N codec task_class rows ≡ data_driven)
            → mode N codec task_class rows ≡ data_driven
        only_before (inl e) = absurd (ground arith)
        only_before (inr e) = e
    moved_to data_driven w task_class new_id now rows reads =
        (λ _. inl refl, λ _. mode_kept task_class _ new_id now rows reads)

    module _ (task_class : String) (eligible : ℕ) (check : Option Bool) (logged : Bool)
        (task_id new_id : String) (now : Float) (s : Controller N)
        (fresh : has_id N new_id s.memory ≡ false) where
      abbrev decided : Decision Float
      decided = evaluate N codec task_class eligible check s.memory

      abbrev kept : Table N
      kept = after_decision task_class decided decided.mode new_id now s.memory

      promote-runs :
          ((promote N codec task_class eligible check logged task_id new_id now s).0
            ≡ returns decided)
          × ((promote N codec task_class eligible check logged task_id new_id now s).1.memory
              ≡ kept)
      unfolding promote pure gets ◌>>=◌
      promote-runs =
          let t = record s { memory = kept } in
          let (done, same) = emit-memory logged task_id task_class decided t in
          rw (decision_kept decided task_class new_id now s fresh, done) (refl, same)

      -- `promote` with an id that is new to the memory returns the decision of `evaluate`. The task class
      -- is routed by the data after it exactly if it was before, or if two models are eligible, a weight
      -- set is stored that is not degenerate, comes of at least 40 runs and is not below 0.65 of accuracy,
      -- and no regression check failed; where a decision's mode reads back as it was written.
      pub promote-mode :
          codec.load_mode (codec.dump_mode decided) ≡ some decided.mode
          → ((promote N codec task_class eligible check logged task_id new_id now s).0
              ≡ returns decided)
            × ((mode N codec task_class
                    (promote N codec task_class eligible check logged task_id new_id now s).1.memory
                  ≡ data_driven)
                ↔ (IsJustified task_class eligible check s.memory
                    ⊎ (mode N codec task_class s.memory ≡ data_driven)))
      promote-mode reads =
          let (done, same) = promote-runs in
          let (left, right) =
            moved_to decided.mode decided.why task_class new_id now s.memory reads in
          rw same (
            done,
            (
              λ h.
                  ⊎_map (weighed-justifies task_class eligible check s.memory _ refl) (λ e. e)
                    (left h),
              λ h. right (⊎_map (justified-drives task_class eligible check s.memory) (λ e. e) h),
            ),
          )

    -- `demote` with an id that is new to the memory returns, and leaves the task class routed by the
    -- static table, whatever was decided before; where the mode of the demotion reads back as written.
    pub demote-mode :
        (task_class reason : String) (logged : Bool) (task_id new_id : String) (now : Float)
        (s : Controller N)
        → has_id N new_id s.memory ≡ false
        → codec.load_mode (codec.dump_mode (demotion N codec reason)) ≡ some static
        → ((demote N codec task_class reason logged task_id new_id now s).0 ≡ returns tt)
          × (mode N codec task_class
                (demote N codec task_class reason logged task_id new_id now s).1.memory
              ≡ static)
    unfolding demote ◌>>=◌
    demote-mode task_class reason logged task_id new_id now s fresh reads =
        let d = demotion N codec reason in
        let row = kept_row N "selection_mode" task_class (codec.dump_mode d) new_id now in
        let t = record s { memory = s.memory ++ row ∷ [] } in
        let (done, same) = emit-memory logged task_id task_class d t in
        rw (keep-runs "selection_mode" task_class (codec.dump_mode d) new_id now s fresh, same)
          (done, mode_kept task_class d new_id now s.memory reads)
