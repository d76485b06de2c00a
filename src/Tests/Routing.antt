-- ===== src/Tests/Routing.antt =====
-- The theorem on the selection of models at concrete inputs.
use ai_system_canonical.Prelude.{
  ℕ, ◌≡◌, ◌⊎◌, ◌↔◌, refl, String, none, some, [], ◌∷◌, true, false, str_eq, if◌then◌else◌,
}
use ai_system_canonical.Prelude.Act.{returns}
use ai_system_canonical.Selection.{
  Mode, static, data_driven, WeightSet, Codec, Controller, kept_row, mode, evaluate, promote,
}
use ai_system_canonical.Selection.Laws.{IsJustified, promote-mode}
use ai_system_canonical.Tests.Learning.{fixed}

-- a good weight set
abbrev fitted : WeightSet ℕ
fitted = record { task_class = "bugfix"; n_train = 55; val_accuracy = 7000; degenerate = false }

abbrev mode_text : Mode → String
mode_text static = "static"
mode_text data_driven = "data_driven"

abbrev codec : Codec fixed
codec = record {
  dump_mode = λ d. mode_text d.mode;
  load_mode = λ text. if str_eq text "static" then some static else some data_driven;
  dump_weights = λ _. "fitted";
  load_weights = λ text. if str_eq text "fitted" then some fitted else none;
}

abbrev stored : Controller fixed
stored = record {
  memory = kept_row fixed "weight_set" "bugfix" "fitted" "m1" 5 ∷ [];
  selections = [];
}

promote-mode_example :
    ((promote fixed codec "bugfix" 2 (some true) true "t1" "m2" 7 stored).0
      ≡ returns (evaluate fixed codec "bugfix" 2 (some true) stored.memory))
    × ((mode fixed codec "bugfix"
            (promote fixed codec "bugfix" 2 (some true) true "t1" "m2" 7 stored).1.memory
          ≡ data_driven)
        ↔ (IsJustified fixed codec "bugfix" 2 (some true) stored.memory
            ⊎ (mode fixed codec "bugfix" stored.memory ≡ data_driven)))
unfolding ai_system_canonical.Memory.has_id evaluate ai_system_canonical.Memory.all
promote-mode_example =
    promote-mode fixed codec "bugfix" 2 (some true) true "t1" "m2" 7 stored refl refl
