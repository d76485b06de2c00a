-- ===== src/Tests/Recall.antt =====
-- The theorems on the memory and on what it keeps of the roles, at concrete inputs.
use mathlib.Core.List.{Memᴰ}
use mathlib.Core.List.Memᴰ.{head, tail}
use ai_system_canonical.Prelude.{
  ℕ, ◌≡◌, refl, String, Option, none, some, List, [], ◌∷◌, ◌++◌, true, false, str_eq, ◌==◌,
  if◌then◌else◌,
}
use ai_system_canonical.Prelude.Act.{returns}
use ai_system_canonical.Memory.{
  MemoryTier, MemoryRecord, Table, project, system, all, supersede, role_perf,
}
use ai_system_canonical.Memory.Laws.{versioned, others, ids, shown, supersede-live}
use ai_system_canonical.Memory.Kept.{supersedes, drops, perform_all, perform_all-live}
use ai_system_canonical.Memory.Performance.{
  RolePerformance, RolePerformanceStore, Run, empty, folded, get_or_new, record_run,
}
use ai_system_canonical.Memory.Restart.{restarted, record_run-get_or_new}
use ai_system_canonical.Tests.Learning.{fixed}

abbrev note : String → String → MemoryRecord fixed
note id content = record {
  id = id;
  task_id = "t";
  tier = project;
  kind = "decision";
  content = content;
  scope = "global";
  trust = "workspace";
  version = 1;
  ts = 0;
  superseded_by = none;
}

abbrev notes : Table fixed
notes = note "m1" "use tabs" ∷ note "m2" "use mypy" ∷ []

supersede-live_example :
    ((supersede fixed "m1" (note "m3" "use spaces") notes).0
      ≡ returns (versioned fixed "m1" (note "m3" "use spaces") notes))
    × (all fixed (some project) false (supersede fixed "m1" (note "m3" "use spaces") notes).1
        ≡ others fixed "m1" (all fixed (some project) false notes)
          ++ shown fixed (some project) (versioned fixed "m1" (note "m3" "use spaces") notes))
    × (ids fixed (supersede fixed "m1" (note "m3" "use spaces") notes).1
        ≡ ids fixed notes ++ "m3" ∷ [])
unfolding ai_system_canonical.Memory.has_id
supersede-live_example =
    supersede-live fixed (some project) "m1" (note "m3" "use spaces") notes refl refl refl

perform_all-live_example : Memᴰ (note "m2" "use mypy") (
    all fixed none false
      (perform_all fixed (supersedes "m1" (note "m3" "use spaces") ∷ drops 99999999 ∷ []) notes))
unfolding all
perform_all-live_example =
    perform_all-live fixed none (supersedes "m1" (note "m3" "use spaces") ∷ drops 99999999 ∷ [])
      (note "m2" "use mypy") notes refl (tail (head refl))

-- a run that the critic won
abbrev won : Run ℕ
won = record {
  baseline_pass = false;
  with_role_pass = true;
  defect_caught = true;
  rework_delta = 0;
}

abbrev one_run : RolePerformance ℕ
one_run = folded fixed (empty fixed "critic" "bugfix") won

-- two values of a role, and the texts that stand for them
abbrev dumps : RolePerformance ℕ → String
dumps rp = if rp.samples == 1 then "one run" else "no run"

abbrev loads : String → Option (RolePerformance ℕ)
loads text = if str_eq text "one run" then some one_run else some (empty fixed "critic" "bugfix")

abbrev fresh_store : RolePerformanceStore fixed
fresh_store = record { by_key = []; memory = some [] }

record_run-get_or_new_example :
    ((record_run fixed dumps loads "critic" "bugfix" won "m1" 7 fresh_store).0 ≡ returns one_run)
    × ((get_or_new fixed dumps loads "critic" "bugfix" (
          restarted fixed
            (record_run fixed dumps loads "critic" "bugfix" won "m1" 7 fresh_store).1)).0
        ≡ returns one_run)
unfolding folded ai_system_canonical.Memory.has_id get_or_new ai_system_canonical.Prelude.Act.◌>>=◌
    ai_system_canonical.Prelude.Act.gets ai_system_canonical.Prelude.Act.on_option
    ai_system_canonical.Memory.latest_role_perf ai_system_canonical.Prelude.Act.pure
    ai_system_canonical.Prelude.Act.modify
record_run-get_or_new_example =
    record_run-get_or_new fixed dumps loads "critic" "bugfix" won "m1" 7 fresh_store []
      (empty fixed "critic" "bugfix") refl refl refl refl
