-- ===== src/Hardware.antt =====
-- nexus/app/services/hardware/modes.py: the mode of a machine by its sensors. Temperatures and
-- percentages are counted in tenths.
use ai_system_canonical.Prelude.{
  ℕ, ◌≤◌, ◌≡◌, Bool, true, false, Option, none, some, ◌&&◌, ◌||◌, not, leb, arith, if◌then◌else◌,
}

pub data HardwareMode : Type 0 where
  normal efficient conservation protective emergency : HardwareMode

-- what the decision reads of a snapshot
pub record HardwareSnapshot : Type 0 where
  pub gpu_temp_c : Option ℕ
  pub ram_percent : Option ℕ
  pub gpu_percent : Option ℕ

-- x is not None and x >= threshold; a percentage that is missing counts as 0
unfoldable pub at_threshold : ℕ → Option ℕ → Bool
at_threshold k none = false
at_threshold k (some c) = leb k c

unfoldable pub mode_of : HardwareSnapshot → Bool → HardwareMode
unfolding at_threshold
mode_of s progress_good =
    if at_threshold 900 s.gpu_temp_c
    then emergency
    else if at_threshold 850 s.gpu_temp_c
    then protective
    else if at_threshold 800 s.gpu_temp_c
        || at_threshold 920 s.ram_percent
        || (at_threshold 950 s.gpu_percent && not progress_good)
    then conservation
    else if at_threshold 750 s.gpu_percent || at_threshold 800 s.ram_percent
    then efficient
    else normal

-- _ORDER.index
unfoldable pub order : HardwareMode → ℕ
order normal = 0
order efficient = 1
order conservation = 2
order protective = 3
order emergency = 4

unfoldable pub at_least : HardwareMode → HardwareMode → Bool
unfolding order
at_least m floor = leb (order floor) (order m)

unfoldable pub biases_local : HardwareMode → Bool
biases_local conservation = true
biases_local protective = true
biases_local emergency = true
biases_local _ = false

unfoldable pub should_pause : HardwareMode → Bool
should_pause emergency = true
should_pause _ = false

-- no sensor of the first reads more than the same sensor of the second
abbrev pub IsBelow : Option ℕ → Option ℕ → Type 0
IsBelow none o = Unit
IsBelow (some a) none = ⊥
IsBelow (some a) (some b) = a ≤ b

threshold_kept :
    (k : ℕ) (o o' : Option ℕ) → IsBelow o o' → at_threshold k o ≡ true → at_threshold k o' ≡ true
unfolding at_threshold
threshold_kept k none o' h e = cc
threshold_kept k (some a) none h e = absurd h
threshold_kept k (some a) (some b) h e = ground arith

-- Where every sensor reads at least as much and the task does no better, the mode is at least as strict.
pub mode_of_mono :
    (s s' : HardwareSnapshot) (good good' : Bool)
    → IsBelow s.gpu_temp_c s'.gpu_temp_c
    → IsBelow s.ram_percent s'.ram_percent
    → IsBelow s.gpu_percent s'.gpu_percent
    → (good' ≡ true → good ≡ true)
    → at_least (mode_of s' good') (mode_of s good) ≡ true
unfolding mode_of at_least order
mode_of_mono s s' good good' t r g p = ground (
  arith,
  threshold_kept 900 s.gpu_temp_c s'.gpu_temp_c t,
  threshold_kept 850 s.gpu_temp_c s'.gpu_temp_c t,
  threshold_kept 800 s.gpu_temp_c s'.gpu_temp_c t,
  threshold_kept 920 s.ram_percent s'.ram_percent r,
  threshold_kept 800 s.ram_percent s'.ram_percent r,
  threshold_kept 950 s.gpu_percent s'.gpu_percent g,
  threshold_kept 750 s.gpu_percent s'.gpu_percent g,
  p,
)
