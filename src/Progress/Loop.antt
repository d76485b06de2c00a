-- ===== src/Progress/Loop.antt =====
-- nexus/app/services/progress/loop.py: the structural loop detector. The action hash and the error
-- signature of a step are texts; the ratio of difflib's SequenceMatcher is a parameter, as the test
-- that it reaches the similarity threshold.
pub mod Laws
use Prim.Native.Nat.{max}
use ai_system_canonical.Prelude.{
  ℕ, suc, ◌+◌, ◌-◌, String, Bool, true, false, Option, none, some, List, [], ◌∷◌, ◌++◌, ◌&&◌, ◌||◌,
  not, is_cons, last?, length, drop, all, leb, ◌==◌, str_eq, if◌then◌else◌,
}
use ai_system_canonical.Prelude.Text.{is_blank, is_empty}

pub record LoopDetector : Type 0 where
  pub repeat_window : ℕ
  pub repeat_threshold : ℕ
  pub error_threshold : ℕ
  pub thrash_threshold : ℕ
  pub hashes : List String
  pub errors : List String
  pub last_diff : Option String
  pub thrash_run : ℕ

abbrev pub new_detector : LoopDetector
new_detector = record {
  repeat_window = 5;
  repeat_threshold = 3;
  error_threshold = 3;
  thrash_threshold = 3;
  hashes = [];
  errors = [];
  last_diff = none;
  thrash_run = 0;
}

pub data LoopFlag : Type 0 where
  repeated_action repeated_error diff_thrash : LoopFlag

pub record LoopReport : Type 0 where
  pub risk : Bool
  pub flags : List LoopFlag

-- xs[-n:]
unfoldable pub last_n {ℓ} : {A : Type ℓ} → ℕ → List A → List A
last_n n xs = if n == 0 then xs else drop (length xs - n) xs

unfoldable pub count_str : String → List String → ℕ
count_str s [] = 0
count_str s (x ∷ xs) = let n = count_str s xs in if str_eq x s then suc n else n

-- recent and recent.count(recent[-1]) >= threshold
unfoldable pub repeats : ℕ → List String → Bool
repeats threshold recent = elim (last? recent) [
  | none ↦ false
  | some h ↦ leb threshold (count_str h recent)
]

-- len(set(xs)) == 1
unfoldable pub all_same : List String → Bool
all_same [] = false
all_same (x ∷ xs) = all (λ y. str_eq y x) xs

flag_if : Bool → LoopFlag → List LoopFlag
flag_if b f = if b then f ∷ [] else []

unfoldable pub report : LoopDetector → LoopReport
unfolding flag_if
report d =
    let flags =
      flag_if (repeats d.repeat_threshold (last_n d.repeat_window d.hashes)) repeated_action
      ++ flag_if
          (leb d.error_threshold (length d.errors) && all_same (last_n d.error_threshold d.errors))
          repeated_error
      ++ flag_if (leb (max 1 (d.thrash_threshold - 1)) d.thrash_run) diff_thrash in
    record { risk = is_cons flags; flags = flags }

module _ (similar : String → String → Bool) where
  -- diff_similarity(a, b) >= thrash_similarity
  near_identical : String → String → Bool
  near_identical a b = (is_blank a && is_blank b) || similar a b

  next_run : LoopDetector → String → ℕ
  unfolding near_identical
  next_run d diff = elim d.last_diff [
    | none ↦ d.thrash_run
    | some last ↦
        if is_blank diff
        then d.thrash_run
        else if near_identical last diff
        then d.thrash_run + 1
        else 0
  ]

  next_errors : List String → Option String → List String
  next_errors errors none = []
  next_errors errors (some e) = if is_empty e then [] else errors ++ e ∷ []

  -- the state that `record` leaves
  unfoldable pub recorded : LoopDetector → String → Option String → String → Bool → LoopDetector
  unfolding next_run next_errors
  recorded d act_hash error_signature diff made_progress =
      if made_progress
      then record d { hashes = []; errors = []; last_diff = some diff; thrash_run = 0 }
      else record d {
        hashes = d.hashes ++ act_hash ∷ [];
        errors = next_errors d.errors error_signature;
        last_diff = some diff;
        thrash_run = next_run d diff;
      }

  -- `record`, which is a reserved word
  unfoldable pub record_step :
      LoopDetector → String → Option String → String → Bool → LoopDetector × LoopReport
  unfolding recorded
  record_step d act_hash error_signature diff made_progress =
      let d' = recorded d act_hash error_signature diff made_progress in
      (d', if made_progress then record { risk = false; flags = [] } else report d')
