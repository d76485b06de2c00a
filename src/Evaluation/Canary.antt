-- ===== src/Evaluation/Canary.antt =====
-- nexus/app/services/eval/canary.py: the account of a canary cohort.
use ai_system_canonical.Prelude.{ℕ, ◌+◌, String, Bool, true, false, ◌==◌, ltb, if◌then◌else◌}
use ai_system_canonical.Prelude.Floats.{Floats, ratio}

pub data CanaryVerdict : Type 0 where
  promote hold rollback : CanaryVerdict

pub record CanaryController (F : Type 0) : Type 0 where
  pub baseline_success : F
  pub fraction : F
  pub min_samples : ℕ
  pub max_drop_pp : F
  pub n : ℕ
  pub passed : ℕ
  pub done : Bool

abbrev pub is_final : CanaryVerdict → Bool
is_final hold = false
is_final _ = true

module _ (N : Floats) where
  open N use {Float, of_nat, sub, mul, lt, le}

  -- `_rate`
  unfoldable pub rate : CanaryController Float → Float
  rate c = if c.n == 0 then of_nat 1 else ratio N c.passed c.n

  -- `sample`, with the fraction that the key's hash stands for
  unfoldable pub sample : (String → Float) → String → CanaryController Float → Bool
  sample fraction_of key c = if c.done then false else lt (fraction_of key) c.fraction

  unfoldable pub verdict : CanaryController Float → CanaryVerdict
  unfolding rate
  verdict c =
      if ltb c.n c.min_samples
      then hold
      else if lt c.max_drop_pp (mul (sub c.baseline_success (rate c)) (of_nat 100))
      then rollback
      else promote

  abbrev pub counted : Bool → CanaryController Float → CanaryController Float
  counted verified c = record c { n = c.n + 1; passed = c.passed + (if verified then 1 else 0) }

  -- the test that `record` applies once it is done
  unfoldable pub late_verdict : CanaryController Float → CanaryVerdict
  unfolding rate
  late_verdict c =
      if le (sub (mul c.baseline_success (of_nat 100)) c.max_drop_pp) (mul (rate c) (of_nat 100))
      then promote
      else rollback

  -- `record`, which is a reserved word
  unfoldable pub record_use : Bool → CanaryController Float → CanaryController Float × CanaryVerdict
  unfolding verdict late_verdict
  record_use verified c =
      let c' = counted verified c in
      let v = verdict c' in
      if c.done then (c, late_verdict c) else (record c' { done = is_final v }, v)
