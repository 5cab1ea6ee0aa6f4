-- ===== src/Spend/Quality.antt =====
-- internal/spend/accounting.go: `Quality` and its `add`.
use fleetdiff.Base.{ℕ, ◌≡◌, refl, add64}

-- The keys of `ObservationLevels`. A key that is absent reads as 0.
pub data Level : Type 0 where
  default_level debug_level warning_level error_level unknown_level : Level

pub record Quality : Type 0 where
  pub missing : ℕ
  pub invalid : ℕ
  pub total_mismatch : ℕ
  pub total_missing : ℕ
  pub zero_unknown : ℕ
  pub failed : ℕ
  pub unknown_status : ℕ
  pub observation_levels : Level → ℕ
  pub error_observations : ℕ
  pub unclear : ℕ
  pub missing_identity : ℕ
  pub spend_missing : ℕ
  pub spend_invalid : ℕ
  pub spend_zero_unknown : ℕ

abbrev pub no_quality : Quality
no_quality = record {
  missing = 0;
  invalid = 0;
  total_mismatch = 0;
  total_missing = 0;
  zero_unknown = 0;
  failed = 0;
  unknown_status = 0;
  observation_levels = λ _. 0;
  error_observations = 0;
  unclear = 0;
  missing_identity = 0;
  spend_missing = 0;
  spend_invalid = 0;
  spend_zero_unknown = 0;
}

unfoldable pub add_quality : Quality → Quality → Quality
add_quality q v = record {
  missing = add64 q.missing v.missing;
  invalid = add64 q.invalid v.invalid;
  total_mismatch = add64 q.total_mismatch v.total_mismatch;
  total_missing = add64 q.total_missing v.total_missing;
  zero_unknown = add64 q.zero_unknown v.zero_unknown;
  failed = add64 q.failed v.failed;
  unknown_status = add64 q.unknown_status v.unknown_status;
  observation_levels = λ l. add64 (q.observation_levels l) (v.observation_levels l);
  error_observations = add64 q.error_observations v.error_observations;
  unclear = add64 q.unclear v.unclear;
  missing_identity = add64 q.missing_identity v.missing_identity;
  spend_missing = add64 q.spend_missing v.spend_missing;
  spend_invalid = add64 q.spend_invalid v.spend_invalid;
  spend_zero_unknown = add64 q.spend_zero_unknown v.spend_zero_unknown;
}

-- The counters of a `Quality`, to state a fact of all of them at once.
pub data Counter : Type 0 where
  missing invalid total_mismatch total_missing zero_unknown failed unknown_status : Counter
  level : Level → Counter
  error_observations unclear missing_identity spend_missing spend_invalid : Counter
  spend_zero_unknown : Counter

abbrev pub counter : Counter → Quality → ℕ
counter missing q = q.missing
counter invalid q = q.invalid
counter total_mismatch q = q.total_mismatch
counter total_missing q = q.total_missing
counter zero_unknown q = q.zero_unknown
counter failed q = q.failed
counter unknown_status q = q.unknown_status
counter (level l) q = q.observation_levels l
counter error_observations q = q.error_observations
counter unclear q = q.unclear
counter missing_identity q = q.missing_identity
counter spend_missing q = q.spend_missing
counter spend_invalid q = q.spend_invalid
counter spend_zero_unknown q = q.spend_zero_unknown

pub counter-add_quality :
    (c : Counter) (q v : Quality) → counter c (add_quality q v) ≡ add64 (counter c q) (counter c v)
unfolding add_quality
counter-add_quality missing q v = refl
counter-add_quality _ q v = refl

pub counter-no_quality : (c : Counter) → counter c no_quality ≡ 0
counter-no_quality missing = refl
counter-no_quality _ = refl
