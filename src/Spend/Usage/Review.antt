-- ===== src/Spend/Usage/Review.antt =====
-- `classify`: which counters it raises for one record.
use fleetdiff.Base.{
  ℕ, ◌+◌, ◌≤◌, ◌<◌, ◌≡◌, refl, if◌then◌else◌, Bool, true, false, [], ◌∷◌, arith, ltb, flag,
}
use fleetdiff.Text.{Text, is_empty, one_of}
use fleetdiff.Accounting.Tokens.{Observation}
use fleetdiff.Spend.Row.{Row}
use fleetdiff.Spend.Quality.{
  Quality, Level, default_level, debug_level, warning_level, error_level, unknown_level, Counter,
  counter, level, error_observations,
}
use fleetdiff.Spend.Usage.{
  classify, level_of, level_count, severity, status_review, is_error, has_failed,
  has_unknown_status,
}

flag-le : (b : Bool) → flag b ≤ 1
flag-le true = omega arith
flag-le false = omega arith

level_count-le : (l k : Level) → level_count l k ≤ 1
level_count-le l k = ground arith

is_error-le : (l : Level) → is_error l ≤ 1
unfolding is_error
is_error-le error_level = omega arith
is_error-le _ = omega arith

severity_levels-le : (s : Text) (u : ℕ) (k : Level) → (severity s u).levels k ≤ 1
unfolding severity
severity_levels-le [] u k = omega arith
severity_levels-le (c ∷ s) u k = level_count-le (level_of (c ∷ s)) k

severity_errors-le : (s : Text) (u : ℕ) → (severity s u).errors ≤ 1
unfolding severity
severity_errors-le [] u = omega arith
severity_errors-le (c ∷ s) u = is_error-le (level_of (c ∷ s))

-- Each counter of one record is 0 or 1.
pub counter-classify-le : (c : Counter) (r : Row) (a : Observation) → counter c (classify r a) ≤ 1
unfolding classify
counter-classify-le (level l) r a = severity_levels-le r.observation_level _ l
counter-classify-le error_observations r a = severity_errors-le r.observation_level _
counter-classify-le _ r a = ground arith

abbrev total_levels : (Level → ℕ) → ℕ
total_levels m = m default_level + m debug_level + m warning_level + m error_level + m unknown_level

-- Whether an unknown status asks for a review: where a severity is recorded, only with that of an error.
abbrev pub asks_status : Text → Level → Bool
asks_status [] l = true
asks_status (c ∷ s) error_level = true
asks_status (c ∷ s) l = false

-- The reasons for a review of one record, as many as apply.
abbrev pub reasons : Row → Quality → ℕ
reasons r q =
    q.missing
    + q.invalid
    + q.total_mismatch
    + q.total_missing
    + q.zero_unknown
    + q.failed
    + q.error_observations
    + q.observation_levels unknown_level
    + (if asks_status r.observation_level (level_of r.observation_level)
        then q.unknown_status
        else 0)

-- Facts of the counters of one record.
pub record IsReview (r : Row) (q : Quality) : Type 0 where
  pub one_status : q.failed + q.unknown_status ≤ 1
  pub one_total : q.total_missing + q.total_mismatch ≤ 1
  pub zero_is_clean : q.zero_unknown ≡ 1 → q.missing + q.invalid ≡ 0
  pub one_level : total_levels q.observation_levels + flag (is_empty r.observation_level) ≡ 1
  pub one_mark : q.unclear ≤ 1
  pub marked : 0 < reasons r q → q.unclear ≡ 1
  pub unmarked : reasons r q ≡ 0 → q.unclear ≡ 0
  pub clear :
      q.unclear ≡ 0
      → q.missing
          + q.invalid
          + q.total_mismatch
          + q.total_missing
          + q.zero_unknown
          + q.failed
          + q.error_observations
          + q.observation_levels unknown_level
        ≡ 0
  pub clear_status : q.unclear ≡ 0 → is_empty r.observation_level ≡ true → q.unknown_status ≡ 0

total_level_count : (l : Level) → total_levels (level_count l) ≡ 1
total_level_count default_level = refl
total_level_count _ = refl

severity_one_level : (s : Text) (u : ℕ) → total_levels (severity s u).levels + flag (is_empty s) ≡ 1
unfolding severity
severity_one_level [] u = refl
severity_one_level (c ∷ s) u = omega (arith, total_level_count (level_of (c ∷ s)))

level_review : (l : Level) (u : ℕ) → level_count l unknown_level ≤ status_review u l
unfolding status_review
level_review default_level u = omega arith
level_review _ u = omega arith

severity_review : (s : Text) (u : ℕ) → (severity s u).levels unknown_level ≤ (severity s u).review
unfolding severity
severity_review [] u = omega arith
severity_review (c ∷ s) u = level_review (level_of (c ∷ s)) u

severity_status : (s : Text) (u : ℕ) → is_empty s ≡ true → (severity s u).review ≡ u
unfolding severity
severity_status [] u h = refl
severity_status (c ∷ s) u h = cc

level_status :
    (l : Level) (u : ℕ)
    → level_count l unknown_level + (if asks_status (0 ∷ []) l then u else 0) ≡ status_review u l
unfolding status_review
level_status default_level u = omega arith
level_status debug_level u = omega arith
level_status warning_level u = omega arith
level_status error_level u = omega arith
level_status unknown_level u = omega arith

asks_same : (c : ℕ) (s : Text) (l : Level) → asks_status (c ∷ s) l ≡ asks_status (0 ∷ []) l
asks_same c s error_level = refl
asks_same c s _ = refl

severity_reasons :
    (s : Text) (u : ℕ)
    → (severity s u).levels unknown_level + (if asks_status s (level_of s) then u else 0)
      ≡ (severity s u).review
unfolding severity
severity_reasons [] u = omega arith
severity_reasons (c ∷ s) u =
    rw (asks_same c s (level_of (c ∷ s))) (level_status (level_of (c ∷ s)) u)

flag_one : (n : ℕ) → 0 < n → flag (ltb 0 n) ≡ 1
flag_one n h = ground (arith, h)

flag_none : (n : ℕ) → n ≡ 0 → flag (ltb 0 n) ≡ 0
flag_none n h = ground (arith, h)

one_status_lem : (r : Row) → flag (has_failed r) + flag (has_unknown_status r) ≤ 1
unfolding has_failed has_unknown_status one_of
one_status_lem r = ground arith

flag_zero : (n : ℕ) → flag (ltb 0 n) ≡ 0 → n ≡ 0
flag_zero n h = ground arith

-- One record is failed or of unknown status and not both, lacks a total or disagrees with it and not
-- both, is called zero-only only where its usage is complete and valid, and counts under exactly one
-- severity if it has one. It is unclear exactly when a reason for a review applies: missing, invalid or zero usage of
-- unknown origin, a total that is missing or differs, a failure, an error, an unknown severity, or an unknown status that
-- no severity but an error's stands beside.
pub classify-IsReview : (r : Row) (a : Observation) → IsReview r (classify r a)
unfolding classify
classify-IsReview r a = record {
  one_status = one_status_lem r;
  one_total = ground arith;
  zero_is_clean = ground arith;
  one_level = severity_one_level r.observation_level _;
  one_mark = flag-le _;
  marked = λ h.
      flag_one _
        (omega (arith, h, severity_reasons r.observation_level (flag (has_unknown_status r))));
  unmarked = λ h.
      flag_none _
        (omega (arith, h, severity_reasons r.observation_level (flag (has_unknown_status r))));
  clear = λ h.
      omega
        (arith, flag_zero _ h, severity_review r.observation_level (flag (has_unknown_status r)));
  clear_status = λ h e.
      omega
        (arith, flag_zero _ h, severity_status r.observation_level (flag (has_unknown_status r)) e);
}
