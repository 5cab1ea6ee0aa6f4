-- ===== src/Spend/Usage.antt =====
-- internal/spend/accounting.go: `attributes` and `classify`.
pub mod Reference
pub mod Exact
pub mod Recorded
pub mod Review
use fleetdiff.Base.{
  ℕ, ◌+◌, ◌≡◌, Bool, true, false, ◌&&◌, ◌||◌, not, Option, none, some, List, [], ◌∷◌, ltb, ◌==◌,
  if◌then◌else◌, flag, Result, ok, err,
}
use fleetdiff.Text.{Text, codes, text_eq, one_of, is_empty}
use fleetdiff.Accounting.Number.{Value, null, string_value, number, add_bounded}
use fleetdiff.Accounting.Names.{
  Attribute, input_tokens, prompt_tokens, output_tokens, completion_tokens,
  cache_creation_input_tokens, input_provenance, output_provenance, operation_name, request_model,
  Field, input, output, cache_read_input, cache_write_input, reasoning_output, total_tokens_total,
  missing_token_usage_total, invalid, conflict, subset_violation,
}
use fleetdiff.Accounting.Names
use fleetdiff.Accounting.Tokens.{Attributes, Observation}
use fleetdiff.Spend.Row.{Column, Row, value, operation, call_type, total_tokens, status}
use fleetdiff.Spend.Row
use fleetdiff.Spend.Quality.{
  Quality, Level, default_level, debug_level, warning_level, error_level, unknown_level,
}

abbrev pub refused : Value
refused = string_value (codes "invalid")

-- The attribute of a nonempty column; a count that `Number` refuses becomes an invalid one.
checked : Text → Value
checked s = elim (number (string_value s)) [ ok _ ↦ string_value s | err _ ↦ refused ]

unfoldable pub column_value : Row → Column → Option Value
unfolding checked
column_value r c = elim (value r c) [ [] ↦ none | a ∷ s ↦ some (checked (a ∷ s)) ]

-- `n, _, _ := accounting.Number(v)`, on a nil pointer for an absent attribute.
number_or_zero : Result (Option ℕ) → ℕ
number_or_zero (ok (some n)) = n
number_or_zero _ = 0

abbrev value_or_null : Option Value → Value
value_or_null none = null
value_or_null (some v) = v

count_or_zero : Option Value → ℕ
unfolding number_or_zero
count_or_zero o = number_or_zero (number (value_or_null o))

refuse_pair : Result ℕ → Option Value → Option Value
refuse_pair (ok n) v = v
refuse_pair (err e) v = some refused

-- The input or the output attribute: both are refused if their sum is.
unfoldable pub paired : Row → Column → Option Value
unfolding count_or_zero refuse_pair
paired r c =
    refuse_pair
      (add_bounded (count_or_zero (column_value r Row.prompt_tokens))
        (count_or_zero (column_value r Row.completion_tokens)))
      (column_value r c)

unfoldable pub attributes : Row → Attributes
attributes r input_tokens = paired r Row.prompt_tokens
attributes r output_tokens = paired r Row.completion_tokens
attributes r Names.cache_read_input_tokens = column_value r Row.cache_read_input_tokens
attributes r Names.cache_write_input_tokens = column_value r Row.cache_write_input_tokens
attributes r Names.reasoning_output_tokens = column_value r Row.reasoning_output_tokens
attributes r operation_name = some (string_value (operation (value r call_type)))
attributes r prompt_tokens = none
attributes r completion_tokens = none
attributes r cache_creation_input_tokens = none
attributes r input_provenance = none
attributes r output_provenance = none
attributes r request_model = none

-- A key of `a.Quality` that ends in `/invalid`, `/conflict` or `/subset_violation` with a count.
field_doubtful : Observation → Field → Bool
field_doubtful a f =
    ltb 0 (a.quality f invalid)
    || ltb 0 (a.quality f conflict)
    || ltb 0 (a.quality f subset_violation)

unfoldable pub doubtful : Observation → Bool
unfolding field_doubtful
doubtful a =
    field_doubtful a input
    || field_doubtful a output
    || field_doubtful a cache_read_input
    || field_doubtful a cache_write_input
    || field_doubtful a reasoning_output

-- The total column against the recorded total: which of three counters it raises.
pub data TotalCheck : Type 0 where
  absent unusable differs agrees : TotalCheck

checked_total : Text → ℕ → Result (Option ℕ) → TotalCheck
checked_total [] recorded n = absent
checked_total (c ∷ s) recorded (err e) = unusable
checked_total (c ∷ s) recorded (ok none) = unusable
checked_total (c ∷ s) recorded (ok (some n)) = if n == recorded then agrees else differs

unfoldable pub total_check : Row → Observation → TotalCheck
unfolding checked_total
total_check r a =
    checked_total (value r total_tokens) (a.metric total_tokens_total)
      (number (string_value (value r total_tokens)))

abbrev is_absent : TotalCheck → Bool
is_absent absent = true
is_absent _ = false

abbrev is_unusable : TotalCheck → Bool
is_unusable unusable = true
is_unusable _ = false

abbrev is_differing : TotalCheck → Bool
is_differing differs = true
is_differing _ = false

-- `status` is `failure`, `success` or unknown.
unfoldable pub has_failed : Row → Bool
has_failed r = text_eq (value r status) (codes "failure")

unfoldable pub has_unknown_status : Row → Bool
has_unknown_status r = not (one_of (value r status) (codes "failure" ∷ codes "success" ∷ []))

unfoldable pub level_of : Text → Level
level_of s =
    if text_eq s (codes "DEFAULT")
    then default_level
    else if text_eq s (codes "DEBUG")
    then debug_level
    else if text_eq s (codes "WARNING")
    then warning_level
    else if text_eq s (codes "ERROR")
    then error_level
    else unknown_level

-- `map[string]uint64{level: 1}`
abbrev level_count : Level → Level → ℕ
level_count default_level default_level = 1
level_count debug_level debug_level = 1
level_count warning_level warning_level = 1
level_count error_level error_level = 1
level_count unknown_level unknown_level = 1
level_count _ _ = 0

-- The severity adds a level, an error count and the review of the status, which it can replace.
record Severity : Type 0 where
  levels : Level → ℕ
  errors : ℕ
  review : ℕ

status_review : ℕ → Level → ℕ
status_review u unknown_level = 1
status_review u error_level = u
status_review u _ = 0

is_error : Level → ℕ
is_error error_level = 1
is_error _ = 0

severity : Text → ℕ → Severity
unfolding status_review is_error
severity [] u = record { levels = λ _. 0; errors = 0; review = u }
severity (c ∷ s) u =
    let l = level_of (c ∷ s) in
    record { levels = level_count l; errors = is_error l; review = status_review u l }

unfoldable pub classify : Row → Observation → Quality
unfolding severity
classify r a =
    let m = flag (ltb 0 (a.metric missing_token_usage_total)) in
    let t = total_check r a in
    let i = flag (doubtful a || is_unusable t) in
    let z = flag (m == 0 && i == 0 && a.metric total_tokens_total == 0) in
    let u = flag (has_unknown_status r) in
    let f = flag (has_failed r) in
    let s = severity r.observation_level u in
    record {
      missing = m;
      invalid = i;
      total_mismatch = flag (is_differing t);
      total_missing = flag (is_absent t);
      zero_unknown = z;
      failed = f;
      unknown_status = u;
      observation_levels = s.levels;
      error_observations = s.errors;
      unclear = flag (
          ltb 0 (m + i + flag (is_differing t) + flag (is_absent t) + z + f + s.review + s.errors));
      missing_identity = 0;
      spend_missing = 0;
      spend_invalid = 0;
      spend_zero_unknown = 0;
    }
