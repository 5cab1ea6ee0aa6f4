-- ===== src/Spend/Usage/Reference.antt =====
-- A direct account of what a spend row records: each usage column is absent, invalid or a count.
use fleetdiff.Base.{ℕ, ◌+◌, Bool, true, Option, none, some, [], ◌∷◌, ltb, if◌then◌else◌, max_int64}
use fleetdiff.Text.{Text}
use fleetdiff.Text.Digits.{parse_uint}
use fleetdiff.Accounting.Names.{unknown}
use fleetdiff.Accounting.Tokens.{Seen, unseen, Usage, Observation, observation}
use fleetdiff.Spend.Row.{Row, value}
use fleetdiff.Spend.Row

abbrev pub invalid_seen : Seen
invalid_seen = record unseen { is_invalid = true }

abbrev pub seen_count : Option ℕ → Seen
seen_count none = invalid_seen
seen_count (some n) = record unseen { value = n; is_reported = true }

-- A column: empty, a decimal that fits an `int64`, or invalid.
unfoldable pub seen_text : Text → Seen
seen_text [] = unseen
seen_text (c ∷ s) = seen_count (parse_uint max_int64 (c ∷ s))

-- Input and output columns whose sum does not fit are both invalid.
unfoldable pub pair_overflows : Row → Bool
pair_overflows r = ltb max_int64 (
    (seen_text (value r Row.prompt_tokens)).value
    + (seen_text (value r Row.completion_tokens)).value)

unfoldable pub usage_of : Row → Usage
usage_of r = record {
  of_input = if pair_overflows r then invalid_seen else seen_text (value r Row.prompt_tokens);
  of_output = if pair_overflows r then invalid_seen else seen_text (value r Row.completion_tokens);
  of_cache_read = seen_text (value r Row.cache_read_input_tokens);
  of_cache_write = seen_text (value r Row.cache_write_input_tokens);
  of_reasoning = seen_text (value r Row.reasoning_output_tokens);
}

-- The observation of a row, of unknown origin.
unfoldable pub recorded : Row → Observation
unfolding usage_of
recorded r =
    observation (usage_of r) unknown unknown
      ((usage_of r).of_input.value + (usage_of r).of_output.value)
