-- ===== src/Spend/Replay/Tests.antt =====
-- A concrete row with cache reads and writes, and the theorem at it.
use fleetdiff.Base.{ℕ, ◌≡◌, refl, Bool, false, Option, none, some, [], value_or}
use fleetdiff.Text.{Text, codes}
use fleetdiff.Spend.Row.{Row, Column}
use fleetdiff.Spend.Row
use fleetdiff.Spend.Period.{Period}
use fleetdiff.Reprice.Add.{Record, bad_partition}
use fleetdiff.Spend.Replay.{usage_record, bare_record}
use fleetdiff.Spend.Replay.Split.{usage_record-partition}

abbrev no_catalog : Text → Option Text
no_catalog s = none

abbrev digest : Text → ℕ
digest s = 0

abbrev no_time : Text → Option ℕ
no_time s = none

abbrev cells : Column → Option Text
cells Row.prompt_tokens = some (codes "12")
cells Row.completion_tokens = some (codes "5")
cells Row.cache_read_input_tokens = some (codes "4")
cells Row.cache_write_input_tokens = some (codes "3")
cells Row.call_type = some (codes "acompletion")
cells Row.model = some (codes "large")
cells _ = none

abbrev row : Row
row = record { values = cells; row_number = 1; observation_level = [] }

abbrev period : Period
period = record { start = 0; stop = 10 }

read_record : Record × Bool
unfolding usage_record
read_record =
    value_or (bare_record no_catalog false row, false)
      (usage_record no_catalog digest no_time period 20 false row 5)

usage_record-partition_example :
    bad_partition read_record.0.input read_record.0.cache_read read_record.0.cache_write ≡ false
unfolding read_record fleetdiff.Accounting.Tokens.observe fleetdiff.Accounting.Tokens.origin
    fleetdiff.Accounting.Tokens.withdraw fleetdiff.Accounting.Tokens.metric_of
    fleetdiff.Accounting.Tokens.assemble fleetdiff.Accounting.Tokens.read_usage
    fleetdiff.Accounting.Tokens.tokens fleetdiff.Accounting.Number.number
    fleetdiff.Accounting.Number.add_bounded fleetdiff.Accounting.Cost.cost
    fleetdiff.Spend.Row.operation fleetdiff.Spend.Row.is_supported
    fleetdiff.Spend.Usage.column_value fleetdiff.Spend.Usage.paired fleetdiff.Spend.Usage.attributes
    fleetdiff.Spend.Aggregate.spending fleetdiff.Spend.Period.within
    fleetdiff.Spend.Period.timestamp fleetdiff.Text.Digits.parse_uint
    fleetdiff.Spend.Cache.valid_cache_field fleetdiff.Spend.Routing.Accumulator.public_model_id
    fleetdiff.Spend.Routing.Fields.selected_model_known fleetdiff.Spend.Replay.bare_record
    fleetdiff.Spend.Replay.usage_record fleetdiff.Spend.Replay.with_usage
    fleetdiff.Spend.Replay.usage_issue fleetdiff.Spend.Usage.classify
usage_record-partition_example =
    usage_record-partition no_catalog digest no_time period 20 false row 5 {v = read_record} refl
