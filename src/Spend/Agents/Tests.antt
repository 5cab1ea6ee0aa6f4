-- ===== src/Spend/Agents/Tests.antt =====
-- Three rows without usage: of a known agent in each period, and of an unknown one.
use fleetdiff.Base.{
  ℕ, suc, ◌≡◌, refl, Bool, true, false, Option, none, some, List, [], ◌∷◌, arith, length, sum_by,
  value_or, Result, ok,
}
use fleetdiff.Text.{Text, codes, text_eq, one_of}
use fleetdiff.Text.Digits.{parse_uint}
use fleetdiff.Accounting.Number.{number, add_bounded}
use fleetdiff.Accounting.Tokens.{metric_of, field_quality}
use fleetdiff.Accounting.Counts.{merge_counts, merge_key}
use fleetdiff.Accounting.Cost.{cost}
use fleetdiff.Spend.Quality.{add_quality}
use fleetdiff.Spend.Usage.{classify}
use fleetdiff.Spend.Usage.Reference.{recorded, usage_of, seen_text, pair_overflows}
use fleetdiff.Spend.Row.{Row}
use fleetdiff.Spend.Aggregate.{Entry, add_entry}
use fleetdiff.Spend.Routing.Fields.{Side, before, after}
use fleetdiff.Spend.Agents.{known, Resolution, unresolved, resolve_tags}
use fleetdiff.Spend.Agents.Accumulator.{Accumulator, AgentRow, add_rows, new_accumulator}
use fleetdiff.Spend.Agents.Counted.{IsBalanced, same_side, add_rows-IsBalanced}

-- Two tags of one agent and a blank one.
one_agent :
    resolve_tags (codes "a:") (codes "a:x" ∷ codes "b" ∷ codes "a: " ∷ codes "a:x" ∷ [])
    ≡ record unresolved { state = known; label = codes "x"; repeated = 1; empty_suffix = 1 }
unfolding resolve_tags one_of text_eq fleetdiff.Text.Utf8.is_blank
one_agent = refl

abbrev bare_row : Row
bare_row = record { values = λ _. none; row_number = 1; observation_level = [] }

abbrev bare_entry : Entry
bare_entry = record {
  row = bare_row;
  seen = recorded bare_row;
  review = classify bare_row (recorded bare_row);
}

abbrev agent_row : Side → Resolution → AgentRow
agent_row s r = record { side = s; agent_digest = 7; resolution = r; entry = bare_entry }

abbrev agent_rows : List AgentRow
agent_rows =
    agent_row before (record unresolved { state = known; label = codes "x" })
    ∷ agent_row after (record unresolved { state = known; label = codes "x" })
    ∷ agent_row after (record unresolved { absent = true })
    ∷ []

counted : Accumulator
unfolding add_rows new_accumulator add_entry recorded classify fleetdiff.Spend.Cache.add_cache
    fleetdiff.Spend.Cache.add_detail fleetdiff.Spend.Cache.valid_cache_field field_quality
    pair_overflows seen_text parse_uint fleetdiff.Spend.Cache.cover merge_counts metric_of
    fleetdiff.Base.update add_bounded fleetdiff.Spend.Aggregate.add_subset
    fleetdiff.Spend.Usage.has_failed text_eq fleetdiff.Spend.Aggregate.add_failure_tokens
    fleetdiff.Spend.Usage.level_of cost fleetdiff.Accounting.Cost.max_cost merge_key number
    fleetdiff.Base.add64 fleetdiff.Base.sub64 fleetdiff.Compare.CacheView.set_totals
    fleetdiff.Spend.Aggregate.spending fleetdiff.Spend.Aggregate.with_spending
    fleetdiff.Spend.Cache.begin_detail add_quality usage_of fleetdiff.Spend.Usage.doubtful
    fleetdiff.Spend.Usage.has_unknown_status fleetdiff.Spend.Usage.total_check one_of
counted = value_or (new_accumulator true) (add_rows (new_accumulator true) agent_rows)

add_rows-IsBalanced_example :
    IsBalanced counted
      (sum_by (λ x. same_side before x.side) agent_rows)
      (sum_by (λ x. same_side after x.side) agent_rows)
unfolding counted
add_rows-IsBalanced_example = add_rows-IsBalanced true agent_rows counted (omega arith) refl
