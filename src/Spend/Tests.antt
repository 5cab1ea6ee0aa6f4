-- ===== src/Spend/Tests.antt =====
-- Concrete rows, and the theorems at them.
use fleetdiff.Base.{
  ℕ, zero, suc, ◌+◌, ◌≡◌, refl, Bool, true, false, Option, none, some, List, [], ◌∷◌, map, arith,
  Result, err, value_or, contains,
}
use fleetdiff.Text.{codes, Text, text_eq, one_of}
use fleetdiff.Text.Digits.{parse_uint}
use fleetdiff.Accounting.Number.{number, add_bounded, string_value}
use fleetdiff.Accounting.Names.{input_tokens, output_tokens, requests_total, total_tokens_total}
use fleetdiff.Accounting.Tokens.{Observation, Attributes, metric_of, field_quality}
use fleetdiff.Accounting.Tokens.Sound.{IsSound, tokens-IsSound}
use fleetdiff.Accounting.Counts.{merge_counts, merge_counts_order, merge_key}
use fleetdiff.Accounting.MetricKeys.{metric_eq}
use fleetdiff.Accounting.Cost.{cost}
use fleetdiff.Spend.Row.{Row, Column}
use fleetdiff.Spend.Row
use fleetdiff.Spend.Quality.{no_quality, add_quality}
use fleetdiff.Spend.Usage.{attributes, classify}
use fleetdiff.Spend.Usage.Reference.{recorded, usage_of, seen_text, pair_overflows}
use fleetdiff.Spend.Usage.Exact.{tokens-attributes}
use fleetdiff.Spend.Usage.Recorded.{attributes-AreInt64, recorded-IsSound}
use fleetdiff.Spend.Usage.Review.{IsReview, classify-IsReview}
use fleetdiff.Base.{add64, sub64}
use fleetdiff.Compare.CacheView.{CacheWindow, set_totals}
use fleetdiff.Spend.Cache.{add_cache, add_detail, begin_detail, cover, valid_cache_field}
use fleetdiff.Spend.Cache.Covered.{IsCovered, add_cache-IsCovered}
use fleetdiff.Spend.Aggregate.{no_cache, Aggregate, Entry, new_aggregate, add_entry}
use fleetdiff.Spend.Digests.Listed.{IsListed, add_digests, add_digests-IsListed}
use fleetdiff.Spend.Aggregate.Sums.{add_entries, IsSum, add_entries-IsSum}

abbrev cells : Column → Option Text
cells Row.prompt_tokens = some (codes "120")
cells Row.completion_tokens = some (codes "30")
cells Row.total_tokens = some (codes "150")
cells Row.cache_read_input_tokens = some (codes "20")
cells Row.call_type = some (codes "acompletion")
cells Row.status = some (codes "failure")
cells Row.spend = some (codes "0.25")
cells Row.agent_id = some (codes "planner")
cells _ = none

abbrev paid_row : Row
paid_row = record { values = cells; row_number = 1; observation_level = codes "ERROR" }

abbrev bare_row : Row
bare_row = record { values = λ _. none; row_number = 2; observation_level = [] }

abbrev sample_attributes : Attributes
sample_attributes input_tokens = some (string_value (codes "120"))
sample_attributes output_tokens = some (string_value (codes "7"))
sample_attributes _ = none

classify-IsReview_example : IsReview paid_row (classify paid_row (recorded paid_row))
classify-IsReview_example = classify-IsReview paid_row (recorded paid_row)

abbrev no_observation : Observation
no_observation = recorded bare_row

tokens-IsSound_example : IsSound (recorded paid_row)
tokens-IsSound_example =
    tokens-IsSound (attributes paid_row) (attributes-AreInt64 paid_row) (tokens-attributes paid_row)

abbrev entry : Row → Entry
entry r = record { row = r; seen = recorded r; review = classify r (recorded r) }

abbrev entries : List Entry
entries = entry paid_row ∷ entry bare_row ∷ entry paid_row ∷ []

added : Aggregate
unfolding add_entries new_aggregate add_entry recorded classify fleetdiff.Spend.Cache.add_cache
    fleetdiff.Spend.Cache.add_detail fleetdiff.Spend.Cache.valid_cache_field field_quality
    pair_overflows seen_text parse_uint fleetdiff.Spend.Cache.cover merge_counts metric_of
    fleetdiff.Base.update add_bounded fleetdiff.Spend.Aggregate.add_subset
    fleetdiff.Spend.Usage.has_failed text_eq fleetdiff.Spend.Aggregate.add_failure_tokens
    fleetdiff.Spend.Usage.level_of cost fleetdiff.Accounting.Cost.max_cost merge_key number
    fleetdiff.Base.add64 fleetdiff.Base.sub64 fleetdiff.Compare.CacheView.set_totals
    fleetdiff.Spend.Aggregate.spending fleetdiff.Spend.Aggregate.with_spending
    fleetdiff.Spend.Cache.begin_detail add_quality usage_of fleetdiff.Spend.Usage.doubtful
    fleetdiff.Spend.Usage.has_unknown_status fleetdiff.Spend.Usage.total_check one_of
added = value_or new_aggregate (add_entries new_aggregate entries)

add_entries-IsSum_example : IsSum entries added
unfolding added
add_entries-IsSum_example = add_entries-IsSum entries {a = added} (omega arith) refl

merge_counts_order_example :
    merge_counts (requests_total ∷ total_tokens_total ∷ []) (λ _. 3) (λ _. 4)
    ≡ merge_counts (total_tokens_total ∷ requests_total ∷ []) (λ _. 3) (λ _. 4)
unfolding contains
merge_counts_order_example =
    merge_counts_order (requests_total ∷ total_tokens_total ∷ [])
      (total_tokens_total ∷ requests_total ∷ []) (λ _. 3) (λ _. 4) (refl, (refl, tt))
      (refl, (refl, tt)) (λ k. omega arith) (λ k. ground arith)

abbrev start_window : CacheWindow
start_window = no_cache

covered_window : CacheWindow
unfolding add_cache add_detail begin_detail cover set_totals valid_cache_field recorded metric_of
    field_quality seen_text pair_overflows usage_of parse_uint add64 sub64 add_bounded
covered_window =
    value_or start_window (add_cache start_window paid_row (recorded paid_row) no_quality)

start-IsCovered : IsCovered start_window
start-IsCovered = ground arith

add_cache-IsCovered_example : IsCovered covered_window
unfolding covered_window
add_cache-IsCovered_example =
    add_cache-IsCovered start_window paid_row (recorded paid_row) no_quality {w' = covered_window}
      (recorded-IsSound paid_row) (omega arith) start-IsCovered refl

add_digests-IsListed_example : IsListed (3 ∷ 1 ∷ 3 ∷ []) (add_digests [] (3 ∷ 1 ∷ 3 ∷ []))
add_digests-IsListed_example = add_digests-IsListed (3 ∷ 1 ∷ 3 ∷ [])
