-- ===== src/Spend/Routing/Tests.antt =====
-- Concrete routing rows and cohorts, and the theorems at them.
use fleetdiff.Base.{length, if◌then◌else◌, false}
use fleetdiff.Spend.Aggregate.{
  Entry, add_entry, add_subset, add_failure_tokens, spending, with_spending,
}
use fleetdiff.Spend.Routing.Totals.{add_row, count_fallback}
use fleetdiff.Base.{
  ℕ, ◌+◌, ◌*◌, refl, true, Option, none, some, List, [], ◌∷◌, arith, value_or, sum_by, add64, sort,
  update,
}
use fleetdiff.Text.{codes, Text, text_eq}
use fleetdiff.Text.Digits.{parse_uint}
use fleetdiff.Text.Utf8.{valid_utf8, is_blank, trim}
use fleetdiff.Accounting.Number.{add_bounded}
use fleetdiff.Accounting.Counts.{merge_counts, merge_key}
use fleetdiff.Spend.Row.{
  Row, Column, agent_id, attempted_fallbacks, model, call_type, original_model_group, prompt_tokens,
  completion_tokens, total_tokens, status, operation,
}
use fleetdiff.Accounting.Tokens.{metric_of, field_quality}
use fleetdiff.Accounting.Cost.{cost}
use fleetdiff.Compare.CacheView.{set_totals}
use fleetdiff.Spend.Usage.{classify}
use fleetdiff.Spend.Usage.Reference.{recorded, usage_of, seen_text, pair_overflows}
use fleetdiff.Spend.Cache.{add_cache, add_detail, begin_detail, cover, valid_cache_field}
use fleetdiff.Spend.Routing.Fields.{
  Side, before, after, text_state, selected_text_known, selected_model_known, fallback,
}
use fleetdiff.Spend.Routing.Accumulator.{
  Accumulator, new_accumulator, add_routed, row_identity, register, has_id, same_id, add_cohort,
  add_cell, add_pair, remember_label, public_model_id,
}
use fleetdiff.Spend.Routing.Accumulator.Balanced.{add_all, report_conserves}
use fleetdiff.Spend.Quality.{add_quality}
use fleetdiff.Spend.Aggregate.{new_aggregate}
use fleetdiff.Spend.Routing.Fields.{no_fields}
use fleetdiff.Spend.Routing.Partition.{ArePartitions, cover_rows, cover_rows-ArePartitions}
use fleetdiff.Spend.Routing.Totals.{Totals, new_totals, merge, merge_failures}
use fleetdiff.Spend.Routing.Modular.{Same, Same-eq}
use fleetdiff.Spend.Routing.Merge.{quantity, quantity-merge}
use fleetdiff.Spend.Routing.Merge
use fleetdiff.Spend.Routing.Audit.{
  Pair, Cell, Cohort, RoutingId, Display, display, hide_rest, hide_models, no_remainder, merge_pair,
  shown, routing_precedes, new_pair,
}
use fleetdiff.Spend.Routing.Audit.Conserved.{of_pair, of_cohort, of_shown, display_conserves}

abbrev routed : Column → Option Text
routed agent_id = some (codes "planner")
routed attempted_fallbacks = some (codes "2x")
routed model = some (codes " unknown ")
routed _ = none

abbrev rows : List Row
rows =
    record { values = routed; row_number = 1; observation_level = [] }
    ∷ record { values = λ _. none; row_number = 2; observation_level = [] }
    ∷ []

cover_rows-ArePartitions_example : ArePartitions 2 (cover_rows no_fields rows)
cover_rows-ArePartitions_example = cover_rows-ArePartitions rows (omega arith)

-- Totals of `n` requests with 10 tokens each.
totals : ℕ → Totals
unfolding new_totals
totals n = record new_totals { sums = record new_aggregate { requests = n; tokens = 10 * n } }

both : Totals
unfolding totals merge add_bounded merge_counts merge_key merge_failures add_quality add64 update
    new_aggregate
both = value_or (totals 0) (merge (totals 2) (totals 3))

quantity-merge_example :
    Same true
      (quantity Merge.tokens both)
      (quantity Merge.tokens (totals 2) + quantity Merge.tokens (totals 3))
unfolding both
quantity-merge_example = quantity-merge Merge.tokens (totals 2) (totals 3) both refl

pair : ℕ → Pair
pair n = record { in_before = totals n; in_after = totals 0 }

abbrev id : ℕ → RoutingId
id n = record { hash = n; known = true }

abbrev cell : ℕ → ℕ → Cell
cell n m = record { id = id n; totals = pair m; ordinal = n }

abbrev cohorts : List Cohort
cohorts =
    record {
      route = id 1;
      agent = id 0;
      totals = pair 3;
      models = cell 1 1 ∷ cell 2 2 ∷ [];
      ordinal = 1;
    }
    ∷ record { route = id 2; agent = id 0; totals = pair 4; models = cell 3 4 ∷ []; ordinal = 2 }
    ∷ []

shown_first : Display
unfolding both pair display hide_rest hide_models no_remainder merge_pair shown routing_precedes
    new_pair sort new_totals
shown_first = value_or (record { cohorts = []; remainder = no_remainder }) (display 1 cohorts)

display_conserves_example :
    Same true
      (sum_by (of_shown before Merge.tokens) shown_first.cohorts
        + of_pair before Merge.tokens shown_first.remainder.totals)
      (sum_by (of_cohort before Merge.tokens) cohorts)
unfolding shown_first
display_conserves_example =
    display_conserves before Merge.tokens 1 cohorts {d = shown_first}
      (Same-eq refl, (Same-eq refl, tt)) refl

-- An identity is hashed to the length of its name; one model is in the catalog.
abbrev by_length : Text → Text → Option ℕ
by_length kind v = some (length v)

abbrev one_model : Text → Option Text
one_model v = if text_eq v (codes "small") then some (codes "lab") else none

abbrev call : Text → Column → Option Text
call m call_type = some (codes "completion")
call m original_model_group = some (codes "chat")
call m model = some m
call m prompt_tokens = some (codes "10")
call m completion_tokens = some (codes "5")
call m total_tokens = some (codes "15")
call m status = some (codes "success")
call m _ = none

abbrev call_row : Text → ℕ → Row
call_row m n = record { values = call m; row_number = n; observation_level = [] }

taken : Text → ℕ → Entry
taken m n = record {
  row = call_row m n;
  seen = recorded (call_row m n);
  review = classify (call_row m n) (recorded (call_row m n));
}

taken_rows : List (Side × Entry)
taken_rows =
    (before, taken (codes "small") 1)
    ∷ (after, taken (codes "large") 2)
    ∷ (before, taken (codes "large") 3)
    ∷ []

no_rows : Accumulator
unfolding new_accumulator new_totals
no_rows = new_accumulator false true

counted : Accumulator
unfolding no_rows taken_rows taken recorded metric_of field_quality seen_text pair_overflows
    usage_of parse_uint add64 add_bounded classify add_all add_routed row_identity register has_id
    same_id add_cohort add_cell add_pair remember_label public_model_id text_state valid_utf8
    is_blank trim selected_text_known selected_model_known fallback add_row count_fallback add_entry
    add_subset add_failure_tokens spending with_spending add_cache add_detail begin_detail cover
    valid_cache_field set_totals merge_counts merge_key update add_quality cost new_pair operation
    text_eq
counted = value_or no_rows (add_all by_length one_model no_rows taken_rows)

reported : Display
unfolding counted display hide_rest hide_models no_remainder merge_pair shown routing_precedes sort
    merge merge_failures
reported = value_or (record { cohorts = []; remainder = no_remainder }) (display 1 counted.cohorts)

report_conserves_example :
    Same true
      (sum_by (of_shown before Merge.tokens) reported.cohorts
        + of_pair before Merge.tokens reported.remainder.totals)
      (of_pair before Merge.tokens counted.totals)
unfolding reported fleetdiff.Spend.Routing.Fields.model_state fleetdiff.Spend.Usage.has_failed
report_conserves_example =
    report_conserves by_length one_model before Merge.tokens false true taken_rows 1 {a = counted}
      {d = reported} (omega arith) refl refl
