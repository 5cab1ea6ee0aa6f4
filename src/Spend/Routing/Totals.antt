-- ===== src/Spend/Routing/Totals.antt =====
-- internal/spend/routing.go: `routingTotals`, its `add` and its `merge`.
use fleetdiff.Base.{ℕ, ◌+◌, Bool, Option, none, some, ◌==◌, if◌then◌else◌, add64, Result, ok, ◌>>=◌}
use fleetdiff.Accounting.Number.{add_bounded}
use fleetdiff.Accounting.Names.{metrics}
use fleetdiff.Accounting.Counts.{merge_counts}
use fleetdiff.Accounting.MetricKeys.{metric_eq}
use fleetdiff.Spend.Quality.{add_quality}
use fleetdiff.Spend.Aggregate.{
  Aggregate, Entry, FailureTokens, new_aggregate, add_entry, failure_or_zero,
}
use fleetdiff.Spend.Routing.Fields.{FieldState, known, fallback}

pub record Fallbacks : Type 0 where
  pub known_zero_rows : ℕ
  pub known_positive_rows : ℕ
  pub unknown_rows : ℕ

pub record Totals : Type 0 where
  pub sums : Aggregate
  pub fallbacks : Fallbacks
  pub unknown_models : ℕ

unfoldable pub new_totals : Totals
unfolding new_aggregate
new_totals = record {
  sums = new_aggregate;
  fallbacks = record { known_zero_rows = 0; known_positive_rows = 0; unknown_rows = 0 };
  unknown_models = 0;
}

unfoldable pub count_fallback : Fallbacks → ℕ × FieldState → Fallbacks
count_fallback f (n, known) =
    if n == 0
    then record f { known_zero_rows = add64 f.known_zero_rows 1 }
    else record f { known_positive_rows = add64 f.known_positive_rows 1 }
count_fallback f (n, _) = record f { unknown_rows = add64 f.unknown_rows 1 }

unfoldable pub add_row : Totals → Entry → Bool → Result Totals
add_row t e model_known = do
  a ← add_entry t.sums e
  ok (record {
    sums = a;
    fallbacks = count_fallback t.fallbacks (fallback e.row);
    unknown_models = if model_known then t.unknown_models else add64 t.unknown_models 1;
  })

-- The failure tokens of both, which stay nil if the second has none.
unfoldable pub merge_some : Option FailureTokens → FailureTokens → Result (Option FailureTokens)
merge_some old f = do
  r ← add_bounded (failure_or_zero old).records f.records
  i ← add_bounded (failure_or_zero old).of_input f.of_input
  o ← add_bounded (failure_or_zero old).of_output f.of_output
  t ← add_bounded (failure_or_zero old).of_total f.of_total
  ok (some (record { records = r; of_input = i; of_output = o; of_total = t }))

unfoldable pub merge_failures :
    Option FailureTokens → Option FailureTokens → Result (Option FailureTokens)
unfolding merge_some
merge_failures old none = ok old
merge_failures old (some f) = merge_some old f

-- The cache window and the tokens of erroneous observations are not merged: no report of the audit shows
-- them.
unfoldable pub merge : Totals → Totals → Result Totals
merge t v = do
  n ← add_bounded t.sums.requests v.sums.requests
  k ← add_bounded t.sums.tokens v.sums.tokens
  u ← add_bounded t.unknown_models v.unknown_models
  z ← add_bounded t.fallbacks.known_zero_rows v.fallbacks.known_zero_rows
  p ← add_bounded t.fallbacks.known_positive_rows v.fallbacks.known_positive_rows
  w ← add_bounded t.fallbacks.unknown_rows v.fallbacks.unknown_rows
  c ← merge_counts metrics v.sums.counters t.sums.counters
  f ← merge_failures t.sums.failure_tokens v.sums.failure_tokens
  ok (record {
    sums = record (t.sums) {
      requests = n;
      tokens = k;
      counters = c;
      quality = add_quality t.sums.quality v.sums.quality;
      cost_units = t.sums.cost_units + v.sums.cost_units;
      failure_tokens = f;
    };
    fallbacks = record { known_zero_rows = z; known_positive_rows = p; unknown_rows = w };
    unknown_models = u;
  })
