-- ===== src/Spend/Aggregate.antt =====
-- internal/spend/investigate.go: `aggregate`, `newAggregate`, `add`; internal/spend/report.go:
-- `FailureTokens` and `Window`. The sketches of an aggregate belong to a library, and the period is
-- carried by the caller.
pub mod Sums
use fleetdiff.Base.{
  ℕ, ◌+◌, Bool, true, false, ◌||◌, ◌&&◌, not, Option, none, some, [], ◌∷◌, ◌==◌, ltb, if◌then◌else◌,
  add64, Result, ok, err, ◌>>=◌,
}
use fleetdiff.Text.{Text, is_empty}
use fleetdiff.Accounting.Number.{add_bounded}
use fleetdiff.Accounting.Names.{input, output, Metric, total_of, total_tokens_total, metrics}
use fleetdiff.Accounting.Tokens.{Observation}
use fleetdiff.Accounting.Counts.{merge_counts}
use fleetdiff.Accounting.MetricKeys.{metric_eq}
use fleetdiff.Accounting.Cost.{cost}
use fleetdiff.Spend.Row.{Row, value, spend}
use fleetdiff.Spend.Quality.{Quality, no_quality, add_quality}
use fleetdiff.Spend.Cache.{add_cache}
use fleetdiff.Compare.CacheView.{CacheDetail, CacheWindow}

-- Finality is always "unknown".
pub record FailureTokens : Type 0 where
  pub records : ℕ
  pub of_input : ℕ
  pub of_output : ℕ
  pub of_total : ℕ

-- `cost` is in the units of `Accounting.Cost`; `RecordedSpend` is its text.
pub record Aggregate : Type 0 where
  pub cache : CacheWindow
  pub requests : ℕ
  pub tokens : ℕ
  pub counters : Metric → ℕ
  pub quality : Quality
  pub failure_tokens : Option FailureTokens
  pub error_tokens : Option FailureTokens
  pub cost_units : ℕ

abbrev pub no_detail : CacheDetail
no_detail = record {
  coverage_known = false;
  reported_requests = 0;
  covered = some 0;
  missing_detail = some 0;
  invalid_detail = some 0;
  zero_origin_unknown = some 0;
  input_tokens = none;
  tokens = none;
  share = none;
}

abbrev pub no_cache : CacheWindow
no_cache = record {
  requests = 0;
  read = no_detail;
  write = no_detail;
  uncached = none;
  missing_identity = 0;
}

unfoldable pub new_aggregate : Aggregate
new_aggregate = record {
  cache = no_cache;
  requests = 0;
  tokens = 0;
  counters = λ _. 0;
  quality = no_quality;
  failure_tokens = none;
  error_tokens = none;
  cost_units = 0;
}

abbrev pub failure_or_zero : Option FailureTokens → FailureTokens
failure_or_zero none = record { records = 0; of_input = 0; of_output = 0; of_total = 0 }
failure_or_zero (some f) = f

unfoldable pub add_failure_tokens : FailureTokens → Observation → Result FailureTokens
add_failure_tokens f a = do
  r ← add_bounded f.records 1
  i ← add_bounded f.of_input (a.metric (total_of input))
  o ← add_bounded f.of_output (a.metric (total_of output))
  t ← add_bounded f.of_total (a.metric total_tokens_total)
  ok (record { records = r; of_input = i; of_output = o; of_total = t })

-- One round of the loop over the two subsets: a record outside it, or with no tokens, adds nothing.
unfoldable pub add_subset : ℕ → Option FailureTokens → Observation → Result (Option FailureTokens)
add_subset count dst a =
    let added = add_failure_tokens (failure_or_zero dst) a >>= λ f. ok (some f) in
    if count == 0 || a.metric total_tokens_total == 0 then ok dst else added

-- The recorded spend of a row: missing, invalid or its units.
pub data Spending : Type 0 where
  no_spend bad_spend : Spending
  spent : ℕ → Spending

spending_of : Text → Option ℕ → Spending
spending_of [] o = no_spend
spending_of (c ∷ s) none = bad_spend
spending_of (c ∷ s) (some u) = spent u

unfoldable pub spending : Row → Spending
unfolding spending_of
spending r = spending_of (value r spend) (cost (value r spend))

abbrev pub units_spent : Spending → ℕ
units_spent (spent u) = u
units_spent _ = 0

unfoldable pub with_spending : Spending → Quality → Quality
with_spending no_spend q = record q { spend_missing = 1 }
with_spending bad_spend q = record q { spend_invalid = 1 }
with_spending (spent u) q = if u == 0 then record q { spend_zero_unknown = 1 } else q

-- What one row brings: the row, its observation and its quality.
pub record Entry : Type 0 where
  pub row : Row
  pub seen : Observation
  pub review : Quality

unfoldable pub add_entry : Aggregate → Entry → Result Aggregate
add_entry a e = do
  c ← add_cache a.cache e.row e.seen e.review
  m ← merge_counts metrics e.seen.metric a.counters
  t ← add_bounded a.tokens (e.seen.metric total_tokens_total)
  f ← add_subset e.review.failed a.failure_tokens e.seen
  x ← add_subset e.review.error_observations a.error_tokens e.seen
  ok (record {
    cache = c;
    requests = add64 a.requests 1;
    tokens = t;
    counters = m;
    quality = add_quality a.quality (with_spending (spending e.row) e.review);
    failure_tokens = f;
    error_tokens = x;
    cost_units = a.cost_units + units_spent (spending e.row);
  })
