-- ===== src/Spend/Routing/Report.antt =====
-- internal/spend/routing.go: the measures, identities and shares that a routing audit shows.
use fleetdiff.Base.{
  ℕ, ◌+◌, ◌*◌, ◌/◌, ◌==◌, Bool, Option, none, some, List, [], ◌∷◌, ◌++◌, if◌then◌else◌,
}
use fleetdiff.Text.{Text, codes}
use fleetdiff.Text.Digits.{show}
use fleetdiff.Accounting.Names.{input, output, total_of}
use fleetdiff.Accounting.Cost.{cost_text}
use fleetdiff.Spend.Quality.{Quality}
use fleetdiff.Spend.Aggregate.{FailureTokens}
use fleetdiff.Spend.CallTypes.{CallTypeCounts}
use fleetdiff.Spend.Routing.Totals.{Totals, Fallbacks}
use fleetdiff.Spend.Routing.Audit.{Pair, RoutingId}
use fleetdiff.Spend.Routing.Accumulator.{RawMeasure, same_id}

pub record RoutingMeasure : Type 0 where
  pub requests : ℕ
  pub tokens : ℕ
  pub input_tokens : ℕ
  pub output_tokens : ℕ
  pub recorded_spend : Text
  pub quality : Quality
  pub failure_tokens : Option FailureTokens
  pub unknown_model_rows : ℕ
  pub fallbacks : Fallbacks

-- `routingTotals.result`
unfoldable pub measure : Totals → RoutingMeasure
measure t = record {
  requests = t.sums.requests;
  tokens = t.sums.tokens;
  input_tokens = t.sums.counters (total_of input);
  output_tokens = t.sums.counters (total_of output);
  recorded_spend = cost_text t.sums.cost_units;
  quality = t.sums.quality;
  failure_tokens = t.sums.failure_tokens;
  unknown_model_rows = t.unknown_models;
  fallbacks = t.fallbacks;
}

-- `routingPair.result`
pub record RoutingMeasures : Type 0 where
  pub measure_before : RoutingMeasure
  pub measure_after : RoutingMeasure

unfoldable pub measures : Pair → RoutingMeasures
measures p = record { measure_before = measure p.in_before; measure_after = measure p.in_after }

-- `routingRaw.result`
pub record RoutingRawMeasure : Type 0 where
  pub raw_usage : CallTypeCounts
  pub raw_spend : Text
  pub missing : ℕ
  pub invalid : ℕ
  pub zero_unknown : ℕ

unfoldable pub raw_measure : RawMeasure → RoutingRawMeasure
raw_measure r = record {
  raw_usage = r.usage;
  raw_spend = cost_text r.cost_units;
  missing = r.spend_missing;
  invalid = r.spend_invalid;
  zero_unknown = r.spend_zero_unknown;
}

pub record RoutingIdentity : Type 0 where
  pub item : Text
  pub state : Text
  pub shown_hash : Option ℕ

-- The place of a registered identity, from 1, and 0 where it is not registered.
alias_from : ℕ → List RoutingId → RoutingId → ℕ
alias_from n [] i = 0
alias_from n (j ∷ ids) i = let rest = alias_from (n + 1) ids i in if same_id j i then n else rest

-- `routingLabel`; the hash is shown in hexadecimal where it is asked for.
unfoldable pub label : RoutingId → Text → List RoutingId → Bool → RoutingIdentity
unfolding alias_from
label i kind aliases hashes =
    if i.known
    then record {
      item = kind ++ b'-' ∷ show (alias_from 1 aliases i);
      state = codes "known";
      shown_hash = if hashes then some i.hash else none;
    }
    else record { item = kind ++ codes "-unknown"; state = codes "unknown"; shown_hash = none }

-- `routingShare`: the quotient in units of 10 ^ -12, rounded to the nearest, halves away from zero.
unfoldable pub share : ℕ → ℕ → Option ℕ
share n d = let q = (2 * n * 1000000000000 + d) / (2 * d) in if d == 0 then none else some q

pub record RoutingShares : Type 0 where
  pub of_requests : Option ℕ
  pub of_tokens : Option ℕ
  pub of_spend : Option ℕ

-- `routingShares`
unfoldable pub shares : Totals → Totals → RoutingShares
shares part total = record {
  of_requests = share part.sums.requests total.sums.requests;
  of_tokens = share part.sums.tokens total.sums.tokens;
  of_spend = share part.sums.cost_units total.sums.cost_units;
}
