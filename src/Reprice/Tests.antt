-- ===== src/Reprice/Tests.antt =====
-- A concrete scenario with three records, and the theorems at it.
use fleetdiff.Base.{
  ℕ, refl, true, false, Option, none, some, List, [], ◌∷◌, pos, value_or, sum_by, length,
}
use fleetdiff.Text.{Text, codes, text_eq, one_of}
use fleetdiff.Text.Utf8.{is_blank}
use fleetdiff.Accounting.Cost.{cost}
use fleetdiff.Accounting.Number.{add_bounded}
use fleetdiff.Reprice.Config.{
  Price, Prices, Factors, Selector, Scenario, WorkloadMap, workload_of, fraction, rat, one,
  valid_date, valid_selector, validate_prices, validate_scenario, validate_factors,
}
use fleetdiff.Reprice.Calculator.{
  Calculator, State, new_calculator, hash_selector, fresh_move, same_hash, find_mapping,
  same_workload, price, bucket_cost, input_cost, output_cost,
}
use fleetdiff.Reprice.Add.{
  Record, add, add_state, add_failure, is_covered, identities, identity_value, record_issue,
  record_workload, check_record, check_overlap, any_unknown, ratio_sum, any_touched, select,
  has_hash, exclude, cover, add_count, add_sums, set_bucket, request_input, record_cost,
}
use fleetdiff.Reprice.Add.Counted.{IsCounted, add_records}
use fleetdiff.Reprice.Report.{result, priced_failures}
use fleetdiff.Reprice.Report.Enveloped.{AreOrdered}
use fleetdiff.Reprice.Priced.{records-IsCounted, result-AreOrdered}

abbrev by_length : Text → Text → Option ℕ
by_length kind v = some (length v)

abbrev this_year : Text → Option ℕ
this_year s = some 2026

abbrev model : Text → Text → Price
model id rate = record {
  id = id;
  provider = codes "lab";
  input = rate;
  output = rate;
  cache_read = codes "0.1";
  cache_write = rate;
  cache_write_ttl = [];
  input_tier_max = 0;
}

abbrev prices : Prices
prices = record {
  version = pos 1;
  date = codes "2026-01-01";
  models = model (codes "large") (codes "4") ∷ model (codes "small") (codes "0.5") ∷ [];
  currency = codes "USD";
  unit = [];
}

abbrev factors : Factors
factors = record {
  version = pos 1;
  date = codes "2026-01-01";
  input_pairs = [];
  pairs =
      record {
        from = codes "large";
        to = codes "small";
        workload = codes "coding";
        output = codes "1.25";
        low = codes "1.1";
        high = codes "1.4";
        n = pos 40;
        source = codes "study";
      }
      ∷ [];
}

abbrev team_one : Selector
team_one = record { kind = codes "team"; value = codes "one" }

abbrev scenario : Scenario
scenario = record {
  version = pos 1;
  moves =
      record {
        from = codes "large";
        to = codes "small";
        fraction = codes "0.5";
        scope = some team_one;
      }
      ∷ [];
}

abbrev mapping : WorkloadMap
mapping = record {
  version = pos 1;
  mappings = record { selector = team_one; workload = codes "coding" } ∷ [];
}

abbrev used : Record
used = record {
  model = codes "large";
  key = [];
  team = codes "one";
  route = [];
  agent = [];
  served_identity_known = false;
  input = some 1000;
  output = some 200;
  cache_read = some 300;
  cache_write = some 0;
  input_min = none;
  input_max = none;
  count = 1;
  issue = [];
  failed = false;
}

abbrev records : List Record
records = used ∷ record used { failed = true } ∷ record used { output = none; count = 2 } ∷ []

fresh : Calculator
unfolding new_calculator validate_prices valid_date validate_scenario valid_selector
    validate_factors cost fraction one workload_of fresh_move hash_selector rat is_blank
    find_mapping
fresh =
    value_or
      (record {
        config = record { prices = prices; factors = factors; mapping = []; routing = false };
        state = record {
          moves = [];
          baseline = 0;
          covered = 0;
          unmapped_count = 0;
          excluded = λ _. 0;
        };
        failures = none;
        failed_input = 0;
        failed_output = 0;
        failed_read = 0;
        failed_write = 0;
      })
      (new_calculator by_length this_year prices factors scenario mapping)

used_up : Calculator
unfolding fresh add_records add add_state add_failure is_covered identities identity_value
    record_issue record_workload check_record check_overlap any_unknown ratio_sum any_touched select
    has_hash exclude cover add_count add_sums set_bucket request_input record_cost same_hash
    same_workload price bucket_cost input_cost output_cost add_bounded text_eq
used_up = value_or fresh (add_records by_length fresh records)

records-IsCounted_example : IsCounted (sum_by (λ r. r.count) records) used_up
unfolding used_up one_of
records-IsCounted_example =
    records-IsCounted by_length this_year prices factors scenario mapping records {k = fresh}
      {l = used_up} refl refl

result-AreOrdered_example :
    AreOrdered (result used_up) × ((x : State) → AreOrdered (priced_failures used_up x).report)
unfolding used_up one_of
result-AreOrdered_example =
    result-AreOrdered by_length this_year prices factors scenario mapping records {k = fresh}
      {l = used_up} refl refl
