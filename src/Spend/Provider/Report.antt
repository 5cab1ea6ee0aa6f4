-- ===== src/Spend/Provider/Report.antt =====
-- internal/spend/provider_counts.go: `result`, with `providerDifference` and `dayStatus`. The catalog of public models
-- is a parameter.
pub mod Filled
pub mod Sound
pub mod Days
pub mod Finished
pub mod Reported
use fleetdiff.Base.{
  ℕ, zero, suc, ◌+◌, ◌-◌, ◌*◌, Bool, true, false, ◌&&◌, ◌||◌, not, Option, none, some, List, [],
  ◌∷◌, ◌++◌, map, ltb, leb, ◌==◌, if◌then◌else◌, length, Result, ok, err, ◌>>=◌, fold_ok, sort,
  add64, sub64, max_int64, ℤ, pos, negsuc,
}
use fleetdiff.Text.{Text, codes, text_eq, is_empty}
use fleetdiff.Text.Digits.{show}
use fleetdiff.Accounting.Number.{add_bounded}
use fleetdiff.Spend.Period.{Period, Time, day, truncate_day}
use fleetdiff.Spend.Provider.{ProviderModel, same_model, Measurements}
use fleetdiff.Spend.Provider.Contract.{
  CountContract, ProviderStatus, complete_day, partial_day, unsettled_day, population_matched,
  population_unverified, population_mismatch, provider_export_incomplete, unmapped_spend_model,
  provider_counts_missing, request_count_unavailable, counts_match, provider_exceeds_logged_rows,
  logged_rows_exceed_provider, population_status,
}
use fleetdiff.Spend.Provider.Days.{period_days}
use fleetdiff.Spend.Provider.Entries.{ProviderKey, ProviderEntry, Entries, Builder}

-- `int64(n)` of a `uint64`.
unfoldable pub to_int64 : ℕ → ℤ
to_int64 n = if leb n max_int64 then pos n else negsuc (18446744073709551615 - n)

-- `providerDifference`; the difference of two `int64` wraps around as that of two `uint64` does.
unfoldable pub provider_difference : Option ℕ → Option ℕ → Option ℤ
unfolding to_int64 sub64
provider_difference (some p) (some l) = some (to_int64 (sub64 p l))
provider_difference _ _ = none

pub record ModelCoverage : Type 0 where
  pub shown_provider : Text
  pub shown_model : Text
  pub model_status : ProviderStatus
  pub comparable : Bool
  pub provider_requests : Option ℕ
  pub logged_rows : ℕ
  pub failed_rows : ℕ
  pub unknown_status_rows : ℕ
  pub request_difference : Option ℤ
  pub provider_input : Option ℕ
  pub provider_output : Option ℕ
  pub logged_input : Option ℕ
  pub logged_output : Option ℕ
  pub input_difference : Option ℤ
  pub output_difference : Option ℤ

pub record DayCoverage : Type 0 where
  pub population : ProviderStatus
  pub day_date : Text
  pub day_status : ProviderStatus
  pub day_logged_rows : ℕ
  pub unmapped_logged_rows : ℕ
  pub daily_requests : Option ℕ
  pub day_provider_requests : Option ℕ
  pub only_provider_differs : Bool
  pub models : List ModelCoverage

unfoldable pub is_complete : ProviderStatus → Bool
is_complete complete_day = true
is_complete _ = false

unfoldable pub is_matched : ProviderStatus → Bool
is_matched population_matched = true
is_matched _ = false

unfoldable pub refuses : ProviderStatus → Bool
refuses population_mismatch = true
refuses provider_export_incomplete = true
refuses _ = false

-- `end.Add(margin).After(c.Retrieved)`
retrieved_early : Option CountContract → ℕ → Bool
retrieved_early none stop = false
retrieved_early (some c) stop =
    ltb c.retrieved.time.instant (stop + c.settlement_seconds * 1000000000)

-- `dayStatus`: the first period that holds the whole day decides.
unfoldable pub day_status_of : Option CountContract → ℕ → ℕ → List Period → ProviderStatus
unfolding retrieved_early truncate_day
day_status_of c now d [] = partial_day
day_status_of c now d (p ∷ ps) =
    let rest = day_status_of c now d ps in
    if leb p.start d && leb (d + day) p.stop
    then (if ltb (truncate_day now) (d + day) || retrieved_early c (d + day)
        then unsettled_day
        else complete_day)
    else rest

-- The states of the loop over the entries: the days, and the labels of the models that are not disclosed.
pub record Filling : Type 0 where
  pub days : List DayCoverage
  pub labels : List (ProviderModel × Text)

unfoldable pub label_of : List (ProviderModel × Text) → ProviderModel → Option Text
unfolding same_model
label_of [] m = none
label_of ((n, l) ∷ ls) m = let rest = label_of ls m in if same_model n m then some l else rest

new_label : List (ProviderModel × Text) → Text
unfolding show
new_label ls = codes "provider-model-" ++ show (length ls + 1)

unfoldable pub labelled :
    List (ProviderModel × Text) → ProviderModel → Option Text → Text × List (ProviderModel × Text)
unfolding new_label
labelled ls m (some l) = (l, ls)
labelled ls m none = (new_label ls, (m, new_label ls) ∷ ls)

unfoldable pub shown_if : Bool → ℕ → Option ℕ
shown_if true n = none
shown_if false n = some n

sign_status : ℤ → ProviderStatus
sign_status (pos zero) = counts_match
sign_status (pos (suc n)) = provider_exceeds_logged_rows
sign_status (negsuc n) = logged_rows_exceed_provider

unfoldable pub requests_of : Option Measurements → Option ℕ
requests_of none = none
requests_of (some m) = m.requests

input_of : Option Measurements → Option ℕ
input_of none = none
input_of (some m) = m.input_tokens

output_of : Option Measurements → Option ℕ
output_of none = none
output_of (some m) = m.output_tokens

unfoldable pub status_of : Bool → Option Measurements → Option ℤ → ProviderStatus
unfolding sign_status
status_of mapped none z = if mapped then provider_counts_missing else unmapped_spend_model
status_of mapped (some m) none = request_count_unavailable
status_of mapped (some m) (some z) = sign_status z

unfoldable pub counting_units : Option CountContract → Bool
counting_units none = false
counting_units (some c) = c.counting_units_match

unfoldable pub token_units : Option CountContract → Bool
token_units none = false
token_units (some c) = c.token_units_match

unfoldable pub is_some {ℓ} : {A : Type ℓ} → Option A → Bool
is_some none = false
is_some (some a) = true

-- The status and the difference, by the day and the population.
unfoldable pub settle : DayCoverage → ModelCoverage → ModelCoverage
unfolding is_complete refuses
settle d m =
    if not (is_complete d.day_status)
    then record m { model_status = d.day_status; request_difference = none }
    else if refuses d.population
    then record m { model_status = d.population; request_difference = none }
    else m

unfoldable pub compare_units : Option CountContract → DayCoverage → ModelCoverage → ModelCoverage
unfolding is_complete is_matched counting_units token_units is_some provider_difference
compare_units c d m =
    let right = is_complete d.day_status && is_matched d.population in
    let tokens = right && token_units c in
    record m {
      comparable = right && counting_units c && is_some m.request_difference;
      input_difference =
          if tokens then provider_difference m.provider_input m.logged_input else none;
      output_difference =
          if tokens then provider_difference m.provider_output m.logged_output else none;
    }

-- The counts of an entry, under the name of its model.
unfoldable pub model_counts : ProviderKey → ProviderEntry → Text × Text → ModelCoverage
unfolding status_of requests_of input_of output_of shown_if provider_difference
model_counts k e name =
    let difference = provider_difference (requests_of e.measurements) (some e.rows) in
    record {
      shown_provider = name.0;
      shown_model = name.1;
      model_status = status_of k.mapped e.measurements difference;
      comparable = false;
      provider_requests = requests_of e.measurements;
      logged_rows = e.rows;
      failed_rows = e.failed;
      unknown_status_rows = e.unknown;
      request_difference = difference;
      provider_input = input_of e.measurements;
      provider_output = output_of e.measurements;
      logged_input = shown_if e.input_unavailable e.input;
      logged_output = shown_if e.output_unavailable e.output;
      input_difference = none;
      output_difference = none;
    }

-- The model of an entry, as the day and the contract allow.
unfoldable pub model_of :
    Option CountContract → DayCoverage → ProviderKey → ProviderEntry → Text × Text → ModelCoverage
unfolding model_counts settle compare_units
model_of c d k e name = compare_units c d (settle d (model_counts k e name))

-- `d.ProviderRequests`, with the requests of one more model.
unfoldable pub add_requests : Option ℕ → Bool → Option ℕ → Result (Option ℕ)
add_requests total false r = ok none
add_requests total true none = ok none
add_requests none true (some n) = ok none
add_requests (some s) true (some n) = add_bounded s n >>= λ sum. ok (some sum)

unfoldable pub add_model : DayCoverage → Bool → ModelCoverage → Result DayCoverage
unfolding add_requests
add_model d mapped m = add_requests d.day_provider_requests mapped m.provider_requests >>= λ r.
    ok (record d {
      day_logged_rows = add64 d.day_logged_rows m.logged_rows;
      unmapped_logged_rows =
          if mapped then d.unmapped_logged_rows else add64 d.unmapped_logged_rows m.logged_rows;
      day_provider_requests = r;
      models = d.models ++ m ∷ [];
    })
