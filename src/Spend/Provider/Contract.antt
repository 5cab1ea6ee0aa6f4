-- ===== src/Spend/Provider/Contract.antt =====
-- internal/spend/provider_counts.go: `ProviderCountContract`, `readProviderContract` and `populationStatus`.
use fleetdiff.Base.{
  ℕ, suc, Bool, true, false, ◌&&◌, ◌||◌, not, Option, none, some, List, [], ◌∷◌, ltb, leb, ◌==◌,
  if◌then◌else◌, length, Result, ok, err, ◌>>=◌, max_uint64, provider_contract, ℤ, pos, negsuc,
}
use fleetdiff.Text.{Text, codes, text_eq, one_of}
use fleetdiff.Text.Digits.{parse_uint}
use fleetdiff.BoundedJson.{Token, Json, bool, number, object, Members, no_members, member, decode}
use fleetdiff.Spend.Period.{Time, truncate_day}

pub record Population : Type 0 where
  pub account : Text
  pub project : Text
  pub regions : Text
  pub gateway : Text
  pub operation_scope : Text

-- A time with the offset of its zone.
pub record Stamp : Type 0 where
  pub offset : ℤ
  pub time : Time

pub record CountContract : Type 0 where
  pub schema : Text
  pub contract_start : Stamp
  pub contract_stop : Stamp
  pub retrieved : Stamp
  pub pagination_complete : Bool
  pub population : Population
  pub count_basis : Text
  pub counting_units_match : Bool
  pub token_units_match : Bool
  pub settlement_seconds : ℕ

-- `fields[name]`
unfoldable pub field_of : Members → Text → Option Json
field_of no_members name = none
field_of (member k v ms) name =
    let rest = field_of ms name in if text_eq k name then some v else rest

members : Members → ℕ
members no_members = 0
members (member k v ms) = suc (members ms)

is_present : Option Json → Bool
is_present none = false
is_present (some v) = true

all_present : Members → List Text → Bool
unfolding field_of is_present
all_present ms [] = true
all_present ms (name ∷ names) = is_present (field_of ms name) && all_present ms names

-- At most (2^63 - 1) / 10^9 seconds.
margin_in_range : Option ℕ → Bool
margin_in_range none = false
margin_in_range (some n) = leb n 9223372036

is_margin : Option Json → Bool
unfolding margin_in_range
is_margin (some (number s)) = margin_in_range (parse_uint max_uint64 s)
is_margin _ = false

is_bool : Option Json → Bool
is_bool (some (bool b)) = true
is_bool _ = false

is_population : Option Json → Bool
unfolding all_present members
is_population (some (object ms)) =
    members ms == 5
    && all_present ms (
        codes "account"
        ∷ codes "project_or_workspace"
        ∷ codes "region_set"
        ∷ codes "gateway"
        ∷ codes "operation"
        ∷ [])
is_population _ = false

-- The members of the document, before it is decoded into the contract.
unfoldable pub fields_checked : Json → Bool
unfolding all_present members is_margin is_bool is_population
fields_checked (object ms) =
    leb 9 (members ms)
    && leb (members ms) 10
    && all_present ms (
        codes "schema"
        ∷ codes "start_utc"
        ∷ codes "end_exclusive_utc"
        ∷ codes "retrieved_at_utc"
        ∷ codes "pagination_complete"
        ∷ codes "population"
        ∷ codes "count_basis"
        ∷ codes "counting_units_match"
        ∷ codes "token_units_match"
        ∷ [])
    && (not (members ms == 10) || is_margin (field_of ms (codes "settlement_margin_seconds")))
    && is_bool (field_of ms (codes "pagination_complete"))
    && is_bool (field_of ms (codes "counting_units_match"))
    && is_bool (field_of ms (codes "token_units_match"))
    && is_population (field_of ms (codes "population"))
fields_checked _ = false

is_zero : ℤ → Bool
is_zero (pos n) = n == 0
is_zero (negsuc n) = false

stamp_checked : ℕ → Stamp → Bool
unfolding is_zero
stamp_checked now s =
    is_zero s.offset && leb 1970 s.time.year && leb s.time.year 2200 && leb s.time.instant now

unfoldable pub population_states : CountContract → List Text
population_states c =
    c.population.account ∷ c.population.project ∷ c.population.regions ∷ c.population.gateway
    ∷ c.population.operation_scope ∷ []

all_states : List Text → Bool
all_states [] = true
all_states (s ∷ ss) =
    one_of s (codes "matched" ∷ codes "unverified" ∷ codes "mismatch" ∷ []) && all_states ss

-- The checks on the decoded contract.
unfoldable pub contract_checked : ℕ → CountContract → Bool
unfolding stamp_checked all_states population_states
contract_checked now c =
    text_eq c.schema (codes "fleetdiff-provider-counts/v1")
    && stamp_checked now c.contract_start
    && stamp_checked now c.contract_stop
    && stamp_checked now c.retrieved
    && ltb c.contract_start.time.instant c.contract_stop.time.instant
    && c.contract_start.time.instant == truncate_day c.contract_start.time.instant
    && c.contract_stop.time.instant == truncate_day c.contract_stop.time.instant
    && leb c.contract_stop.time.instant c.retrieved.time.instant
    && all_states (population_states c)
    && one_of c.count_basis (
        codes "bedrock_invocations"
        ∷ codes "openai_model_requests"
        ∷ codes "primary_requests"
        ∷ codes "tokens_only"
        ∷ [])
    && not (text_eq c.count_basis (codes "tokens_only") && c.counting_units_match)

contract_of : ℕ → Option CountContract → Result (Option CountContract)
unfolding contract_checked
contract_of now none = err provider_contract
contract_of now (some c) = if contract_checked now c then ok (some c) else err provider_contract

module _ (tokens : Text → List Token × Bool) (unmarshal : Text → Option CountContract) where
  contract_data : ℕ → Text → Result (Option CountContract)
  unfolding contract_of fields_checked
  contract_data now data_bytes =
      if ltb 8192 (length data_bytes)
      then err provider_contract
      else provider_error (decode 2 tokens data_bytes 32) >>= λ v.
          if fields_checked v then contract_of now (unmarshal data_bytes) else err provider_contract
    where
      provider_error : Result Json → Result Json
      provider_error (ok v) = ok v
      provider_error (err e) = err provider_contract

  -- `readProviderContract`: no path, or what reading the file gives.
  unfoldable pub read_contract : ℕ → Option (Option Text) → Result (Option CountContract)
  unfolding contract_data
  read_contract now none = ok none
  read_contract now (some none) = err provider_contract
  read_contract now (some (some data_bytes)) = contract_data now data_bytes

-- How the provider's count stands to the rows, of a day or of a model.
pub data ProviderStatus : Type 0 where
  complete_day partial_day unsettled_day : ProviderStatus
  population_matched population_unverified population_mismatch provider_export_incomplete :
      ProviderStatus
  unmapped_spend_model provider_counts_missing request_count_unavailable : ProviderStatus
  counts_match provider_exceeds_logged_rows logged_rows_exceed_provider : ProviderStatus

unfoldable pub population_status : Option CountContract → ProviderStatus
unfolding population_states
population_status none = population_unverified
population_status (some c) =
    if not c.pagination_complete
    then provider_export_incomplete
    else if one_of (codes "mismatch") (population_states c)
    then population_mismatch
    else if one_of (codes "unverified") (population_states c)
    then population_unverified
    else population_matched
