-- ===== src/Spend/Replay.antt =====
-- internal/spend/reprice.go: `readReprice`, which turns the rows of a file into the records that the repricing takes. The
-- visitor of the records is a parameter, with its state; the gaps are counts, and not yet sentences.
pub mod Attribution
pub mod Split
mod Tests
use fleetdiff.Base.{
  ℕ, ◌+◌, ◌-◌, ◌==◌, Bool, true, false, ◌&&◌, ◌||◌, not, Option, none, some, List, [], ◌∷◌, ltb,
  if◌then◌else◌, add64, sub64, Result, ok, err, ◌>>=◌, fold_ok, missing_request, bad_timestamp,
  unfinished_record, duplicate_request, no_selected_records, unfinished_period,
}
use fleetdiff.Text.{Text, codes, text_eq, is_empty}
use fleetdiff.Accounting.Names.{Field, input, output, cache_read_input, cache_write_input, total_of}
use fleetdiff.Accounting.Tokens.{Observation, tokens}
use fleetdiff.Spend.Row.{
  Row, value, operation, is_supported, request_id, call_type, model, model_id, custom_llm_provider,
  api_key, team_id, status, start_time, end_time, original_model_group, agent_id,
}
use fleetdiff.Spend.Quality.{Quality}
use fleetdiff.Spend.Usage.{attributes, classify}
use fleetdiff.Spend.Cache.{valid_cache_field}
use fleetdiff.Spend.Period.{Period, Time, within, timestamp, parse_period}
use fleetdiff.Spend.Digests.{add_digest, duplicated}
use fleetdiff.Spend.Routing.Fields.{
  FieldState, known, text_state, model_state, selected_model_known,
}
use fleetdiff.Spend.Routing.Accumulator.{public_model_id}
use fleetdiff.Spend.Replay.Attribution.{Source, no_attribution, count_routing}
use fleetdiff.Reprice.Add.{Record}

-- A count whose field is valid.
split_part : Observation → Field → Option ℕ
split_part o f = if valid_cache_field o f then some (o.metric (total_of f)) else none

-- The reason for which usage is not priced.
unfoldable pub usage_issue : Row → Quality → Text
usage_issue r q =
    if not (q.invalid == 0)
    then codes "invalid_usage"
    else if not (q.missing == 0)
    then codes "missing_usage"
    else if not (q.total_mismatch == 0)
    then codes "component_total_mismatch"
    else if not (q.total_missing == 0)
    then codes "missing_total_field"
    else if not (q.zero_unknown == 0)
    then codes "zero_only_origin_unknown"
    else if not (q.unknown_status == 0)
    then codes "unknown_status"
    else if is_empty (value r end_time)
    then codes "missing_end_time"
    else []

-- `*r.CacheWrite > *r.Input-*r.CacheRead`, on `uint64`.
overfull : Option ℕ → Option ℕ → Option ℕ → Bool
overfull (some i) (some n) (some w) = ltb (sub64 i n) w
overfull _ _ _ = false

checked_split : Record → Record
unfolding overfull
checked_split v =
    if overfull v.input v.cache_read v.cache_write
    then record v { cache_read = none; cache_write = none; issue = codes "invalid_usage" }
    else v

unfoldable pub with_usage : Row → Observation → Record → Record
unfolding split_part checked_split
with_usage r o v = checked_split (record v {
  input = split_part o input;
  output = split_part o output;
  cache_read = split_part o cache_read_input;
  cache_write = split_part o cache_write_input;
  issue = usage_issue r (classify r o);
})

check_end : ℕ → ℕ → Option ℕ → Result (Unit {0})
check_end start now none = err bad_timestamp
check_end start now (some e) = if ltb e start || ltb now e then err unfinished_record else ok tt

is_complete : Record → Bool
is_complete v = all_some v.input v.output && all_some v.cache_read v.cache_write
  where
    all_some : Option ℕ → Option ℕ → Bool
    all_some (some a) (some b) = true
    all_some _ _ = false

module _ (catalog : Text → Option Text) where
  public_or_own : Text → Text → Text
  public_or_own public own = if is_empty public then own else public

  -- The record of a row, before its usage is read. `PublicModelID` reads no identity.
  unfoldable pub bare_record : Bool → Row → Record
  unfolding public_or_own
  bare_record routing r = record {
    model =
        public_or_own
          (public_model_id (λ k v. none) catalog (value r model) (value r custom_llm_provider))
          (value r model);
    key = value r api_key;
    team = value r team_id;
    route = if routing then value r original_model_group else [];
    agent = if routing then value r agent_id else [];
    served_identity_known = routing && selected_model_known r;
    input = none;
    output = none;
    cache_read = none;
    cache_write = none;
    input_min = none;
    input_max = none;
    count = 1;
    issue = [];
    failed = text_eq (value r status) (codes "failure");
  }

  module _ (digest : Text → ℕ) (time : Text → Option ℕ) (p : Period) (now : ℕ)
      (routing : Bool) where
    -- The record of a row with a supported type of call, and whether it is complete usage of a failed request.
    unfoldable pub usage_record : Row → ℕ → Result (Record × Bool)
    unfolding check_end is_complete
    usage_record r start = do
      _ ←
          let checked = check_end start now (time (value r end_time)) in
          if is_empty (value r end_time) then ok tt else checked
      o ← tokens (attributes r)
      let v = with_usage r o (bare_record routing r)
      ok (v, not ((classify r o).failed == 0) && is_empty v.issue && is_complete v)

    module _ {S : Type 0} (visit : S → Record → Result S) where
      visit_supported : Source → S → Row → ℕ → Result (Source × S)
      visit_supported s x r start = usage_record r start >>= λ v. visit x v.0 >>= λ y.
          ok (record s { failed_usage = if v.1 then add64 s.failed_usage 1 else s.failed_usage }, y)

      visit_unsupported : Source → S → Row → Result (Source × S)
      visit_unsupported s x r =
          visit x (record (bare_record routing r) { issue = codes "unsupported_call_type" })
          >>= λ y. ok (record s { any_unsupported = true }, y)

      visit_selected : Source → S → Row → ℕ → Result (Source × S)
      unfolding visit_supported visit_unsupported
      visit_selected s x r start =
          let t = count_routing routing r (record s { rows = add64 s.rows 1 }) in
          let supported = visit_supported t x r start in
          let unsupported = visit_unsupported t x r in
          if is_supported r then supported else unsupported

      visit_at : Source → S → Row → Option ℕ → Result (Source × S)
      unfolding visit_selected
      visit_at s x r none = err bad_timestamp
      visit_at s x r (some t) =
          let chosen = visit_selected s x r t in
          if within p t then chosen else ok (record s { outside = add64 s.outside 1 }, x)

      -- The body of the reading.
      unfoldable pub replay_row : Source × S → Row → Result (Source × S)
      unfolding visit_at
      replay_row (s, x) r =
          let next =
            visit_at (record s { seen = add_digest s.seen (digest (value r request_id)) }) x r
              (time (value r start_time)) in
          if is_empty (value r request_id) then err missing_request else next

      unfoldable pub new_source : Source
      new_source = record {
        rows = 0;
        outside = 0;
        attribution = no_attribution;
        by_call_type = [];
        any_unsupported = false;
        failed_usage = 0;
        seen = [];
      }

      check_source : Source → Result (Unit {0})
      check_source s =
          if duplicated s.seen
          then err duplicate_request
          else if s.rows == 0
          then err no_selected_records
          else ok tt

      -- `readReprice`, of a period that is over.
      unfoldable pub replay_rows : S → List Row → Result (Source × S)
      unfolding check_source
      replay_rows x rs =
          let read =
            fold_ok replay_row (new_source, x) rs >>= λ y. check_source y.0 >>= λ _. ok y in
          if ltb now p.stop then err unfinished_period else read
