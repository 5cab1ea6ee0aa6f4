-- ===== src/Compare/CacheQuality.antt =====
-- internal/compare/cache.go: `cacheQuality` and the question it answers; internal/compare/cache_summary.go:
-- `summaryCacheFieldComplete`.
pub mod Agrees
use fleetdiff.Base.{
  ℕ, ◌*◌, ◌≤◌, ◌≡◌, refl, ap, ◌∙◌, Bool, true, false, ◌&&◌, ◌||◌, not, Option, none, some, List, [],
  ◌∷◌, ◌++◌, ltb, ◌==◌, if◌then◌else◌, Bool-cases, inl, inr, arith,
}
use fleetdiff.Text.{Text, codes, text_eq}
use fleetdiff.Compare.Envelope.{Envelope, look_up, is_present}

-- The answers of `cacheQuality`; `accepted` is the empty one.
pub data CacheReason : Type 0 where
  accepted counters_missing observations_missing not_all_reported has_issues totals_disagree :
      CacheReason

abbrev pub observation_states : List Text
observation_states =
    codes "reported"
    ∷ codes "missing"
    ∷ codes "invalid"
    ∷ codes "conflict"
    ∷ codes "subset_violation"
    ∷ []

unfoldable pub observation_key : Text → Text → Text
observation_key field state = codes "token_observations." ++ field ++ b'.' ∷ state

-- The first reason that is not empty.
or_next : CacheReason → CacheReason → CacheReason
or_next accepted r = r
or_next q r = q

module _ (counters : List (Text × ℕ)) (requests : ℕ) where
  state_reason : Text → Option ℕ → CacheReason
  state_reason state none = observations_missing
  state_reason state (some n) =
      if text_eq state (codes "reported")
      then (if n == requests then accepted else not_all_reported)
      else if n == 0
      then accepted
      else has_issues

  states_reason : Text → List Text → CacheReason
  unfolding state_reason or_next look_up observation_key
  states_reason field [] = accepted
  states_reason field (s ∷ ss) =
      or_next (state_reason s (look_up counters (observation_key field s))) (states_reason field ss)

  totals_reason : ℕ → ℕ → CacheReason
  totals_reason input cache =
      if ltb input cache || (requests == 0 && not (input == 0)) then totals_disagree else accepted

  checked_reason : ℕ → ℕ → CacheReason
  unfolding states_reason totals_reason
  checked_reason input cache = or_next (states_reason (codes "input") observation_states) (
      or_next (states_reason (codes "cache_read_input") observation_states)
        (totals_reason input cache))

  -- The loops of `summaryCacheFieldComplete`.
  state_complete : Text → Option ℕ → Bool
  state_complete state none = false
  state_complete state (some n) = if text_eq state (codes "reported") then n == requests else n == 0

  states_complete : Text → List Text → Bool
  unfolding state_complete look_up observation_key
  states_complete field [] = true
  states_complete field (s ∷ ss) =
      state_complete s (look_up counters (observation_key field s)) && states_complete field ss

  totals_complete : Text → Option ℕ → Option ℕ → Bool
  unfolding states_complete
  totals_complete field (some input) (some tokens) =
      if ltb input tokens || (requests == 0 && not (input == 0))
      then false
      else states_complete (codes "input") observation_states
        && states_complete field observation_states
  totals_complete field _ _ = false

present_reason : List (Text × ℕ) → Option ℕ → Option ℕ → Option ℕ → CacheReason
unfolding checked_reason
present_reason c (some requests) (some input) (some cache) = checked_reason c requests input cache
present_reason c _ _ _ = counters_missing

-- `cacheQuality`
unfoldable pub cache_quality : List (Text × ℕ) → CacheReason
unfolding present_reason look_up
cache_quality c =
    present_reason c (look_up c (codes "requests")) (look_up c (codes "input_tokens"))
      (look_up c (codes "cache_read_input_tokens"))

requests_complete : List (Text × ℕ) → Text → Option ℕ → Bool
unfolding totals_complete look_up
requests_complete c field none = false
requests_complete c field (some requests) =
    totals_complete c requests field (look_up c (codes "input_tokens"))
      (look_up c (field ++ codes "_tokens"))

-- `summaryCacheFieldComplete`
unfoldable pub field_complete : List (Text × ℕ) → Text → Bool
unfolding requests_complete look_up
field_complete c field = requests_complete c field (look_up c (codes "requests"))

unfoldable pub is_accepted : CacheReason → Bool
is_accepted accepted = true
is_accepted _ = false
