-- ===== src/Compare/CacheQuality/Agrees.antt =====
-- internal/compare/cache.go and cache_summary.go: the two routines that accept cache counters agree.
use fleetdiff.Base.{
  ℕ, ◌≡◌, refl, ap, ◌∙◌, Bool, false, ◌&&◌, ◌||◌, not, Option, none, some, List, [], ◌∷◌, ltb, ◌==◌,
  if◌then◌else◌, arith,
}
use fleetdiff.Text.{Text, codes}
use fleetdiff.Compare.Envelope.{look_up}
use fleetdiff.Compare.CacheQuality.{
  CacheReason, accepted, counters_missing, observations_missing, not_all_reported, has_issues,
  totals_disagree, observation_states, observation_key, or_next, state_reason, states_reason,
  totals_reason, checked_reason, state_complete, states_complete, totals_complete, present_reason,
  cache_quality, requests_complete, field_complete, is_accepted,
}

abbrev unless : Bool → Bool → Bool
unless d b = if d then false else b

is_accepted-or_next :
    (q r : CacheReason) → is_accepted (or_next q r) ≡ (is_accepted q && is_accepted r)
unfolding or_next is_accepted
is_accepted-or_next accepted r = refl
is_accepted-or_next counters_missing r = refl
is_accepted-or_next observations_missing r = refl
is_accepted-or_next not_all_reported r = refl
is_accepted-or_next has_issues r = refl
is_accepted-or_next totals_disagree r = refl

module _ (c : List (Text × ℕ)) (n : ℕ) where
  state_lem :
      (s : Text) (o : Option ℕ) → is_accepted (state_reason c n s o) ≡ state_complete c n s o
  unfolding state_reason state_complete is_accepted
  state_lem s none = refl
  state_lem s (some v) = ground arith

  states_lem :
      (field : Text) (ss : List Text)
      → is_accepted (states_reason c n field ss) ≡ states_complete c n field ss
  unfolding states_reason states_complete is_accepted
  states_lem field [] = refl
  states_lem field (s ∷ ss) =
      let o = look_up c (observation_key field s) in
      is_accepted-or_next (state_reason c n s o) (states_reason c n field ss)
      ∙ ap (λ b. b && is_accepted (states_reason c n field ss)) (state_lem s o)
      ∙ ap (λ b. state_complete c n s o && b) (states_lem field ss)

  totals_lem :
      (io co : Option ℕ)
      → is_accepted (present_reason c (some n) io co)
        ≡ totals_complete c n (codes "cache_read_input") io co
  unfolding present_reason checked_reason totals_complete totals_reason is_accepted
  totals_lem none co = refl
  totals_lem (some i) none = refl
  totals_lem (some i) (some t) =
      let a = states_reason c n (codes "input") observation_states in
      let b = states_reason c n (codes "cache_read_input") observation_states in
      is_accepted-or_next a (or_next b (totals_reason c n i t))
      ∙ ap (λ x. is_accepted a && x) (is_accepted-or_next b (totals_reason c n i t))
      ∙ swapped (is_accepted a) (is_accepted b) (ltb i t || (n == 0 && not (i == 0)))
      ∙ ap (λ x. unless (ltb i t || (n == 0 && not (i == 0))) (x && is_accepted b))
          (states_lem (codes "input") observation_states)
      ∙ ap
          (λ y.
            unless (ltb i t || (n == 0 && not (i == 0)))
              (states_complete c n (codes "input") observation_states && y))
          (states_lem (codes "cache_read_input") observation_states)
    where
      swapped :
          (x y d : Bool)
          → (x && (y && is_accepted (if d then totals_disagree else accepted)))
            ≡ (if d then false else x && y)
      swapped x y d = ground arith

-- Both routines accept the same snapshots: the question of the cache is answered only where the summaries' cache
-- windows would be complete.
pub cache_quality-field_complete :
    (c : List (Text × ℕ))
    → is_accepted (cache_quality c) ≡ field_complete c (codes "cache_read_input")
unfolding cache_quality field_complete is_accepted
cache_quality-field_complete c = at (look_up c (codes "requests"))
  where
    at :
        (o : Option ℕ)
        → is_accepted (
            present_reason c o
              (look_up c (codes "input_tokens"))
              (look_up c (codes "cache_read_input_tokens")))
          ≡ requests_complete c (codes "cache_read_input") o
    at none = refl
    at (some n) =
        totals_lem c n (look_up c (codes "input_tokens"))
          (look_up c (codes "cache_read_input_tokens"))
