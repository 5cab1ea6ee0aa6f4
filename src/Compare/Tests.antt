-- ===== src/Compare/Tests.antt =====
-- Concrete rankings, markers, snapshots and reports.
use fleetdiff.Base.{
  ℕ, zero, suc, ◌≤◌, ◌≡◌, refl, true, false, Option, none, some, List, [], ◌∷◌, ◌++◌, arith, length,
  ok, IsSorted, value_or,
}
use fleetdiff.Text.{Text, codes, text_eq, one_of}
use fleetdiff.Compare.Envelope.{Payload, Envelope}
use fleetdiff.Compare.Ranking.{Sketch, Concentration, rank_candidates}
use fleetdiff.Compare.Ranking.Ranked.{IsSketchOf, IsRanking, is_listed, rank_candidates-IsRanking}
use fleetdiff.Compare.TopK.{
  strip_prefix, cut_last, all_hex, marker_measurement, validate_top_k, project_top_k,
}
use fleetdiff.Compare.TopK.Marker.{
  marker_of, IsMarker, marker_measurement-marker_of, marker_measurement-IsMarker,
}
use fleetdiff.Compare.TopK.Contracted.{IsContracted, validate_top_k-IsContracted}
use fleetdiff.Compare.TopK.Projected.{IsProjected, project_top_k-IsProjected}
use fleetdiff.Compare.Provenance.{
  max_files, max_input_bytes, with_usage_provenance, Each, with_usage_provenance-Each,
}
use fleetdiff.Compare.CacheQuality.{cache_quality, field_complete, is_accepted}
use fleetdiff.Compare.CacheQuality.Agrees.{cache_quality-field_complete}
use fleetdiff.Compare.UsageSource.{Counter, SourceReport, usage_source}
use fleetdiff.Compare.UsageSource.Sound.{IsProviderReported, usage_source-IsProviderReported}
use fleetdiff.Compare.Windows.{SketchState, Validation, validate_window}
use fleetdiff.Compare.Windows.Batch.{Agree, IsBatch, noted, validate_window-IsBatch}

-- Exact sketches: item 1 weighs 5 before and 9 after, all others weigh nothing.
abbrev weight : ℕ → ℕ → ℕ
weight n zero = 0
weight n (suc zero) = n
weight n (suc (suc k)) = 0

abbrev sketch : ℕ → Sketch
sketch n = record {
  frequent = some (1 ∷ []);
  lower = weight n;
  upper = weight n;
  total_weight = n;
  max_error = 0;
}

sketch-IsSketchOf : (n : ℕ) → IsSketchOf (1 ∷ []) (weight n) (sketch n)
unfolding is_listed
sketch-IsSketchOf n = record {
  bounds = record { above = λ k. omega arith; below = λ k. omega arith };
  returned = refl;
  missed = missed;
}
  where
    missed : (k : ℕ) → is_listed k (1 ∷ []) ≡ false → weight n k ≤ 0
    missed zero h = omega arith
    missed (suc zero) h = cc
    missed (suc (suc k)) h = omega arith

rank_candidates-IsRanking_example :
    (c : Concentration) × (rank_candidates
        (λ n. none)
        (codes "top")
        (some (sketch 5))
        (some (sketch 9))
      ≡ ok c)
    × IsRanking (1 ∷ []) (1 ∷ []) (weight 5) (weight 9) c
rank_candidates-IsRanking_example =
    rank_candidates-IsRanking (λ n. none) (codes "top") (sketch 5) (sketch 9) (1 ∷ []) (1 ∷ [])
      (weight 5) (weight 9) (sketch-IsSketchOf 5) (sketch-IsSketchOf 9)

abbrev digest : Text
digest = codes "0123456789abcdef0123456789abcdef"

marker_measurement-marker_of_example :
    marker_measurement (marker_of (codes "top_users") digest) ≡ some (codes "top_users")
unfolding all_hex
marker_measurement-marker_of_example =
    marker_measurement-marker_of b't' (codes "op_users") digest (record { size = refl; hex = refl })

marker_measurement-IsMarker_example :
    IsMarker
      (codes "topk_contract.v1.top_users.0123456789abcdef0123456789abcdef")
      (codes "top_users")
unfolding marker_measurement strip_prefix cut_last all_hex
marker_measurement-IsMarker_example =
    marker_measurement-IsMarker
      (codes "topk_contract.v1.top_users.0123456789abcdef0123456789abcdef") (codes "top_users") refl

abbrev payload : Payload
payload = record { kind = codes "frequent_items"; data_bytes = codes "ab" }

abbrev snapshot : Envelope
snapshot = record {
  producer = codes "p";
  epoch = codes "e";
  sequence = 1;
  window_start = 0;
  window_duration = 60;
  counters =
      (codes "requests", 3)
      ∷ (codes "topk_contract.v1.top_users.0123456789abcdef0123456789abcdef", 0)
      ∷ [];
  sketches = (codes "top_users", payload) ∷ [];
}

abbrev bare_snapshot : Envelope
bare_snapshot = record snapshot { sequence = 2; counters = []; sketches = [] }

validate_top_k-IsContracted_example : IsContracted snapshot
unfolding validate_top_k one_of
validate_top_k-IsContracted_example = validate_top_k-IsContracted snapshot refl

projected : List Envelope × List Envelope × List Text
unfolding project_top_k
projected =
    value_or ([], [], [])
      (project_top_k (λ a b. ok tt) snapshot (snapshot ∷ []) (bare_snapshot ∷ []))

project_top_k-IsProjected_example :
    IsProjected (snapshot ∷ bare_snapshot ∷ []) (projected.0 ++ projected.1) (codes "top_users")
unfolding projected text_eq
project_top_k-IsProjected_example =
    project_top_k-IsProjected (λ a b. ok tt) snapshot (snapshot ∷ []) (bare_snapshot ∷ [])
      (codes "top_users") {r = projected} refl

declared_batch : List Envelope
unfolding with_usage_provenance
declared_batch = value_or [] (with_usage_provenance (λ e. ok tt) (snapshot ∷ bare_snapshot ∷ []))

with_usage_provenance-Each_example : Each (snapshot ∷ bare_snapshot ∷ []) declared_batch
unfolding declared_batch
with_usage_provenance-Each_example =
    with_usage_provenance-Each (λ e. ok tt) (snapshot ∷ bare_snapshot ∷ []) declared_batch refl

cache_quality-field_complete_example :
    is_accepted (cache_quality snapshot.counters)
    ≡ field_complete snapshot.counters (codes "cache_read_input")
cache_quality-field_complete_example = cache_quality-field_complete snapshot.counters

abbrev source_counters : Text → List Counter
source_counters field =
    record {
      counter_name = codes "usage_provenance.v1." ++ field ++ codes ".provider_reported";
      count_before = 3;
      count_after = 4;
    }
    ∷ record {
      counter_name = codes "usage_provenance.v1." ++ field ++ codes ".inferred";
      count_before = 0;
      count_after = 0;
    }
    ∷ record {
      counter_name = codes "usage_provenance.v1." ++ field ++ codes ".unavailable";
      count_before = 0;
      count_after = 0;
    }
    ∷ record {
      counter_name = codes "usage_provenance.v1." ++ field ++ codes ".unknown";
      count_before = 0;
      count_after = 0;
    }
    ∷ []

abbrev source_report : SourceReport
source_report = record {
  usage_before = some (record { requests = 3; missing = 0 });
  usage_after = some (record { requests = 4; missing = 0 });
  counters = source_counters (codes "input") ++ source_counters (codes "output");
  complete = true;
}

usage_source-IsProviderReported_example : IsProviderReported source_report
unfolding usage_source text_eq
usage_source-IsProviderReported_example = usage_source-IsProviderReported source_report refl

abbrev parse_sketch : Text → Option SketchState
parse_sketch s =
    some (record { total = 3; max_error = 0; items = some (record { least = 3; most = 3 } ∷ []) })

abbrev start : Validation
start = record { remaining = 0; encoded_remaining = 0; seen = [] }

validated : Validation
unfolding validate_window
validated =
    value_or start
      (validate_window parse_sketch (λ e. ok e.producer) length (snapshot ∷ bare_snapshot ∷ []))

validate_window-IsBatch_example :
    (length (snapshot ∷ bare_snapshot ∷ []) ≤ max_files)
    × IsBatch parse_sketch
        (λ e. ok e.producer)
        length
        max_input_bytes
        max_input_bytes
        []
        (snapshot ∷ bare_snapshot ∷ [])
        validated
    × IsSorted Agree
        (noted parse_sketch (λ e. ok e.producer) length [] (snapshot ∷ bare_snapshot ∷ []))
unfolding validated text_eq validate_top_k one_of fleetdiff.Compare.Windows.same_snapshot
validate_window-IsBatch_example =
    validate_window-IsBatch parse_sketch (λ e. ok e.producer) length (snapshot ∷ bare_snapshot ∷ [])
      validated refl
