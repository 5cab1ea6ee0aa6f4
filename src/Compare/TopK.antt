-- ===== src/Compare/TopK.antt =====
-- internal/compare/topk.go: the markers of measurement contracts, `validateTopK` and `projectTopK`.
pub mod Marker
pub mod Contracted
pub mod Projected
use fleetdiff.Base.{
  ℕ, zero, suc, ◌+◌, Bool, true, false, ◌&&◌, ◌||◌, not, Option, none, some, List, [], ◌∷◌, ◌++◌,
  leb, ◌==◌, if◌then◌else◌, keep, map, sort, length, Result, ok, err, ◌>>=◌, fold_ok, topk_marker,
  topk_missing, topk_kind,
}
use fleetdiff.Text.{Text, codes, text_eq, text_before, one_of}
use fleetdiff.Compare.Envelope.{Payload, Envelope, look_up, is_present}

-- `topKUnits`
abbrev pub top_k_units : List (Text × Text)
top_k_units =
    (codes "top_prompts", codes "configured-weight")
    ∷ (codes "top_users", codes "attributed-reported-tokens")
    ∷ (codes "top_sessions", codes "attributed-reported-tokens")
    ∷ (codes "top_docs", codes "attributed-reported-tokens")
    ∷ (codes "top_mcp_sessions", codes "attributed-reported-tokens")
    ∷ (codes "top_mcp_methods", codes "attributed-reported-tokens")
    ∷ (codes "top_mcp_resources", codes "attributed-reported-tokens")
    ∷ (codes "top_prompts_requests", codes "attributed-model-attempts")
    ∷ (codes "top_users_requests", codes "attributed-model-attempts")
    ∷ (codes "top_sessions_requests", codes "attributed-model-attempts")
    ∷ (codes "top_docs_requests", codes "attributed-model-attempts")
    ∷ (codes "top_mcp_sessions_requests", codes "attributed-model-attempts")
    ∷ (codes "top_mcp_methods_requests", codes "attributed-model-attempts")
    ∷ (codes "top_mcp_resources_requests", codes "attributed-model-attempts")
    ∷ []

unfoldable pub is_top_k : Text → Bool
unfolding is_present look_up
is_top_k name = is_present (look_up top_k_units name)

abbrev pub marker_prefix : Text
marker_prefix = codes "topk_contract.v1."

-- `strings.HasPrefix` with `strings.TrimPrefix`.
unfoldable pub strip_prefix : Text → Text → Option Text
strip_prefix [] s = some s
strip_prefix (c ∷ p) [] = none
strip_prefix (c ∷ p) (d ∷ s) = let rest = strip_prefix p s in if c == d then rest else none

-- The text cut at its last dot, `strings.LastIndexByte`.
unfoldable pub or_here : ℕ → Text → Option (Text × Text) → Option (Text × Text)
or_here c s (some (a, b)) = some (c ∷ a, b)
or_here c s none = if c == b'.' then some ([], s) else none

unfoldable pub cut_last : Text → Option (Text × Text)
unfolding or_here
cut_last [] = none
cut_last (c ∷ s) = or_here c s (cut_last s)

unfoldable pub is_hex : ℕ → Bool
is_hex c = (leb b'0' c && leb c b'9') || (leb b'a' c && leb c b'f')

unfoldable pub all_hex : Text → Bool
unfolding is_hex
all_hex [] = true
all_hex (c ∷ s) = is_hex c && all_hex s

unfoldable pub measurement_of : Option (Text × Text) → Option Text
unfolding all_hex
measurement_of none = none
measurement_of (some ([], b)) = none
measurement_of (some (c ∷ a, b)) =
    if not (length b == 32) || not (all_hex b) then none else some (c ∷ a)

unfoldable pub after_prefix : Option Text → Option Text
unfolding measurement_of cut_last
after_prefix none = none
after_prefix (some rest) = measurement_of (cut_last rest)

-- `markerMeasurement`
unfoldable pub marker_measurement : Text → Option Text
unfolding after_prefix strip_prefix
marker_measurement name = after_prefix (strip_prefix marker_prefix name)

unfoldable pub is_marker : Text → Bool
unfolding is_present strip_prefix
is_marker name = is_present (strip_prefix marker_prefix name)

unfoldable pub add_marker : List (Text × Payload) → List Text → ℕ → Option Text → Result (List Text)
unfolding is_present look_up
add_marker sketches markers n none = err topk_marker
add_marker sketches markers n (some m) =
    if not (n == 0) || one_of m markers || not (is_present (look_up sketches m))
    then err topk_marker
    else ok (m ∷ markers)

-- The loop over the counters: the measurements that have a marker.
unfoldable pub check_counter : List (Text × Payload) → List Text → Text × ℕ → Result (List Text)
unfolding is_marker add_marker marker_measurement
check_counter sketches markers (name, n) =
    if is_marker name then add_marker sketches markers n (marker_measurement name) else ok markers

unfoldable pub check_sketch : List Text → Unit {0} → Text × Payload → Result (Unit {0})
unfolding is_top_k
check_sketch markers u (name, p) =
    if not (is_top_k name)
    then ok u
    else if not (text_eq p.kind (codes "frequent_items"))
    then err topk_kind
    else if not (text_eq name (codes "top_prompts")) && not (one_of name markers)
    then err topk_missing
    else ok u

-- `validateTopK`
unfoldable pub validate_top_k : Envelope → Result (Unit {0})
unfolding check_counter check_sketch
validate_top_k e = fold_ok (check_counter e.sketches) [] e.counters >>= λ markers.
    fold_ok (check_sketch markers) tt e.sketches

-- How many of the snapshots have the measurement.
unfoldable pub count_present : Text → List Envelope → ℕ
unfolding is_present look_up
count_present name [] = 0
count_present name (e ∷ es) =
    let rest = count_present name es in
    if is_present (look_up e.sketches name) then suc rest else rest

-- It stands in some snapshots, but not in all of them.
unfoldable pub is_dropped : List Envelope → Text → Bool
unfolding count_present is_top_k
is_dropped all name =
    is_top_k name && not (count_present name all == 0) && not (count_present name all == length all)

unfoldable pub keeps_marker : List Envelope → Option Text → Bool
unfolding is_dropped
keeps_marker all none = true
keeps_marker all (some m) = not (is_dropped all m)

-- `project`, of one snapshot.
unfoldable pub project : List Envelope → Envelope → Envelope
unfolding is_dropped keeps_marker marker_measurement
project all e = record e {
  sketches = keep (λ s. not (is_dropped all s.0)) e.sketches;
  counters = keep (λ c. keeps_marker all (marker_measurement c.0)) e.counters;
}

names_of : List (Text × Text) → List Text
names_of [] = []
names_of ((n, u) ∷ us) = n ∷ names_of us

dropped_names : List Envelope → List Text
unfolding is_dropped names_of text_before
dropped_names all = sort text_before (keep (is_dropped all) (names_of top_k_units))

-- The contract of one measurement: the sketch and the markers of it, in the first snapshot.
probe_of : Envelope → Text → Payload → Envelope → Envelope
unfolding marker_measurement
probe_of first name p e = record first {
  sketches = (name, p) ∷ [];
  counters = keep (λ c. is_of (marker_measurement c.0)) e.counters;
}
  where
    is_of : Option Text → Bool
    is_of none = false
    is_of (some m) = text_eq m name

-- `summary.Compatible` is an argument.
module _ (compatible : Envelope → Envelope → Result (Unit {0})) (first : Envelope) where
  check_contract :
      List (Text × Envelope)
      → Text
      → Envelope
      → Option Payload
      → Option Envelope
      → Result (List (Text × Envelope))
  unfolding probe_of
  check_contract contracts name e none old = ok contracts
  check_contract contracts name e (some p) (some previous) =
      compatible previous (probe_of first name p e) >>= λ _. ok contracts
  check_contract contracts name e (some p) none = ok ((name, probe_of first name p e) ∷ contracts)

  check_snapshot : Envelope → List (Text × Envelope) → Text × Text → Result (List (Text × Envelope))
  unfolding check_contract look_up
  check_snapshot e contracts (name, unit) =
      check_contract contracts name e (look_up e.sketches name) (look_up contracts name)

  check_snapshots : List (Text × Envelope) → Envelope → Result (List (Text × Envelope))
  unfolding check_snapshot
  check_snapshots contracts e = fold_ok (check_snapshot e) contracts top_k_units

  -- `projectTopK`; `first` is the first snapshot before. The names that are dropped come last.
  unfoldable pub project_top_k :
      List Envelope → List Envelope → Result (List Envelope × List Envelope × List Text)
  unfolding check_snapshots project dropped_names
  project_top_k before after = fold_ok check_snapshots [] (before ++ after) >>= λ _. ok (
    map (project (before ++ after)) before,
    map (project (before ++ after)) after,
    dropped_names (before ++ after),
  )
