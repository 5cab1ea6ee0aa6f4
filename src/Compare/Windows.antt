-- ===== src/Compare/Windows.antt =====
-- internal/compare/compare.go: `validateWindow`. The parsing of a sketch, the encoding of an envelope and the hash of
-- the encoding are arguments.
pub mod Valid
pub mod Batch
use fleetdiff.Base.{
  ℕ, ◌+◌, ◌-◌, Bool, true, false, ◌&&◌, ◌||◌, not, Option, none, some, List, [], ◌∷◌, ltb, ◌==◌,
  if◌then◌else◌, length, Result, ok, err, ◌>>=◌, fold_ok, batch_size, size_limit, payload_count,
  sketch_state, frequent_total, window_missing_usage, conflicting_sequence,
}
use fleetdiff.Text.{Text, codes, text_eq}
use fleetdiff.Compare.Envelope.{Payload, Envelope, look_up}
use fleetdiff.Compare.Ranking.{Bounds}
use fleetdiff.Compare.TopK.{validate_top_k}
use fleetdiff.Compare.Provenance.{max_files, max_input_bytes, or_zero}

-- What `frequentitems.Parse` yields: the weight, the largest error and the bounds of the items it returns, unless the
-- query fails.
pub record SketchState : Type 0 where
  pub total : ℕ
  pub max_error : ℕ
  pub items : Option (List Bounds)

-- What the items leave unassigned of the weight.
unfoldable pub assign : ℕ → ℕ → List Bounds → Result ℕ
assign total left [] = ok left
assign total left (b ∷ bs) =
    let rest = assign total (left - b.least) bs in
    if ltb total b.most || ltb left b.least then err frequent_total else rest

unfoldable pub check_items : SketchState → Option (List Bounds) → Result (Unit {0})
unfolding assign
check_items s none = err sketch_state
check_items s (some bs) = assign s.total s.total bs >>= λ left.
    if s.max_error == 0 && not (left == 0) then err frequent_total else ok tt

unfoldable pub check_parsed : Option SketchState → Result (Unit {0})
unfolding check_items
check_parsed none = err sketch_state
check_parsed (some s) = check_items s s.items

-- A snapshot with the hash of its encoding.
pub record SnapshotId : Type 0 where
  pub id_producer : Text
  pub id_epoch : Text
  pub id_start : ℕ
  pub id_sequence : ℕ

abbrev pub id_of : Envelope → SnapshotId
id_of e = record {
  id_producer = e.producer;
  id_epoch = e.epoch;
  id_start = e.window_start;
  id_sequence = e.sequence;
}

unfoldable pub same_snapshot : SnapshotId → SnapshotId → Bool
unfolding text_eq
same_snapshot a b =
    text_eq a.id_producer b.id_producer
    && text_eq a.id_epoch b.id_epoch
    && a.id_start == b.id_start
    && a.id_sequence == b.id_sequence

-- `seen[id]`; the first entry of an id is the only one that counts, as all are equal.
unfoldable pub find_seen : List (SnapshotId × ℕ) → SnapshotId → Option ℕ
find_seen [] i = none
find_seen ((j, h) ∷ seen) i =
    let rest = find_seen seen i in if same_snapshot j i then some h else rest

unfoldable pub conflicts : Option ℕ → ℕ → Bool
conflicts none h = false
conflicts (some g) h = not (g == h)

unfoldable pub missing_exceeds : Envelope → Option ℕ → Bool
unfolding or_zero look_up
missing_exceeds e none = false
missing_exceeds e (some requests) =
    ltb requests (or_zero (look_up e.counters (codes "missing_token_usage")))

-- What is left of the bytes of sketches and of encodings, and the snapshots so far.
pub record Validation : Type 0 where
  pub remaining : ℕ
  pub encoded_remaining : ℕ
  pub seen : List (SnapshotId × ℕ)

module _ (parse : Text → Option SketchState) (marshal : Envelope → Result Text)
    (digest : Text → ℕ) where
  unfoldable pub check_payload : ℕ → Text × Payload → Result ℕ
  unfolding check_parsed
  check_payload left (n, p) =
      if ltb left (length p.data_bytes)
      then err size_limit
      else if not (text_eq p.kind (codes "frequent_items"))
      then ok (left - length p.data_bytes)
      else check_parsed (parse p.data_bytes) >>= λ _. ok (left - length p.data_bytes)

  unfoldable pub check_encoded : Envelope → Validation → ℕ → Text → Result Validation
  unfolding missing_exceeds find_seen conflicts
  check_encoded e v left encoded =
      if ltb v.encoded_remaining (length encoded)
      then err size_limit
      else validate_top_k e >>= λ _.
          if missing_exceeds e (look_up e.counters (codes "requests"))
          then err window_missing_usage
          else if conflicts (find_seen v.seen (id_of e)) (digest encoded)
          then err conflicting_sequence
          else ok (record {
            remaining = left;
            encoded_remaining = v.encoded_remaining - length encoded;
            seen = (id_of e, digest encoded) ∷ v.seen;
          })

  unfoldable pub validate_snapshot : Validation → Envelope → Result Validation
  unfolding check_payload check_encoded
  validate_snapshot v e =
      if ltb 16 (length e.sketches)
      then err payload_count
      else fold_ok check_payload v.remaining e.sketches >>= λ left.
          marshal e >>= λ encoded. check_encoded e v left encoded

  -- `validateWindow`
  unfoldable pub validate_window : List Envelope → Result Validation
  unfolding validate_snapshot
  validate_window es =
      if ltb max_files (length es)
      then err batch_size
      else fold_ok validate_snapshot
          (record { remaining = max_input_bytes; encoded_remaining = max_input_bytes; seen = [] })
          es
