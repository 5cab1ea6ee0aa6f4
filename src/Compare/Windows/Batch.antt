-- ===== src/Compare/Windows/Batch.antt =====
-- internal/compare/compare.go: what `validateWindow` establishes of a batch of snapshots, whose sequences do not conflict.
use fleetdiff.Base.{
  ℕ, ◌+◌, ◌≤◌, ◌≡◌, refl, sym, ap, ◌∙◌, subst, Bool, true, false, ◌&&◌, not, Option, none, some,
  List, [], ◌∷◌, ltb, ◌==◌, ==_iff, if-cases, Bool-cases, inl, inr, length, arith, All, IsSorted,
  sum_by, Result, ok, err, err-ne-ok, >>=-eq-ok, ok-injective, fold_ok,
}
use fleetdiff.Text.{Text, codes, text_eq, text_eq-eq, text_eq_self}
use fleetdiff.Compare.Envelope.{Envelope, look_up}
use fleetdiff.Compare.TopK.{validate_top_k}
use fleetdiff.Compare.TopK.Contracted.{IsContracted, validate_top_k-IsContracted}
use fleetdiff.Compare.Provenance.{max_files, max_input_bytes, or_zero}
use fleetdiff.Compare.Windows.{
  SketchState, SnapshotId, id_of, same_snapshot, find_seen, conflicts, missing_exceeds, Validation,
  check_payload, check_encoded, validate_snapshot, validate_window,
}
use fleetdiff.Compare.Windows.Valid.{IsSnapshot, check_payloads_lem}

and_parts : (a b : Bool) → (a && b) ≡ true → (a ≡ true) × (b ≡ true)
and_parts true b h = (refl, h)
and_parts false b h = cc

same_snapshot-eq : (i j : SnapshotId) → same_snapshot i j ≡ true → i ≡ j
unfolding same_snapshot
same_snapshot-eq i j h =
    let (abc, d) =
      and_parts
        (text_eq i.id_producer j.id_producer
          && text_eq i.id_epoch j.id_epoch
          && i.id_start == j.id_start)
        (i.id_sequence == j.id_sequence) h in
    let (ab, c) =
      and_parts (text_eq i.id_producer j.id_producer && text_eq i.id_epoch j.id_epoch)
        (i.id_start == j.id_start) abc in
    let (a, b) =
      and_parts (text_eq i.id_producer j.id_producer) (text_eq i.id_epoch j.id_epoch) ab in
    let p = text_eq-eq i.id_producer j.id_producer a in
    let q = text_eq-eq i.id_epoch j.id_epoch b in
    let r = (==_iff i.id_start j.id_start).0 c in
    let s = (==_iff i.id_sequence j.id_sequence).0 d in cc

same_snapshot_self : (i : SnapshotId) → same_snapshot i i ≡ true
unfolding same_snapshot
same_snapshot_self i = simp (
  text_eq_self,
  (==_iff i.id_start i.id_start).1 refl,
  (==_iff i.id_sequence i.id_sequence).1 refl,
)

-- Two entries of one identity have one hash.
abbrev pub Agree : SnapshotId × ℕ → SnapshotId × ℕ → Type 0
Agree a b = same_snapshot b.0 a.0 ≡ true → a.1 ≡ b.1

not_below : (a b : ℕ) → ltb a b ≡ false → b ≤ a
not_below a b h = ground arith

no_conflict : (g h : ℕ) → not (g == h) ≡ false → g ≡ h
no_conflict g h c = ground (arith, c)

agrees_with_all :
    (i : SnapshotId) (h : ℕ) (seen : List (SnapshotId × ℕ))
    → IsSorted Agree seen
    → conflicts (find_seen seen i) h ≡ false
    → All (Agree (i, h)) seen
unfolding find_seen conflicts
agrees_with_all i h [] s c = tt
agrees_with_all i h ((j, g) ∷ seen) s c = elim (Bool-cases (same_snapshot j i)) [
  | inl e ↦
      let same : g ≡ h = no_conflict g h (rw e at c) in
      let same_id : j ≡ i = same_snapshot-eq j i e in
      (
        λ f. sym same,
        subst (λ i. All (Agree (i, h)) seen) same_id
            (subst (λ h. All (Agree (j, h)) seen) same s.0),
      )
  | inr e ↦ (λ f. cc, agrees_with_all i h seen s.1 (rw e at c))
]

module _ (parse : Text → Option SketchState) (marshal : Envelope → Result Text)
    (digest : Text → ℕ) where
  hash_of : Result Text → ℕ
  hash_of (ok t) = digest t
  hash_of (err x) = 0

  size_of : Result Text → ℕ
  size_of (ok t) = length t
  size_of (err x) = 0

  -- The identities and hashes of the snapshots, the last first, in front of those before.
  unfoldable pub noted : List (SnapshotId × ℕ) → List Envelope → List (SnapshotId × ℕ)
  unfolding hash_of
  noted seen [] = seen
  noted seen (e ∷ es) = noted ((id_of e, hash_of (marshal e)) ∷ seen) es

  -- The bytes of the snapshots' encodings.
  unfoldable pub encoded_size : List Envelope → ℕ
  unfolding size_of
  encoded_size [] = 0
  encoded_size (e ∷ es) = size_of (marshal e) + encoded_size es

  record IsEncoded (e : Envelope) (v : Validation) (left : ℕ) (w : Validation) : Type 0 where
    contracted : IsContracted e
    covered :
        (n : ℕ)
        → look_up e.counters (codes "requests") ≡ some n
        → or_zero (look_up e.counters (codes "missing_token_usage")) ≤ n
    remaining : w.remaining ≡ left
    encoded : w.encoded_remaining + size_of (marshal e) ≡ v.encoded_remaining
    agreeing : IsSorted Agree v.seen → IsSorted Agree w.seen
    seen : w.seen ≡ (id_of e, hash_of (marshal e)) ∷ v.seen

  covered_lem :
      (e : Envelope) (o : Option ℕ)
      → missing_exceeds e o ≡ false
      → (n : ℕ) → o ≡ some n
      → or_zero (look_up e.counters (codes "missing_token_usage")) ≤ n
  unfolding missing_exceeds
  covered_lem e none h n q = cc
  covered_lem e (some m) h n q =
      let same : m ≡ n = ap or_zero q in omega (arith, not_below m _ h, same)

  check_encoded-IsEncoded :
      (e : Envelope) (v w : Validation) (left : ℕ) (encoded : Text)
      → marshal e ≡ ok encoded
      → check_encoded parse marshal digest e v left encoded ≡ ok w
      → IsEncoded e v left w
  unfolding check_encoded hash_of size_of
  check_encoded-IsEncoded e v w left encoded m h =
      if-cases (ltb v.encoded_remaining (length encoded)) _ _ (λ c g. err-ne-ok g)
        (λ c g.
          let (u, contract, g2) = >>=-eq-ok (validate_top_k e) _ g in
          if-cases (missing_exceeds e (look_up e.counters (codes "requests"))) _ _
            (λ c g. err-ne-ok g)
            (λ d g3.
              if-cases (conflicts (find_seen v.seen (id_of e)) (digest encoded)) _ _
                (λ c g. err-ne-ok g)
                (λ f g4. subst (IsEncoded e v left) (ok-injective g4) (record {
                  contracted = validate_top_k-IsContracted e contract;
                  covered = covered_lem e (look_up e.counters (codes "requests")) d;
                  remaining = refl;
                  encoded = rw m (ground (arith, c));
                  agreeing = λ s. (agrees_with_all (id_of e) (digest encoded) v.seen s f, s);
                  seen = rw m refl;
                }))
                g3)
            g2)
        h

  -- What a batch that passes is: every snapshot is sound, the sketches and
  -- the encoded snapshots take no more bytes than may be, and two snapshots
  -- of one producer, epoch, window and sequence have one hash.
  pub record IsBatch (left encoded_left : ℕ) (before : List (SnapshotId × ℕ)) (es : List Envelope)
      (w : Validation) : Type 0 where
    pub snapshots : All (IsSnapshot parse marshal digest) es
    pub bytes : w.remaining + sum_by (λ e. sum_by (λ s. length s.1.data_bytes) e.sketches) es ≡ left
    pub encoded : w.encoded_remaining + encoded_size es ≡ encoded_left
    pub seen : w.seen ≡ noted before es
    pub agreeing : IsSorted Agree before → IsSorted Agree w.seen

  validate_all-IsBatch :
      (es : List Envelope) (v w : Validation)
      → fold_ok (validate_snapshot parse marshal digest) v es ≡ ok w
      → IsBatch v.remaining v.encoded_remaining v.seen es w
  unfolding validate_snapshot noted encoded_size
  validate_all-IsBatch [] v w h =
      subst (IsBatch v.remaining v.encoded_remaining v.seen []) (ok-injective h) (record {
        snapshots = tt;
        bytes = omega arith;
        encoded = omega arith;
        seen = refl;
        agreeing = λ s. s;
      })
  validate_all-IsBatch (e ∷ es) v w h =
      let (u, p, q) = >>=-eq-ok (validate_snapshot parse marshal digest v e) _ h in
      if-cases (ltb 16 (length e.sketches)) _ _ (λ c g. err-ne-ok g)
        (λ c g.
          let (left, p1, g1) =
            >>=-eq-ok (fold_ok (check_payload parse marshal digest) v.remaining e.sketches) _ g in
          let (encoded, p2, g2) = >>=-eq-ok (marshal e) _ g1 in
          let (sum, frequent) =
            check_payloads_lem parse marshal digest v.remaining e.sketches left p1 in
          let i = check_encoded-IsEncoded e v u left encoded p2 g2 in
          let rest = validate_all-IsBatch es u w q in
          record {
            snapshots = (
              record {
                few = ground (arith, c);
                contracted = i.contracted;
                frequent = frequent;
                covered = i.covered;
              },
              rest.snapshots,
            );
            bytes = omega (arith, rest.bytes, i.remaining);
            encoded = omega (arith, rest.encoded, i.encoded);
            seen = rest.seen ∙ ap (λ seen. noted seen es) i.seen;
            agreeing = λ s. rest.agreeing (i.agreeing s);
          })
        p

-- A batch that `validateWindow` accepts: it has at most 512 snapshots, each with at most 16 sketches; the sketches take no
-- more than 32 MiB in all, and neither do the encoded snapshots; each keeps its measurement contracts and counts no more requests without usage than requests; the
-- items of each sketch of frequent items fit its weight; and two snapshots of one identity have one hash.
pub validate_window-IsBatch :
    (parse : Text → Option SketchState) (marshal : Envelope → Result Text) (digest : Text → ℕ)
    (es : List Envelope) (w : Validation)
    → validate_window parse marshal digest es ≡ ok w
    → (length es ≤ max_files)
      × IsBatch parse marshal digest max_input_bytes max_input_bytes [] es w
      × IsSorted Agree (noted parse marshal digest [] es)
unfolding validate_window
validate_window-IsBatch parse marshal digest es w h =
    if-cases (ltb max_files (length es)) _ _ (λ c g. err-ne-ok g)
      (λ c g.
        let i = validate_all-IsBatch parse marshal digest es _ w g in
        (ground (arith, c), i, subst (IsSorted Agree) i.seen (i.agreeing tt)))
      h
