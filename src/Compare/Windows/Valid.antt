-- ===== src/Compare/Windows/Valid.antt =====
-- internal/compare/compare.go: what `validateWindow` establishes of a batch of snapshots.
use fleetdiff.Base.{
  ℕ, ◌+◌, ◌-◌, ◌≤◌, ◌≡◌, refl, true, ◌&&◌, ◌||◌, not, Option, none, some, List, [], ◌∷◌, ltb, ◌==◌,
  if-cases, length, arith, All, sum_by, Result, ok, err-ne-ok, >>=-eq-ok, ok-injective, fold_ok,
}
use fleetdiff.Text.{Text, codes, text_eq}
use fleetdiff.Compare.Envelope.{Payload, Envelope, look_up}
use fleetdiff.Compare.Ranking.{Bounds}
use fleetdiff.Compare.TopK.Contracted.{IsContracted}
use fleetdiff.Compare.Provenance.{or_zero}
use fleetdiff.Compare.Windows.{SketchState, assign, check_items, check_parsed, check_payload}

-- The lower bounds of the items fit into the weight together, and each upper bound alone.
pub record IsConsistent (s : SketchState) (bs : List Bounds) : Type 0 where
  pub returned : s.items ≡ some bs
  pub together : sum_by (λ b. b.least) bs ≤ s.total
  pub each : All (λ b. b.most ≤ s.total) bs
  pub exact : s.max_error ≡ 0 → sum_by (λ b. b.least) bs ≡ s.total

assign_lem :
    (total left : ℕ) (bs : List Bounds) (n : ℕ)
    → assign total left bs ≡ ok n
    → (n + sum_by (λ b. b.least) bs ≡ left) × All (λ b. b.most ≤ total) bs
unfolding assign
assign_lem total left [] n h = let q : left ≡ n = ok-injective h in (omega arith, tt)
assign_lem total left (b ∷ bs) n h =
    if-cases (ltb total b.most || ltb left b.least) _ _ (λ e g. err-ne-ok g)
      (λ e g.
        let (sum, all) = assign_lem total (left - b.least) bs n g in
        let fits : b.least ≤ left = ground (arith, e) in
        let tops : b.most ≤ total = ground (arith, e) in (omega arith, (tops, all)))
      h

check_items-IsConsistent :
    (s : SketchState) (o : Option (List Bounds))
    → s.items ≡ o
    → check_items s o ≡ ok tt
    → (bs : List Bounds) × IsConsistent s bs
unfolding check_items
check_items-IsConsistent s none q h = err-ne-ok h
check_items-IsConsistent s (some bs) q h =
    let (left, p, r) = >>=-eq-ok (assign s.total s.total bs) _ h in
    let (sum, all) = assign_lem s.total s.total bs left p in
    if-cases (s.max_error == 0 && not (left == 0)) _ _ (λ e g. err-ne-ok g)
      (λ e g. (
        bs,
        record {
          returned = q;
          together = omega arith;
          each = all;
          exact = λ z. let none_left : left ≡ 0 = ground (arith, e, z) in omega arith;
        },
      ))
      r

abbrev pub IsSound : Option SketchState → Type 0
IsSound o = (s : SketchState) × (bs : List Bounds) × (o ≡ some s) × IsConsistent s bs

check_parsed-IsSound : (o : Option SketchState) → check_parsed o ≡ ok tt → IsSound o
unfolding check_parsed
check_parsed-IsSound none h = err-ne-ok h
check_parsed-IsSound (some s) h =
    let (bs, i) = check_items-IsConsistent s s.items refl h in (s, bs, refl, i)

module _ (parse : Text → Option SketchState) (marshal : Envelope → Result Text)
    (digest : Text → ℕ) where
  -- What a snapshot that passes is.
  pub record IsSnapshot (e : Envelope) : Type 0 where
    pub few : length e.sketches ≤ 16
    pub contracted : IsContracted e
    pub frequent :
        All
          (λ s. text_eq s.1.kind (codes "frequent_items") ≡ true → IsSound (parse s.1.data_bytes))
          e.sketches
    pub covered :
        (n : ℕ)
        → look_up e.counters (codes "requests") ≡ some n
        → or_zero (look_up e.counters (codes "missing_token_usage")) ≤ n

  check_payload_lem :
      (left : ℕ) (s : Text × Payload) (n : ℕ)
      → check_payload parse marshal digest left s ≡ ok n
      → (n + length s.1.data_bytes ≡ left)
        × (text_eq s.1.kind (codes "frequent_items") ≡ true → IsSound (parse s.1.data_bytes))
  unfolding check_payload
  check_payload_lem left (name, p) n h =
      if-cases (ltb left (length p.data_bytes)) _ _ (λ e g. err-ne-ok g)
        (λ e g.
          let fits : length p.data_bytes ≤ left = ground (arith, e) in
          if-cases (not (text_eq p.kind (codes "frequent_items"))) _ _
            (λ k x. let q = ok-injective x in (omega arith, λ f. cc))
            (λ k x.
              let (u, r, y) = >>=-eq-ok (check_parsed (parse p.data_bytes)) _ x in
              let q = ok-injective y in
              (omega arith, λ f. check_parsed-IsSound (parse p.data_bytes) r))
            g)
        h

  pub check_payloads_lem :
      (left : ℕ) (ss : List (Text × Payload)) (n : ℕ)
      → fold_ok (check_payload parse marshal digest) left ss ≡ ok n
      → (n + sum_by (λ s. length s.1.data_bytes) ss ≡ left)
        × All
            (λ s. text_eq s.1.kind (codes "frequent_items") ≡ true → IsSound (parse s.1.data_bytes))
            ss
  check_payloads_lem left [] n h = let q = ok-injective h in (omega arith, tt)
  check_payloads_lem left (s ∷ ss) n h =
      let (m, p, q) = >>=-eq-ok (check_payload parse marshal digest left s) _ h in
      let (sum, one) = check_payload_lem left s m p in
      let (sums, all) = check_payloads_lem m ss n q in (omega arith, (one, all))
