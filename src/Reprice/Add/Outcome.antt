-- ===== src/Reprice/Add/Outcome.antt =====
-- What one record does to the counts and to the baseline in internal/reprice/calculate.go: `Calculator.Add`.
use fleetdiff.Base.{
  ℕ, ◌+◌, ◌≡◌, refl, sym, ap, ◌∙◌, subst, Bool, true, false, not, Option, none, some, List, arith,
  ok, err, >>=-eq-ok, ok-injective, if-eq, err-ne-ok, if◌then◌else◌, ◌==◌, ◌&&◌, target_tier,
}
use fleetdiff.Text.{Text}
use fleetdiff.Accounting.Number.{add_bounded, add_bounded-eq-ok}
use fleetdiff.Reprice.Config.{Workload, is_some}
use fleetdiff.Reprice.Calculator.{
  HashedSelector, Issue, invalid_usage, missing_split, zero_origin_unknown,
  unpriced_reserved_bucket, unusable_usage, unknown_served_identity, unknown_model_price,
  outside_price_tier, unsupported_call_type, missing_scope_identity, invalid_cache_partition,
  Config, State,
}
use fleetdiff.Reprice.Add.{
  Record, add_count, exclude, exclude_moves, cover, cover_moves, exclude_or_cover, record_issue,
  record_cost, issue_number, check_record, identities, check_overlap, record_workload, add_state,
  is_covered, any_past_tier, count_unmapped, any_touched, bucket_of, record_sums,
}

-- The observations that an issue excluded, over all issues.
unfoldable pub excluded_total : (Issue → ℕ) → ℕ
excluded_total m =
    m invalid_usage
    + m missing_split
    + m zero_origin_unknown
    + m unpriced_reserved_bucket
    + m unusable_usage
    + m unknown_served_identity
    + m unknown_model_price
    + m outside_price_tier
    + m unsupported_call_type
    + m missing_scope_identity
    + m invalid_cache_partition

excluded_total-add_count :
    (m : Issue → ℕ) (k : Issue) (n : ℕ) {l : Issue → ℕ}
    → add_count m k n ≡ ok l
    → excluded_total l ≡ excluded_total m + n
unfolding add_count excluded_total
excluded_total-add_count m k n h =
    let (v, hv, h1) = >>=-eq-ok (add_bounded (m k) n) _ h in
    sym (ap excluded_total (ok-injective h1)) ∙ at k v (add_bounded-eq-ok (m k) n hv).0
  where
    at :
        (k : Issue) (v : ℕ)
        → v ≡ m k + n
        → excluded_total (λ j. if issue_number j == issue_number k then v else m j)
          ≡ excluded_total m + n
    at invalid_usage v e = omega arith
    at _ v e = omega arith

-- What a step does: it excludes the record, or prices it.
pub data Outcome (c : Config) (s : State) (r : Record) (free : Bool) (t : State) : Type 0 where
  excluded :
      free ≡ false
      → t.covered ≡ s.covered
      → t.baseline ≡ s.baseline
      → excluded_total t.excluded ≡ excluded_total s.excluded + r.count
      → Outcome c s r free t
  covered :
      free ≡ true
      → t.covered ≡ s.covered + r.count
      → t.baseline ≡ s.baseline + record_cost c r
      → excluded_total t.excluded ≡ excluded_total s.excluded
      → Outcome c s r free t

exclude-Outcome :
    (c : Config) (s : State) (r : Record) (ids : List HashedSelector) (i : Issue) {t : State}
    → exclude c s r ids i ≡ ok t
    → Outcome c s r false t
unfolding exclude
exclude-Outcome c s r ids i h =
    let (m, hm, h1) = >>=-eq-ok (add_count s.excluded i r.count) _ h in
    let (ms, hs, h2) = >>=-eq-ok (exclude_moves c.routing r ids s.moves) _ h1 in
    subst (Outcome c s r false) (ok-injective h2)
      (Outcome.excluded refl refl refl (excluded_total-add_count s.excluded i r.count hm))

cover-Outcome :
    (c : Config) (s : State) (r : Record) (ids : List HashedSelector) (w : Option Workload)
    {t : State}
    → cover c s r ids w ≡ ok t
    → Outcome c s r true t
unfolding cover
cover-Outcome c s r ids w h =
    if-eq (any_past_tier c r ids _ s.moves) (err target_tier) _ err-ne-ok
      (λ g.
        let (n, hn, h1) = >>=-eq-ok (add_bounded s.covered r.count) _ g in
        let (u, hu, h2) =
          >>=-eq-ok
            (count_unmapped (any_touched c.routing r ids s.moves && not (is_some w))
              s.unmapped_count r.count)
            _ h1 in
        let (ms, hs, h3) =
          >>=-eq-ok (cover_moves c.routing r ids s.moves (bucket_of w) (record_sums r)) _ h2 in
        subst (Outcome c s r true) (ok-injective h3)
          (Outcome.covered refl (add_bounded-eq-ok s.covered r.count hn).0 refl refl))
      h

module _ (identity : Text → Text → Option ℕ) where
  pub add_state-Outcome :
      (c : Config) (s : State) (r : Record) {t : State}
      → add_state identity c s r ≡ ok t
      → Outcome c s r (is_covered identity c s r (identities identity c r)) t
  unfolding add_state is_covered
  add_state-Outcome c s r {t} h =
      let (x, hx, h1) = >>=-eq-ok (check_record r) _ h in
      let (ids, hi, h2) = >>=-eq-ok (identities identity c r) _ h1 in
      let (y, hy, h3) = >>=-eq-ok (check_overlap c s r ids) _ h2 in
      let (w, hw, h4) = >>=-eq-ok (record_workload c s r ids) _ h3 in
      rw hi (at ids w (record_issue c s r ids) h4)
    where
      at :
          (ids : List HashedSelector) (w : Option Workload) (i : Option Issue)
          → exclude_or_cover c s r ids w i ≡ ok t
          → Outcome c s r (not (is_some i)) t
      at ids w (some i) g = exclude-Outcome c s r ids i g
      at ids w none g = cover-Outcome c s r ids w g
