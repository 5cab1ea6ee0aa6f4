-- ===== src/Spend/Routing/Merge.antt =====
-- What `merge` adds: every part of two totals that a report of the audit shows.
use fleetdiff.Base.{
  ℕ, ◌+◌, ◌/◌, word, Bool, true, false, ◌≡◌, refl, sym, ap, ◌∙◌, subst, arith, add64, ok, >>=-eq-ok,
  ok-injective, Option, none, some,
}
use fleetdiff.Accounting.Number.{add_bounded, add_bounded-eq-ok}
use fleetdiff.Accounting.Names.{Metric, metrics}
use fleetdiff.Accounting.Counts.{merge_counts, merge_counts-add64}
use fleetdiff.Accounting.MetricKeys.{metric_eq, metrics-Distinct, metrics-contains}
use fleetdiff.Spend.Quality.{Counter, counter, add_quality, counter-add_quality, counter-no_quality}
use fleetdiff.Spend.Aggregate.{FailureTokens, failure_or_zero, new_aggregate}
use fleetdiff.Spend.Aggregate.Sums.{
  FailurePart, part, records, failed_input, failed_output, failed_tokens,
}
use fleetdiff.Spend.Routing.Modular.{Same, Same-eq}
use fleetdiff.Spend.Routing.Totals.{Totals, new_totals, merge_failures, merge}

-- The quantities of a routing total. The counts of metrics and the counters of quality are words that a merge adds modulo
-- 2 ^ 64; all others are added with `AddBounded` or exactly.
pub data Quantity : Type 0 where
  requests tokens unknown_models zero_fallbacks positive_fallbacks unknown_fallbacks : Quantity
  cost : Quantity
  failure : FailurePart → Quantity
  metric_count : Metric → Quantity
  quality_count : Counter → Quantity

abbrev pub quantity : Quantity → Totals → ℕ
quantity requests t = t.sums.requests
quantity tokens t = t.sums.tokens
quantity unknown_models t = t.unknown_models
quantity zero_fallbacks t = t.fallbacks.known_zero_rows
quantity positive_fallbacks t = t.fallbacks.known_positive_rows
quantity unknown_fallbacks t = t.fallbacks.unknown_rows
quantity cost t = t.sums.cost_units
quantity (failure p) t = part p (failure_or_zero t.sums.failure_tokens)
quantity (metric_count k) t = t.sums.counters k
quantity (quality_count c) t = counter c t.sums.quality

abbrev pub is_exact : Quantity → Bool
is_exact (metric_count k) = false
is_exact (quality_count c) = false
is_exact _ = true

pub add64-Same : (a b m : ℕ) → m ≡ add64 a b → Same false m (a + b)
unfolding add64
add64-Same a b m h = record {
  k = (a + b) / word;
  l = 0;
  eq = omega (arith, h);
  none_wrap = λ e. cc;
}

part-merge_failures :
    (p : FailurePart) (old new : Option FailureTokens) {f : Option FailureTokens}
    → merge_failures old new ≡ ok f
    → part p (failure_or_zero f) ≡ part p (failure_or_zero old) + part p (failure_or_zero new)
unfolding merge_failures
part-merge_failures records old none {f} h =
    let q : old ≡ f = ok-injective h in rw (← q) (omega arith)
part-merge_failures failed_input old none {f} h =
    let q : old ≡ f = ok-injective h in rw (← q) (omega arith)
part-merge_failures failed_output old none {f} h =
    let q : old ≡ f = ok-injective h in rw (← q) (omega arith)
part-merge_failures failed_tokens old none {f} h =
    let q : old ≡ f = ok-injective h in rw (← q) (omega arith)
part-merge_failures p old (some g) {f} h =
    let (r, hr, h1) = >>=-eq-ok (add_bounded (failure_or_zero old).records g.records) _ h in
    let (i, hi, h2) = >>=-eq-ok (add_bounded (failure_or_zero old).of_input g.of_input) _ h1 in
    let (o, ho, h3) = >>=-eq-ok (add_bounded (failure_or_zero old).of_output g.of_output) _ h2 in
    let (t, ht, h4) = >>=-eq-ok (add_bounded (failure_or_zero old).of_total g.of_total) _ h3 in
    sym (ap (λ (x : Option FailureTokens). part p (failure_or_zero x)) (ok-injective h4))
    ∙ at p r i o t (add_bounded-eq-ok (failure_or_zero old).records g.records hr).0
        (add_bounded-eq-ok (failure_or_zero old).of_input g.of_input hi).0
        (add_bounded-eq-ok (failure_or_zero old).of_output g.of_output ho).0
        (add_bounded-eq-ok (failure_or_zero old).of_total g.of_total ht).0
  where
    at :
        (p : FailurePart) (r i o t : ℕ)
        → r ≡ (failure_or_zero old).records + g.records
        → i ≡ (failure_or_zero old).of_input + g.of_input
        → o ≡ (failure_or_zero old).of_output + g.of_output
        → t ≡ (failure_or_zero old).of_total + g.of_total
        → part p (record { records = r; of_input = i; of_output = o; of_total = t })
          ≡ part p (failure_or_zero old) + part p g
    at records r i o t a b c d = a
    at failed_input r i o t a b c d = b
    at failed_output r i o t a b c d = c
    at failed_tokens r i o t a b c d = d

pub counters-merge :
    (k : Metric) (old new : Metric → ℕ) {c : Metric → ℕ}
    → merge_counts metrics new old ≡ ok c
    → c k ≡ add64 (old k) (new k)
counters-merge k old new h =
    merge_counts-add64 metrics new old k metrics-Distinct h ∙ (rw (metrics-contains k) refl)

pub quantity-new_totals : (q : Quantity) → quantity q new_totals ≡ 0
unfolding new_totals new_aggregate
quantity-new_totals (quality_count c) = counter-no_quality c
quantity-new_totals (failure j) = at j
  where
    at : (j : FailurePart) → part j (failure_or_zero none) ≡ 0
    at records = refl
    at _ = refl
quantity-new_totals requests = refl
quantity-new_totals _ = refl

-- Where a merge of two totals returns, each quantity of the result is the sum of theirs: requests, tokens, spend, the
-- records and the input, output and total tokens of failed rows, unknown models and the three fallback counts exactly;
-- each metric and each counter of quality modulo 2 ^ 64.
pub quantity-merge :
    (q : Quantity) (t v m : Totals)
    → merge t v ≡ ok m
    → Same (is_exact q) (quantity q m) (quantity q t + quantity q v)
unfolding merge
quantity-merge q t v m h =
    let (n, hn, h1) = >>=-eq-ok (add_bounded t.sums.requests v.sums.requests) _ h in
    let (k, hk, h2) = >>=-eq-ok (add_bounded t.sums.tokens v.sums.tokens) _ h1 in
    let (u, hu, h3) = >>=-eq-ok (add_bounded t.unknown_models v.unknown_models) _ h2 in
    let (z, hz, h4) =
      >>=-eq-ok (add_bounded t.fallbacks.known_zero_rows v.fallbacks.known_zero_rows) _ h3 in
    let (p, hp, h5) =
      >>=-eq-ok (add_bounded t.fallbacks.known_positive_rows v.fallbacks.known_positive_rows) _
        h4 in
    let (w, hw, h6) =
      >>=-eq-ok (add_bounded t.fallbacks.unknown_rows v.fallbacks.unknown_rows) _ h5 in
    let (c, hc, h7) = >>=-eq-ok (merge_counts metrics v.sums.counters t.sums.counters) _ h6 in
    let (f, hf, h8) = >>=-eq-ok (merge_failures t.sums.failure_tokens v.sums.failure_tokens) _ h7 in
    subst (λ m. Same (is_exact q) (quantity q m) (quantity q t + quantity q v)) (ok-injective h8)
      (at q n k u z p w c f (add_bounded-eq-ok t.sums.requests v.sums.requests hn).0
        (add_bounded-eq-ok t.sums.tokens v.sums.tokens hk).0
        (add_bounded-eq-ok t.unknown_models v.unknown_models hu).0
        (add_bounded-eq-ok t.fallbacks.known_zero_rows v.fallbacks.known_zero_rows hz).0
        (add_bounded-eq-ok t.fallbacks.known_positive_rows v.fallbacks.known_positive_rows hp).0
        (add_bounded-eq-ok t.fallbacks.unknown_rows v.fallbacks.unknown_rows hw).0
        (λ j. counters-merge j t.sums.counters v.sums.counters hc)
        (λ j. part-merge_failures j t.sums.failure_tokens v.sums.failure_tokens hf))
  where
    at :
        (q : Quantity) (n k u z p w : ℕ) (c : Metric → ℕ) (f : Option FailureTokens)
        → n ≡ t.sums.requests + v.sums.requests
        → k ≡ t.sums.tokens + v.sums.tokens
        → u ≡ t.unknown_models + v.unknown_models
        → z ≡ t.fallbacks.known_zero_rows + v.fallbacks.known_zero_rows
        → p ≡ t.fallbacks.known_positive_rows + v.fallbacks.known_positive_rows
        → w ≡ t.fallbacks.unknown_rows + v.fallbacks.unknown_rows
        → ((j : Metric) → c j ≡ add64 (t.sums.counters j) (v.sums.counters j))
        → ((j : FailurePart)
            → part j (failure_or_zero f)
              ≡ part j (failure_or_zero t.sums.failure_tokens)
                + part j (failure_or_zero v.sums.failure_tokens))
        → Same
            (is_exact q)
            (quantity q (record {
              sums = record (t.sums) {
                requests = n;
                tokens = k;
                counters = c;
                quality = add_quality t.sums.quality v.sums.quality;
                cost_units = t.sums.cost_units + v.sums.cost_units;
                failure_tokens = f;
              };
              fallbacks = record { known_zero_rows = z; known_positive_rows = p; unknown_rows = w };
              unknown_models = u;
            }))
            (quantity q t + quantity q v)
    at requests n k u z p w c f hn hk hu hz hp hw hc hf = Same-eq hn
    at tokens n k u z p w c f hn hk hu hz hp hw hc hf = Same-eq hk
    at unknown_models n k u z p w c f hn hk hu hz hp hw hc hf = Same-eq hu
    at zero_fallbacks n k u z p w c f hn hk hu hz hp hw hc hf = Same-eq hz
    at positive_fallbacks n k u z p w c f hn hk hu hz hp hw hc hf = Same-eq hp
    at unknown_fallbacks n k u z p w c f hn hk hu hz hp hw hc hf = Same-eq hw
    at cost n k u z p w c f hn hk hu hz hp hw hc hf = Same-eq refl
    at (failure j) n k u z p w c f hn hk hu hz hp hw hc hf = Same-eq (hf j)
    at (metric_count j) n k u z p w c f hn hk hu hz hp hw hc hf = add64-Same _ _ _ (hc j)
    at (quality_count j) n k u z p w c f hn hk hu hz hp hw hc hf =
        add64-Same _ _ _ (counter-add_quality j t.sums.quality v.sums.quality)
