-- ===== src/Spend/Aggregate/Sums.antt =====
-- An aggregate is the sum of its rows.
use fleetdiff.Base.{
  ℕ, ◌+◌, ◌≤◌, ◌<◌, ◌≡◌, refl, sym, ap, ◌∙◌, subst, Bool, true, false, Option, none, some, ◌%◌,
  List, [], ◌∷◌, arith, add64, word, max_int64, Result, ok, ◌>>=◌, >>=-eq-ok, ok-injective, fold_ok,
  fold_ok_adds, fold_ok_adds64, sum_by, sum_by_mono, length, if◌then◌else◌, ◌==◌, ◌||◌,
}
use fleetdiff.Accounting.Number.{add_bounded, add_bounded-eq-ok}
use fleetdiff.Accounting.Names.{Metric, total_tokens_total, metrics, total_of, input, output}
use fleetdiff.Accounting.Counts.{
  merge_counts, merge_counts-eq-ok, merge_counts_bounded, merged, AreUint64,
}
use fleetdiff.Accounting.MetricKeys.{metric_eq, metrics-Distinct, metrics-contains}
use fleetdiff.Accounting.Names.{Field, cache_read_input, cache_write_input}
use fleetdiff.Spend.Row.{cache_read_input_tokens, cache_write_input_tokens}
use fleetdiff.Spend.Cache.{add_cache}
use fleetdiff.Spend.Cache.Covered.{held}
use fleetdiff.Spend.Cache.Summed.{if_covered, IsPaired, add_cache-IsAdded}
use fleetdiff.Spend.Quality.{
  Quality, Counter, counter, add_quality, counter-add_quality, counter-no_quality,
}
use fleetdiff.Spend.Aggregate.{
  Aggregate, Entry, FailureTokens, new_aggregate, add_entry, add_subset, add_failure_tokens,
  failure_or_zero, spending, units_spent, with_spending,
}

-- The rows one by one, as the callback of the reader adds them.
unfoldable pub add_entries : Aggregate → List Entry → Result Aggregate
add_entries = fold_ok add_entry

abbrev pub total : Entry → ℕ
total e = e.seen.metric total_tokens_total

-- The parts of a successful step.
pub record Added (a : Aggregate) (e : Entry) (b : Aggregate) : Type 0 where
  pub cache : add_cache a.cache e.row e.seen e.review ≡ ok b.cache
  pub counts : merge_counts metrics e.seen.metric a.counters ≡ ok b.counters
  pub tokens : add_bounded a.tokens (total e) ≡ ok b.tokens
  pub failures : add_subset e.review.failed a.failure_tokens e.seen ≡ ok b.failure_tokens
  pub errors : add_subset e.review.error_observations a.error_tokens e.seen ≡ ok b.error_tokens
  pub requests : b.requests ≡ add64 a.requests 1
  pub quality : b.quality ≡ add_quality a.quality (with_spending (spending e.row) e.review)
  pub cost : b.cost_units ≡ a.cost_units + units_spent (spending e.row)

pub add_entry-Added :
    (a : Aggregate) (e : Entry) (b : Aggregate) → add_entry a e ≡ ok b → Added a e b
unfolding add_entry
add_entry-Added a e b h =
    let (c, hc, h1) = >>=-eq-ok (add_cache a.cache e.row e.seen e.review) _ h in
    let (m, hm, h2) = >>=-eq-ok (merge_counts metrics e.seen.metric a.counters) _ h1 in
    let (t, ht, h3) = >>=-eq-ok (add_bounded a.tokens (total e)) _ h2 in
    let (f, hf, h4) = >>=-eq-ok (add_subset e.review.failed a.failure_tokens e.seen) _ h3 in
    let (x, hx, h5) =
      >>=-eq-ok (add_subset e.review.error_observations a.error_tokens e.seen) _ h4 in
    subst (Added a e) (ok-injective h5) (record {
      cache = hc;
      counts = hm;
      tokens = ht;
      failures = hf;
      errors = hx;
      requests = refl;
      quality = refl;
      cost = refl;
    })

-- The quality that a row leaves in the aggregate.
abbrev pub final_quality : Entry → Quality
final_quality e = with_spending (spending e.row) e.review

-- The parts of the tokens of a subset of the rows, and what a row adds to each.
pub data FailurePart : Type 0 where
  records failed_input failed_output failed_tokens : FailurePart

abbrev pub part : FailurePart → FailureTokens → ℕ
part records f = f.records
part failed_input f = f.of_input
part failed_output f = f.of_output
part failed_tokens f = f.of_total

abbrev pub part_of : FailurePart → Entry → ℕ
part_of records e = 1
part_of failed_input e = e.seen.metric (total_of input)
part_of failed_output e = e.seen.metric (total_of output)
part_of failed_tokens e = total e

-- A row outside the subset, or with no tokens, adds nothing.
abbrev pub subset_part : FailurePart → (Entry → ℕ) → Entry → ℕ
subset_part p count e = if count e == 0 || total e == 0 then 0 else part_of p e

part-add_failure_tokens :
    (p : FailurePart) (e : Entry) (f : FailureTokens) {g : FailureTokens}
    → add_failure_tokens f e.seen ≡ ok g
    → part p g ≡ part p f + part_of p e
unfolding add_failure_tokens
part-add_failure_tokens p e f h =
    let (r, hr, h1) = >>=-eq-ok (add_bounded f.records 1) _ h in
    let (i, hi, h2) = >>=-eq-ok (add_bounded f.of_input (e.seen.metric (total_of input))) _ h1 in
    let (o, ho, h3) = >>=-eq-ok (add_bounded f.of_output (e.seen.metric (total_of output))) _ h2 in
    let (t, ht, h4) = >>=-eq-ok (add_bounded f.of_total (total e)) _ h3 in
    sym (ap (part p) (ok-injective h4))
    ∙ at p r i o t (add_bounded-eq-ok f.records 1 hr).0
        (add_bounded-eq-ok f.of_input (e.seen.metric (total_of input)) hi).0
        (add_bounded-eq-ok f.of_output (e.seen.metric (total_of output)) ho).0
        (add_bounded-eq-ok f.of_total (total e) ht).0
  where
    at :
        (p : FailurePart) (r i o t : ℕ)
        → r ≡ f.records + 1
        → i ≡ f.of_input + e.seen.metric (total_of input)
        → o ≡ f.of_output + e.seen.metric (total_of output)
        → t ≡ f.of_total + total e
        → part p (record { records = r; of_input = i; of_output = o; of_total = t })
          ≡ part p f + part_of p e
    at records r i o t a b c d = a
    at failed_input r i o t a b c d = b
    at failed_output r i o t a b c d = c
    at failed_tokens r i o t a b c d = d

subset_branch :
    (p : FailurePart) (e : Entry) (outside : Bool) (f g : Option FailureTokens)
    → (if outside
        then ok f
        else (add_failure_tokens (failure_or_zero f) e.seen >>= λ x. ok (some x)))
      ≡ ok g
    → part p (failure_or_zero g) ≡ part p (failure_or_zero f) + (if outside then 0 else part_of p e)
subset_branch p e true f g k =
    sym (ap (λ (x : Option FailureTokens). part p (failure_or_zero x)) (ok-injective k))
    ∙ omega arith
subset_branch p e false f g k =
    let (x, hx, k1) = >>=-eq-ok (add_failure_tokens (failure_or_zero f) e.seen) _ k in
    sym (ap (λ (x : Option FailureTokens). part p (failure_or_zero x)) (ok-injective k1))
    ∙ part-add_failure_tokens p e (failure_or_zero f) hx

pub part-add_subset :
    (p : FailurePart) (count : Entry → ℕ) (e : Entry) (f g : Option FailureTokens)
    → add_subset (count e) f e.seen ≡ ok g
    → part p (failure_or_zero g) ≡ part p (failure_or_zero f) + subset_part p count e
unfolding add_subset
part-add_subset p count e f g h = subset_branch p e (count e == 0 || total e == 0) f g h

counter_step :
    (m : Metric) (a : Aggregate) (e : Entry) (b : Aggregate)
    → AreUint64 a.counters
    → add_entry a e ≡ ok b
    → AreUint64 b.counters × (b.counters m ≡ a.counters m + e.seen.metric m)
unfolding merged
counter_step m a e b u h =
    let d : Added a e b = add_entry-Added a e b h in
    (
      merge_counts_bounded metrics e.seen.metric a.counters metrics-Distinct u d.counts,
      ap (λ (f : Metric → ℕ). f m)
            (merge_counts-eq-ok metrics e.seen.metric a.counters metrics-Distinct u d.counts)
          ∙ (rw (metrics-contains m)),
    )

token_step :
    (a : Aggregate) (e : Entry) (b : Aggregate)
    → a.tokens ≤ max_int64
    → add_entry a e ≡ ok b
    → (b.tokens ≤ max_int64) × (b.tokens ≡ a.tokens + total e)
token_step a e b u h =
    let q = add_bounded-eq-ok a.tokens (total e) (add_entry-Added a e b h).tokens in (q.1, q.0)

abbrev pub as_failed : Entry → ℕ
as_failed e = e.review.failed

abbrev pub as_error : Entry → ℕ
as_error e = e.review.error_observations

-- What a row adds to a sum of the cache window, where its column is present and its counts are valid.
abbrev pub covered_read : Field → Entry → ℕ
covered_read f e =
    if_covered e.row e.seen cache_read_input cache_read_input_tokens (e.seen.metric (total_of f))

abbrev pub covered_write : Field → Entry → ℕ
covered_write f e =
    if_covered e.row e.seen cache_write_input cache_write_input_tokens (e.seen.metric (total_of f))

-- The sums of the cache window.
pub record IsCacheSum (es : List Entry) (a : Aggregate) : Type 0 where
  pub read_input : held a.cache.read.input_tokens ≡ sum_by (covered_read input) es
  pub read_tokens : held a.cache.read.tokens ≡ sum_by (covered_read cache_read_input) es
  pub write_input : held a.cache.write.input_tokens ≡ sum_by (covered_write input) es
  pub write_tokens : held a.cache.write.tokens ≡ sum_by (covered_write cache_write_input) es

-- What an aggregate says of the rows that it was given; `as_failed` and `as_error` name the subsets.
pub record IsSum (es : List Entry) (a : Aggregate) : Type 0 where
  pub requests : a.requests ≡ length es
  pub tokens : a.tokens ≡ sum_by total es
  pub tokens_bounded : a.tokens ≤ max_int64
  pub counters : (m : Metric) → a.counters m ≡ sum_by (λ e. e.seen.metric m) es
  pub quality :
      (c : Counter) → counter c a.quality ≡ sum_by (λ e. counter c (final_quality e)) es % word
  pub cost : a.cost_units ≡ sum_by (λ e. units_spent (spending e.row)) es
  pub failures :
      (p : FailurePart)
      → part p (failure_or_zero a.failure_tokens) ≡ sum_by (subset_part p as_failed) es
  pub errors :
      (p : FailurePart)
      → part p (failure_or_zero a.error_tokens) ≡ sum_by (subset_part p as_error) es
  pub failures_within : (failure_or_zero a.failure_tokens).of_total ≤ a.tokens
  pub cache : IsCacheSum es a

sum-ones : (es : List Entry) → sum_by (λ _. 1) es ≡ length es
sum-ones [] = refl
sum-ones (e ∷ es) = omega (arith, sum-ones es)

subset_part-le : (e : Entry) → subset_part failed_tokens as_failed e ≤ total e
subset_part-le e = ground arith

-- A counter that wraps holds its sum modulo 2 ^ 64.
quality-adds :
    (c : Counter) (es : List Entry) (a : Aggregate) {b : Aggregate}
    → counter c a.quality < word
    → fold_ok add_entry a es ≡ ok b
    → counter c b.quality
      ≡ (counter c a.quality + sum_by (λ e. counter c (final_quality e)) es) % word
unfolding add64
quality-adds c [] a w h =
    sym (ap (λ (x : Aggregate). counter c x.quality) (ok-injective h)) ∙ omega arith
quality-adds c (e ∷ es) a w h =
    let (u, first, rest) = >>=-eq-ok (add_entry a e) _ h in
    let one : counter c u.quality ≡ add64 (counter c a.quality) (counter c (final_quality e)) =
      ap (counter c) (add_entry-Added a e u first).quality
      ∙ counter-add_quality c a.quality (final_quality e) in
    omega (arith, one, quality-adds c es u (omega (arith, one)) rest)

abbrev IsPairedCache : Aggregate → Type 0
IsPairedCache a = IsPaired a.cache.read × IsPaired a.cache.write

module _ (es : List Entry) (a : Aggregate) {b : Aggregate} where
  failures-add :
      (p : FailurePart)
      → fold_ok add_entry a es ≡ ok b
      → part p (failure_or_zero b.failure_tokens)
        ≡ part p (failure_or_zero a.failure_tokens) + sum_by (subset_part p as_failed) es
  failures-add p h =
      (fold_ok_adds add_entry (λ _. Unit) (λ s. part p (failure_or_zero s.failure_tokens))
        (subset_part p as_failed)
        (λ s e t _ k. (
          tt,
          part-add_subset p as_failed e s.failure_tokens t.failure_tokens
              (add_entry-Added s e t k).failures,
        ))
        es a b tt h).1

  errors-add :
      (p : FailurePart)
      → fold_ok add_entry a es ≡ ok b
      → part p (failure_or_zero b.error_tokens)
        ≡ part p (failure_or_zero a.error_tokens) + sum_by (subset_part p as_error) es
  errors-add p h =
      (fold_ok_adds add_entry (λ _. Unit) (λ s. part p (failure_or_zero s.error_tokens))
        (subset_part p as_error)
        (λ s e t _ k. (
          tt,
          part-add_subset p as_error e s.error_tokens t.error_tokens
              (add_entry-Added s e t k).errors,
        ))
        es a b tt h).1

  cache-adds :
      (sum : Aggregate → ℕ) (g : Entry → ℕ)
      → ((s : Aggregate) (e : Entry) (t : Aggregate)
          → IsPairedCache s
          → add_entry s e ≡ ok t
          → IsPairedCache t × (sum t ≡ sum s + g e))
      → IsPairedCache a
      → fold_ok add_entry a es ≡ ok b
      → sum b ≡ sum a + sum_by g es
  cache-adds sum g step p h = (fold_ok_adds add_entry IsPairedCache sum g step es a b p h).1

  cache-IsCacheSum :
      IsPairedCache a
      → held a.cache.read.input_tokens ≡ 0
      → held a.cache.read.tokens ≡ 0
      → held a.cache.write.input_tokens ≡ 0
      → held a.cache.write.tokens ≡ 0
      → fold_ok add_entry a es ≡ ok b
      → IsCacheSum es b
  cache-IsCacheSum p w x y z h = record {
    read_input =
        cache-adds (λ s. held s.cache.read.input_tokens) (covered_read input)
          (λ s e t q k.
            let i =
              add_cache-IsAdded s.cache e.row e.seen e.review q.0 q.1
                (add_entry-Added s e t k).cache in
            ((i.of_read.paired, i.of_write.paired), i.of_read.of_input))
          p h
        ∙ (omega (arith, w));
    read_tokens =
        cache-adds (λ s. held s.cache.read.tokens) (covered_read cache_read_input)
          (λ s e t q k.
            let i =
              add_cache-IsAdded s.cache e.row e.seen e.review q.0 q.1
                (add_entry-Added s e t k).cache in
            ((i.of_read.paired, i.of_write.paired), i.of_read.of_tokens))
          p h
        ∙ (omega (arith, x));
    write_input =
        cache-adds (λ s. held s.cache.write.input_tokens) (covered_write input)
          (λ s e t q k.
            let i =
              add_cache-IsAdded s.cache e.row e.seen e.review q.0 q.1
                (add_entry-Added s e t k).cache in
            ((i.of_read.paired, i.of_write.paired), i.of_write.of_input))
          p h
        ∙ (omega (arith, y));
    write_tokens =
        cache-adds (λ s. held s.cache.write.tokens) (covered_write cache_write_input)
          (λ s e t q k.
            let i =
              add_cache-IsAdded s.cache e.row e.seen e.review q.0 q.1
                (add_entry-Added s e t k).cache in
            ((i.of_read.paired, i.of_write.paired), i.of_write.of_tokens))
          p h
        ∙ (omega (arith, z));
  }

zero_part : (p : FailurePart) → part p (failure_or_zero none) ≡ 0
zero_part records = refl
zero_part _ = refl

-- When every row has been added, the aggregate holds the number of the rows and the exact sums of their tokens, of each
-- metric, of their recorded spend, of the records and the input, output and total tokens of the failed and of the
-- erroneous rows, and of the input and cache tokens of the rows that each cache field covers; each counter of quality is
-- its sum modulo 2 ^ 64; the tokens fit an `int64` and those of failed rows are part of them. There are fewer rows than
-- a `uint64` counts.
pub add_entries-IsSum :
    (es : List Entry) {a : Aggregate}
    → length es < word
    → add_entries new_aggregate es ≡ ok a
    → IsSum es a
unfolding add_entries new_aggregate
add_entries-IsSum es {a} w h =
    let start : Aggregate = new_aggregate in
    let toks =
      fold_ok_adds add_entry (λ s. s.tokens ≤ max_int64) (λ s. s.tokens) total token_step es start a
        (omega arith) h in
    let paid =
      fold_ok_adds add_entry (λ _. Unit) (λ s. s.cost_units) (λ e. units_spent (spending e.row))
        (λ s e t _ k. (tt, (add_entry-Added s e t k).cost)) es start a tt h in
    let ones : sum_by (λ _. 1) es ≡ length es = sum-ones es in
    record {
      requests =
          fold_ok_adds64 add_entry (λ s. s.requests) (λ _. 1)
            (λ s e t k. (add_entry-Added s e t k).requests) es start a (omega arith) h
          ∙ (omega arith);
      tokens = toks.1 ∙ omega arith;
      tokens_bounded = toks.0;
      counters = λ m.
          (fold_ok_adds add_entry (λ s. AreUint64 s.counters) (λ s. s.counters m)
            (λ e. e.seen.metric m) (counter_step m) es start a (λ _. omega arith) h).1
          ∙ omega arith;
      cost = paid.1 ∙ omega arith;
      quality = λ c.
          quality-adds c es start (omega (arith, counter-no_quality c)) h
          ∙ omega (arith, counter-no_quality c);
      failures = λ p. failures-add es start p h ∙ omega (arith, zero_part p);
      errors = λ p. errors-add es start p h ∙ omega (arith, zero_part p);
      failures_within = omega (
        arith,
        failures-add es start failed_tokens h,
        toks.1,
        sum_by_mono (subset_part failed_tokens as_failed) total subset_part-le es,
      );
      cache = cache-IsCacheSum es start (refl, refl) refl refl refl refl h;
    }
