-- ===== src/Spend/Cache/Summed.antt =====
-- What a row adds to the sums of a cache window: its input and its cache tokens, where its field is covered.
use fleetdiff.Base.{
  ℕ, ◌+◌, ◌≡◌, refl, subst, Bool, true, false, not, ◌||◌, Option, none, some, arith, if◌then◌else◌,
  ok, >>=-eq-ok, ok-injective,
}
use fleetdiff.Text.{is_empty}
use fleetdiff.Accounting.Number.{add_bounded-eq-ok}
use fleetdiff.Accounting.Names.{Field, input, cache_read_input, cache_write_input, total_of}
use fleetdiff.Accounting.Tokens.{Observation}
use fleetdiff.Spend.Row.{Row, Column, value, cache_read_input_tokens, cache_write_input_tokens}
use fleetdiff.Spend.Quality.{Quality}
use fleetdiff.Spend.Cache.{
  valid_cache_field, present, cover, covered_sum, begin_detail, add_detail, add_cache,
}
use fleetdiff.Spend.Cache.Covered.{held}
use fleetdiff.Compare.CacheView.{CacheDetail, CacheWindow, set_totals, is_some}

-- The count `n` of a row, where the column is present and both fields are valid.
abbrev pub if_covered : Row → Observation → Field → Column → ℕ → ℕ
if_covered r a f c n =
    if is_empty (value r c)
    then 0
    else if not (valid_cache_field a input) || not (valid_cache_field a f)
    then 0
    else n

-- The two sums start together.
abbrev pub IsPaired : CacheDetail → Type 0
IsPaired d = is_some d.input_tokens ≡ is_some d.tokens

pub record IsSummed (d : CacheDetail) (i n : ℕ) (e : CacheDetail) : Type 0 where
  pub paired : IsPaired e
  pub of_input : held e.input_tokens ≡ held d.input_tokens + i
  pub of_tokens : held e.tokens ≡ held d.tokens + n

covered_sum-eq-ok : (o : Option ℕ) (n : ℕ) {m : ℕ} → covered_sum o n ≡ ok m → m ≡ held o + n
unfolding covered_sum
covered_sum-eq-ok none n h = let q = ok-injective h in omega (arith, q)
covered_sum-eq-ok (some k) n h = (add_bounded-eq-ok k n h).0

held-present : (i t : Option ℕ) → is_some i ≡ is_some t → held (present i t) ≡ held t
held-present none none h = refl
held-present none (some n) h = cc
held-present (some m) t h = refl

cover-IsSummed :
    (i n : ℕ) (d : CacheDetail) {e : CacheDetail}
    → IsPaired d
    → cover i n d ≡ ok e
    → IsSummed d i n e
unfolding cover set_totals
cover-IsSummed i n d p h =
    let (x, hx, h1) = >>=-eq-ok (covered_sum d.input_tokens i) _ h in
    let (y, hy, h2) = >>=-eq-ok (covered_sum (present d.input_tokens d.tokens) n) _ h1 in
    let a = covered_sum-eq-ok d.input_tokens i hx in
    let b = covered_sum-eq-ok (present d.input_tokens d.tokens) n hy in
    subst (IsSummed d i n) (ok-injective h2) (record {
      paired = refl;
      of_input = a;
      of_tokens = omega (arith, b, held-present d.input_tokens d.tokens p);
    })

branch-IsSummed :
    (absent unusable : Bool) (i n : ℕ) (d b s t : CacheDetail) {e : CacheDetail}
    → IsPaired d
    → IsSummed d 0 0 s
    → IsSummed d 0 0 t
    → IsSummed d 0 0 b
    → (if absent then ok s else if unusable then ok t else cover i n b) ≡ ok e
    → IsSummed d
        (if absent then 0 else if unusable then 0 else i)
        (if absent then 0 else if unusable then 0 else n)
        e
branch-IsSummed true u i n d b s t p v w x h = subst (IsSummed d 0 0) (ok-injective h) v
branch-IsSummed false true i n d b s t p v w x h = subst (IsSummed d 0 0) (ok-injective h) w
branch-IsSummed false false i n d b s t p v w x h =
    let c = cover-IsSummed i n b x.paired h in
    record {
      paired = c.paired;
      of_input = omega (arith, c.of_input, x.of_input);
      of_tokens = omega (arith, c.of_tokens, x.of_tokens);
    }

add_detail-IsSummed :
    (r : Row) (a : Observation) (f : Field) (c : Column) (d : CacheDetail) {e : CacheDetail}
    → IsPaired d
    → add_detail r a f c d ≡ ok e
    → IsSummed d
        (if_covered r a f c (a.metric (total_of input)))
        (if_covered r a f c (a.metric (total_of f)))
        e
unfolding add_detail begin_detail
add_detail-IsSummed r a f c d p h =
    let same : IsSummed d 0 0 (begin_detail a f d) = record {
      paired = p;
      of_input = omega arith;
      of_tokens = omega arith;
    } in
    branch-IsSummed (is_empty (value r c))
      (not (valid_cache_field a input) || not (valid_cache_field a f)) (a.metric (total_of input))
      (a.metric (total_of f)) d (begin_detail a f d) _ _ p
      (record { paired = p; of_input = omega arith; of_tokens = omega arith })
      (record { paired = p; of_input = omega arith; of_tokens = omega arith }) same h

-- What a row adds to the sums of both fields.
pub record IsAdded (w : CacheWindow) (r : Row) (a : Observation) (v : CacheWindow) : Type 0 where
  pub of_read :
      IsSummed w.read
        (if_covered r a cache_read_input cache_read_input_tokens (a.metric (total_of input)))
        (if_covered r a cache_read_input cache_read_input_tokens
          (a.metric (total_of cache_read_input)))
        v.read
  pub of_write :
      IsSummed w.write
        (if_covered r a cache_write_input cache_write_input_tokens (a.metric (total_of input)))
        (if_covered r a cache_write_input cache_write_input_tokens
          (a.metric (total_of cache_write_input)))
        v.write

pub add_cache-IsAdded :
    (w : CacheWindow) (r : Row) (a : Observation) (q : Quality) {v : CacheWindow}
    → IsPaired w.read
    → IsPaired w.write
    → add_cache w r a q ≡ ok v
    → IsAdded w r a v
unfolding add_cache
add_cache-IsAdded w r a q p s h =
    let (rd, hr, h1) =
      >>=-eq-ok (add_detail r a cache_read_input cache_read_input_tokens w.read) _ h in
    let (wr, hw, h2) =
      >>=-eq-ok (add_detail r a cache_write_input cache_write_input_tokens w.write) _ h1 in
    subst (IsAdded w r a) (ok-injective h2) (record {
      of_read = add_detail-IsSummed r a cache_read_input _ w.read p hr;
      of_write = add_detail-IsSummed r a cache_write_input _ w.write s hw;
    })
