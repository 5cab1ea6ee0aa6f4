-- ===== src/Spend/Cache.antt =====
-- internal/spend/cache.go: `validCacheField` and `addCache`.
pub mod Covered
pub mod Summed
use fleetdiff.Base.{
  ℕ, ◌+◌, Bool, true, false, ◌&&◌, ◌||◌, not, Option, none, some, [], ◌∷◌, ◌==◌, if◌then◌else◌,
  add64, sub64, Result, ok, err, ◌>>=◌,
}
use fleetdiff.Text.{Text, is_empty}
use fleetdiff.Accounting.Number.{add_bounded}
use fleetdiff.Accounting.Names.{
  Field, input, cache_read_input, cache_write_input, Metric, total_of, reported, invalid, conflict,
  subset_violation,
}
use fleetdiff.Accounting.Tokens.{Observation}
use fleetdiff.Spend.Row.{Row, Column, value, cache_read_input_tokens, cache_write_input_tokens}
use fleetdiff.Spend.Quality.{Quality}
use fleetdiff.Compare.CacheView.{CacheDetail, CacheWindow, set_totals}

unfoldable pub valid_cache_field : Observation → Field → Bool
valid_cache_field a f =
    a.quality f reported == 1
    && a.quality f invalid == 0
    && a.quality f conflict == 0
    && a.quality f subset_violation == 0

-- `*p++`; the four counters are set together, so that none of them is nil here.
abbrev bump : Option ℕ → Option ℕ
bump none = none
bump (some n) = some (add64 n 1)

abbrev zeroed : Option ℕ → Option ℕ → Option ℕ
zeroed none p = some 0
zeroed (some z) p = p

-- What the loop does first: the counters exist, and a report is counted.
unfoldable pub begin_detail : Observation → Field → CacheDetail → CacheDetail
begin_detail a f d = record d {
  coverage_known = true;
  zero_origin_unknown = zeroed d.zero_origin_unknown d.zero_origin_unknown;
  covered = zeroed d.zero_origin_unknown d.covered;
  missing_detail = zeroed d.zero_origin_unknown d.missing_detail;
  invalid_detail = zeroed d.zero_origin_unknown d.invalid_detail;
  reported_requests = add64 d.reported_requests (a.quality f reported);
}

-- The sums of the covered rows, which the first row starts.
covered_sum : Option ℕ → ℕ → Result ℕ
covered_sum none n = ok n
covered_sum (some m) n = add_bounded m n

abbrev present {ℓ} : {A : Type ℓ} → Option A → Option ℕ → Option ℕ
present none p = none
present (some a) p = p

unfoldable pub cover : ℕ → ℕ → CacheDetail → Result CacheDetail
unfolding covered_sum
cover input_count count d = do
  i ← covered_sum d.input_tokens input_count
  n ← covered_sum (present d.input_tokens d.tokens) count
  ok (
      set_totals
        (record d {
          covered = bump d.covered;
          zero_origin_unknown =
              if count == 0 then bump d.zero_origin_unknown else d.zero_origin_unknown;
        })
        i n)

unfoldable pub add_detail : Row → Observation → Field → Column → CacheDetail → Result CacheDetail
unfolding begin_detail
add_detail r a f c d =
    let b = begin_detail a f d in
    if is_empty (value r c)
    then ok (record b { missing_detail = bump b.missing_detail })
    else if not (valid_cache_field a input) || not (valid_cache_field a f)
    then ok (record b { invalid_detail = bump b.invalid_detail })
    else cover (a.metric (total_of input)) (a.metric (total_of f)) b

-- `*w.Read.Input - *w.Read.Tokens`
uncached_tokens : Option ℕ → Option ℕ → Option ℕ → Option ℕ
uncached_tokens (some i) (some n) old = some (sub64 i n)
uncached_tokens _ _ old = old

unfoldable pub add_cache : CacheWindow → Row → Observation → Quality → Result CacheWindow
unfolding uncached_tokens
add_cache w r a q = do
  rd ← add_detail r a cache_read_input cache_read_input_tokens w.read
  wr ← add_detail r a cache_write_input cache_write_input_tokens w.write
  ok (record {
    requests = add64 w.requests 1;
    read = rd;
    write = wr;
    uncached = uncached_tokens rd.input_tokens rd.tokens w.uncached;
    missing_identity =
        if valid_cache_field a input && valid_cache_field a cache_read_input
        then add64 w.missing_identity q.missing_identity
        else w.missing_identity;
  })
