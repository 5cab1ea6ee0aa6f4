-- ===== src/Spend/Cache/Covered.antt =====
-- The covered rows of a cache window.
use fleetdiff.Base.{
  ℕ, ◌+◌, ◌≤◌, ◌<◌, ◌≡◌, refl, Bool, true, false, not, ◌||◌, if◌then◌else◌, add64, Option, none,
  some, arith, word, max_int64, add64-eq, sub64-eq, ok, >>=-eq-ok, ok-injective, subst,
}
use fleetdiff.Accounting.Number.{add_bounded-eq-ok}
use fleetdiff.Accounting.Names.{Field, input, cache_read_input, cache_write_input, total_of}
use fleetdiff.Accounting.Tokens.{Observation}
use fleetdiff.Accounting.Tokens.Sound.{IsSound}
use fleetdiff.Spend.Row.{Row, Column, value, cache_read_input_tokens, cache_write_input_tokens}
use fleetdiff.Text.{is_empty}
use fleetdiff.Spend.Quality.{Quality}
use fleetdiff.Spend.Cache.{
  valid_cache_field, bump, present, cover, covered_sum, begin_detail, add_detail, add_cache,
  uncached_tokens,
}
use fleetdiff.Compare.CacheView.{CacheDetail, CacheWindow, set_totals, is_some}

abbrev pub held : Option ℕ → ℕ
held none = 0
held (some n) = n

-- The sums stand together, and the tokens of the covered rows are part of their input.
abbrev pub IsPart : Option ℕ → Option ℕ → Type 0
IsPart none none = Unit
IsPart (some i) (some n) = (n ≤ i) × (i ≤ max_int64)
IsPart _ _ = ⊥

-- After `n` rows the four counters are set, and each row is covered, missing or invalid.
pub record IsDetail (n : ℕ) (d : CacheDetail) : Type 0 where
  pub has_covered : is_some d.covered ≡ true
  pub has_missing : is_some d.missing_detail ≡ true
  pub has_invalid : is_some d.invalid_detail ≡ true
  pub has_zero : is_some d.zero_origin_unknown ≡ true
  pub partition : held d.covered + held d.missing_detail + held d.invalid_detail ≡ n
  pub part : IsPart d.input_tokens d.tokens

-- The first step changes only the report count of counters that are set.
begin-IsDetail :
    (n : ℕ) (a : Observation) (f : Field) (d : CacheDetail)
    → IsDetail n d
    → IsDetail n (begin_detail a f d)
unfolding begin_detail
begin-IsDetail n a f d h = ground arith

count_missing :
    (n : ℕ) (d : CacheDetail)
    → n + 1 < word
    → IsDetail n d
    → IsDetail (n + 1) (record d { missing_detail = bump d.missing_detail })
count_missing n d w h = ground (arith, add64-eq (held d.missing_detail) 1)

count_invalid :
    (n : ℕ) (d : CacheDetail)
    → n + 1 < word
    → IsDetail n d
    → IsDetail (n + 1) (record d { invalid_detail = bump d.invalid_detail })
count_invalid n d w h = ground (arith, add64-eq (held d.invalid_detail) 1)

covered_sums :
    (i t : Option ℕ) (x y : ℕ) {p q : ℕ}
    → IsPart i t
    → y ≤ x
    → x ≤ max_int64
    → covered_sum i x ≡ ok p
    → covered_sum (present i t) y ≡ ok q
    → (q ≤ p) × (p ≤ max_int64)
unfolding covered_sum
covered_sums none none x y h le b e e' = ground arith
covered_sums none (some n) x y h le b e e' = absurd h
covered_sums (some m) none x y h le b e e' = absurd h
covered_sums (some m) (some n) x y h le b e e' =
    omega (arith, add_bounded-eq-ok m x e, add_bounded-eq-ok n y e')

cover-IsDetail :
    (n x y : ℕ) (d : CacheDetail) {d' : CacheDetail}
    → n + 1 < word
    → y ≤ x
    → x ≤ max_int64
    → IsDetail n d
    → cover x y d ≡ ok d'
    → IsDetail (n + 1) d'
unfolding cover set_totals
cover-IsDetail n x y d w le b h e =
    let (p, ep, e1) = >>=-eq-ok (covered_sum d.input_tokens x) _ e in
    let (q, eq, e2) = >>=-eq-ok (covered_sum (present d.input_tokens d.tokens) y) _ e1 in
    let sums : (q ≤ p) × (p ≤ max_int64) =
      covered_sums d.input_tokens d.tokens x y h.part le b ep eq in
    subst (IsDetail (n + 1)) (ok-injective e2) (ground (arith, add64-eq (held d.covered) 1))

-- One row: the field's tokens are within the input wherever both are valid.
abbrev pub Within : Observation → Field → Type 0
Within a f =
    valid_cache_field a input ≡ true
    → valid_cache_field a f ≡ true
    → (a.metric (total_of f) ≤ a.metric (total_of input)) × (a.metric (total_of input) ≤ max_int64)

pub read-Within : (a : Observation) → IsSound a → Within a cache_read_input
unfolding valid_cache_field
read-Within a h i r = ground (arith, h.read_within, h.field_bounded input)

pub write-Within : (a : Observation) → IsSound a → Within a cache_write_input
unfolding valid_cache_field
write-Within a h i r = ground (arith, h.write_within, h.field_bounded input)

branch-IsDetail :
    (n x y : ℕ) (d : CacheDetail) (blank vi vf : Bool) {d' : CacheDetail}
    → n + 1 < word
    → (vi ≡ true → vf ≡ true → (y ≤ x) × (x ≤ max_int64))
    → IsDetail n d
    → (if blank
        then ok (record d { missing_detail = bump d.missing_detail })
        else if not vi || not vf
        then ok (record d { invalid_detail = bump d.invalid_detail })
        else cover x y d)
      ≡ ok d'
    → IsDetail (n + 1) d'
branch-IsDetail n x y d true vi vf w within h e =
    subst (IsDetail (n + 1)) (ok-injective e) (count_missing n d w h)
branch-IsDetail n x y d false false vf w within h e =
    subst (IsDetail (n + 1)) (ok-injective e) (count_invalid n d w h)
branch-IsDetail n x y d false true false w within h e =
    subst (IsDetail (n + 1)) (ok-injective e) (count_invalid n d w h)
branch-IsDetail n x y d false true true w within h e =
    cover-IsDetail n x y d w (within refl refl).0 (within refl refl).1 h e

add_detail-IsDetail :
    (n : ℕ) (r : Row) (a : Observation) (f : Field) (c : Column) (d : CacheDetail)
    {d' : CacheDetail}
    → n + 1 < word
    → Within a f
    → IsDetail n d
    → add_detail r a f c d ≡ ok d'
    → IsDetail (n + 1) d'
unfolding add_detail
add_detail-IsDetail n r a f c d w within h e =
    branch-IsDetail n _ _ (begin_detail a f d) (is_empty (value r c)) (valid_cache_field a input)
      (valid_cache_field a f) w within (begin-IsDetail n a f d h) e

-- The difference of the sums of the read field, once there is one.
abbrev pub IsDifference : Option ℕ → Option ℕ → Option ℕ → Type 0
IsDifference (some u) (some i) (some n) = u + n ≡ i
IsDifference none none none = Unit
IsDifference _ _ _ = ⊥

pub record IsCovered (w : CacheWindow) : Type 0 where
  pub in_range : w.requests < word
  pub read_detail : IsDetail w.requests w.read
  pub write_detail : IsDetail w.requests w.write
  pub difference : IsDifference w.uncached w.read.input_tokens w.read.tokens

uncached-IsDifference :
    (i n old : Option ℕ) (j m : Option ℕ)
    → IsPart i n
    → IsDifference old j m
    → (is_some j ≡ true → is_some i ≡ true)
    → IsDifference (uncached_tokens i n old) i n
unfolding uncached_tokens
uncached-IsDifference (some i) (some n) old j m p d k = omega (arith, sub64-eq i n)
uncached-IsDifference (some i) none old j m p d k = absurd p
uncached-IsDifference none (some n) old j m p d k = absurd p
uncached-IsDifference none none (some u) j m p d k = ground arith
uncached-IsDifference none none none j m p d k = tt

cover_starts :
    (x y : ℕ) (d : CacheDetail) {d' : CacheDetail}
    → cover x y d ≡ ok d'
    → is_some d'.input_tokens ≡ true
unfolding cover set_totals
cover_starts x y d e =
    let (p, ep, e1) = >>=-eq-ok (covered_sum d.input_tokens x) _ e in
    let (q, eq, e2) = >>=-eq-ok (covered_sum (present d.input_tokens d.tokens) y) _ e1 in
    subst (λ (z : CacheDetail). is_some z.input_tokens ≡ true) (ok-injective e2) refl

branch_keeps :
    (x y : ℕ) (d : CacheDetail) (blank doubt : Bool) {d' : CacheDetail}
    → (if blank
        then ok (record d { missing_detail = bump d.missing_detail })
        else if doubt
        then ok (record d { invalid_detail = bump d.invalid_detail })
        else cover x y d)
      ≡ ok d'
    → is_some d.input_tokens ≡ true
    → is_some d'.input_tokens ≡ true
branch_keeps x y d true doubt e h =
    subst (λ (z : CacheDetail). is_some z.input_tokens ≡ true) (ok-injective e) h
branch_keeps x y d false true e h =
    subst (λ (z : CacheDetail). is_some z.input_tokens ≡ true) (ok-injective e) h
branch_keeps x y d false false e h = cover_starts x y d e

add_detail_keeps :
    (r : Row) (a : Observation) (f : Field) (c : Column) (d : CacheDetail) {d' : CacheDetail}
    → add_detail r a f c d ≡ ok d'
    → is_some d.input_tokens ≡ true
    → is_some d'.input_tokens ≡ true
unfolding add_detail begin_detail
add_detail_keeps r a f c d e h =
    branch_keeps _ _ (begin_detail a f d) (is_empty (value r c))
      (not (valid_cache_field a input) || not (valid_cache_field a f)) e h

-- A row keeps the account of its cache window: every row is covered, missing its detail or invalid, in
-- the read and in the write field; what is covered is part of its input; and the uncached tokens are
-- the exact difference, which never wraps.
pub add_cache-IsCovered :
    (w : CacheWindow) (r : Row) (a : Observation) (q : Quality) {w' : CacheWindow}
    → IsSound a
    → w.requests + 1 < word
    → IsCovered w
    → add_cache w r a q ≡ ok w'
    → IsCovered w'
unfolding add_cache
add_cache-IsCovered w r a q s b h e =
    let (rd, er, e1) =
      >>=-eq-ok (add_detail r a cache_read_input cache_read_input_tokens w.read) _ e in
    let (wr, ew, e2) =
      >>=-eq-ok (add_detail r a cache_write_input cache_write_input_tokens w.write) _ e1 in
    let one : add64 w.requests 1 ≡ w.requests + 1 = add64-eq w.requests 1 b in
    let dr : IsDetail (w.requests + 1) rd =
      add_detail-IsDetail w.requests r a cache_read_input _ w.read b (read-Within a s) h.read_detail
        er in
    let dw : IsDetail (w.requests + 1) wr =
      add_detail-IsDetail w.requests r a cache_write_input _ w.write b (write-Within a s)
        h.write_detail ew in
    subst IsCovered (ok-injective e2) (record {
      in_range = omega (arith, one);
      read_detail = rw one dr;
      write_detail = rw one dw;
      difference =
          uncached-IsDifference rd.input_tokens rd.tokens w.uncached w.read.input_tokens
            w.read.tokens dr.part h.difference (add_detail_keeps r a cache_read_input _ w.read er);
    })
