-- ===== src/Accounting/Tokens/Reading.antt =====
-- `Tokens`: what the reading of the attributes establishes.
use fleetdiff.Base.{
  ℕ, ◌≤◌, ◌≡◌, true, false, Option, none, some, List, [], ◌∷◌, arith, max_int64, ok, ◌>>=◌,
  >>=-eq-ok, ok-injective, subst, fold_ok,
}
use fleetdiff.Accounting.Number.{Value, IsInt64, number, number-le}
use fleetdiff.Accounting.Names.{
  Attribute, Field, input, output, cache_read_input, cache_write_input, reasoning_output, sources,
}
use fleetdiff.Accounting.Tokens.{
  Attributes, Seen, unseen, record_number, observe_source, observe, Usage, read_usage,
}

-- A value without a report is zero, and a conflict needs a first report.
pub record IsSeen (o : Seen) : Type 0 where
  pub unreported_zero : o.is_reported ≡ false → o.value ≡ 0
  pub conflict_reported : o.is_conflict ≡ true → o.is_reported ≡ true
  pub bounded : o.value ≤ max_int64

unseen-IsSeen : IsSeen unseen
unseen-IsSeen = ground arith

abbrev AtMostMax : Option ℕ → Type 0
AtMostMax none = Unit
AtMostMax (some n) = n ≤ max_int64

record_number-IsSeen :
    (o : Seen) (n : Option ℕ) → IsSeen o → AtMostMax n → IsSeen (record_number o n)
unfolding record_number
record_number-IsSeen o none h b = ground arith
record_number-IsSeen o (some n) h b = ground arith

-- Every `int64` among the attributes is in range.
abbrev pub InRange : Option Value → Type 0
InRange none = Unit
InRange (some v) = IsInt64 v

abbrev pub AreInt64 : Attributes → Type 0
AreInt64 attrs = (k : Attribute) → InRange (attrs k)

number-AtMostMax : (v : Value) → IsInt64 v → (n : Option ℕ) → number v ≡ ok n → AtMostMax n
number-AtMostMax v h none e = tt
number-AtMostMax v h (some n) e = number-le v h e

observe_value-IsSeen :
    (o o' : Seen) (v : Value)
    → IsSeen o
    → IsInt64 v
    → (number v >>= λ n. ok (record_number o n)) ≡ ok o'
    → IsSeen o'
observe_value-IsSeen o o' v h r e =
    let (n, read, eq) = >>=-eq-ok (number v) _ e in
    subst IsSeen (ok-injective eq) (record_number-IsSeen o n h (number-AtMostMax v r n read))

observe_source-IsSeen :
    (attrs : Attributes) (o o' : Seen) (k : Attribute)
    → IsSeen o
    → AreInt64 attrs
    → observe_source attrs o k ≡ ok o'
    → IsSeen o'
unfolding observe_source
observe_source-IsSeen attrs o o' k h r e = at (attrs k) (r k) e
  where
    at :
        (v : Option Value)
        → InRange v
        → (elim v [ none ↦ ok o | some v ↦ number v >>= λ n. ok (record_number o n) ]) ≡ ok o'
        → IsSeen o'
    at none _ e = subst IsSeen (ok-injective e) h
    at (some v) r e = observe_value-IsSeen o o' v h r e

fold-IsSeen :
    (attrs : Attributes) (ks : List Attribute) (o o' : Seen)
    → IsSeen o
    → AreInt64 attrs
    → fold_ok (observe_source attrs) o ks ≡ ok o'
    → IsSeen o'
fold-IsSeen attrs [] o o' h r e = subst IsSeen (ok-injective e) h
fold-IsSeen attrs (k ∷ ks) o o' h r e =
    let (o1, first, rest) = >>=-eq-ok (observe_source attrs o k) _ e in
    fold-IsSeen attrs ks o1 o' (observe_source-IsSeen attrs o o1 k h r first) r rest

observe-IsSeen :
    (attrs : Attributes) (f : Field) {o : Seen} → AreInt64 attrs → observe attrs f ≡ ok o → IsSeen o
unfolding observe
observe-IsSeen attrs f r e = fold-IsSeen attrs (sources f) unseen _ unseen-IsSeen r e

-- Each of the five observations is well formed.
pub record IsUsage (u : Usage) : Type 0 where
  pub in_input : IsSeen u.of_input
  pub in_output : IsSeen u.of_output
  pub in_read : IsSeen u.of_cache_read
  pub in_write : IsSeen u.of_cache_write
  pub in_reasoning : IsSeen u.of_reasoning

pub read_usage-IsUsage :
    (attrs : Attributes) {u : Usage} → AreInt64 attrs → read_usage attrs ≡ ok u → IsUsage u
unfolding read_usage
read_usage-IsUsage attrs r e =
    let (i, ei, e1) = >>=-eq-ok (observe attrs input) _ e in
    let (o, eo, e2) = >>=-eq-ok (observe attrs output) _ e1 in
    let (c, ec, e3) = >>=-eq-ok (observe attrs cache_read_input) _ e2 in
    let (w, ew, e4) = >>=-eq-ok (observe attrs cache_write_input) _ e3 in
    let (t, et, e5) = >>=-eq-ok (observe attrs reasoning_output) _ e4 in
    subst IsUsage (ok-injective e5) (record {
      in_input = observe-IsSeen attrs input r ei;
      in_output = observe-IsSeen attrs output r eo;
      in_read = observe-IsSeen attrs cache_read_input r ec;
      in_write = observe-IsSeen attrs cache_write_input r ew;
      in_reasoning = observe-IsSeen attrs reasoning_output r et;
    })
