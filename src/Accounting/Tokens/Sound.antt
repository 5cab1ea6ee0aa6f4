-- ===== src/Accounting/Tokens/Sound.antt =====
-- `Tokens`: what holds of every observation that it returns, and when it returns one.
use fleetdiff.Base.{
  ℕ, ◌+◌, ◌≤◌, ◌≡◌, ◌↔◌, refl, false, arith, max_int64, ok, >>=-eq-ok, ok-injective, subst, flag,
}
use fleetdiff.Accounting.Number.{add_bounded, add_bounded-eq-ok}
use fleetdiff.Accounting.Names.{
  Field, input, output, cache_read_input, cache_write_input, reasoning_output, input_provenance,
  output_provenance, total_tokens_total, missing_token_usage_total, total_of, reported, missing,
  invalid, conflict, subset_violation, Origin, provider_reported, inferred, unavailable, unknown,
}
use fleetdiff.Accounting.Tokens.{
  Attributes, Seen, string_attribute, origin, origin_named, supported_origin, is_doubtful, withdraw,
  Usage, seen, Observation, observation, metric_of, field_quality, assemble, read_usage, tokens,
}
use fleetdiff.Accounting.Tokens.Reading.{IsSeen, IsUsage, AreInt64, read_usage-IsUsage}
use fleetdiff.Text.{Text}

-- A declared origin stands only on a single valid report, and a withdrawn count is not reported.
abbrev pub IsSupported : (o : Origin) (is_reported is_invalid is_conflict : ℕ) → Type 0
IsSupported unknown r i c = Unit
IsSupported unavailable r i c = r ≡ 0
IsSupported _ r i c = (r ≡ 1) × (i ≡ 0) × (c ≡ 0)

abbrev pub OriginSupported : Origin → Observation → Field → Type 0
OriginSupported o a f =
    IsSupported o (a.quality f reported) (a.quality f invalid) (a.quality f conflict)

-- A subset that is reported and not marked stays within a reported parent.
abbrev pub StaysWithin : Observation → Field → Field → Type 0
StaysWithin a f parent =
    a.quality f subset_violation ≡ 0
    → a.quality f reported ≡ 1
    → a.quality parent reported ≡ 1
    → a.metric (total_of f) ≤ a.metric (total_of parent)

pub record IsSound (a : Observation) : Type 0 where
  pub total_exact :
      a.metric total_tokens_total ≡ a.metric (total_of input) + a.metric (total_of output)
  pub total_bounded : a.metric total_tokens_total ≤ max_int64
  pub field_bounded : (f : Field) → a.metric (total_of f) ≤ max_int64
  pub unreported_zero : (f : Field) → a.quality f reported ≡ 0 → a.metric (total_of f) ≡ 0
  pub input_reported_or_missing : a.quality input reported + a.quality input missing ≡ 1
  pub output_reported_or_missing : a.quality output reported + a.quality output missing ≡ 1
  pub missing_usage :
      (a.metric missing_token_usage_total ≡ 0)
      ↔ (a.quality input missing + a.quality output missing ≡ 0)
  pub read_within : StaysWithin a cache_read_input input
  pub write_within : StaysWithin a cache_write_input input
  pub reasoning_within : StaysWithin a reasoning_output output
  pub input_origin : OriginSupported a.provenance_input a input
  pub output_origin : OriginSupported a.provenance_output a output

withdraw-IsSeen : (o : Origin) (s : Seen) → IsSeen s → (withdraw o s).value ≤ s.value
unfolding withdraw
withdraw-IsSeen provider_reported s h = omega arith
withdraw-IsSeen _ s h = omega arith

withdraw_zero :
    (o : Origin) (s : Seen)
    → IsSeen s
    → (withdraw o s).is_reported ≡ false
    → (withdraw o s).value ≡ 0
unfolding withdraw
withdraw_zero provider_reported s h e = h.unreported_zero e
withdraw_zero unavailable s h e = refl
withdraw_zero _ s h e = h.unreported_zero e

-- The origin that `Tokens` settles on is supported by what it keeps of the observation.
abbrev Settles : Origin → Seen → Type 0
Settles p o =
    let k = withdraw p o in
    IsSupported p (flag k.is_reported) (flag k.is_invalid) (flag k.is_conflict)

settled : (n : Origin) (o : Seen) → Settles (supported_origin n (is_doubtful o)) o
unfolding supported_origin withdraw
settled provider_reported o = ground arith
settled inferred o = ground arith
settled _ o = ground arith

origin-Settles : (s : Text) (o : Seen) → Settles (origin s o) o
unfolding origin
origin-Settles s o = settled (origin_named s) o

module _ (u : Usage) (h : IsUsage u) (si so : Text) where
  abbrev kept : Usage
  kept = record u {
    of_input = withdraw (origin si u.of_input) u.of_input;
    of_output = withdraw (origin so u.of_output) u.of_output;
  }

  abbrev made : ℕ → Observation
  made = observation kept (origin si u.of_input) (origin so u.of_output)

  kept_bounded : (f : Field) → (seen kept f).value ≤ max_int64
  kept_bounded input = omega (arith, withdraw-IsSeen _ _ h.in_input, h.in_input.bounded)
  kept_bounded output = omega (arith, withdraw-IsSeen _ _ h.in_output, h.in_output.bounded)
  kept_bounded cache_read_input = h.in_read.bounded
  kept_bounded cache_write_input = h.in_write.bounded
  kept_bounded reasoning_output = h.in_reasoning.bounded

  kept_zero : (f : Field) → flag (seen kept f).is_reported ≡ 0 → (seen kept f).value ≡ 0
  kept_zero input e = withdraw_zero _ _ h.in_input (ground arith)
  kept_zero output e = withdraw_zero _ _ h.in_output (ground arith)
  kept_zero cache_read_input e = h.in_read.unreported_zero (ground arith)
  kept_zero cache_write_input e = h.in_write.unreported_zero (ground arith)
  kept_zero reasoning_output e = h.in_reasoning.unreported_zero (ground arith)

  made-IsSound :
      {n : ℕ} → add_bounded kept.of_input.value kept.of_output.value ≡ ok n → IsSound (made n)
  unfolding metric_of field_quality
  made-IsSound {n} e =
      let exact = (add_bounded-eq-ok kept.of_input.value kept.of_output.value e) in
      record {
        total_exact = exact.0;
        total_bounded = exact.1;
        field_bounded = kept_bounded;
        unreported_zero = kept_zero;
        input_reported_or_missing = ground arith;
        output_reported_or_missing = ground arith;
        missing_usage = ground arith;
        read_within = ground arith;
        write_within = ground arith;
        reasoning_within = ground arith;
        input_origin = origin-Settles si u.of_input;
        output_origin = origin-Settles so u.of_output;
      }

assemble-IsSound :
    (attrs : Attributes) (u : Usage) {a : Observation}
    → IsUsage u
    → assemble attrs u ≡ ok a
    → IsSound a
unfolding assemble
assemble-IsSound attrs u h e =
    let i = string_attribute attrs input_provenance in
    let o = string_attribute attrs output_provenance in
    let k = kept u h i o in
    let (n, sum, eq) = >>=-eq-ok (add_bounded k.of_input.value k.of_output.value) _ e in
    subst IsSound (ok-injective eq) (made-IsSound u h i o sum)

-- Whatever the attributes say, an observation that `Tokens` returns is sound: its total is the exact
-- sum of input and output and fits an `int64`, each count fits, an unreported count is 0, input and
-- output are each reported or missing and never both, the missing-usage count is 0 exactly when
-- neither is missing, an unmarked subset stays within its parent, and a declared origin is backed by a
-- single valid report. The integers among the attributes are `int64` values.
pub tokens-IsSound :
    (attrs : Attributes) {a : Observation} → AreInt64 attrs → tokens attrs ≡ ok a → IsSound a
unfolding tokens
tokens-IsSound attrs r e =
    let (u, read, made) = >>=-eq-ok (read_usage attrs) (assemble attrs) e in
    assemble-IsSound attrs u (read_usage-IsUsage attrs r read) made
