-- ===== src/Compare/UsageSource/Sound.antt =====
-- internal/compare/investigate.go: what the answers of `usageSourceQuestion` rest on.
use fleetdiff.Base.{
  ℕ, ◌+◌, ◌≡◌, refl, ap, ◌∙◌, subst, Bool, true, false, ◌&&◌, ◌||◌, Option, none, some, List, ltb,
  ◌==◌, if-cases, arith,
}
use fleetdiff.Text.{Text, codes}
use fleetdiff.Compare.UsageSource.{
  Counter, UsageCoverage, SourceReport, provider_reported, Source, reported, inferred, unavailable,
  unknown, source_counter, Tally, Outcome, unknown_stop, disagreeing_stop, running, is_reported,
  take_source, continue_with, all_taken, take_field, both_fields, answer_of, covered_answer,
  usage_source,
}

-- The counts of one field: the provider reports all requests of both windows, and no other source has any.
pub record IsProviders (cs : List Counter) (field : Text) (before after : ℕ) : Type 0 where
  pub counter : Counter
  pub present : source_counter cs field reported ≡ some counter
  pub all_before : counter.count_before ≡ before
  pub all_after : counter.count_after ≡ after

record Taken (s : Source) (o : Option Counter) (t u : Tally) : Type 0 where
  counter : Counter
  present : o ≡ some counter
  before : u.left_before + counter.count_before ≡ t.left_before
  after : u.left_after + counter.count_after ≡ t.left_after
  only :
      u.provider_only ≡ true
      → (t.provider_only ≡ true)
        × (is_reported s ≡ false → (counter.count_before ≡ 0) × (counter.count_after ≡ 0))

running_of : Tally → Outcome → Tally
running_of t unknown_stop = t
running_of t disagreeing_stop = t
running_of t (running u) = u

running-injective : {t u : Tally} → running t ≡ running u → t ≡ u
unfolding running_of
running-injective {t} e = ap (running_of t) e

and_parts : (a b : Bool) → (a && b) ≡ true → (a ≡ true) × (b ≡ true)
and_parts true b h = (refl, h)
and_parts false b h = cc

only_reported :
    (r : Bool) (a b : ℕ) → (r || (a == 0 && b == 0)) ≡ true → r ≡ false → (a ≡ 0) × (b ≡ 0)
only_reported r a b h e = (ground (arith, h, e), ground (arith, h, e))

take_source-Taken :
    (s : Source) (o : Option Counter) (t u : Tally) → take_source s o t ≡ running u → Taken s o t u
unfolding take_source
take_source-Taken s none t u h = cc
take_source-Taken s (some c) t u h =
    if-cases (ltb t.left_before c.count_before || ltb t.left_after c.count_after) _ _ (λ e g. cc)
      (λ e g. subst (Taken s (some c) t) (running-injective g) (record {
        counter = c;
        present = refl;
        before = ground (arith, e);
        after = ground (arith, e);
        only = λ p.
            let (q, r) =
              and_parts t.provider_only
                (is_reported s || (c.count_before == 0 && c.count_after == 0)) p in
            (q, only_reported (is_reported s) c.count_before c.count_after r);
      }))
      h

continue_running :
    (o : Outcome) (f : Tally → Outcome) (u : Tally)
    → continue_with o f ≡ running u
    → (t : Tally) × (o ≡ running t) × (f t ≡ running u)
unfolding continue_with
continue_running unknown_stop f u h = cc
continue_running disagreeing_stop f u h = cc
continue_running (running t) f u h = (t, refl, h)

module _ (cs : List Counter) (before after : ℕ) where
  all_taken_lem :
      (t u : Tally)
      → all_taken cs before after t ≡ running u
      → (t ≡ u) × (t.left_before ≡ 0) × (t.left_after ≡ 0)
  unfolding all_taken
  all_taken_lem t u h =
      if-cases (t.left_before == 0 && t.left_after == 0) _ _
        (λ e g. (running-injective g, ground (arith, e), ground (arith, e))) (λ e g. cc) h

  take_field-IsProviders :
      (field : Text) (t u : Tally)
      → take_field cs before after field t ≡ running u
      → u.provider_only ≡ true
      → (t.provider_only ≡ true) × IsProviders cs field before after
  unfolding take_field is_reported
  take_field-IsProviders field t u h p =
      let start = record t { left_before = before; left_after = after } in
      let (a, ea, ra) =
        continue_running (take_source reported (source_counter cs field reported) start) _ u h in
      let (b, eb, rb) =
        continue_running (take_source inferred (source_counter cs field inferred) a) _ u ra in
      let (c, ec, rc) =
        continue_running (take_source unavailable (source_counter cs field unavailable) b) _ u rb in
      let (d, ed, rd) =
        continue_running (take_source unknown (source_counter cs field unknown) c) _ u rc in
      let (same, none_before, none_after) = all_taken_lem d u rd in
      let ta = take_source-Taken reported (source_counter cs field reported) start a ea in
      let tb = take_source-Taken inferred (source_counter cs field inferred) a b eb in
      let tc = take_source-Taken unavailable (source_counter cs field unavailable) b c ec in
      let td = take_source-Taken unknown (source_counter cs field unknown) c d ed in
      let pd = td.only (ap (λ t. t.provider_only) same ∙ p) in
      let pc = tc.only pd.0 in
      let pb = tb.only pc.0 in
      let pa = ta.only pb.0 in
      let d0 = pd.1 refl in
      let c0 = pc.1 refl in
      let b0 = pb.1 refl in
      (
        pa.0,
        record {
          counter = ta.counter;
          present = ta.present;
          all_before = omega (arith, ta.before, tb.before, tc.before, td.before, d0.0, c0.0, b0.0);
          all_after = omega (arith, ta.after, tb.after, tc.after, td.after, d0.1, c0.1, b0.1);
        },
      )

-- What the best answer says of a report.
pub record IsProviderReported (r : SourceReport) : Type 0 where
  pub before : UsageCoverage
  pub after : UsageCoverage
  pub has_before : r.usage_before ≡ some before
  pub has_after : r.usage_after ≡ some after
  pub complete : r.complete ≡ true
  pub none_missing : (before.missing ≡ 0) × (after.missing ≡ 0)
  pub input : IsProviders r.counters (codes "input") before.requests after.requests
  pub output : IsProviders r.counters (codes "output") before.requests after.requests

reported_answer :
    (o : Outcome) (complete : Bool) (m n : ℕ)
    → answer_of complete m n o ≡ provider_reported
    → (t : Tally) × (o ≡ running t)
      × (t.provider_only ≡ true)
      × (complete ≡ true)
      × (m ≡ 0)
      × (n ≡ 0)
unfolding answer_of
reported_answer unknown_stop complete m n h = cc
reported_answer disagreeing_stop complete m n h = cc
reported_answer (running t) complete m n h =
    if-cases t.has_unknown _ _ (λ e g. cc)
      (λ e g.
        if-cases (t.provider_only && complete && m == 0 && n == 0) _ _
          (λ k x.
            (t, refl, ground (arith, k), ground (arith, k), ground (arith, k), ground (arith, k)))
          (λ k x. if-cases t.provider_only _ _ (λ _ y. cc) (λ _ y. cc) x) g)
      h

covered-IsProviderReported :
    (r : SourceReport) (a b : Option UsageCoverage)
    → r.usage_before ≡ a
    → r.usage_after ≡ b
    → covered_answer r a b ≡ provider_reported
    → IsProviderReported r
unfolding covered_answer both_fields
covered-IsProviderReported r none b p q h = cc
covered-IsProviderReported r (some a) none p q h = cc
covered-IsProviderReported r (some a) (some b) p q h =
    if-cases (a.requests == 0 || b.requests == 0) _ _ (λ e g. cc)
      (λ e g.
        let start : Tally = record {
          left_before = a.requests;
          left_after = b.requests;
          has_unknown = false;
          provider_only = true;
        } in
        let (t, ran, only, complete, m, n) =
          reported_answer (both_fields r.counters a.requests b.requests) r.complete a.missing
            b.missing g in
        let (u, first, second) =
          continue_running (take_field r.counters a.requests b.requests (codes "input") start) _ t
            ran in
        let (before_only, output) =
          take_field-IsProviders r.counters a.requests b.requests (codes "output") u t second
            only in
        let (z, input) =
          take_field-IsProviders r.counters a.requests b.requests (codes "input") start u first
            before_only in
        record {
          before = a;
          after = b;
          has_before = p;
          has_after = q;
          complete = complete;
          none_missing = (m, n);
          input = input;
          output = output;
        })
      h

-- Where the answer is that the provider reported all usage, the report is complete, no request lacks usage, and for
-- input and for output the provider's counter has every request of both windows.
pub usage_source-IsProviderReported :
    (r : SourceReport) → usage_source r ≡ provider_reported → IsProviderReported r
unfolding usage_source
usage_source-IsProviderReported r h =
    covered-IsProviderReported r r.usage_before r.usage_after refl refl h
