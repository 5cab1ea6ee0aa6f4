-- ===== src/Reprice/Add/Counted.antt =====
-- What a run of `Calculator.Add` in internal/reprice/calculate.go counts and prices.
use fleetdiff.Base.{
  ℕ, ◌+◌, ◌≤◌, ◌≡◌, refl, subst, Bool, true, false, Option, none, some, List, [], ◌∷◌, arith,
  Result, ok, >>=-eq-ok, ok-injective, fold_ok, sum_by, if◌then◌else◌, ◌&&◌,
}
use fleetdiff.Text.{Text}
use fleetdiff.Reprice.Calculator.{Config, State, Calculator}
use fleetdiff.Reprice.Add.{
  Record, record_cost, identities, add_state, is_covered, add_failure, add, fresh_failures,
  failures_or_fresh,
}
use fleetdiff.Reprice.Add.Outcome.{excluded_total, Outcome, add_state-Outcome}

abbrev pub of_failures : (State → ℕ) → Option State → ℕ
of_failures p none = 0
of_failures p (some f) = p f

-- After records of `n` observations: each is covered or excluded, and what failed is a part of what is covered.
pub record IsCounted (n : ℕ) (k : Calculator) : Type 0 where
  pub counted : k.state.covered + excluded_total k.state.excluded ≡ n
  pub failures_covered : of_failures (λ s. s.covered) k.failures ≤ k.state.covered
  pub failures_priced : of_failures (λ s. s.baseline) k.failures ≤ k.state.baseline

Outcome-counted :
    {c : Config} {s : State} {r : Record} {b : Bool} {t : State}
    → Outcome c s r b t
    → t.covered + excluded_total t.excluded ≡ s.covered + excluded_total s.excluded + r.count
Outcome-counted (Outcome.excluded z a b x) = omega (arith, a, x)
Outcome-counted (Outcome.covered z a b x) = omega (arith, a, x)

-- A step never lowers what is covered and priced, and raises it by the record at most.
record Grows (c : Config) (s : State) (r : Record) (t : State) : Type 0 where
  covered_up : s.covered ≤ t.covered
  baseline_up : s.baseline ≤ t.baseline
  covered_by : t.covered ≤ s.covered + r.count
  baseline_by : t.baseline ≤ s.baseline + record_cost c r

Outcome-Grows :
    {c : Config} {s : State} {r : Record} {b : Bool} {t : State} → Outcome c s r b t → Grows c s r t
Outcome-Grows (Outcome.excluded z a b x) = record {
  covered_up = omega (arith, a);
  baseline_up = omega (arith, b);
  covered_by = omega (arith, a);
  baseline_by = omega (arith, b);
}
Outcome-Grows (Outcome.covered z a b x) = record {
  covered_up = omega (arith, a);
  baseline_up = omega (arith, b);
  covered_by = omega (arith, a);
  baseline_by = omega (arith, b);
}

module _ (identity : Text → Text → Option ℕ) where
  of_fresh :
      (s : State) (f : Option State)
      → (failures_or_fresh identity s f).covered ≡ of_failures (λ x. x.covered) f
  unfolding fresh_failures
  of_fresh s none = refl
  of_fresh s (some f) = refl

  of_fresh_baseline :
      (s : State) (f : Option State)
      → (failures_or_fresh identity s f).baseline ≡ of_failures (λ x. x.baseline) f
  unfolding fresh_failures
  of_fresh_baseline s none = refl
  of_fresh_baseline s (some f) = refl

  same_cost :
      (c : Config) (r : Record) → record_cost c (record r { failed = false }) ≡ record_cost c r
  unfolding record_cost
  same_cost c r = refl

  add_failure-IsCounted :
      (n : ℕ) (k : Calculator) (t : State) (r : Record) {l : Calculator}
      → IsCounted n k
      → Outcome k.config k.state r true t
      → add_failure identity (record k { state = t }) r ≡ ok l
      → IsCounted (n + r.count) l
  unfolding add_failure
  add_failure-IsCounted n k t r v (Outcome.excluded z a b x) h = cc
  add_failure-IsCounted n k t r v (Outcome.covered z a b x) h =
      let s : State = failures_or_fresh identity t k.failures in
      let (f, hf, h1) =
        >>=-eq-ok (add_state identity k.config s (record r { failed = false })) _ h in
      let g =
        Outcome-Grows (add_state-Outcome identity k.config s (record r { failed = false }) hf) in
      subst (IsCounted (n + r.count)) (ok-injective h1) (record {
        counted = omega (arith, v.counted, a, x);
        failures_covered =
            omega (arith, g.covered_by, of_fresh t k.failures, v.failures_covered, a);
        failures_priced = omega (
          arith,
          g.baseline_by,
          same_cost k.config r,
          of_fresh_baseline t k.failures,
          v.failures_priced,
          b,
        );
      })

  add-IsCounted :
      (n : ℕ) (k : Calculator) (r : Record) {l : Calculator}
      → IsCounted n k
      → add identity k r ≡ ok l
      → IsCounted (n + r.count) l
  unfolding add
  add-IsCounted n k r {l} v h =
      let (t, ht, h1) = >>=-eq-ok (add_state identity k.config k.state r) _ h in
      at t r.failed (is_covered identity k.config k.state r (identities identity k.config r))
        (add_state-Outcome identity k.config k.state r ht) h1
    where
      kept :
          (t : State) (b : Bool)
          → Outcome k.config k.state r b t
          → ok (record k { state = t }) ≡ ok l
          → IsCounted (n + r.count) l
      kept t b o e =
          let g = Outcome-Grows o in
          subst (IsCounted (n + r.count)) (ok-injective e) (record {
            counted = omega (arith, Outcome-counted o, v.counted);
            failures_covered = omega (arith, g.covered_up, v.failures_covered);
            failures_priced = omega (arith, g.baseline_up, v.failures_priced);
          })

      at :
          (t : State) (f b : Bool)
          → Outcome k.config k.state r b t
          → (if f && b
              then add_failure identity (record k { state = t }) r
              else ok (record k { state = t }))
            ≡ ok l
          → IsCounted (n + r.count) l
      at t true true o e = add_failure-IsCounted n k t r v o e
      at t true false o e = kept t false o e
      at t false b o e = kept t b o e

  -- The records one by one, as the readers hand them over.
  unfoldable pub add_records : Calculator → List Record → Result Calculator
  add_records = fold_ok (add identity)

  pub add_records-IsCounted :
      (n : ℕ) (k : Calculator) (rs : List Record) {l : Calculator}
      → IsCounted n k
      → add_records k rs ≡ ok l
      → IsCounted (n + sum_by (λ r. r.count) rs) l
  unfolding add_records
  add_records-IsCounted n k [] {l} v h =
      subst (λ m. IsCounted m l) (omega arith) (subst (IsCounted n) (ok-injective h) v)
  add_records-IsCounted n k (r ∷ rs) {l} v h =
      let (m, first, rest) = >>=-eq-ok (add identity k r) _ h in
      subst (λ x. IsCounted x l) (omega arith)
        (add_records-IsCounted (n + r.count) m rs (add-IsCounted n k r v first) rest)
