-- ===== src/Reprice/Priced.antt =====
-- From configuration to report in internal/reprice: `New`, any run of `Calculator.Add`, and `Result`.
use fleetdiff.Base.{
  ℕ, ◌≡◌, sym, ap, ◌∙◌, subst, false, ◌&&◌, Option, List, [], ◌∷◌, arith, All, ok, >>=-eq-ok,
  ok-injective, if-eq, sum_by,
}
use fleetdiff.Text.{Text}
use fleetdiff.Reprice.Config.{Prices, Factors, Scenario, WorkloadMap}
use fleetdiff.Reprice.Config.Validated.{IsOrderedFactor}
use fleetdiff.Reprice.Calculator.{Calculator, Config, State, new_calculator}
use fleetdiff.Reprice.Calculator.Fresh.{IsFresh, new_calculator-IsFresh}
use fleetdiff.Reprice.Add.{Record, add, add_state, add_failure, is_covered, identities}
use fleetdiff.Reprice.Add.Counted.{IsCounted, add_records, add_records-IsCounted}
use fleetdiff.Reprice.Add.Outcome.{excluded_total}
use fleetdiff.Reprice.Report.{result, priced_failures}
use fleetdiff.Reprice.Report.Enveloped.{AreOrdered, result_of-AreOrdered}

IsFresh-IsCounted : (k : Calculator) → IsFresh k → IsCounted 0 k
unfolding excluded_total
IsFresh-IsCounted k v = record {
  counted = simp (v.nothing_covered, v.nothing_excluded);
  failures_covered = rw v.nothing_failed (omega arith);
  failures_priced = rw v.nothing_failed (omega arith);
}

module _ (identity : Text → Text → Option ℕ) where
  config-add_failure :
      (k : Calculator) (r : Record) {l : Calculator}
      → add_failure identity k r ≡ ok l
      → l.config ≡ k.config
  unfolding add_failure
  config-add_failure k r h =
      let (f, hf, h1) =
        >>=-eq-ok (add_state identity k.config _ (record r { failed = false })) _ h in
      sym (ap (λ (x : Calculator). x.config) (ok-injective h1))

  config-add :
      (k : Calculator) (r : Record) {l : Calculator} → add identity k r ≡ ok l → l.config ≡ k.config
  unfolding add
  config-add k r h =
      let (t, ht, h1) = >>=-eq-ok (add_state identity k.config k.state r) _ h in
      if-eq (r.failed && is_covered identity k.config k.state r (identities identity k.config r)) _
        _ (config-add_failure (record k { state = t }) r)
        (λ e. sym (ap (λ (x : Calculator). x.config) (ok-injective e))) h1

  config-add_records :
      (k : Calculator) (rs : List Record) {l : Calculator}
      → add_records identity k rs ≡ ok l
      → l.config ≡ k.config
  unfolding add_records
  config-add_records k [] h = sym (ap (λ (x : Calculator). x.config) (ok-injective h))
  config-add_records k (r ∷ rs) h =
      let (m, first, rest) = >>=-eq-ok (add identity k r) _ h in
      config-add_records m rs rest ∙ config-add k r first

  module _ (year : Text → Option ℕ) (p : Prices) (f : Factors) (s : Scenario) (m : WorkloadMap)
      (rs : List Record) {k l : Calculator} (made : new_calculator identity year p f s m ≡ ok k)
      (added : add_records identity k rs ≡ ok l) where
    -- A calculator that `New` returns accounts for every observation: after any records that it accepts, what it covers and
    -- what it excludes for some issue add up to the counts of the records; and the failed records that it prices apart are
    -- a part of what it covers and of the cost before the moves, never an addition.
    pub records-IsCounted : IsCounted (sum_by (λ r. r.count) rs) l
    records-IsCounted =
        subst (λ n. IsCounted n l) (omega arith)
          (add_records-IsCounted identity 0 k rs
            (IsFresh-IsCounted k (new_calculator-IsFresh identity year p f s m made)) added)

    -- Every interval that the report shows, also of each move, has its central value between its ends, and the envelope
    -- holds each interval of the whole;
    -- so too in the report of the failed records. This is so whatever the records are, and for every scenario and table of
    -- factors that `New` accepts.
    pub result-AreOrdered :
        AreOrdered (result l) × ((x : State) → AreOrdered (priced_failures l x).report)
    unfolding result priced_failures
    result-AreOrdered =
        let o : All IsOrderedFactor l.config.factors.pairs =
          subst (λ (c : Config). All IsOrderedFactor c.factors.pairs)
            (sym (config-add_records k rs added))
            (new_calculator-IsFresh identity year p f s m made).ordered in
        (result_of-AreOrdered l.config l.state _ o, λ x. result_of-AreOrdered l.config _ _ o)
