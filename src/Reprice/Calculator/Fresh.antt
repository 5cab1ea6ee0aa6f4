-- ===== src/Reprice/Calculator/Fresh.antt =====
-- What `New` of internal/reprice/calculate.go returns.
use fleetdiff.Base.{
  ℕ, ◌≡◌, refl, subst, ◌||◌, not, Option, none, [], ok, >>=-eq-ok, ok-injective, All,
}
use fleetdiff.Text.{Text}
use fleetdiff.Reprice.Config.{
  Prices, Factors, Scenario, WorkloadMap, validate_prices, validate_scenario, validate_factors,
  refuse_if, is_version, valid_date,
}
use fleetdiff.Reprice.Config.Validated.{IsOrderedFactor, validate_factors-IsOrderedFactor}
use fleetdiff.Reprice.Calculator.{
  Calculator, Issue, new_calculator, make_moves, scope_moves, map_workloads,
}

-- A calculator that has seen no record.
pub record IsFresh (k : Calculator) : Type 0 where
  pub nothing_covered : k.state.covered ≡ 0
  pub nothing_priced : k.state.baseline ≡ 0
  pub nothing_excluded : (i : Issue) → k.state.excluded i ≡ 0
  pub nothing_failed : k.failures ≡ none
  pub ordered : All IsOrderedFactor k.config.factors.pairs

pub new_calculator-IsFresh :
    (identity : Text → Text → Option ℕ) (year : Text → Option ℕ) (p : Prices) (f : Factors)
    (s : Scenario) (m : WorkloadMap) {k : Calculator}
    → new_calculator identity year p f s m ≡ ok k
    → IsFresh k
unfolding new_calculator
new_calculator-IsFresh identity year p f s m h =
    let (a, ha, h1) = >>=-eq-ok (validate_prices year p) _ h in
    let (b, hb, h2) = >>=-eq-ok (validate_scenario s m) _ h1 in
    let (c, hc, h3) =
      >>=-eq-ok (refuse_if (not (is_version 1 f.version) || not (valid_date year f.date))) _ h2 in
    let (d, hd, h4) = >>=-eq-ok (validate_factors f) _ h3 in
    let (ms, hm, h5) = >>=-eq-ok (make_moves p f s.moves) _ h4 in
    let (ns, hn, h6) = >>=-eq-ok (scope_moves identity ms) _ h5 in
    let (ws, hw, h7) = >>=-eq-ok (map_workloads identity [] m.mappings) _ h6 in
    subst IsFresh (ok-injective h7) (record {
      nothing_covered = refl;
      nothing_priced = refl;
      nothing_excluded = λ i. refl;
      nothing_failed = refl;
      ordered = validate_factors-IsOrderedFactor f hd;
    })
