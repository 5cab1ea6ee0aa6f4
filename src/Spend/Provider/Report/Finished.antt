-- ===== src/Spend/Provider/Report/Finished.antt =====
-- internal/spend/provider_counts.go: the last loop of `result`.
use fleetdiff.Base.{
  ℕ, ◌%◌, ◌≡◌, ◌≢◌, refl, sym, ap, ◌∙◌, subst, Bool, true, false, ◌&&◌, not, Option, none, some,
  List, [], ◌∷◌, map, ◌==◌, ==_iff, Bool-cases, inl, inr, arith, word, sum_by-map, All,
}
use fleetdiff.Text.{Text}
use fleetdiff.Spend.Provider.Contract.{CountContract, ProviderStatus}
use fleetdiff.Spend.Provider.Report.{
  ModelCoverage, DayCoverage, is_complete, is_matched, counting_units,
}
use fleetdiff.Spend.Provider.Report.Filled.{
  withdraw_model, withdraw_day, close_day, daily_of, differs, finish_day, is_empty_list,
}
use fleetdiff.Spend.Provider.Report.Sound.{IsModel}
use fleetdiff.Spend.Provider.Report.Days.{
  requests_or_zero, HasRequests, IsTotalled, IsFilled, none-ne-some,
}

-- Finished: what the day and its models show.
pub record IsDay (c : Option CountContract) (d : DayCoverage) : Type 0 where
  pub totalled : IsTotalled d.day_logged_rows d.day_provider_requests d.models
  pub all_models : All (IsModel c d.day_status d.population) d.models
  pub unmapped :
      d.unmapped_logged_rows ≢ 0
      → All
          (λ m. (m.comparable ≡ false) × (m.input_difference ≡ none) × (m.output_difference ≡ none))
          d.models
  pub differs :
      d.only_provider_differs ≡ true
      → (is_complete d.day_status ≡ true)
        × (is_matched d.population ≡ true)
        × (counting_units c ≡ true)
        × (p : ℕ) × (d.daily_requests ≡ some d.day_logged_rows)
        × (d.day_provider_requests ≡ some p)
        × (p ≢ d.day_logged_rows)

map-withdrawn :
    (ms : List ModelCoverage)
    → All
        (λ m. (m.comparable ≡ false) × (m.input_difference ≡ none) × (m.output_difference ≡ none))
        (map withdraw_model ms)
unfolding withdraw_model
map-withdrawn [] = tt
map-withdrawn (m ∷ ms) = ((refl, refl, refl), map-withdrawn ms)

withdraw-IsModel :
    (c : Option CountContract) (s t : ProviderStatus) (ms : List ModelCoverage)
    → All (IsModel c s t) ms
    → All (IsModel c s t) (map withdraw_model ms)
unfolding withdraw_model
withdraw-IsModel c s t [] h = tt
withdraw-IsModel c s t (m ∷ ms) h = (
  record {
    partial_day = h.0.partial_day;
    refused = h.0.refused;
    signed = h.0.signed;
    unsigned = h.0.unsigned;
    comparable = λ e. cc;
    requests = h.0.requests;
    input = λ z e. cc;
    output = λ z e. cc;
  },
  withdraw-IsModel c s t ms h.1,
)

withdraw-HasRequests :
    (ms : List ModelCoverage) → All HasRequests ms → All HasRequests (map withdraw_model ms)
unfolding withdraw_model
withdraw-HasRequests [] h = tt
withdraw-HasRequests (m ∷ ms) h = (h.0, withdraw-HasRequests ms h.1)

withdraw-IsTotalled :
    (n : ℕ) (r : Option ℕ) (ms : List ModelCoverage)
    → IsTotalled n r ms
    → IsTotalled n r (map withdraw_model ms)
unfolding withdraw_model
withdraw-IsTotalled n r ms t = record {
  logged = t.logged ∙ ap (λ s. s % word) (sym (sum_by-map withdraw_model (λ m. m.logged_rows) ms));
  all_counted = λ k e.
      let (all, sum) = t.all_counted k e in
      (withdraw-HasRequests ms all, sum ∙ sym (sum_by-map withdraw_model requests_or_zero ms));
}

pub record IsClosed (c : Option CountContract) (d : DayCoverage) : Type 0 where
  pub totalled : IsTotalled d.day_logged_rows d.day_provider_requests d.models
  pub all_models : All (IsModel c d.day_status d.population) d.models
  pub unmapped :
      d.unmapped_logged_rows ≢ 0
      → All
          (λ m. (m.comparable ≡ false) × (m.input_difference ≡ none) × (m.output_difference ≡ none))
          d.models

withdraw_day-IsClosed :
    (c : Option CountContract) (d : DayCoverage) → IsFilled c d → IsClosed c (withdraw_day d)
unfolding withdraw_day
withdraw_day-IsClosed c d f = elim (Bool-cases (d.unmapped_logged_rows == 0)) [
  | inl h ↦ rw h (record {
    totalled = f.totalled;
    all_models = f.all_models;
    unmapped = λ n. absurd (n ((==_iff d.unmapped_logged_rows 0).0 h));
  })
  | inr h ↦ rw h (record {
    totalled = withdraw-IsTotalled d.day_logged_rows d.day_provider_requests d.models f.totalled;
    all_models = withdraw-IsModel c d.day_status d.population d.models f.all_models;
    unmapped = λ n. map-withdrawn d.models;
  })
]

and_parts : (a b : Bool) → (a && b) ≡ true → (a ≡ true) × (b ≡ true)
and_parts true b h = (refl, h)
and_parts false b h = cc

no_models : (ms : List ModelCoverage) → is_empty_list ms ≡ true → ms ≡ []
unfolding is_empty_list
no_models [] h = refl
no_models (m ∷ ms) h = cc

no_models_all :
    (c : Option CountContract) (ms : List ModelCoverage) (s t : ProviderStatus)
    → is_empty_list ms ≡ true
    → All (IsModel c s t) ms
no_models_all c ms s t h = subst (All (IsModel c s t)) (sym (no_models ms h)) tt

close_day-IsClosed :
    (c : Option CountContract) (d : DayCoverage) → IsClosed c d → IsClosed c (close_day d)
unfolding close_day
close_day-IsClosed c d f = elim (Bool-cases (is_empty_list d.models)) [
  | inl h ↦ rw h (record {
    totalled = record { logged = f.totalled.logged; all_counted = λ n e. none-ne-some e };
    all_models = no_models_all c d.models _ d.population h;
    unmapped = f.unmapped;
  })
  | inr h ↦ rw h f
]

differs_lem :
    (rows : ℕ) (n p : Option ℕ)
    → differs rows n p ≡ true
    → (q : ℕ) × (n ≡ some rows) × (p ≡ some q) × (q ≢ rows)
unfolding differs
differs_lem rows none p h = cc
differs_lem rows (some n) none h = cc
differs_lem rows (some n) (some p) h =
    let (a, b) = and_parts (rows == n) (not (p == rows)) h in
    (p, ap some (sym ((==_iff rows n).0 a)), refl, λ e. ground (arith, b, e))

pub finish_day-IsDay :
    (c : Option CountContract) (daily : List (Text × Option ℕ)) (d : DayCoverage)
    → IsFilled c d
    → IsDay c (finish_day c daily d)
unfolding finish_day
finish_day-IsDay c daily d f =
    let e = close_day (withdraw_day d) in
    let n = daily_of e.day_date none daily in
    let i = close_day-IsClosed c (withdraw_day d) (withdraw_day-IsClosed c d f) in
    record {
      totalled = i.totalled;
      all_models = i.all_models;
      unmapped = i.unmapped;
      differs = λ h.
          let (x, known) =
            and_parts (is_complete e.day_status && is_matched e.population && counting_units c)
              (differs e.day_logged_rows n e.day_provider_requests) h in
          let (y, units) =
            and_parts (is_complete e.day_status && is_matched e.population) (counting_units c) x in
          let (whole, matched) = and_parts (is_complete e.day_status) (is_matched e.population) y in
          let (p, same, has, ne) = differs_lem e.day_logged_rows n e.day_provider_requests known in
          (whole, matched, units, p, same, has, ne);
    }
