-- ===== src/Spend/Provider/Report/Filled.antt =====
-- internal/spend/provider_counts.go: `result`, the loops over the days, the entries and the days again.
use fleetdiff.Base.{
  ℕ, ◌+◌, Bool, true, false, ◌&&◌, ◌||◌, not, Option, none, some, List, [], ◌∷◌, ◌++◌, map, foldl,
  ltb, ◌==◌, if◌then◌else◌, Result, ok, ◌>>=◌, fold_ok, sort,
}
use fleetdiff.Text.{Text, codes, text_eq, text_before}
use fleetdiff.Spend.Period.{Period, Time, day}
use fleetdiff.Spend.Provider.{ProviderModel}
use fleetdiff.Spend.Provider.Contract.{
  CountContract, ProviderStatus, provider_counts_missing, population_status,
}
use fleetdiff.Spend.Provider.Days.{period_days}
use fleetdiff.Spend.Provider.Entries.{ProviderKey, ProviderEntry, Builder}
use fleetdiff.Spend.Provider.Report.{
  ModelCoverage, DayCoverage, Filling, is_complete, is_matched, day_status_of, label_of, labelled,
  counting_units, model_of, add_model,
}

unfoldable pub date_before : DayCoverage → DayCoverage → Bool
unfolding text_before
date_before a b = text_before a.day_date b.day_date

unfoldable pub new_day : Option CountContract → Text → ProviderStatus → DayCoverage
unfolding population_status
new_day c date status = record {
  population = population_status c;
  day_date = date;
  day_status = status;
  day_logged_rows = 0;
  unmapped_logged_rows = 0;
  daily_requests = none;
  day_provider_requests = some 0;
  only_provider_differs = false;
  models = [];
}

unfoldable pub has_date : Text → List DayCoverage → Bool
has_date s [] = false
has_date s (d ∷ ds) = text_eq d.day_date s || has_date s ds

-- A period that holds a part of the day.
unfoldable pub overlaps : List Period → ℕ → Bool
overlaps [] d = false
overlaps (p ∷ ps) d = (ltb d p.stop && ltb p.start (d + day)) || overlaps ps d

-- `&r.Days[dayIndex[date]]`: the day of that date; the first, where there is none.
unfoldable pub at_date :
    Text → (DayCoverage → Result DayCoverage) → List DayCoverage → Result (List DayCoverage)
at_date s change [] = ok []
at_date s change (d ∷ ds) =
    let here = change d >>= λ e. ok (e ∷ ds) in
    let later = at_date s change ds >>= λ es. ok (d ∷ es) in
    if text_eq d.day_date s || not (has_date s ds) then here else later

-- `d.UnmappedLoggedRows != 0`: no model of the day can be compared.
unfoldable pub withdraw_model : ModelCoverage → ModelCoverage
withdraw_model m = record m {
  comparable = false;
  input_difference = none;
  output_difference = none;
}

unfoldable pub withdraw_day : DayCoverage → DayCoverage
unfolding withdraw_model
withdraw_day d =
    if d.unmapped_logged_rows == 0 then d else record d { models = map withdraw_model d.models }

unfoldable pub is_empty_list : List ModelCoverage → Bool
is_empty_list [] = true
is_empty_list (m ∷ ms) = false

-- A day without models.
unfoldable pub close_day : DayCoverage → DayCoverage
unfolding is_empty_list is_complete
close_day d =
    if is_empty_list d.models
    then record d {
      day_provider_requests = none;
      day_status = if is_complete d.day_status then provider_counts_missing else d.day_status;
    }
    else d

-- The requests of the daily report; the last day of one date counts.
unfoldable pub daily_of : Text → Option ℕ → List (Text × Option ℕ) → Option ℕ
daily_of s n [] = n
daily_of s n ((t, m) ∷ ts) = daily_of s (if text_eq t s then m else n) ts

unfoldable pub differs : ℕ → Option ℕ → Option ℕ → Bool
differs rows (some n) (some p) = rows == n && not (p == rows)
differs rows _ _ = false

unfoldable pub finish_day :
    Option CountContract → List (Text × Option ℕ) → DayCoverage → DayCoverage
unfolding withdraw_day close_day daily_of differs is_complete is_matched counting_units
finish_day c daily d =
    let e = close_day (withdraw_day d) in
    let n = daily_of e.day_date none daily in
    record e {
      daily_requests = n;
      only_provider_differs =
          is_complete e.day_status
          && is_matched e.population
          && counting_units c
          && differs e.day_logged_rows n e.day_provider_requests;
    }

unfoldable pub fill_day :
    Option CountContract
    → ProviderKey
    → ProviderEntry
    → Text × Text
    → DayCoverage
    → Result DayCoverage
unfolding model_of add_model
fill_day c k e name d = add_model d k.mapped (model_of c d k e name)

module _ (parse_date : Text → Option Time) (date_text : ℕ → Text)
    (public_model : Text → Text → Text) where
  unfoldable pub add_day :
      Option CountContract → ℕ → List Period → List DayCoverage → ℕ → List DayCoverage
  unfolding has_date new_day day_status_of
  add_day c now periods days d =
      if has_date (date_text d) days
      then days
      else days ++ new_day c (date_text d) (day_status_of c now d periods) ∷ []

  unfoldable pub add_days :
      Option CountContract → ℕ → List Period → List DayCoverage → List Period → List DayCoverage
  unfolding add_day period_days
  add_days c now periods days [] = days
  add_days c now periods days (p ∷ ps) =
      add_days c now periods (foldl (add_day c now periods) days (period_days p)) ps

  -- The name of a model: its own where it is public, or else a label that is made when it is first needed.
  unfoldable pub name_of :
      List (ProviderModel × Text) → ProviderKey → (Text × Text) × List (ProviderModel × Text)
  unfolding label_of labelled
  name_of labels k =
      let l = labelled labels k.identity (label_of labels k.identity) in
      if k.mapped
        && text_eq
            (public_model (k.identity.provider ++ b'/' ∷ k.identity.model_id) k.identity.provider)
            k.identity.model_id
      then ((k.identity.provider, k.identity.model_id), labels)
      else ((codes "undisclosed", l.0), l.1)

  unfoldable pub is_selected : List Period → Option Time → Bool
  unfolding overlaps
  is_selected periods none = false
  is_selected periods (some t) = overlaps periods t.instant

  unfoldable pub fill :
      Option CountContract → List Period → Filling → ProviderKey × ProviderEntry → Result Filling
  unfolding name_of is_selected fill_day at_date
  fill c periods s (k, e) =
      let n = name_of s.labels k in
      let next = at_date k.date (fill_day c k e n.0) s.days >>= λ ds.
      ok (record { days = ds; labels = n.1 }) in
      if is_selected periods (parse_date k.date) then next else ok s

  -- `result`, of a builder that is not nil; `daily` has the date and the requests of each day of the daily report.
  unfoldable pub result : Builder → List (Text × Option ℕ) → Result (List DayCoverage)
  unfolding add_days fill finish_day date_before
  result b daily =
      fold_ok (fill b.contract b.periods)
        (record { days = add_days b.contract b.now b.periods [] b.periods; labels = [] }) b.entries
      >>= λ s. ok (sort date_before (map (finish_day b.contract daily) s.days))
