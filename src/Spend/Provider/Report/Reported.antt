-- ===== src/Spend/Provider/Report/Reported.antt =====
-- internal/spend/provider_counts.go: the loops of `result`.
use fleetdiff.Base.{
  ℕ, ◌≡◌, subst, ◌||◌, not, Option, List, [], ◌∷◌, map, foldl, if-cases, Bool-cases, inl, inr, All,
  All-sort, Result, ok, >>=-eq-ok, ok-injective, fold_ok,
}
use fleetdiff.Text.{Text, text_eq}
use fleetdiff.Spend.Period.{Period, Time}
use fleetdiff.Spend.Provider.Contract.{CountContract}
use fleetdiff.Spend.Provider.Days.{period_days}
use fleetdiff.Spend.Provider.Entries.{ProviderKey, ProviderEntry, Entries, Builder}
use fleetdiff.Spend.Provider.Report.{DayCoverage, Filling, day_status_of, model_of}
use fleetdiff.Spend.Provider.Report.Filled.{
  new_day, has_date, at_date, fill_day, fill, is_selected, name_of, add_day, add_days, finish_day,
  result, date_before,
}
use fleetdiff.Spend.Provider.Report.Sound.{model_of-IsModel}
use fleetdiff.Spend.Provider.Report.Days.{
  IsFilled, All-append, new_day-IsFilled, add_model-IsFilled,
}
use fleetdiff.Spend.Provider.Report.Finished.{IsDay, finish_day-IsDay}

All-map {ℓ κ μ ν} :
    {A : Type ℓ} {B : Type κ} (P : A → Type μ) (Q : B → Type ν) (f : A → B)
    → ((a : A) → P a → Q (f a))
    → (xs : List A) → All P xs
    → All Q (map f xs)
All-map P Q f k [] h = tt
All-map P Q f k (x ∷ xs) h = (k x h.0, All-map P Q f k xs h.1)

module _ (c : Option CountContract) where
  at_date-IsFilled :
      (s : Text) (change : DayCoverage → Result DayCoverage)
      → ((d e : DayCoverage) → IsFilled c d → change d ≡ ok e → IsFilled c e)
      → (ds es : List DayCoverage) → All (IsFilled c) ds
      → at_date s change ds ≡ ok es
      → All (IsFilled c) es
  unfolding at_date
  at_date-IsFilled s change k [] es f h = subst (All (IsFilled c)) (ok-injective h) tt
  at_date-IsFilled s change k (d ∷ ds) es f h =
      if-cases (text_eq d.day_date s || not (has_date s ds)) _ _
        (λ _ h.
          let (e, p, q) = >>=-eq-ok (change d) _ h in
          subst (All (IsFilled c)) (ok-injective q) (k d e f.0 p, f.1))
        (λ _ h.
          let (e, p, q) = >>=-eq-ok (at_date s change ds) _ h in
          subst (All (IsFilled c)) (ok-injective q) (f.0, at_date-IsFilled s change k ds e f.1 p))
        h

  fill_day-IsFilled :
      (k : ProviderKey) (e : ProviderEntry) (name : Text × Text) (d d' : DayCoverage)
      → IsFilled c d
      → fill_day c k e name d ≡ ok d'
      → IsFilled c d'
  unfolding fill_day
  fill_day-IsFilled k e name d d' f h =
      add_model-IsFilled c d k.mapped (model_of c d k e name) (model_of-IsModel c d k e name) f h

  module _ (parse_date : Text → Option Time) (date_text : ℕ → Text)
      (public_model : Text → Text → Text) where
    fill-IsFilled :
        (periods : List Period) (s t : Filling) (k : ProviderKey) (e : ProviderEntry)
        → All (IsFilled c) s.days
        → fill parse_date date_text public_model c periods s (k, e) ≡ ok t
        → All (IsFilled c) t.days
    unfolding fill
    fill-IsFilled periods s t k e f h =
        if-cases (is_selected parse_date date_text public_model periods (parse_date k.date)) _ _
          (λ _ g.
            let (ds, p, q) =
              >>=-eq-ok
                (at_date k.date
                  (fill_day c k e (name_of parse_date date_text public_model s.labels k).0) s.days)
                _ g in
            subst (λ t. All (IsFilled c) t.days) (ok-injective q)
              (at_date-IsFilled k.date _
                (fill_day-IsFilled k e (name_of parse_date date_text public_model s.labels k).0)
                s.days ds f p))
          (λ _ g. subst (λ t. All (IsFilled c) t.days) (ok-injective g) f) h

    fills-IsFilled :
        (periods : List Period) (es : Entries) (s t : Filling)
        → All (IsFilled c) s.days
        → fold_ok (fill parse_date date_text public_model c periods) s es ≡ ok t
        → All (IsFilled c) t.days
    fills-IsFilled periods [] s t f h = subst (λ t. All (IsFilled c) t.days) (ok-injective h) f
    fills-IsFilled periods ((k, e) ∷ es) s t f h =
        let (u, p, q) = >>=-eq-ok (fill parse_date date_text public_model c periods s (k, e)) _ h in
        fills-IsFilled periods es u t (fill-IsFilled periods s u k e f p) q

    add_day-IsFilled :
        (now : ℕ) (periods : List Period) (ds : List DayCoverage) (d : ℕ)
        → All (IsFilled c) ds
        → All (IsFilled c) (add_day parse_date date_text public_model c now periods ds d)
    unfolding add_day
    add_day-IsFilled now periods ds d f = elim (Bool-cases (has_date (date_text d) ds)) [
      | inl h ↦ rw h f
      | inr h ↦ rw h (
          All-append (IsFilled c) ds (new_day c (date_text d) (day_status_of c now d periods)) f
            (new_day-IsFilled c (date_text d) (day_status_of c now d periods)))
    ]

    add_each-IsFilled :
        (now : ℕ) (periods : List Period) (ds : List DayCoverage) (days : List ℕ)
        → All (IsFilled c) ds
        → All (IsFilled c) (foldl (add_day parse_date date_text public_model c now periods) ds days)
    add_each-IsFilled now periods ds [] f = f
    add_each-IsFilled now periods ds (d ∷ days) f =
        add_each-IsFilled now periods (add_day parse_date date_text public_model c now periods ds d)
          days (add_day-IsFilled now periods ds d f)

    add_days-IsFilled :
        (now : ℕ) (periods : List Period) (ds : List DayCoverage) (ps : List Period)
        → All (IsFilled c) ds
        → All (IsFilled c) (add_days parse_date date_text public_model c now periods ds ps)
    unfolding add_days
    add_days-IsFilled now periods ds [] f = f
    add_days-IsFilled now periods ds (p ∷ ps) f =
        add_days-IsFilled now periods
          (foldl (add_day parse_date date_text public_model c now periods) ds (period_days p)) ps
          (add_each-IsFilled now periods ds (period_days p) f)

-- Every day of a report: its rows are the sum of its models' modulo 2 ^ 64; the provider's requests, where they are
-- shown, are the sum of those of its models, which all have them; the status of a
-- model is that of the day, of the population, of the sign of its difference or of a missing count; a model is comparable only on a whole day of a
-- matched population with units that match and without unmapped rows; a difference is that of the two counts shown,
-- exact where an `int64` holds both; and a day on which only the provider differs has its rows equal to the daily
-- requests and unequal to the provider's.
pub result-AreDays :
    (parse_date : Text → Option Time) (date_text : ℕ → Text) (public_model : Text → Text → Text)
    (b : Builder) (daily : List (Text × Option ℕ)) {ds : List DayCoverage}
    → result parse_date date_text public_model b daily ≡ ok ds
    → All (IsDay b.contract) ds
unfolding result
result-AreDays parse_date date_text public_model b daily h =
    let (s, p, q) =
      >>=-eq-ok (fold_ok (fill parse_date date_text public_model b.contract b.periods) _ b.entries)
        _ h in
    let filled =
      fills-IsFilled b.contract parse_date date_text public_model b.periods b.entries _ s
        (add_days-IsFilled b.contract parse_date date_text public_model b.now b.periods [] b.periods
          tt)
        p in
    subst (All (IsDay b.contract)) (ok-injective q) (
      All-sort date_before (IsDay b.contract) _ (
        All-map (IsFilled b.contract) (IsDay b.contract) (finish_day b.contract daily)
          (finish_day-IsDay b.contract daily) s.days filled))
