-- ===== src/Spend/Provider/Days.antt =====
-- internal/spend/provider_counts.go: the days of a period, as the loops of `newProviderCoverage` and `result` visit
-- them: `for day := start.Truncate(24 * time.Hour); day.Before(end); day = day.AddDate(0, 0, 1)`.
use fleetdiff.Base.{
  ℕ, zero, suc, ◌+◌, ◌-◌, ◌*◌, ◌/◌, ◌≤◌, ◌<◌, ◌≡◌, refl, true, false, Bool, List, [], ◌∷◌, arith,
  ==_iff, ltb, ltb→lt, ◌==◌, if◌then◌else◌, All, Bool-cases, inl, inr,
}
use fleetdiff.Spend.Period.{Period, day, truncate_day}

-- With fuel for one day each.
unfoldable pub days_from : ℕ → ℕ → ℕ → List ℕ
days_from zero d stop = []
days_from (suc f) d stop =
    let rest = days_from f (d + day) stop in if ltb d stop then d ∷ rest else []

-- How many days the loop visits at most.
unfoldable pub day_count : Period → ℕ
day_count p = (p.stop - truncate_day p.start) / day + 1

unfoldable pub period_days : Period → List ℕ
unfolding days_from day_count
period_days p = days_from (day_count p) (truncate_day p.start) p.stop

unfoldable pub is_in : ℕ → List ℕ → Bool
is_in e [] = false
is_in e (d ∷ ds) = let rest = is_in e ds in if e == d then true else rest

-- What the loop should do: it ends by itself, however much fuel is left, it visits the day of every instant of the
-- period, and only days that overlap the period.
pub record AreAllDays (p : Period) (ds : List ℕ) : Type 0 where
  pub ended : (more : ℕ) → days_from (day_count p + more) (truncate_day p.start) p.stop ≡ ds
  pub complete : (t : ℕ) → p.start ≤ t → t < p.stop → is_in (truncate_day t) ds ≡ true
  pub overlapping : All (λ d. (d < p.stop) × (p.start < d + day)) ds

not_before : (d stop : ℕ) → stop ≤ d → ltb d stop ≡ false
not_before d stop h = ground arith

is_before : (d stop : ℕ) → d < stop → ltb d stop ≡ true
is_before d stop h = ground arith

not_same : (e d : ℕ) → d < e → (e == d) ≡ false
not_same e d h = ground arith

days_from_fuel :
    (f g d stop : ℕ) → f ≤ g → stop ≤ d + f * day → days_from g d stop ≡ days_from f d stop
unfolding days_from
days_from_fuel zero zero d stop l h = refl
days_from_fuel zero (suc g) d stop l h = rw (not_before d stop (omega arith)) refl
days_from_fuel (suc f) zero d stop l h = absurd (omega arith)
days_from_fuel (suc f) (suc g) d stop l h = elim (Bool-cases (ltb d stop)) [
  | inl e ↦ rw (e, days_from_fuel f g (d + day) stop (omega arith) (omega arith)) refl
  | inr e ↦ rw e refl
]

is_in-days_from :
    (e f n d stop : ℕ) → n < f → e ≡ d + n * day → e < stop → is_in e (days_from f d stop) ≡ true
unfolding days_from is_in
is_in-days_from e zero n d stop h q l = absurd (omega arith)
is_in-days_from e (suc f) zero d stop h q l =
    rw (is_before d stop (omega arith), (==_iff e d).1 (omega arith)) refl
is_in-days_from e (suc f) (suc n) d stop h q l =
    rw
      (
        is_before d stop (omega arith),
        not_same e d (omega arith),
        is_in-days_from e f n (d + day) stop (omega arith) (omega arith) l,
      )
      refl

days_from_overlap :
    (f d start stop : ℕ)
    → start < d + day
    → All (λ e. (e < stop) × (start < e + day)) (days_from f d stop)
unfolding days_from
days_from_overlap zero d start stop h = tt
days_from_overlap (suc f) d start stop h = elim (Bool-cases (ltb d stop)) [
  | inl e ↦ rw e ((ltb→lt d stop e, h), days_from_overlap f (d + day) start stop (omega arith))
  | inr e ↦ rw e tt
]

-- The days of a period: more steps than the fuel add none, the day of every instant of the period is among them, and
-- each of them overlaps the period.
pub period_days-AreAllDays : (p : Period) → AreAllDays p (period_days p)
unfolding period_days day_count truncate_day
period_days-AreAllDays p = record {
  ended = λ more.
      days_from_fuel (day_count p) (day_count p + more) (truncate_day p.start) p.stop (omega arith)
        (omega arith);
  complete = λ t h l.
      is_in-days_from (truncate_day t) (day_count p) (t / day - p.start / day)
        (truncate_day p.start) p.stop (omega arith) (omega arith) (omega arith);
  overlapping = days_from_overlap (day_count p) (truncate_day p.start) p.start p.stop (omega arith);
}
