-- ===== src/Spend/Period.antt =====
-- internal/spend/period.go: `timestamp`, `ParsePeriod` and `selectPeriods`. A time is its nanoseconds since 1970 in
-- UTC; `time.Parse` of the two layouts is a parameter.
use fleetdiff.Base.{
  ℕ, ◌+◌, ◌-◌, ◌*◌, ◌%◌, ◌≤◌, ◌<◌, ◌≡◌, refl, Bool, true, false, ◌&&◌, ◌||◌, not, Option, none,
  some, [], ◌∷◌, ltb, leb, ◌==◌, if◌then◌else◌, length, Result, ok, err, ◌>>=◌, >>=-eq-ok,
  ok-injective, bad_period, unequal_periods, unfinished_period, few_days, arith, subst,
}
use fleetdiff.Text.{Text, is_empty}

-- What `time.Parse` yields: the year of the text, in its own zone, and the instant.
pub record Time : Type 0 where
  pub year : ℕ
  pub instant : ℕ

pub record Period : Type 0 where
  pub start : ℕ
  pub stop : ℕ

-- `Period.contains`
unfoldable pub within : Period → ℕ → Bool
within p t = leb p.start t && ltb t p.stop

abbrev pub day : ℕ
day = 86400000000000

-- `t.Truncate(24 * time.Hour)`
unfoldable pub truncate_day : ℕ → ℕ
truncate_day t = t - t % day

in_years : ℕ → Option Time → Option ℕ
in_years last none = none
in_years last (some t) = if ltb t.year 1970 || ltb last t.year then none else some t.instant

-- `strings.Cut(s, "/")`
cut_after : Text → Option (Text × Text) → ℕ → Option (Text × Text)
cut_after s none c = none
cut_after s (some (a, b)) c = some (c ∷ a, b)

unfoldable pub cut : Text → Option (Text × Text)
unfolding cut_after
cut [] = none
cut (c ∷ s) = let rest = cut s in if c == b'/' then some ([], s) else cut_after s rest c

one_day : ℕ → Period
one_day t = record { start = t; stop = t + day }

between_times : Option ℕ → Option ℕ → Result Period
between_times (some a) (some b) =
    if ltb a b then ok (record { start = a; stop = b }) else err bad_period
between_times _ _ = err bad_period

-- A week that ends at `stop`, and the one before it.
unfoldable pub two_weeks : ℕ → Period × Period
two_weeks stop = (
  record { start = stop - 14 * day; stop = stop - 7 * day },
  record { start = stop - 7 * day; stop = stop },
)

-- The first whole day at or after a time.
unfoldable pub first_day : ℕ → ℕ
unfolding truncate_day
first_day t = if truncate_day t == t then truncate_day t else truncate_day t + day

-- The end of the last day that is over, of the day of the last record and today.
unfoldable pub last_day : ℕ → ℕ → ℕ
unfolding truncate_day
last_day latest now =
    if ltb (truncate_day now) (truncate_day latest) then truncate_day now else truncate_day latest

-- The automatic choice; no record has been seen where `earliest` is zero.
unfoldable pub observed_weeks : Option (ℕ × ℕ) → ℕ → Result (Period × Period)
observed_weeks none now = err few_days
observed_weeks (some (earliest, latest)) now =
    if ltb (last_day latest now) (first_day earliest + 14 * day)
    then err few_days
    else ok (two_weeks (last_day latest now))

unfoldable pub checked_periods : Period → Period → ℕ → Result (Period × Period)
checked_periods a b now =
    if ltb b.start a.stop || not (a.stop - a.start == b.stop - b.start)
    then err unequal_periods
    else if ltb now b.stop
    then err unfinished_period
    else ok (a, b)

module _ (rfc3339 date : Text → Option Time) where
  unfoldable pub timestamp : Text → Option ℕ
  unfolding in_years
  timestamp s = in_years 2200 (rfc3339 s)

  interval : Option (Text × Text) → Result Period
  unfolding between_times
  interval none = err bad_period
  interval (some (a, b)) = between_times (timestamp a) (timestamp b)

  day_or_interval : Text → Option ℕ → Result Period
  unfolding interval one_day
  day_or_interval s (some t) = ok (one_day t)
  day_or_interval s none = interval (cut s)

  unfoldable pub parse_period : Text → Result Period
  unfolding in_years day_or_interval cut
  parse_period s = day_or_interval s (if length s == 10 then in_years 2199 (date s) else none)

  unfoldable pub select_periods : Text → Text → Option (ℕ × ℕ) → ℕ → Result (Period × Period)
  select_periods before after observed now =
      let named =
        parse_period before >>= λ a. parse_period after >>= λ b. checked_periods a b now in
      if not (is_empty before) || not (is_empty after) then named else observed_weeks observed now

-- What a comparison rests on: both periods are over, the first before the second, and as long.
pub record AreComparable (now : ℕ) (p : Period × Period) : Type 0 where
  pub nonempty : p.0.start < p.0.stop
  pub ordered : p.0.stop ≤ p.1.start
  pub same_length : p.0.stop + p.1.start ≡ p.1.stop + p.0.start
  pub over : p.1.stop ≤ now

between_times_lem : (a b : Option ℕ) {p : Period} → between_times a b ≡ ok p → p.start < p.stop
unfolding between_times
between_times_lem (some a) (some b) h = at (ltb a b) refl h
  where
    at :
        (c : Bool) {p : Period}
        → ltb a b ≡ c
        → (if c then ok (record { start = a; stop = b }) else err bad_period) ≡ ok p
        → p.start < p.stop
    at true q e = subst (λ p. p.start < p.stop) (ok-injective e) (ground arith)
    at false q e = cc
between_times_lem (some a) none h = cc
between_times_lem none b h = cc

checked-AreComparable :
    (a b : Period) (now : ℕ) {p : Period × Period}
    → a.start < a.stop
    → b.start < b.stop
    → checked_periods a b now ≡ ok p
    → AreComparable now p
unfolding checked_periods
checked-AreComparable a b now l m h =
    at (ltb b.start a.stop || not (a.stop - a.start == b.stop - b.start)) (ltb now b.stop) refl refl
      h
  where
    at :
        (x y : Bool) {p : Period × Period}
        → (ltb b.start a.stop || not (a.stop - a.start == b.stop - b.start)) ≡ x
        → ltb now b.stop ≡ y
        → (if x then err unequal_periods else if y then err unfinished_period else ok (a, b)) ≡ ok p
        → AreComparable now p
    at true y q r e = cc
    at false true q r e = cc
    at false false q r e = subst (AreComparable now) (ok-injective e) (record {
      nonempty = l;
      ordered = ground arith;
      same_length = ground arith;
      over = ground arith;
    })

pub last_day-le : (latest now : ℕ) → last_day latest now ≤ now
unfolding last_day truncate_day
last_day-le latest now = ground arith

observed-AreComparable :
    (o : Option (ℕ × ℕ)) (now : ℕ) {p : Period × Period}
    → observed_weeks o now ≡ ok p
    → AreComparable now p
unfolding observed_weeks two_weeks
observed-AreComparable none now h = cc
observed-AreComparable (some (earliest, latest)) now h =
    at (ltb (last_day latest now) (first_day earliest + 14 * day)) refl h
  where
    past : last_day latest now ≤ now
    past = last_day-le latest now

    at :
        (x : Bool) {p : Period × Period}
        → ltb (last_day latest now) (first_day earliest + 14 * day) ≡ x
        → (if x then err few_days else ok (two_weeks (last_day latest now))) ≡ ok p
        → AreComparable now p
    at true q e = cc
    at false q e =
        let long : 14 * day ≤ last_day latest now = ground arith in
        subst (AreComparable now) (ok-injective e) (record {
          nonempty = omega arith;
          ordered = omega arith;
          same_length = omega arith;
          over = past;
        })

module _ (rfc3339 date : Text → Option Time) where
  pub parse_period_lem :
      (s : Text) {p : Period} → parse_period rfc3339 date s ≡ ok p → p.start < p.stop
  unfolding parse_period interval day_or_interval one_day
  parse_period_lem s h = at (if length s == 10 then in_years 2199 (date s) else none) h
    where
      split :
          (o : Option (Text × Text)) {p : Period}
          → interval rfc3339 date o ≡ ok p
          → p.start < p.stop
      split none e = cc
      split (some (a, b)) e =
          between_times_lem (timestamp rfc3339 date a) (timestamp rfc3339 date b) e

      at : (o : Option ℕ) {p : Period} → day_or_interval rfc3339 date s o ≡ ok p → p.start < p.stop
      at (some t) e = subst (λ p. p.start < p.stop) (ok-injective e) (omega arith)
      at none e = split (cut s) e

  -- However the periods are chosen, named by the user or the last two observed weeks: neither is empty, the first
  -- ends at or before the second starts, they are equally long, and both are over.
  pub select_periods-AreComparable :
      (before after : Text) (observed : Option (ℕ × ℕ)) (now : ℕ) {p : Period × Period}
      → select_periods rfc3339 date before after observed now ≡ ok p
      → AreComparable now p
  unfolding select_periods
  select_periods-AreComparable before after observed now h =
      at (not (is_empty before) || not (is_empty after)) h
    where
      at :
          (x : Bool) {p : Period × Period}
          → (if x
              then (parse_period rfc3339 date before >>= λ a.
                  parse_period rfc3339 date after >>= λ b. checked_periods a b now)
              else observed_weeks observed now)
            ≡ ok p
          → AreComparable now p
      at true e =
          let (a, pa, e1) = >>=-eq-ok (parse_period rfc3339 date before) _ e in
          let (b, pb, e2) = >>=-eq-ok (parse_period rfc3339 date after) _ e1 in
          checked-AreComparable a b now (parse_period_lem before pa) (parse_period_lem after pb) e2
      at false e = observed-AreComparable observed now e
