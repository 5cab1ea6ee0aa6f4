-- ===== src/Spend/Session/Window.antt =====
-- internal/spend/session.go: `sessionPeriod`. A time that is zero is `none`.
use fleetdiff.Base.{
  ℕ, ◌+◌, ◌≤◌, ◌<◌, ◌≡◌, Option, none, some, ltb, if◌then◌else◌, Result, ok, err, ◌>>=◌, >>=-eq-ok,
  ok-injective, subst, unfinished_period, no_records, future_records, arith, if-eq, if-cases,
  ltb→lt, err-ne-ok,
}
use fleetdiff.Text.{Text, is_empty}
use fleetdiff.Spend.Period.{
  Period, Time, first_day, last_day, parse_period, last_day-le, parse_period_lem,
}

-- The whole days of the file that are over, or else the span of its records.
unfoldable pub observed_period : ℕ → Option (ℕ × ℕ) → Result Period
observed_period now none = err no_records
observed_period now (some (earliest, latest)) =
    let days : Period = record { start = first_day earliest; stop = last_day latest now } in
    let span : Period = record { start = earliest; stop = latest + 1 } in
    if ltb (first_day earliest) (last_day latest now)
    then ok days
    else if ltb now latest
    then err future_records
    else ok span

unfoldable pub named_period : ℕ → Period → Result Period
named_period now p = if ltb now p.stop then err unfinished_period else ok p

module _ (rfc3339 date : Text → Option Time) where
  -- `sessionPeriod`
  unfoldable pub session_period : Text → ℕ → Option (ℕ × ℕ) → Result Period
  session_period s now observed =
      let named = parse_period rfc3339 date s >>= named_period now in
      if is_empty s then observed_period now observed else named

-- A period with a start before its end, and that has ended: its last instant is not after now.
pub record IsOver (now : ℕ) (p : Period) : Type 0 where
  pub nonempty : p.start < p.stop
  pub over : p.stop ≤ now + 1

-- `first` and `last` of the first reading: the earliest and the latest start.
abbrev pub IsSpan : Option (ℕ × ℕ) → Type 0
IsSpan none = Unit {0}
IsSpan (some (a, b)) = a ≤ b

observed_period-IsOver :
    (now : ℕ) (o : Option (ℕ × ℕ)) {p : Period}
    → IsSpan o
    → observed_period now o ≡ ok p
    → IsOver now p
unfolding observed_period
observed_period-IsOver now none s h = err-ne-ok h
observed_period-IsOver now (some (a, b)) {p} s h =
    if-cases (ltb (first_day a) (last_day b now)) _ _
      (λ c e. subst (IsOver now) (ok-injective e) (record {
        nonempty = ltb→lt (first_day a) (last_day b now) c;
        over = omega (arith, last_day-le b now);
      }))
      (λ c f.
        if-cases (ltb now b) (err future_records) (ok (record { start = a; stop = b + 1 }))
          (λ d e. err-ne-ok e)
          (λ d e.
            subst (IsOver now) (ok-injective e)
              (record { nonempty = omega (arith, s); over = ground (arith, d) }))
          f)
      h

named_period-IsOver :
    (now : ℕ) (q : Period) {p : Period}
    → q.start < q.stop
    → named_period now q ≡ ok p
    → IsOver now p
unfolding named_period
named_period-IsOver now q s h =
    if-cases (ltb now q.stop) _ _ (λ c e. err-ne-ok e)
      (λ c e.
        subst (IsOver now) (ok-injective e) (record { nonempty = s; over = ground (arith, c) }))
      h

module _ (rfc3339 date : Text → Option Time) where
  -- The period of a review, named or found, starts before it ends, and is over: it ends at most at the instant after now.
  -- The starts that the first reading found are in order.
  pub session_period-IsOver :
      (s : Text) (now : ℕ) (o : Option (ℕ × ℕ)) {p : Period}
      → IsSpan o
      → session_period rfc3339 date s now o ≡ ok p
      → IsOver now p
  unfolding session_period
  session_period-IsOver s now o v h =
      if-eq (is_empty s) _ _ (observed_period-IsOver now o v)
        (λ e.
          let (q, hq, h1) = >>=-eq-ok (parse_period rfc3339 date s) _ e in
          named_period-IsOver now q (parse_period_lem rfc3339 date s hq) h1)
        h
