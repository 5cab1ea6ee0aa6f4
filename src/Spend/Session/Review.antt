-- ===== src/Spend/Session/Review.antt =====
-- internal/spend/session.go: `ReviewSessions`, over the rows of a file that every reading finds the same, and without a file
-- of daily spend. The hash of the file that the readings compare is not modelled.
pub mod Sound
use fleetdiff.Base.{
  ℕ, ◌+◌, ◌*◌, ◌≤◌, ◌<◌, ◌≡◌, refl, ap, sym, ◌∙◌, Bool, true, false, ◌&&◌, ◌||◌, not, Option, none,
  some, List, [], ◌∷◌, ltb, leb, ◌==◌, if◌then◌else◌, length, ℤ, pos, negsuc, Result, ok, err,
  ◌>>=◌, >>=-eq-ok, ok-injective, if-eq, if-cases, err-ne-ok, fold_ok, bad_timestamp, bad_top,
  bad_window, bad_budget, no_selected_records, duplicate_request, arith, subst, word,
}
use fleetdiff.Text.{Text, is_empty}
use fleetdiff.Accounting.Cost.{cost}
use fleetdiff.Spend.Row.{Row, value, start_time}
use fleetdiff.Spend.Period.{Period, Time, timestamp}
use fleetdiff.Spend.Digests.{duplicated}
use fleetdiff.Spend.Session.Store.{SessionState, Store, new_store}
use fleetdiff.Spend.Session.Window.{session_period, IsOver, IsSpan, session_period-IsOver}
use fleetdiff.Spend.Session.Step.Reviewed.{review_rows, IsReviewed, review_rows-IsReviewed}
use fleetdiff.Spend.Session.Clip.{clip_rows, mark_sessions}
use fleetdiff.Spend.Session.Report.{Shown, Finished, finish_sessions}

pub record SessionOptions : Type 0 where
  pub period : Text
  pub budget_usd : Text
  pub counter_window : ℤ
  pub top : ℕ
  pub show_hashes : Bool
  pub now : ℕ

pub record Review : Type 0 where
  pub period : Period
  pub store : Store
  pub states : List SessionState
  pub finished : Finished

abbrev second : ℕ
second = 1000000000

-- The counter window: an hour where none is given, and between a second and a year.
pub counter_window_of : ℤ → Result ℕ
counter_window_of (negsuc n) = err bad_window
counter_window_of (pos n) =
    let w = if n == 0 then 3600 * second else n in
    if ltb w second || ltb (31536000 * second) w then err bad_window else ok w

positive_budget : Option ℕ → Result (Option ℕ)
positive_budget none = err bad_budget
positive_budget (some n) = if n == 0 then err bad_budget else ok (some n)

pub cap_of : Text → Result (Option ℕ)
unfolding positive_budget
cap_of s = let read = positive_budget (cost s) in if is_empty s then ok none else read

-- The first reading: the earliest and the latest start.
widen : Option (ℕ × ℕ) → ℕ → Option (ℕ × ℕ)
widen none t = some (t, t)
widen (some (a, b)) t = some (if ltb t a then t else a, if ltb b t then t else b)

first_row : Option (ℕ × ℕ) → Option ℕ → Result (Option (ℕ × ℕ))
first_row o none = err bad_timestamp
first_row o (some t) = ok (widen o t)

abbrev first_of : Option (ℕ × ℕ) → ℕ
first_of none = 0
first_of (some (a, b)) = a

abbrev last_of : Option (ℕ × ℕ) → ℕ
last_of none = 0
last_of (some (a, b)) = b

check_top : ℕ → Result (Unit {0})
check_top n = if ltb n 1 || ltb 100 n then err bad_top else ok tt

check_store : Store → Result (Unit {0})
check_store s =
    if duplicated s.seen
    then err duplicate_request
    else if s.selected_rows == 0
    then err no_selected_records
    else ok tt

module _ (digest : Text → ℕ) (rfc3339 date : Text → Option Time) (longer : ℕ → ℕ → Bool) where
  read_span : List Row → Result (Option (ℕ × ℕ))
  unfolding first_row widen
  read_span = fold_ok (λ o r. first_row o (timestamp rfc3339 date (value r start_time))) none

  pub shown_of : SessionOptions → Option ℕ → ℕ → Shown
  shown_of o cap window = record {
    top = o.top;
    cap = cap;
    is_longer = λ span. longer span window;
    show_hashes = o.show_hashes;
  }

  -- `ReviewSessions`; `longer` compares two durations as their doubles of seconds.
  unfoldable pub review_sessions : SessionOptions → List Row → Result Review
  unfolding check_top counter_window_of cap_of read_span check_store shown_of
  review_sessions o rs = check_top o.top >>= λ _. counter_window_of o.counter_window >>= λ w.
      cap_of o.budget_usd >>= λ cap. read_span rs >>= λ span.
      session_period rfc3339 date o.period o.now span >>= λ p.
      review_rows digest (timestamp rfc3339 date) p o.now new_store rs >>= λ s.
      check_store s >>= λ _.
      clip_rows digest (timestamp rfc3339 date) p (first_of span) (last_of span) rs s.states
      >>= λ clipped.
          let marked = mark_sessions p w (first_of span) (last_of span) clipped in
          ok (record {
            period = p;
            store = s;
            states = marked;
            finished = finish_sessions (shown_of o cap w) s marked;
          })
