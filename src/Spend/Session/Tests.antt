-- ===== src/Spend/Session/Tests.antt =====
-- Three concrete rows, and the theorems at them.
use fleetdiff.Base.{
  ℕ, ◌+◌, ◌*◌, ◌≤◌, ◌<◌, ◌≡◌, refl, Bool, true, false, Option, none, some, List, [], ◌∷◌, ltb, ok,
  pos, value_or, sum_by, length, arith,
}
use fleetdiff.Text.{Text, codes}
use fleetdiff.Spend.Row.{Row, Column}
use fleetdiff.Spend.Row
use fleetdiff.Spend.Period.{Period, Time, timestamp}
use fleetdiff.Spend.Session.Store.{SessionState, Store, new_store, new_session}
use fleetdiff.Spend.Session.Window.{session_period, IsOver, session_period-IsOver}
use fleetdiff.Spend.Session.Step.Reviewed.{review_rows, IsReviewed, review_rows-IsReviewed}
use fleetdiff.Spend.Session.Distribution.{distribution, IsRanked, distribution-IsRanked}
use fleetdiff.Spend.Session.Report.{Shown, finish_sessions}
use fleetdiff.Spend.Session.Report.Counted.{IsFinished, finish_sessions-IsFinished}
use fleetdiff.Spend.Session.Review.{SessionOptions, Review, review_sessions}
use fleetdiff.Spend.Session.Review.Sound.{IsSound, review_sessions-IsSound}

abbrev digest : Text → ℕ
digest [] = 0
digest (c ∷ s) = c + 256 * digest s

abbrev at_code : Text → Option Time
at_code [] = none
at_code (c ∷ s) = some (record { year = 2026; instant = c * 1000000000000 })

abbrev no_date : Text → Option Time
no_date s = none

abbrev cells : Text → Text → Text → Text → Column → Option Text
cells id session start spent Row.request_id = some id
cells id session start spent Row.session_id = some session
cells id session start spent Row.start_time = some start
cells id session start spent Row.spend = some spent
cells id session start spent Row.call_type = some (codes "acompletion")
cells id session start spent Row.prompt_tokens = some (codes "10")
cells id session start spent Row.completion_tokens = some (codes "5")
cells id session start spent _ = none

abbrev row : ℕ → Text → Text → Text → Text → Row
row n id session start spent = record {
  values = cells id session start spent;
  row_number = n;
  observation_level = [];
}

abbrev rows : List Row
rows =
    row 1 (codes "a") (codes "s") (codes "1") (codes "0.5")
    ∷ row 2 (codes "b") (codes "s") (codes "2") []
    ∷ row 3 (codes "c") [] (codes "3") (codes "0.25")
    ∷ []

abbrev options : SessionOptions
options = record {
  period = [];
  budget_usd = codes "0.1";
  counter_window = pos 0;
  top = 5;
  show_hashes = true;
  now = 1000000000000000;
}

abbrev whole : Period
whole = record { start = 49000000000000; stop = 51000000000001 }

abbrev before_now : ℕ
before_now = 1000000000000000

session_period-IsOver_example : IsOver before_now whole
unfolding session_period fleetdiff.Spend.Session.Window.observed_period
    fleetdiff.Spend.Period.first_day fleetdiff.Spend.Period.last_day
session_period-IsOver_example =
    session_period-IsOver at_code no_date [] before_now (some (49000000000000, 51000000000000))
      {p = whole} (omega arith) refl

distribution-IsRanked_example : IsRanked (7 ∷ 1 ∷ 4 ∷ []) (distribution (7 ∷ 1 ∷ 4 ∷ []))
distribution-IsRanked_example = distribution-IsRanked (7 ∷ 1 ∷ 4 ∷ []) (omega arith)

abbrev listed_two : Shown
listed_two = record { top = 2; cap = some 3; is_longer = ltb 10; show_hashes = false }

two_sessions : List SessionState
two_sessions =
    record (new_session 1 1) { calls = 2; cost = 5 }
    ∷ record (new_session 2 2) { calls = 1; cost = 9 }
    ∷ []

finish_sessions-IsFinished_example :
    IsFinished listed_two two_sessions (finish_sessions listed_two new_store two_sessions)
unfolding two_sessions
finish_sessions-IsFinished_example =
    finish_sessions-IsFinished listed_two new_store two_sessions (omega arith)

read_rows : Store
unfolding review_rows
read_rows =
    value_or new_store
      (review_rows digest (timestamp at_code no_date) whole before_now new_store rows)

review_rows-IsReviewed_example :
    IsReviewed digest (timestamp at_code no_date) whole before_now rows read_rows
unfolding read_rows fleetdiff.Accounting.Tokens.observe fleetdiff.Accounting.Tokens.origin
    fleetdiff.Accounting.Tokens.withdraw fleetdiff.Accounting.Tokens.metric_of
    fleetdiff.Accounting.Tokens.assemble fleetdiff.Accounting.Tokens.read_usage
    fleetdiff.Accounting.Tokens.tokens fleetdiff.Accounting.Number.number
    fleetdiff.Accounting.Number.add_bounded fleetdiff.Accounting.Cost.cost
    fleetdiff.Spend.Row.operation fleetdiff.Spend.Row.is_supported
    fleetdiff.Spend.Usage.column_value fleetdiff.Spend.Usage.paired fleetdiff.Spend.Usage.attributes
    fleetdiff.Spend.Aggregate.spending fleetdiff.Spend.Period.within
    fleetdiff.Spend.Period.timestamp fleetdiff.Spend.Session.Store.new_session
    fleetdiff.Spend.Session.Store.new_store fleetdiff.Spend.Session.Track.rejection_of
    fleetdiff.Spend.Session.Track.is_analyzed fleetdiff.Spend.Session.Track.add_call
    fleetdiff.Spend.Session.Track.session_row fleetdiff.Spend.Session.Track.touched
    fleetdiff.Spend.Session.Track.update_states fleetdiff.Spend.Session.Step.count_selected
    fleetdiff.Spend.Session.Step.observe_tokens fleetdiff.Spend.Session.Step.add_session
    fleetdiff.Spend.Session.Step.observe_session fleetdiff.Spend.Session.Step.select_row
    fleetdiff.Spend.Session.Step.review_row fleetdiff.Text.Digits.parse_uint
review_rows-IsReviewed_example =
    review_rows-IsReviewed digest (timestamp at_code no_date) whole before_now rows {s = read_rows}
      (omega arith) refl

abbrev no_review : Review
no_review = record {
  period = whole;
  store = new_store;
  states = [];
  finished = finish_sessions listed_two new_store [];
}

reviewed : Review
unfolding review_sessions
reviewed = value_or no_review (review_sessions digest at_code no_date ltb options rows)

review_sessions-IsSound_example : IsSound digest at_code no_date ltb options rows reviewed
unfolding reviewed fleetdiff.Accounting.Tokens.observe fleetdiff.Accounting.Tokens.origin
    fleetdiff.Accounting.Tokens.withdraw fleetdiff.Accounting.Tokens.metric_of
    fleetdiff.Accounting.Tokens.assemble fleetdiff.Accounting.Tokens.read_usage
    fleetdiff.Accounting.Tokens.tokens fleetdiff.Accounting.Number.number
    fleetdiff.Accounting.Number.add_bounded fleetdiff.Accounting.Cost.cost
    fleetdiff.Spend.Row.operation fleetdiff.Spend.Row.is_supported
    fleetdiff.Spend.Usage.column_value fleetdiff.Spend.Usage.paired fleetdiff.Spend.Usage.attributes
    fleetdiff.Spend.Aggregate.spending fleetdiff.Spend.Period.within
    fleetdiff.Spend.Period.first_day fleetdiff.Spend.Period.last_day
    fleetdiff.Spend.Period.timestamp fleetdiff.Spend.Digests.add_digest
    fleetdiff.Spend.Digests.duplicated fleetdiff.Spend.Session.Window.observed_period
    fleetdiff.Spend.Session.Window.session_period fleetdiff.Spend.Session.Store.new_session
    fleetdiff.Spend.Session.Store.new_store fleetdiff.Spend.Session.Track.rejection_of
    fleetdiff.Spend.Session.Track.is_analyzed fleetdiff.Spend.Session.Track.add_call
    fleetdiff.Spend.Session.Track.session_row fleetdiff.Spend.Session.Track.touched
    fleetdiff.Spend.Session.Track.update_states fleetdiff.Spend.Session.Step.count_selected
    fleetdiff.Spend.Session.Step.observe_tokens fleetdiff.Spend.Session.Step.add_unattributed
    fleetdiff.Spend.Session.Step.add_session fleetdiff.Spend.Session.Step.observe_session
    fleetdiff.Spend.Session.Step.select_row fleetdiff.Spend.Session.Step.review_row
    fleetdiff.Spend.Session.Step.Reviewed.review_rows fleetdiff.Spend.Session.Clip.clip_rows
    fleetdiff.Text.Digits.parse_uint fleetdiff.Base.add64 fleetdiff.Base.sort
review_sessions-IsSound_example =
    review_sessions-IsSound digest at_code no_date ltb options rows {v = reviewed} (omega arith)
      refl
