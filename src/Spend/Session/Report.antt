-- ===== src/Spend/Session/Report.antt =====
-- internal/spend/session.go: `finishSessions`, the counts and the lists of a review. An amount is in the
-- units of recorded spend; the texts of a report are printed from these numbers.
pub mod Counted
use fleetdiff.Base.{
  ℕ, ◌+◌, ◌-◌, ◌*◌, ◌/◌, ◌==◌, Bool, true, false, ◌&&◌, ◌||◌, not, Option, none, some, List, [],
  ◌∷◌, ◌++◌, ltb, if◌then◌else◌, length, sort, add64,
}
use fleetdiff.Spend.Session.Distribution.{Distribution, distribution}
use fleetdiff.Spend.Session.Store.{session_budget, SessionState, AgentCoverage, Store}

-- The options of the report: `Top`, the cap in units, whether a span of
-- nanoseconds is longer than the counter window, which the code compares as doubles of seconds, and whether hashes are shown.
pub record Shown : Type 0 where
  pub top : ℕ
  pub cap : Option ℕ
  pub is_longer : ℕ → Bool
  pub show_hashes : Bool

-- `Session`, with its number, its hash where it is shown and its span of positive spend.
pub record Session : Type 0 where
  pub alias : ℕ
  pub hash : Option ℕ
  pub span : Option ℕ
  pub attribution : Option AgentCoverage
  pub state : SessionState

pub record Report : Type 0 where
  pub sessions : ℕ
  pub rejection_only : ℕ
  pub unanalyzed_only : ℕ
  pub singletons : ℕ
  pub clipped_sessions : ℕ
  pub possibly_clipped_sessions : ℕ
  pub censored_sessions : ℕ
  pub censored_spend_n : ℕ
  pub censored_calls_n : ℕ
  pub largest : List Session
  pub exceeding : ℕ
  pub partial_exceeding : ℕ
  pub no_recorded_rejection : Option ℕ
  pub cap_review : List Session
  pub long_spans : ℕ
  pub long_span_review : List Session
  pub shared_counters : ℕ
  pub shared_counter_review : List Session

-- The larger spend first, then the session that appeared first.
unfoldable pub session_precedes : SessionState → SessionState → Bool
session_precedes a b = ltb b.cost a.cost || (a.cost == b.cost && ltb a.order b.order)

abbrev count_if : Bool → ℕ → ℕ
count_if c n = if c then add64 n 1 else n

-- `if c && len(list) < opts.Top { list = append(list, s.Session) }`
abbrev list_if : ℕ → Bool → List Session → Session → List Session
list_if top c l x = if c && ltb (length l) top then l ++ x ∷ [] else l

span_of : Option ℕ → Option ℕ → Option ℕ
span_of (some a) (some b) = some (b - a)
span_of _ _ = none

hide_complete : AgentCoverage → Option AgentCoverage
hide_complete a = if a.missing_rows == 0 then none else some a

listed : Shown → ℕ → SessionState → Session
unfolding span_of hide_complete
listed o i s = record {
  alias = i;
  hash = if o.show_hashes then some s.id else none;
  span = span_of s.first s.last;
  attribution = hide_complete s.attribution;
  state = s;
}

abbrev pub over_cap : Option ℕ → ℕ → Bool
over_cap none n = false
over_cap (some c) n = ltb c n

is_long : Shown → Option ℕ → Bool
is_long o none = false
is_long o (some n) = o.is_longer n

abbrev raised : Bool → Option ℕ → Option ℕ
raised c none = none
raised c (some n) = some (if c then add64 n 1 else n)

abbrev pub has_calls : SessionState → Bool
has_calls s = not (s.calls == 0)

is_shared : SessionState → Bool
is_shared s = ltb 1 s.keys || ltb 1 s.teams || ltb 1 s.agents

-- One round of the loop over the ordered sessions.
unfoldable pub report_session : Shown → ℕ → SessionState → Report → Report
unfolding listed is_long is_shared
report_session o i s r =
    let x = listed o i s in
    let over = over_cap o.cap s.cost in
    record r {
      sessions = count_if (has_calls s) r.sessions;
      unanalyzed_only =
          count_if (not (has_calls s) && not (s.unanalyzed_rows == 0)) r.unanalyzed_only;
      rejection_only = count_if (not (has_calls s) && s.unanalyzed_rows == 0) r.rejection_only;
      singletons = count_if (s.calls == 1) r.singletons;
      largest = list_if o.top (has_calls s) r.largest x;
      clipped_sessions = count_if s.clipped r.clipped_sessions;
      possibly_clipped_sessions =
          count_if (not s.clipped && s.possibly_clipped) r.possibly_clipped_sessions;
      censored_sessions = count_if s.censored r.censored_sessions;
      censored_calls_n = count_if (s.censored && has_calls s) r.censored_calls_n;
      censored_spend_n =
          count_if (s.censored && has_calls s && s.spend_complete) r.censored_spend_n;
      exceeding = count_if (over && s.spend_complete) r.exceeding;
      partial_exceeding = count_if (over && not s.spend_complete) r.partial_exceeding;
      no_recorded_rejection =
          raised (over && s.spend_complete && s.rejections session_budget == 0)
            r.no_recorded_rejection;
      cap_review = list_if o.top over r.cap_review x;
      long_spans = count_if (is_long o x.span) r.long_spans;
      long_span_review = list_if o.top (is_long o x.span) r.long_span_review x;
      shared_counters = count_if (is_shared s) r.shared_counters;
      shared_counter_review = list_if o.top (is_shared s) r.shared_counter_review x;
    }

unfoldable pub report_sessions : Shown → ℕ → List SessionState → Report → Report
report_sessions o i [] r = r
report_sessions o i (s ∷ ss) r = report_sessions o (i + 1) ss (report_session o i s r)

-- The values of the two distributions, in the order of the sessions.
unfoldable pub call_values : List SessionState → List ℕ
call_values [] = []
call_values (s ∷ ss) = let rest = call_values ss in if has_calls s then s.calls ∷ rest else rest

unfoldable pub spend_values : List SessionState → List ℕ
spend_values [] = []
spend_values (s ∷ ss) =
    let rest = spend_values ss in if has_calls s && s.spend_complete then s.cost ∷ rest else rest

no_report : Option ℕ → Report
no_report counted = record {
  sessions = 0;
  rejection_only = 0;
  unanalyzed_only = 0;
  singletons = 0;
  clipped_sessions = 0;
  possibly_clipped_sessions = 0;
  censored_sessions = 0;
  censored_spend_n = 0;
  censored_calls_n = 0;
  largest = [];
  exceeding = 0;
  partial_exceeding = 0;
  no_recorded_rejection = counted;
  cap_review = [];
  long_spans = 0;
  long_span_review = [];
  shared_counters = 0;
  shared_counter_review = [];
}

-- Whether rejections are known well enough to count their absence.
counts_absence : Option ℕ → Store → Option ℕ
counts_absence none s = none
counts_absence (some c) s = if s.classified_rows == s.selected_rows then some 0 else none

-- `finishSessions`: the report, the account of agents where rows lack them, and the distributions of spend and calls.
pub record Finished : Type 0 where
  pub report : Report
  pub attribution : Option AgentCoverage
  pub spend : Distribution
  pub calls : Distribution

unfoldable pub finish_sessions : Shown → Store → List SessionState → Finished
unfolding no_report counts_absence hide_complete
finish_sessions o s states =
    let ordered = sort session_precedes states in
    record {
      report = report_sessions o 1 ordered (no_report (counts_absence o.cap s));
      attribution = hide_complete s.attribution;
      spend = distribution (spend_values ordered);
      calls = distribution (call_values ordered);
    }
