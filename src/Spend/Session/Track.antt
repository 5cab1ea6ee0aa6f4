-- ===== src/Spend/Session/Track.antt =====
-- internal/spend/session.go: what a row does to its session and to the memberships, in the second reading of `ReviewSessions`.
pub mod Sums
pub mod Updated
use fleetdiff.Base.{
  ℕ, ◌+◌, ◌==◌, Bool, true, false, ◌&&◌, ◌||◌, not, Option, none, some, List, [], ◌∷◌, ◌++◌, ltb,
  if◌then◌else◌, length, add64, Result, ok, err, ◌>>=◌, missing_request, bad_timestamp,
  bad_rejection, unfinished_record, too_many_sessions, singleton_sessions, too_many_memberships,
  keep,
}
use fleetdiff.Text.{Text, codes, text_eq, is_empty}
use fleetdiff.Accounting.Names.{total_tokens_total}
use fleetdiff.Accounting.Number.{add_bounded}
use fleetdiff.Accounting.Tokens.{Observation, tokens}
use fleetdiff.Spend.Row.{
  Row, Column, value, operation, is_supported, request_id, call_type, session_id, agent_id,
  rejection_kind, status, start_time, end_time, api_key, team_id,
}
use fleetdiff.Spend.Quality.{Quality, no_quality, add_quality}
use fleetdiff.Spend.Usage.{attributes, classify}
use fleetdiff.Spend.Aggregate.{
  Spending, no_spend, bad_spend, spent, spending, with_spending, units_spent,
}
use fleetdiff.Spend.Period.{Period, within}
use fleetdiff.Spend.Digests.{add_digest}
use fleetdiff.Spend.Session.Store.{
  Rejection, session_budget, session_iterations, other_budget, count_rejection, count_agent,
  count_type, SessionState, new_session, MemberKind, of_key, of_team, of_agent, kind_number, Member,
  Store,
}

abbrev pub max_sessions : ℕ
max_sessions = 250000

abbrev pub max_memberships : ℕ
max_memberships = 1000000

failed_only : Row → Rejection → Result (Option Rejection)
failed_only r k =
    if text_eq (value r status) (codes "failure") then ok (some k) else err bad_rejection

named_rejection : Row → Text → Result (Option Rejection)
unfolding failed_only
named_rejection r v =
    if text_eq v (codes "session_budget")
    then failed_only r session_budget
    else if text_eq v (codes "session_iterations")
    then failed_only r session_iterations
    else if text_eq v (codes "other_budget")
    then failed_only r other_budget
    else err bad_rejection

-- The checks of `rejection_kind`.
unfoldable pub rejection_of : Row → Result (Option Rejection)
unfolding named_rejection
rejection_of r =
    let named = named_rejection r (value r rejection_kind) in
    if is_empty (value r rejection_kind) then ok none else named

abbrev pub is_rejected : Option Rejection → Bool
is_rejected none = false
is_rejected (some k) = true

-- A row whose tokens and spend are read.
unfoldable pub is_analyzed : Row → Option Rejection → Bool
is_analyzed r k = not (is_rejected k) && is_supported r

abbrev pub is_classified : Option Text → Bool
is_classified none = false
is_classified (some s) = true

-- `!t.Before(first)` keeps the earlier of two times, and so for the later one.
earliest : Option ℕ → ℕ → Option ℕ
earliest none t = some t
earliest (some a) t = if ltb t a then some t else some a

latest : Option ℕ → ℕ → Option ℕ
latest none t = some t
latest (some a) t = if ltb a t then some t else some a

with_amount : Spending → ℕ → SessionState → SessionState
unfolding earliest latest
with_amount no_spend t s = record s { missing_spend = add64 s.missing_spend 1 }
with_amount bad_spend t s = record s { invalid_spend = add64 s.invalid_spend 1 }
with_amount (spent u) t s =
    let c = record s { cost = s.cost + u } in
    if u == 0 then c else record c { first = earliest s.first t; last = latest s.last t }

completed : SessionState → SessionState
completed s = record s {
  spend_complete = add64 (add64 s.missing_spend s.invalid_spend) s.unanalyzed_rows == 0;
}

unfoldable pub add_call : Row → ℕ → ℕ → SessionState → Result SessionState
unfolding with_amount completed
add_call r t o s = add_bounded s.tokens_recorded o >>= λ n. ok (
    completed
      (with_amount (spending r) t (record s { calls = add64 s.calls 1; tokens_recorded = n })))

unfoldable pub session_row : Row → ℕ → Option Rejection → ℕ → SessionState → Result SessionState
session_row r t (some k) o s =
    ok (record s { rejections = count_rejection s.rejections k; censored = true })
session_row r t none o s =
    let called = add_call r t o s in
    if is_supported r
    then called
    else ok (record s { unanalyzed_rows = add64 s.unanalyzed_rows 1; spend_complete = false })

-- How many memberships of each kind a row adds.
pub record Joined : Type 0 where
  pub keys : ℕ
  pub teams : ℕ
  pub agents : ℕ

unfoldable pub touched : Row → ℕ → Joined → SessionState → SessionState
unfolding earliest latest
touched r t j s = record s {
  attribution = count_agent r s.attribution;
  first_activity = earliest s.first_activity t;
  last_activity = latest s.last_activity t;
  rejection_coverage = s.rejection_coverage && is_classified (r.values rejection_kind);
  keys = add64 s.keys j.keys;
  teams = add64 s.teams j.teams;
  agents = add64 s.agents j.agents;
}

-- `states[id]`, which is new where there is none, after a row.
unfoldable pub update_states :
    SessionState
    → (SessionState → Result SessionState)
    → List SessionState
    → Result (List SessionState)
update_states new step [] = step new >>= λ s. ok (s ∷ [])
update_states new step (s ∷ ss) =
    let rest = update_states new step ss >>= λ ts. ok (s ∷ ts) in
    let here = step s >>= λ t. ok (t ∷ ss) in if s.id == new.id then here else rest

has_session : ℕ → List SessionState → Bool
has_session id [] = false
has_session id (s ∷ ss) = s.id == id || has_session id ss

-- `sessionLimitError`
session_limit : List SessionState → Result (Unit {0})
session_limit ss =
    if ltb (length ss) (length (keep (λ s. s.calls == 1) ss) + length (keep (λ s. s.calls == 1) ss))
    then err singleton_sessions
    else err too_many_sessions

unfoldable pub check_sessions : ℕ → List SessionState → Result (Unit {0})
unfolding has_session session_limit
check_sessions id ss =
    let full = session_limit ss in
    if not (has_session id ss) && length ss == max_sessions then full else ok tt

same_member : Member → Member → Bool
same_member m n =
    m.session == n.session && m.identity == n.identity && kind_number m.kind == kind_number n.kind

has_member : Member → List Member → Bool
unfolding same_member
has_member m [] = false
has_member m (n ∷ ns) = same_member m n || has_member m ns

-- One round of the loop over the fields; the count is 1 for a new membership.
unfoldable pub join_member : Member → List Member → Result (List Member × ℕ)
unfolding has_member
join_member m ms =
    if has_member m ms
    then ok (ms, 0)
    else if length ms == max_memberships
    then err too_many_memberships
    else ok (m ∷ ms, 1)
