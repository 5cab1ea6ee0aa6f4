-- ===== src/Spend/Session/Step.antt =====
-- internal/spend/session.go: what one row does to the running report, to the sessions and to their memberships, in the
-- second reading of `ReviewSessions`.
pub mod Accounted
pub mod Attributed
pub mod Reviewed
pub mod Kept
use fleetdiff.Base.{
  ℕ, ◌+◌, ◌==◌, Bool, true, false, ◌&&◌, ◌||◌, not, Option, none, some, List, [], ◌∷◌, ◌++◌, ltb,
  if◌then◌else◌, length, add64, Result, ok, err, ◌>>=◌, missing_request, bad_timestamp,
  bad_rejection, unfinished_record, too_many_sessions, singleton_sessions, too_many_memberships,
  keep,
}
use fleetdiff.Text.{Text, codes, text_eq, is_empty}
use fleetdiff.Accounting.Names.{total_tokens_total}
use fleetdiff.Accounting.Number.{add_bounded}
use fleetdiff.Accounting.Tokens.{Observation, tokens}
use fleetdiff.Spend.Row.{
  Row, Column, value, operation, is_supported, request_id, call_type, session_id, agent_id,
  rejection_kind, status, start_time, end_time, api_key, team_id,
}
use fleetdiff.Spend.Quality.{Quality, no_quality, add_quality}
use fleetdiff.Spend.Usage.{attributes, classify}
use fleetdiff.Spend.Aggregate.{
  Spending, no_spend, bad_spend, spent, spending, with_spending, units_spent,
}
use fleetdiff.Spend.Period.{Period, within}
use fleetdiff.Spend.Digests.{add_digest}
use fleetdiff.Spend.Session.Store.{
  Rejection, session_budget, session_iterations, other_budget, count_rejection, count_agent,
  count_type, SessionState, new_session, MemberKind, of_key, of_team, of_agent, kind_number, Member,
  Store,
}
use fleetdiff.Spend.Session.Track.{
  rejection_of, is_rejected, is_analyzed, is_classified, session_row, Joined, touched,
  update_states, check_sessions, join_member,
}

session_quality : Row → Observation → Quality
session_quality r o =
    let q = with_spending (spending r) (classify r o) in
    let i = if is_empty (value r session_id) then record q { missing_identity = 1 } else q in
    if is_empty (value r end_time) then record i { unclear = 1 } else i

-- The counts of the report that do not depend on the session.
unfoldable pub count_selected : Row → Option Rejection → Store → Store
count_selected r k s =
    let unsupported = not (is_rejected k) && not (is_supported r) in
    let name =
      if is_empty (operation (value r call_type)) then codes "unknown" else value r call_type in
    record s {
      selected_rows = add64 s.selected_rows 1;
      attribution = count_agent r s.attribution;
      attribution_by_type = count_type name r s.attribution_by_type;
      classified_rows =
          if is_classified (r.values rejection_kind)
          then add64 s.classified_rows 1
          else s.classified_rows;
      unclassified_failures =
          if not (is_rejected k) && text_eq (value r status) (codes "failure")
          then add64 s.unclassified_failures 1
          else s.unclassified_failures;
      rejections = elim k [ none ↦ s.rejections | some j ↦ count_rejection s.rejections j ];
      unsupported_rows = if unsupported then add64 s.unsupported_rows 1 else s.unsupported_rows;
      model_calls = if is_analyzed r k then add64 s.model_calls 1 else s.model_calls;
    }

-- The observation of an analyzed row and its total tokens; of another row no observation is read, which leaves 0.
add_observation : Row → Store → Result (Store × ℕ)
unfolding session_quality
add_observation r s = do
  o ← tokens (attributes r)
  n ← add_bounded s.recorded_tokens (o.metric total_tokens_total)
  ok (
    record s { quality = add_quality s.quality (session_quality r o); recorded_tokens = n },
    o.metric total_tokens_total,
  )

unfoldable pub observe_tokens : Row → Option Rejection → Store → Result (Store × ℕ)
unfolding add_observation
observe_tokens r k s = let seen = add_observation r s in if is_analyzed r k then seen else ok (s, 0)

-- A row without a session: its spend is missing, invalid or read.
unattributed_amount : Spending → Store → Store
unattributed_amount no_spend s = record s {
  unattributed_missing_spend = add64 s.unattributed_missing_spend 1;
}
unattributed_amount bad_spend s = record s {
  unattributed_invalid_spend = add64 s.unattributed_invalid_spend 1;
}
unattributed_amount (spent u) s = record s {
  unattributed_spend_rows = add64 s.unattributed_spend_rows 1;
  unattributed_spend = s.unattributed_spend + u;
}

unfoldable pub add_unattributed : Row → Option Rejection → Store → Store
unfolding unattributed_amount
add_unattributed r k s =
    let t = record s { unattributed_rows = add64 s.unattributed_rows 1 } in
    if is_analyzed r k then unattributed_amount (spending r) t else t

module _ (digest : Text → ℕ) where
  unfoldable pub session_digest : Row → ℕ
  session_digest r = digest (codes "session-budget/session" ++ (0 ∷ value r session_id))

  join_field : Row → ℕ → Column → Text → MemberKind → List Member → Result (List Member × ℕ)
  unfolding join_member
  join_field r id c name k ms =
      let joined =
        join_member
          (record {
            session = id;
            identity = digest (codes "session-budget/" ++ (name ++ (0 ∷ value r c)));
            kind = k;
          })
          ms in
      if is_empty (value r c) then ok (ms, 0) else joined

  join_all : Row → ℕ → List Member → Result (List Member × Joined)
  unfolding join_field
  join_all r id ms = do
    a ← join_field r id api_key (codes "api_key") of_key ms
    b ← join_field r id team_id (codes "team_id") of_team a.0
    c ← join_field r id agent_id (codes "agent_id") of_agent b.0
    ok (c.0, record { keys = a.1; teams = b.1; agents = c.1 })

  unfoldable pub add_session : Row → ℕ → Option Rejection → ℕ → Store → Result Store
  unfolding join_all session_digest check_sessions
  add_session r t k o s = check_sessions (session_digest r) s.states >>= λ _.
      join_all r (session_digest r) s.members >>= λ j.
      update_states (new_session (session_digest r) r.row_number)
        (λ x. session_row r t k o (touched r t j.1 x)) s.states
      >>= λ ss. ok (record s { states = ss; members = j.0 })

  module _ (time : Text → Option ℕ) (p : Period) (now : ℕ) where
    end_checked : ℕ → Option ℕ → Result (Unit {0})
    end_checked t none = err bad_timestamp
    end_checked t (some e) = if ltb e t || ltb now e then err unfinished_record else ok tt

    check_end : Row → ℕ → Option Rejection → Result (Unit {0})
    unfolding end_checked
    check_end r t k =
        if is_empty (value r end_time) || (not (is_rejected k) && not (is_supported r))
        then ok tt
        else end_checked t (time (value r end_time))

    unfoldable pub observe_session : Row → ℕ → Option Rejection → Store → Result Store
    observe_session r t k s = observe_tokens r k s >>= λ q.
        let attributed = add_session r t k q.1 q.0 in
        if is_empty (value r session_id) then ok (add_unattributed r k q.0) else attributed

    unfoldable pub select_row : Row → ℕ → Store → Result Store
    unfolding check_end
    select_row r t s = rejection_of r >>= λ k.
        check_end r t k >>= λ _. observe_session r t k (count_selected r k s)

    at_time : Row → Option ℕ → Store → Result Store
    at_time r none s = err bad_timestamp
    at_time r (some t) s = let chosen = select_row r t s in if within p t then chosen else ok s

    -- The body of the second reading.
    unfoldable pub review_row : Store → Row → Result Store
    unfolding at_time
    review_row s r =
        let next = at_time r (time (value r start_time)) (record s {
          rows = add64 s.rows 1;
          seen = add_digest s.seen (digest (value r request_id));
        }) in
        if is_empty (value r request_id) then err missing_request else next
