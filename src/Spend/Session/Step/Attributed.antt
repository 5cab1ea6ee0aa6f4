-- ===== src/Spend/Session/Step/Attributed.antt =====
-- internal/spend/session.go: a row with a session, in the accounts of the second reading of `ReviewSessions`.
use fleetdiff.Base.{
  ℕ, ◌+◌, ◌<◌, ◌≡◌, refl, sym, ap, subst, Option, List, [], ◌∷◌, arith, All, ok, >>=-eq-ok,
  ok-injective, sum_by, word, flag, length,
}
use fleetdiff.Text.{Text}
use fleetdiff.Spend.Row.{Row}
use fleetdiff.Spend.Session.Store.{Rejection, SessionState, new_session, Store}
use fleetdiff.Spend.Session.Track.{is_analyzed, session_row, touched, update_states, check_sessions}
use fleetdiff.Spend.Session.Track.Sums.{
  session_rows, units_of, IsTracked, Stepped, new-IsTracked, session_row-Stepped,
}
use fleetdiff.Spend.Session.Track.Updated.{update_states-sum, update_states-length}
use fleetdiff.Spend.Session.Step.{add_session, join_all, session_digest}
use fleetdiff.Spend.Session.Step.Accounted.{IsAccounted, Raised, Extends}

rows_below :
    (xs : List SessionState)
    → sum_by session_rows xs + 1 < word
    → All IsTracked xs
    → All (λ x. IsTracked x × (session_rows x + 1 < word)) xs
rows_below [] w v = tt
rows_below (x ∷ xs) w v = ((v.0, omega arith), rows_below xs (omega arith) v.1)

module _ (digest : Text → ℕ) where
  pub add_session-Extends :
      (r : Row) (k : Option Rejection) (n m : ℕ) (t0 : ℕ) (s t : Store) {z : Store}
      → n + 1 < word
      → IsAccounted n s
      → Raised r k s t
      → add_session digest r t0 k m t ≡ ok z
      → Extends n r k s z
  unfolding add_session new_session
  add_session-Extends r k n m t0 s t {z} w v u h =
      let (c, hc, h1) = >>=-eq-ok (check_sessions (session_digest digest r) t.states) _ h in
      let (j, hj, h2) = >>=-eq-ok (join_all digest r (session_digest digest r) t.members) _ h1 in
      let new = new_session (session_digest digest r) r.row_number in
      let (ss, hs, h3) =
        >>=-eq-ok (update_states new (λ x. session_row r t0 k m (touched r t0 j.1 x)) t.states) _
          h2 in
      let room = rows_below s.states (omega (arith, v.attributed, v.selected)) v.tracked in
      let before =
        subst (All (λ x. IsTracked x × (session_rows x + 1 < word))) (sym u.r_states) room in
      let new_room : IsTracked new × (session_rows new + 1 < word) =
        (new-IsTracked (session_digest digest r) r.row_number, omega arith) in
      let stepped : (x y : SessionState)
          → IsTracked x × (session_rows x + 1 < word)
          → session_row r t0 k m (touched r t0 j.1 x) ≡ ok y
          → Stepped r k x y =
        λ x y p e. session_row-Stepped r t0 k m j.1 x y p.0 p.1 e in
      let (rows, tracked) =
        update_states-sum _ IsTracked (λ x p. p.0) session_rows 1 new _
          (λ x y p e. ((stepped x y p e).rows, (stepped x y p e).tracked)) t.states refl new_room
          before hs in
      let (calls, _) =
        update_states-sum _ IsTracked (λ x p. p.0) (λ x. x.calls) (flag (is_analyzed r k)) new _
          (λ x y p e. ((stepped x y p e).calls, (stepped x y p e).tracked)) t.states refl new_room
          before hs in
      let (cost, _) =
        update_states-sum _ IsTracked (λ x p. p.0) (λ x. x.cost) (units_of r k) new _
          (λ x y p e. ((stepped x y p e).cost, (stepped x y p e).tracked)) t.states refl new_room
          before hs in
      let sum : (f : SessionState → ℕ) → sum_by f t.states ≡ sum_by f s.states =
        λ f. ap (sum_by f) u.r_states in
      subst (Extends n r k s) (ok-injective h3) (record {
        accounted = record {
          attributed = omega (arith, sum session_rows, v.attributed, u.r_rows, u.r_selected);
          agents = omega (arith, v.agents, u.r_agents, u.r_selected);
          called = omega (
            arith,
            sum (λ x. x.calls),
            v.called,
            u.r_calls,
            u.r_spend_rows,
            u.r_missing,
            u.r_invalid,
          );
          analyzed = ground (arith, v.analyzed, u.r_calls, u.r_selected);
          selected = omega (arith, v.selected, u.r_selected);
          tracked = tracked;
          few_sessions = omega (
            arith,
            ap (λ (xs : List SessionState). length xs) u.r_states,
            v.few_sessions,
            update_states-length new _ t.states hs,
          );
        };
        one_selected = omega (arith, u.r_selected);
        more_calls = omega (arith, u.r_calls);
        spend = omega (arith, sum (λ x. x.cost), u.r_spend);
      })
