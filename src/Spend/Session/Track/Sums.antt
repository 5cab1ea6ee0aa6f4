-- ===== src/Spend/Session/Track/Sums.antt =====
-- internal/spend/session.go: what one row adds to the counts of its session, and to the sums over all sessions.
use fleetdiff.Base.{
  ℕ, ◌+◌, ◌≤◌, ◌<◌, ◌≡◌, refl, ap, subst, Bool, true, false, ◌&&◌, not, err-ne-ok, bad_rejection,
  Option, none, some, ◌==◌, arith, ok, err, >>=-eq-ok, ok-injective, if-eq, add64, word,
  if◌then◌else◌, Bool-cases, inl, inr, flag,
}
use fleetdiff.Text.{Text, codes, text_eq, is_empty}
use fleetdiff.Accounting.Number.{add_bounded}
use fleetdiff.Spend.Row.{Row, value, is_supported, status, rejection_kind}
use fleetdiff.Spend.Aggregate.{Spending, no_spend, bad_spend, spent, spending, units_spent}
use fleetdiff.Spend.Session.Store.{
  Rejection, session_budget, session_iterations, other_budget, AgentCoverage, count_agent,
  SessionState, new_session,
}
use fleetdiff.Spend.Session.Track.{
  failed_only, named_rejection, rejection_of, is_rejected, is_analyzed, session_row, Joined,
  touched, add_call, with_amount, completed,
}

-- A row that reports a model call: it has no rejection, and its type of call is supported.
abbrev pub is_call : Row → Bool
is_call r = is_empty (value r rejection_kind) && is_supported r

failed_only-is_rejected :
    (r : Row) (j : Rejection) {k : Option Rejection} → failed_only r j ≡ ok k → is_rejected k ≡ true
unfolding failed_only
failed_only-is_rejected r j h =
    if-eq (text_eq (value r status) (codes "failure")) _ _
      (λ e. subst (λ k. is_rejected k ≡ true) (ok-injective e) refl) (λ e. err-ne-ok e) h

named_rejection-is_rejected :
    (r : Row) (v : Text) {k : Option Rejection} → named_rejection r v ≡ ok k → is_rejected k ≡ true
unfolding named_rejection
named_rejection-is_rejected r v h =
    if-eq (text_eq v (codes "session_budget")) _ _ (failed_only-is_rejected r session_budget)
      (if-eq (text_eq v (codes "session_iterations")) _ _
        (failed_only-is_rejected r session_iterations)
        (if-eq (text_eq v (codes "other_budget")) (failed_only r other_budget) (err bad_rejection)
          (failed_only-is_rejected r other_budget) (λ x. err-ne-ok x)))
      h

-- The rejection that a row is read with tells whether it is a call.
pub rejection_of-is_analyzed :
    (r : Row) {k : Option Rejection} → rejection_of r ≡ ok k → is_analyzed r k ≡ is_call r
unfolding rejection_of is_analyzed
rejection_of-is_analyzed r {k} h =
    let rest = named_rejection r (value r rejection_kind) in
    elim (Bool-cases (is_empty (value r rejection_kind))) [
      | inl e ↦
          let read : ok none ≡ ok k = subst (λ b. (if b then ok none else rest) ≡ ok k) e h in
          rw e (
            subst (λ j. (not (is_rejected j) && is_supported r) ≡ is_supported r)
              (ok-injective read) refl)
      | inr e ↦
          let read =
            named_rejection-is_rejected r (value r rejection_kind)
              (subst (λ b. (if b then ok none else rest) ≡ ok k) e h) in
          rw e (rw read refl)
    ]

-- The rows of an account of agents.
abbrev pub agent_rows : AgentCoverage → ℕ
agent_rows a = a.known_rows + a.missing_rows

abbrev pub session_rows : SessionState → ℕ
session_rows x = agent_rows x.attribution

-- The units that an analyzed row adds.
unfoldable pub units_of : Row → Option Rejection → ℕ
units_of r k = if is_analyzed r k then units_spent (spending r) else 0

-- A session counts its rows, and knows whether it has the spend of each of them.
pub record IsTracked (x : SessionState) : Type 0 where
  pub spend_rows : x.missing_spend + x.invalid_spend ≤ x.calls
  pub call_rows : x.calls + x.unanalyzed_rows ≤ session_rows x
  pub complete : x.spend_complete ≡ (x.missing_spend + x.invalid_spend + x.unanalyzed_rows == 0)

pub agent_rows-count_agent :
    (r : Row) (a : AgentCoverage)
    → agent_rows a + 1 < word
    → agent_rows (count_agent r a) ≡ agent_rows a + 1
unfolding count_agent add64
agent_rows-count_agent r a h = ground arith

-- What a row does to its session.
pub record Stepped (r : Row) (k : Option Rejection) (x y : SessionState) : Type 0 where
  pub rows : session_rows y ≡ session_rows x + 1
  pub calls : y.calls ≡ x.calls + flag (is_analyzed r k)
  pub cost : y.cost ≡ x.cost + units_of r k
  pub tracked : IsTracked y

pub new-IsTracked : (id order : ℕ) → IsTracked (new_session id order)
unfolding new_session
new-IsTracked id order = record {
  spend_rows = omega arith;
  call_rows = omega arith;
  complete = refl;
}

-- The account of one amount in a session, whose calls have been raised.
record Amounted (s : Spending) (x y : SessionState) : Type 0 where
  a_cost : y.cost ≡ x.cost + units_spent s
  a_calls : y.calls ≡ x.calls
  a_rows : y.attribution ≡ x.attribution
  a_unanalyzed : y.unanalyzed_rows ≡ x.unanalyzed_rows
  a_spend : y.missing_spend + y.invalid_spend ≤ x.missing_spend + x.invalid_spend + 1

with_amount-Amounted :
    (s : Spending) (t : ℕ) (x : SessionState)
    → x.missing_spend + x.invalid_spend + 1 < word
    → Amounted s x (with_amount s t x)
unfolding with_amount add64
with_amount-Amounted no_spend t x h = record {
  a_cost = omega arith;
  a_calls = refl;
  a_rows = refl;
  a_unanalyzed = refl;
  a_spend = omega arith;
}
with_amount-Amounted bad_spend t x h = record {
  a_cost = omega arith;
  a_calls = refl;
  a_rows = refl;
  a_unanalyzed = refl;
  a_spend = omega arith;
}
with_amount-Amounted (spent u) t x h = elim (Bool-cases (u == 0)) [
  | inl e ↦ rw e (record {
    a_cost = refl;
    a_calls = refl;
    a_rows = refl;
    a_unanalyzed = refl;
    a_spend = omega arith;
  })
  | inr e ↦ rw e (record {
    a_cost = refl;
    a_calls = refl;
    a_rows = refl;
    a_unanalyzed = refl;
    a_spend = omega arith;
  })
]

completed-IsTracked :
    (y : SessionState)
    → y.missing_spend + y.invalid_spend ≤ y.calls
    → y.calls + y.unanalyzed_rows ≤ session_rows y
    → session_rows y < word
    → IsTracked (completed y)
unfolding completed add64
completed-IsTracked y a b c = record {
  spend_rows = a;
  call_rows = b;
  complete = ap (λ n. n == 0) (omega arith);
}

called-Stepped :
    (r : Row) (t : ℕ) (n : ℕ) (x w y : SessionState)
    → IsTracked x
    → session_rows x + 1 < word
    → w.calls ≡ x.calls
    → w.cost ≡ x.cost
    → w.missing_spend ≡ x.missing_spend
    → w.invalid_spend ≡ x.invalid_spend
    → w.unanalyzed_rows ≡ x.unanalyzed_rows
    → session_rows w ≡ session_rows x + 1
    → add_call r t n w ≡ ok y
    → (session_rows y ≡ session_rows x + 1)
      × (y.calls ≡ x.calls + 1)
      × (y.cost ≡ x.cost + units_spent (spending r))
      × IsTracked y
unfolding add_call completed add64
called-Stepped r t n x w y v room hc hs hm hi hu hr h =
    let (m, hn, h1) = >>=-eq-ok (add_bounded w.tokens_recorded n) _ h in
    let u = record w { calls = add64 w.calls 1; tokens_recorded = m } in
    let a = with_amount-Amounted (spending r) t u (omega (arith, v.spend_rows, v.call_rows)) in
    let z = with_amount (spending r) t u in
    let rows : session_rows z ≡ session_rows w = ap agent_rows a.a_rows in
    let calls : z.calls ≡ x.calls + 1 = omega (arith, a.a_calls, v.call_rows) in
    let c =
      completed-IsTracked z (omega (arith, a.a_spend, v.spend_rows))
        (omega (arith, a.a_unanalyzed, v.call_rows)) (omega arith) in
    subst
      (λ (y : SessionState).
        (session_rows y ≡ session_rows x + 1)
        × (y.calls ≡ x.calls + 1)
        × (y.cost ≡ x.cost + units_spent (spending r))
        × IsTracked y)
      (ok-injective h1) (omega arith, calls, omega (arith, a.a_cost), c)

pub session_row-Stepped :
    (r : Row) (t : ℕ) (k : Option Rejection) (n : ℕ) (j : Joined) (x y : SessionState)
    → IsTracked x
    → session_rows x + 1 < word
    → session_row r t k n (touched r t j x) ≡ ok y
    → Stepped r k x y
unfolding session_row touched is_analyzed units_of add64
session_row-Stepped r t (some k) n j x y v room h =
    let rows = agent_rows-count_agent r x.attribution room in
    subst (Stepped r (some k) x) (ok-injective h) (record {
      rows = rows;
      calls = omega arith;
      cost = omega arith;
      tracked = record {
        spend_rows = v.spend_rows;
        call_rows = omega (arith, v.call_rows);
        complete = v.complete;
      };
    })
session_row-Stepped r t none n j x y v room h =
    let rows = agent_rows-count_agent r x.attribution room in
    elim (Bool-cases (is_supported r)) [
      | inl e ↦
          let (a, b, c, d) =
            called-Stepped r t n x (touched r t j x) y v room refl refl refl refl refl rows (
              subst
                (λ (q : Bool).
                  (if q
                    then add_call r t n (touched r t j x)
                    else ok (record (touched r t j x) {
                      unanalyzed_rows = add64 x.unanalyzed_rows 1;
                      spend_complete = false;
                    }))
                  ≡ ok y)
                e h) in
          record { rows = a; calls = rw e b; cost = rw e c; tracked = d }
      | inr e ↦
          let g =
            subst
              (λ (q : Bool).
                (if q
                  then add_call r t n (touched r t j x)
                  else ok (record (touched r t j x) {
                    unanalyzed_rows = add64 x.unanalyzed_rows 1;
                    spend_complete = false;
                  }))
                ≡ ok y)
              e h in
          subst (Stepped r none x) (ok-injective g) (record {
            rows = rows;
            calls = rw e (omega arith);
            cost = rw e (omega arith);
            tracked = record {
              spend_rows = v.spend_rows;
              call_rows = omega (arith, v.call_rows);
              complete = ground (arith, v.spend_rows, v.call_rows);
            };
          })
    ]
