-- ===== src/Spend/Session/Step/Accounted.antt =====
-- internal/spend/session.go: the sums that the second reading of `ReviewSessions` keeps over sessions and the rows without
-- one.
use fleetdiff.Base.{
  ℕ, ◌+◌, ◌≤◌, ◌<◌, ◌≡◌, refl, sym, ap, ◌∙◌, subst, true, Option, List, arith, All, ok, >>=-eq-ok,
  ok-injective, if-eq, sum_by, add64, word, Bool-cases, inl, inr, flag, length,
}
use fleetdiff.Accounting.Number.{add_bounded}
use fleetdiff.Accounting.Tokens.{tokens}
use fleetdiff.Accounting.Names.{total_tokens_total}
use fleetdiff.Spend.Row.{Row}
use fleetdiff.Spend.Aggregate.{Spending, no_spend, bad_spend, spent, spending, units_spent}
use fleetdiff.Spend.Usage.{attributes}
use fleetdiff.Spend.Session.Store.{Rejection, SessionState, Store}
use fleetdiff.Spend.Session.Track.{is_analyzed}
use fleetdiff.Spend.Session.Track.Sums.{
  agent_rows, session_rows, units_of, IsTracked, agent_rows-count_agent,
}
use fleetdiff.Spend.Session.Step.{
  count_selected, add_unattributed, unattributed_amount, add_observation, observe_tokens,
}

-- The analyzed rows without a session.
abbrev pub unattributed_calls : Store → ℕ
unattributed_calls s =
    s.unattributed_spend_rows + s.unattributed_missing_spend + s.unattributed_invalid_spend

-- The recorded spend, of sessions and of rows without one.
abbrev pub spend_total : Store → ℕ
spend_total s = sum_by (λ x. x.cost) s.states + s.unattributed_spend

-- Every selected row is counted once, in its session or among the rows without one, and so is every analyzed row.
pub record IsAccounted (n : ℕ) (s : Store) : Type 0 where
  pub attributed : sum_by session_rows s.states + s.unattributed_rows ≡ s.selected_rows
  pub agents : agent_rows s.attribution ≡ s.selected_rows
  pub called : sum_by (λ x. x.calls) s.states + unattributed_calls s ≡ s.model_calls
  pub analyzed : s.model_calls ≤ s.selected_rows
  pub selected : s.selected_rows ≤ n
  pub tracked : All IsTracked s.states
  pub few_sessions : length s.states ≤ n

-- A store after the counts of the report have been raised, and before the sessions are.
pub record Raised (r : Row) (k : Option Rejection) (s t : Store) : Type 0 where
  pub r_selected : t.selected_rows ≡ s.selected_rows + 1
  pub r_agents : agent_rows t.attribution ≡ agent_rows s.attribution + 1
  pub r_calls : t.model_calls ≡ s.model_calls + flag (is_analyzed r k)
  pub r_states : t.states ≡ s.states
  pub r_rows : t.unattributed_rows ≡ s.unattributed_rows
  pub r_spend_rows : t.unattributed_spend_rows ≡ s.unattributed_spend_rows
  pub r_missing : t.unattributed_missing_spend ≡ s.unattributed_missing_spend
  pub r_invalid : t.unattributed_invalid_spend ≡ s.unattributed_invalid_spend
  pub r_spend : t.unattributed_spend ≡ s.unattributed_spend

pub count_selected-Raised :
    (r : Row) (k : Option Rejection) (n : ℕ) (s : Store)
    → n + 1 < word
    → IsAccounted n s
    → Raised r k s (count_selected r k s)
unfolding count_selected add64
count_selected-Raised r k n s w v = record {
  r_selected = omega (arith, v.selected);
  r_agents = agent_rows-count_agent r s.attribution (omega (arith, v.agents, v.selected));
  r_calls = ground (arith, v.analyzed, v.selected);
  r_states = refl;
  r_rows = refl;
  r_spend_rows = refl;
  r_missing = refl;
  r_invalid = refl;
  r_spend = refl;
}

pub observe_tokens-Raised :
    (r : Row) (k : Option Rejection) (s t : Store) {u : Store × ℕ}
    → Raised r k s t
    → observe_tokens r k t ≡ ok u
    → Raised r k s u.0
unfolding observe_tokens add_observation
observe_tokens-Raised r k s t {u} v h =
    if-eq (is_analyzed r k) _ _
      (λ e.
        let (o, ho, h1) = >>=-eq-ok (tokens (attributes r)) _ e in
        let (n, hn, h2) =
          >>=-eq-ok (add_bounded t.recorded_tokens (o.metric total_tokens_total)) _ h1 in
        subst (λ (u : Store × ℕ). Raised r k s u.0) (ok-injective h2)
          (record {
            r_selected = v.r_selected;
            r_agents = v.r_agents;
            r_calls = v.r_calls;
            r_states = v.r_states;
            r_rows = v.r_rows;
            r_spend_rows = v.r_spend_rows;
            r_missing = v.r_missing;
            r_invalid = v.r_invalid;
            r_spend = v.r_spend;
          }))
      (λ e. subst (λ (u : Store × ℕ). Raised r k s u.0) (ok-injective e) v) h

-- What a row does to the accounts: it is one more selected row, and adds its units to the spend.
pub record Extends (n : ℕ) (r : Row) (k : Option Rejection) (s t : Store) : Type 0 where
  pub accounted : IsAccounted (n + 1) t
  pub one_selected : t.selected_rows ≡ s.selected_rows + 1
  pub more_calls : t.model_calls ≡ s.model_calls + flag (is_analyzed r k)
  pub spend : spend_total t ≡ spend_total s + units_of r k

-- A raised store, with one more row that has no session.
without_session :
    (r : Row) (k : Option Rejection) (n : ℕ) (s t z : Store)
    → IsAccounted n s
    → Raised r k s t
    → z.states ≡ t.states
    → z.selected_rows ≡ t.selected_rows
    → z.attribution ≡ t.attribution
    → z.model_calls ≡ t.model_calls
    → z.unattributed_rows ≡ t.unattributed_rows + 1
    → unattributed_calls z ≡ unattributed_calls t + flag (is_analyzed r k)
    → z.unattributed_spend ≡ t.unattributed_spend + units_of r k
    → Extends n r k s z
without_session r k n s t z v u states selected attribution called rows calls spend =
    let same : z.states ≡ s.states = states ∙ u.r_states in
    let agents : agent_rows z.attribution ≡ agent_rows t.attribution = ap agent_rows attribution in
    let sum : (f : SessionState → ℕ) → sum_by f z.states ≡ sum_by f s.states =
      λ f. ap (sum_by f) same in
    record {
      accounted = record {
        attributed = omega (arith, sum session_rows, v.attributed, u.r_rows, u.r_selected);
        agents = omega (arith, v.agents, u.r_agents, u.r_selected);
        called = omega (
          arith,
          sum (λ x. x.calls),
          v.called,
          u.r_calls,
          u.r_spend_rows,
          u.r_missing,
          u.r_invalid,
        );
        analyzed = ground (arith, v.analyzed, u.r_calls, u.r_selected);
        selected = omega (arith, v.selected, u.r_selected);
        tracked = subst (All IsTracked) (sym same) v.tracked;
        few_sessions =
            omega (arith, ap (λ (xs : List SessionState). length xs) same, v.few_sessions);
      };
      one_selected = omega (arith, u.r_selected);
      more_calls = omega (arith, u.r_calls);
      spend = omega (arith, sum (λ x. x.cost), u.r_spend);
    }

-- The rows without a session are among the selected rows, so that their counters do not wrap.
unattributed_room :
    (r : Row) (k : Option Rejection) (n : ℕ) (s t : Store)
    → n + 1 < word
    → IsAccounted n s
    → Raised r k s t
    → (t.unattributed_rows + 1 < word) × (unattributed_calls t + 1 < word)
unattributed_room r k n s t w v u = (
  omega (arith, v.attributed, v.selected, u.r_rows),
  omega (arith, v.called, v.analyzed, v.selected, u.r_spend_rows, u.r_missing, u.r_invalid),
)

amount-Extends :
    (r : Row) (k : Option Rejection) (x : Spending) (n : ℕ) (s t : Store)
    → n + 1 < word
    → IsAccounted n s
    → Raised r k s t
    → is_analyzed r k ≡ true
    → units_of r k ≡ units_spent x
    → Extends n r k s
        (unattributed_amount x (record t { unattributed_rows = add64 t.unattributed_rows 1 }))
unfolding unattributed_amount add64
amount-Extends r k no_spend n s t w v u e d =
    let (a, b) = unattributed_room r k n s t w v u in
    let one : flag (is_analyzed r k) ≡ 1 = ap flag e in
    without_session r k n s t _ v u refl refl refl refl (omega arith) (omega arith) (omega arith)
amount-Extends r k bad_spend n s t w v u e d =
    let (a, b) = unattributed_room r k n s t w v u in
    let one : flag (is_analyzed r k) ≡ 1 = ap flag e in
    without_session r k n s t _ v u refl refl refl refl (omega arith) (omega arith) (omega arith)
amount-Extends r k (spent m) n s t w v u e d =
    let (a, b) = unattributed_room r k n s t w v u in
    let one : flag (is_analyzed r k) ≡ 1 = ap flag e in
    without_session r k n s t _ v u refl refl refl refl (omega arith) (omega arith) (omega arith)

pub add_unattributed-Extends :
    (r : Row) (k : Option Rejection) (n : ℕ) (s t : Store)
    → n + 1 < word
    → IsAccounted n s
    → Raised r k s t
    → Extends n r k s (add_unattributed r k t)
unfolding add_unattributed units_of add64
add_unattributed-Extends r k n s t w v u = elim (Bool-cases (is_analyzed r k)) [
  | inl e ↦
      let units : units_of r k ≡ units_spent (spending r) = rw e refl in
      rw e (amount-Extends r k (spending r) n s t w v u e units)
  | inr e ↦
      let (a, b) = unattributed_room r k n s t w v u in
      rw e (
        without_session r k n s t _ v u refl refl refl refl (omega arith) (rw e (omega arith))
          (rw e (omega arith)))
]
