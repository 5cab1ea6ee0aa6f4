-- ===== src/Spend/Session/Step/Reviewed.antt =====
-- internal/spend/session.go: the second reading of `ReviewSessions`, over all rows of a file.
use fleetdiff.Base.{
  ℕ, ◌+◌, ◌<◌, ◌≡◌, refl, ap, ◌∙◌, subst, Bool, true, false, ◌&&◌, Option, none, some, List, [],
  ◌∷◌, arith, Result, ok, >>=-eq-ok, ok-injective, if-eq, sum_by, add64, word, if◌then◌else◌,
  Bool-cases, inl, inr, flag, length, fold_ok, err-ne-ok,
}
use fleetdiff.Text.{Text, is_empty}
use fleetdiff.Spend.Row.{Row, value, session_id, start_time, request_id}
use fleetdiff.Spend.Aggregate.{spending, units_spent}
use fleetdiff.Spend.Period.{Period, within}
use fleetdiff.Spend.Digests.{add_digest}
use fleetdiff.Spend.Session.Store.{Rejection, Store, new_store}
use fleetdiff.Spend.Session.Track.{is_analyzed, rejection_of}
use fleetdiff.Spend.Session.Track.Sums.{is_call, rejection_of-is_analyzed, units_of}
use fleetdiff.Spend.Session.Step.{
  count_selected, observe_tokens, observe_session, select_row, review_row, check_end, at_time,
}
use fleetdiff.Spend.Session.Step.Attributed.{add_session-Extends}
use fleetdiff.Spend.Session.Step.Accounted.{
  IsAccounted, Extends, count_selected-Raised, observe_tokens-Raised, add_unattributed-Extends,
  spend_total,
}

module _ (digest : Text → ℕ) (time : Text → Option ℕ) (p : Period) (now : ℕ) where
  chosen : Option ℕ → Bool
  chosen none = false
  chosen (some t) = within p t

  -- Whether a row starts in the period, and what it adds to the calls and to the spend there.
  unfoldable pub is_selected : Row → Bool
  unfolding chosen
  is_selected r = chosen (time (value r start_time))

  unfoldable pub selected_call : Row → Bool
  selected_call r = is_selected r && is_call r

  unfoldable pub selected_units : Row → ℕ
  selected_units r = if selected_call r then units_spent (spending r) else 0

  unfoldable pub review_rows : Store → List Row → Result Store
  review_rows = fold_ok (review_row digest time p now)

  observe_session-Extends :
      (r : Row) (t n : ℕ) (k : Option Rejection) (s : Store) {z : Store}
      → n + 1 < word
      → IsAccounted n s
      → observe_session digest time p now r t k (count_selected r k s) ≡ ok z
      → Extends n r k s z
  unfolding observe_session
  observe_session-Extends r t n k s w v h =
      let (q, hq, h1) = >>=-eq-ok (observe_tokens r k (count_selected r k s)) _ h in
      let u = observe_tokens-Raised r k s _ (count_selected-Raised r k n s w v) hq in
      if-eq (is_empty (value r session_id)) _ _
        (λ e. subst (Extends n r k s) (ok-injective e) (add_unattributed-Extends r k n s q.0 w v u))
        (λ e. add_session-Extends digest r k n q.1 t s q.0 w v u e) h1

  -- What a row adds to the store.
  record Adds (n : ℕ) (r : Row) (s t : Store) : Type 0 where
    accounted : IsAccounted (n + 1) t
    selected : t.selected_rows ≡ s.selected_rows + flag (is_selected r)
    calls : t.model_calls ≡ s.model_calls + flag (selected_call r)
    spend : spend_total t ≡ spend_total s + selected_units r

  select_row-Adds :
      (r : Row) (t n : ℕ) (s : Store) {z : Store}
      → is_selected r ≡ true
      → n + 1 < word
      → IsAccounted n s
      → select_row digest time p now r t s ≡ ok z
      → Adds n r s z
  unfolding select_row selected_call selected_units units_of
  select_row-Adds r t n s {z} c w v h =
      let (k, hk, h1) = >>=-eq-ok (rejection_of r) _ h in
      let (x, hx, h2) = >>=-eq-ok (check_end digest time p now r t k) _ h1 in
      let e = observe_session-Extends r t n k s w v h2 in
      let same : is_analyzed r k ≡ is_call r = rejection_of-is_analyzed r hk in
      record {
        accounted = e.accounted;
        selected = rw c e.one_selected;
        calls = rw c (e.more_calls ∙ ap (λ b. s.model_calls + flag b) same);
        spend =
            rw c (
              e.spend ∙ ap (λ b. spend_total s + (if b then units_spent (spending r) else 0)) same);
      }

  skipped-Adds :
      (r : Row) (n : ℕ) (s : Store) → is_selected r ≡ false → IsAccounted n s → Adds n r s s
  unfolding selected_call selected_units
  skipped-Adds r n s c v = record {
    accounted = record {
      attributed = v.attributed;
      agents = v.agents;
      called = v.called;
      analyzed = v.analyzed;
      selected = omega (arith, v.selected);
      tracked = v.tracked;
      few_sessions = omega (arith, v.few_sessions);
    };
    selected = rw c (omega arith);
    calls = rw c (omega arith);
    spend = rw c (omega arith);
  }

  started : Store → Row → Store
  started s r = record s {
    rows = add64 s.rows 1;
    seen = add_digest s.seen (digest (value r request_id));
  }

  started-IsAccounted :
      (n : ℕ) (s : Store) (r : Row) → IsAccounted n s → IsAccounted n (started s r)
  unfolding started
  started-IsAccounted n s r v = record {
    attributed = v.attributed;
    agents = v.agents;
    called = v.called;
    analyzed = v.analyzed;
    selected = v.selected;
    tracked = v.tracked;
    few_sessions = v.few_sessions;
  }

  at_time-Adds :
      (r : Row) (n : ℕ) (o : Option ℕ) (s : Store) {z : Store}
      → n + 1 < word
      → time (value r start_time) ≡ o
      → IsAccounted n s
      → at_time digest time p now r o s ≡ ok z
      → Adds n r s z
  unfolding at_time is_selected chosen
  at_time-Adds r n none s w q v h = err-ne-ok h
  at_time-Adds r n (some t) s {z} w q v h = elim (Bool-cases (within p t)) [
    | inl e ↦
        select_row-Adds r t n s (ap chosen q ∙ e) w v
          (subst (λ b. (if b then select_row digest time p now r t s else ok s) ≡ ok z) e h)
    | inr e ↦
        subst (Adds n r s)
          (ok-injective
            (subst (λ b. (if b then select_row digest time p now r t s else ok s) ≡ ok z) e h))
          (skipped-Adds r n s (ap chosen q ∙ e) v)
  ]

  review_row-Adds :
      (r : Row) (n : ℕ) (s : Store) {z : Store}
      → n + 1 < word
      → IsAccounted n s
      → review_row digest time p now s r ≡ ok z
      → Adds n r s z
  unfolding review_row started
  review_row-Adds r n s {z} w v h =
      if-eq (is_empty (value r request_id)) _ _ (λ e. err-ne-ok e)
        (λ e.
          let a =
            at_time-Adds r n (time (value r start_time)) (started s r) w refl
              (started-IsAccounted n s r v) e in
          record {
            accounted = a.accounted;
            selected = a.selected;
            calls = a.calls;
            spend = a.spend;
          })
        h

  -- What the rows of a file come to.
  pub record IsReviewed (rs : List Row) (s : Store) : Type 0 where
    pub accounted : IsAccounted (length rs) s
    pub selected_once : s.selected_rows ≡ sum_by (λ r. flag (is_selected r)) rs
    pub calls_once : s.model_calls ≡ sum_by (λ r. flag (selected_call r)) rs
    pub spend_once : spend_total s ≡ sum_by selected_units rs

  review_rows-Adds :
      (rs : List Row) (n : ℕ) (s : Store) {z : Store}
      → n + length rs < word
      → IsAccounted n s
      → review_rows s rs ≡ ok z
      → IsAccounted (n + length rs) z
        × (z.selected_rows ≡ s.selected_rows + sum_by (λ r. flag (is_selected r)) rs)
        × (z.model_calls ≡ s.model_calls + sum_by (λ r. flag (selected_call r)) rs)
        × (spend_total z ≡ spend_total s + sum_by selected_units rs)
  unfolding review_rows
  review_rows-Adds [] n s {z} w v h =
      let same : s ≡ z = ok-injective h in
      (
        subst (λ m. IsAccounted m z) (omega arith) (subst (IsAccounted n) same v),
        omega (arith, ap (λ (x : Store). x.selected_rows) same),
        omega (arith, ap (λ (x : Store). x.model_calls) same),
        omega (arith, ap spend_total same),
      )
  review_rows-Adds (r ∷ rs) n s {z} w v h =
      let (t, first, rest) = >>=-eq-ok (review_row digest time p now s r) _ h in
      let a = review_row-Adds r n s (omega arith) v first in
      let (b, c, d, e) = review_rows-Adds rs (n + 1) t (omega arith) a.accounted rest in
      (
        subst (λ m. IsAccounted m z) (omega arith) b,
        omega (arith, a.selected),
        omega (arith, a.calls),
        omega (arith, a.spend),
      )

  -- After the second reading of a file that is accepted, every row that starts in the period is counted once, in its
  -- session or among the rows without one; the calls of the sessions and of the rows without one are the rows that report a
  -- model call; the spend of the sessions and of these rows is the exact sum of what the calls record; and a session says
  -- that its spend is complete exactly when no row of it lacks one. There are fewer rows than a `uint64` counts.
  pub review_rows-IsReviewed :
      (rs : List Row) {s : Store}
      → length rs < word
      → review_rows new_store rs ≡ ok s
      → IsReviewed rs s
  unfolding new_store
  review_rows-IsReviewed rs {s} w h =
      let fresh : IsAccounted 0 new_store = record {
        attributed = refl;
        agents = refl;
        called = refl;
        analyzed = omega arith;
        selected = omega arith;
        tracked = tt;
        few_sessions = omega arith;
      } in
      let (a, b, c, d) = review_rows-Adds rs 0 new_store (omega arith) fresh h in
      record {
        accounted = subst (λ m. IsAccounted m s) (omega arith) a;
        selected_once = omega (arith, b);
        calls_once = omega (arith, c);
        spend_once = omega (arith, d);
      }
