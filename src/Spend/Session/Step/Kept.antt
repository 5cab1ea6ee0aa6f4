-- ===== src/Spend/Session/Step/Kept.antt =====
-- internal/spend/session.go: the rows and the request digests that the second reading of `ReviewSessions` counts.
use fleetdiff.Base.{
  ℕ, ◌+◌, ◌<◌, ◌≡◌, refl, sym, ap, ◌∙◌, subst, Option, none, some, List, [], ◌∷◌, map, arith, ok,
  >>=-eq-ok, ok-injective, if-cases, err-ne-ok, fold_ok, add64, add64-eq, word, length, Bool-cases,
  inl, inr,
}
use fleetdiff.Text.{Text, is_empty}
use fleetdiff.Accounting.Names.{total_tokens_total}
use fleetdiff.Accounting.Number.{add_bounded}
use fleetdiff.Accounting.Tokens.{tokens}
use fleetdiff.Spend.Row.{Row, value, session_id, start_time, request_id}
use fleetdiff.Spend.Usage.{attributes}
use fleetdiff.Spend.Aggregate.{Spending, no_spend, bad_spend, spent, spending}
use fleetdiff.Spend.Period.{Period, within}
use fleetdiff.Spend.Digests.{add_digest}
use fleetdiff.Spend.Digests.Listed.{add_digests}
use fleetdiff.Spend.Session.Store.{Rejection, Store, new_session, new_store}
use fleetdiff.Spend.Session.Track.{
  is_analyzed, rejection_of, check_sessions, update_states, session_row, touched,
}
use fleetdiff.Spend.Session.Step.{
  count_selected, add_observation, observe_tokens, unattributed_amount, add_unattributed,
  session_digest, join_all, add_session, observe_session, select_row, review_row, check_end,
  at_time,
}

-- The rows and the digests stay.
record IsKept (s z : Store) : Type 0 where
  rows : z.rows ≡ s.rows
  seen : z.seen ≡ s.seen

IsKept-same : (s : Store) → IsKept s s
IsKept-same s = record { rows = refl; seen = refl }

unattributed_amount-IsKept : (a : Spending) (s : Store) → IsKept s (unattributed_amount a s)
unfolding unattributed_amount
unattributed_amount-IsKept no_spend s = record { rows = refl; seen = refl }
unattributed_amount-IsKept bad_spend s = record { rows = refl; seen = refl }
unattributed_amount-IsKept (spent u) s = record { rows = refl; seen = refl }

add_unattributed-IsKept :
    (r : Row) (k : Option Rejection) (s : Store) → IsKept s (add_unattributed r k s)
unfolding add_unattributed
add_unattributed-IsKept r k s = elim (Bool-cases (is_analyzed r k)) [
  | inl e ↦
      let i =
        unattributed_amount-IsKept (spending r)
          (record s { unattributed_rows = add64 s.unattributed_rows 1 }) in
      rw e (record { rows = i.rows; seen = i.seen })
  | inr e ↦ rw e (record { rows = refl; seen = refl })
]

observe_tokens-IsKept :
    (r : Row) (k : Option Rejection) (s : Store) {q : Store × ℕ}
    → observe_tokens r k s ≡ ok q
    → IsKept s q.0
unfolding observe_tokens add_observation
observe_tokens-IsKept r k s h =
    if-cases (is_analyzed r k) _ _
      (λ c g.
        let (o, _, h1) = >>=-eq-ok (tokens (attributes r)) _ g in
        let (n, _, h2) =
          >>=-eq-ok (add_bounded s.recorded_tokens (o.metric total_tokens_total)) _ h1 in
        subst (λ (q : Store × ℕ). IsKept s q.0) (ok-injective h2)
          (record { rows = refl; seen = refl }))
      (λ c g. subst (λ (q : Store × ℕ). IsKept s q.0) (ok-injective g) (IsKept-same s)) h

module _ (digest : Text → ℕ) where
  add_session-IsKept :
      (r : Row) (t : ℕ) (k : Option Rejection) (n : ℕ) (s : Store) {z : Store}
      → add_session digest r t k n s ≡ ok z
      → IsKept s z
  unfolding add_session
  add_session-IsKept r t k n s h =
      let (_, _, h1) = >>=-eq-ok (check_sessions (session_digest digest r) s.states) _ h in
      let (j, _, h2) = >>=-eq-ok (join_all digest r (session_digest digest r) s.members) _ h1 in
      let (ss, _, h3) =
        >>=-eq-ok
          (update_states (new_session (session_digest digest r) r.row_number)
            (λ x. session_row r t k n (touched r t j.1 x)) s.states)
          _ h2 in
      subst (IsKept s) (ok-injective h3) (record { rows = refl; seen = refl })

  module _ (time : Text → Option ℕ) (p : Period) (now : ℕ) where
    observe_session-IsKept :
        (r : Row) (t : ℕ) (k : Option Rejection) (s : Store) {z : Store}
        → observe_session digest time p now r t k s ≡ ok z
        → IsKept s z
    unfolding observe_session
    observe_session-IsKept r t k s {z} h =
        let (q, hq, h1) = >>=-eq-ok (observe_tokens r k s) _ h in
        let i = observe_tokens-IsKept r k s hq in
        let j : IsKept q.0 z =
          if-cases (is_empty (value r session_id)) _ _
            (λ c g. subst (IsKept q.0) (ok-injective g) (add_unattributed-IsKept r k q.0))
            (λ c g. add_session-IsKept r t k q.1 q.0 g) h1 in
        record { rows = j.rows ∙ i.rows; seen = j.seen ∙ i.seen }

    select_row-IsKept :
        (r : Row) (t : ℕ) (s : Store) {z : Store}
        → select_row digest time p now r t s ≡ ok z
        → IsKept s z
    unfolding select_row count_selected
    select_row-IsKept r t s h =
        let (k, _, h1) = >>=-eq-ok (rejection_of r) _ h in
        let (_, _, h2) = >>=-eq-ok (check_end digest time p now r t k) _ h1 in
        let i = observe_session-IsKept r t k (count_selected r k s) h2 in
        record { rows = i.rows; seen = i.seen }

    at_time-IsKept :
        (r : Row) (o : Option ℕ) (s : Store) {z : Store}
        → at_time digest time p now r o s ≡ ok z
        → IsKept s z
    unfolding at_time
    at_time-IsKept r none s h = err-ne-ok h
    at_time-IsKept r (some t) s {z} h =
        if-cases (within p t) _ _ (λ c g. select_row-IsKept r t s g)
          (λ c g. subst (IsKept s) (ok-injective g) (IsKept-same s)) h

    -- One more row, with its digest.
    pub record IsCounted (r : Row) (s z : Store) : Type 0 where
      pub rows : z.rows ≡ add64 s.rows 1
      pub seen : z.seen ≡ add_digest s.seen (digest (value r request_id))

    review_row-IsCounted :
        (r : Row) (s : Store) {z : Store}
        → review_row digest time p now s r ≡ ok z
        → IsCounted r s z
    unfolding review_row
    review_row-IsCounted r s h =
        if-cases (is_empty (value r request_id)) _ _ (λ c g. err-ne-ok g)
          (λ c g.
            let i =
              at_time-IsKept r (time (value r start_time))
                (record s {
                  rows = add64 s.rows 1;
                  seen = add_digest s.seen (digest (value r request_id));
                })
                g in
            record { rows = i.rows; seen = i.seen })
          h

    -- All rows of a file, in their order.
    pub review_rows-seen :
        (rs : List Row) (s : Store) {z : Store}
        → s.rows + length rs < word
        → fold_ok (review_row digest time p now) s rs ≡ ok z
        → (z.rows ≡ s.rows + length rs)
          × (z.seen ≡ add_digests s.seen (map (λ r. digest (value r request_id)) rs))
    unfolding add_digests
    review_rows-seen [] s w h =
        let q = ok-injective h in
        (omega (arith, ap (λ (x : Store). x.rows) q), sym (ap (λ (x : Store). x.seen) q))
    review_rows-seen (r ∷ rs) s w h =
        let (u, first, rest) = >>=-eq-ok (review_row digest time p now s r) _ h in
        let i = review_row-IsCounted r s first in
        let one = i.rows ∙ add64-eq s.rows 1 (omega (arith, w)) in
        let (n, d) = review_rows-seen rs u (omega (arith, w, one)) rest in
        (
          omega (arith, n, one),
          d ∙ ap (λ x. add_digests x (map (λ r. digest (value r request_id)) rs)) i.seen,
        )

    -- The same from an empty store.
    pub review_all-seen :
        (rs : List Row) {z : Store}
        → length rs < word
        → fold_ok (review_row digest time p now) new_store rs ≡ ok z
        → (z.rows ≡ length rs)
          × (z.seen ≡ add_digests [] (map (λ r. digest (value r request_id)) rs))
    unfolding new_store
    review_all-seen rs w h =
        let (n, d) = review_rows-seen rs new_store (omega (arith, w)) h in (omega (arith, n), d)
