-- ===== src/Spend/Session/Review/Sound.antt =====
-- internal/spend/session.go: what `ReviewSessions` returns, from its options and the rows of a file to the report.
use fleetdiff.Base.{
  ℕ, ◌≤◌, ◌<◌, ◌≡◌, refl, sym, ap, map, ◌∙◌, Bool, Option, none, some, List, [], ◌∷◌, length,
  sum_by, ok, >>=-eq-ok, ok-injective, if-cases, err-ne-ok, fold_ok, arith, subst, word,
}
use fleetdiff.Text.{Text}
use fleetdiff.Spend.Row.{Row, value, start_time, request_id}
use fleetdiff.Spend.Period.{Time, timestamp}
use fleetdiff.Spend.Digests.{duplicated}
use fleetdiff.Spend.Digests.Listed.{occurrences, add_digests, add_digests-IsListed}
use fleetdiff.Spend.Session.Store.{SessionState, new_store}
use fleetdiff.Spend.Session.Window.{session_period, IsOver, IsSpan, session_period-IsOver}
use fleetdiff.Spend.Session.Step.Kept.{review_all-seen}
use fleetdiff.Spend.Session.Step.Reviewed.{review_rows, IsReviewed, review_rows-IsReviewed}
use fleetdiff.Spend.Session.Clip.{clip_rows, mark_sessions, sum_by-clip_rows, sum_by-mark_sessions}
use fleetdiff.Spend.Session.Report.Counted.{length_by, IsFinished, finish_sessions-IsFinished}
use fleetdiff.Spend.Session.Review.{
  SessionOptions, Review, review_sessions, read_span, first_row, widen, check_top,
  counter_window_of, cap_of, check_store, shown_of, first_of, last_of,
}

widen-IsSpan : (o : Option (ℕ × ℕ)) (t : ℕ) → IsSpan o → IsSpan (widen o t)
unfolding widen
widen-IsSpan none t h = omega arith
widen-IsSpan (some (a, b)) t h = ground (arith, h)

first_row-IsSpan :
    (o : Option (ℕ × ℕ)) (t : Option ℕ) {u : Option (ℕ × ℕ)}
    → IsSpan o
    → first_row o t ≡ ok u
    → IsSpan u
unfolding first_row
first_row-IsSpan o none v h = err-ne-ok h
first_row-IsSpan o (some t) v h = subst IsSpan (ok-injective h) (widen-IsSpan o t v)

below_word : (a b n : ℕ) → a ≡ b → b ≤ n → n < word → a < word
below_word a b n e l w = omega (arith, e, l, w)

module _ (digest : Text → ℕ) (rfc3339 date : Text → Option Time) (longer : ℕ → ℕ → Bool) where
  fold_rows-IsSpan :
      (rs : List Row) (o : Option (ℕ × ℕ)) {u : Option (ℕ × ℕ)}
      → IsSpan o
      → fold_ok (λ o r. first_row o (timestamp rfc3339 date (value r start_time))) o rs ≡ ok u
      → IsSpan u
  fold_rows-IsSpan [] o v h = subst IsSpan (ok-injective h) v
  fold_rows-IsSpan (r ∷ rs) o v h =
      let (u, first, rest) =
        >>=-eq-ok (first_row o (timestamp rfc3339 date (value r start_time))) _ h in
      fold_rows-IsSpan rs u
        (first_row-IsSpan o (timestamp rfc3339 date (value r start_time)) v first) rest

  -- The request digests of the rows.
  abbrev pub requests : List Row → List ℕ
  requests rs = map (λ r. digest (value r request_id)) rs

  -- What a review stands on: its period is over, every row has been counted once, the digest of no request
  -- occurs twice among the rows, the
  -- marks of clipped sessions change no count, and the report is one of these sessions.
  pub record IsSound (o : SessionOptions) (rs : List Row) (v : Review) : Type 0 where
    pub over : IsOver o.now v.period
    pub reviewed : IsReviewed digest (timestamp rfc3339 date) v.period o.now rs v.store
    pub rows_once : v.store.rows ≡ length rs
    pub digests : v.store.seen ≡ add_digests [] (requests rs)
    pub unique : (k : ℕ) → occurrences k (requests rs) ≤ 1
    pub calls_kept : sum_by (λ x. x.calls) v.states ≡ sum_by (λ x. x.calls) v.store.states
    pub spend_kept : sum_by (λ x. x.cost) v.states ≡ sum_by (λ x. x.cost) v.store.states
    pub finished :
        (cap : Option ℕ) × (window : ℕ) × (cap_of o.budget_usd ≡ ok cap)
        × (counter_window_of o.counter_window ≡ ok window)
        × IsFinished (shown_of digest rfc3339 date longer o cap window) v.states v.finished

  -- Where a review returns, whatever the options and the rows: its period is over; every row has been counted, those in
  -- the period and their calls and spend as their sums; no digest of a request occurs twice among the rows; the marks of
  -- clipped sessions change no calls and no spend; and the report is that of these sessions, with the limit, the budget and
  -- the counter window of the options. There are fewer rows than a `uint64` counts.
  pub review_sessions-IsSound :
      (o : SessionOptions) (rs : List Row) {v : Review}
      → length rs < word
      → review_sessions digest rfc3339 date longer o rs ≡ ok v
      → IsSound o rs v
  unfolding review_sessions read_span check_store shown_of review_rows
  review_sessions-IsSound o rs {v} w h =
      let time = timestamp rfc3339 date in
      let (_, _, h1) = >>=-eq-ok (check_top o.top) _ h in
      let (window, hw, h2) = >>=-eq-ok (counter_window_of o.counter_window) _ h1 in
      let (cap, hcap, h3) = >>=-eq-ok (cap_of o.budget_usd) _ h2 in
      let (span, hs, h4) = >>=-eq-ok (read_span digest rfc3339 date longer rs) _ h3 in
      let (p, hp, h5) = >>=-eq-ok (session_period rfc3339 date o.period o.now span) _ h4 in
      let (s, hr, h6) = >>=-eq-ok (review_rows digest time p o.now new_store rs) _ h5 in
      let (_, hc, h7) = >>=-eq-ok (check_store s) _ h6 in
      let (clipped, hk, h8) =
        >>=-eq-ok (clip_rows digest time p (first_of span) (last_of span) rs s.states) _ h7 in
      let marked = mark_sessions p window (first_of span) (last_of span) clipped in
      let kept : (f : SessionState → ℕ)
          → ((x : SessionState) (c d : Bool)
              → f (record x { clipped = c; possibly_clipped = d }) ≡ f x)
          → sum_by f marked ≡ sum_by f s.states =
        λ f same.
          sum_by-mark_sessions f same p window (first_of span) (last_of span) clipped
          ∙ sum_by-clip_rows f same digest time p (first_of span) (last_of span) rs s.states hk in
      let r = review_rows-IsReviewed digest time p o.now rs w hr in
      let counted = review_all-seen digest time p o.now rs w hr in
      let few =
        below_word _ _ _
          (length_by marked ∙ kept (λ _. 1) (λ x c d. refl) ∙ sym (length_by s.states))
          r.accounted.few_sessions w in
      let x = shown_of digest rfc3339 date longer o cap window in
      subst (IsSound o rs) (ok-injective h8) (record {
        over =
            session_period-IsOver rfc3339 date o.period o.now span (fold_rows-IsSpan rs none tt hs)
              hp;
        reviewed = r;
        rows_once = counted.0;
        digests = counted.1;
        unique = (add_digests-IsListed (requests rs)).once (
            sym (ap duplicated counted.1)
            ∙ if-cases (duplicated s.seen) _ _ (λ c e. err-ne-ok e) (λ c e. c) hc);
        calls_kept = kept (λ x. x.calls) (λ x c d. refl);
        spend_kept = kept (λ x. x.cost) (λ x c d. refl);
        finished = (cap, window, hcap, hw, finish_sessions-IsFinished x s marked few);
      })
