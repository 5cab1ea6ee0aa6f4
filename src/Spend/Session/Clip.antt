-- ===== src/Spend/Session/Clip.antt =====
-- internal/spend/session.go: the third reading of `ReviewSessions`, which marks the sessions that have rows outside the
-- period, and the marks of those that may have.
use fleetdiff.Base.{
  ℕ, ◌-◌, ◌≡◌, refl, ◌∙◌, Bool, true, false, ◌&&◌, ◌||◌, not, Option, none, some, List, [], ◌∷◌,
  map, ltb, leb, ◌==◌, if◌then◌else◌, Result, ok, err, sum_by, fold_ok, bad_timestamp, arith, subst,
  ok-injective, err-ne-ok, if-eq, >>=-eq-ok,
}
use fleetdiff.Text.{Text, is_empty}
use fleetdiff.Spend.Row.{Row, value, start_time, session_id}
use fleetdiff.Spend.Period.{Period, within}
use fleetdiff.Spend.Session.Store.{SessionState}
use fleetdiff.Spend.Session.Step.{session_digest}

unfoldable pub clip_session : ℕ → List SessionState → List SessionState
clip_session id [] = []
clip_session id (s ∷ ss) =
    let rest = clip_session id ss in
    if s.id == id then record s { clipped = true } ∷ ss else s ∷ rest

module _ (digest : Text → ℕ) (time : Text → Option ℕ) (p : Period) where
  clip_at : Row → Option ℕ → List SessionState → Result (List SessionState)
  clip_at r none ss = err bad_timestamp
  clip_at r (some t) ss =
      if not (within p t) && not (is_empty (value r session_id))
      then ok (clip_session (session_digest digest r) ss)
      else ok ss

  unfoldable pub clip_row : List SessionState → Row → Result (List SessionState)
  unfolding clip_at
  clip_row ss r = clip_at r (time (value r start_time)) ss

  -- The third reading, where the file starts before the period or does not end in it.
  unfoldable pub clip_rows : ℕ → ℕ → List Row → List SessionState → Result (List SessionState)
  clip_rows first last rs ss =
      let read = fold_ok clip_row ss rs in
      if ltb first p.start || not (ltb last p.stop) then read else ok ss

-- Whether a session was active so near to an end of the period, where the file ends too, that it may go on beyond.
starts_near : Period → ℕ → ℕ → Option ℕ → Bool
starts_near p window first none = false
starts_near p window first (some t) = not (ltb first p.start) && leb (t - p.start) window

ends_near : Period → ℕ → ℕ → Option ℕ → Bool
ends_near p window last none = false
ends_near p window last (some t) = ltb last p.stop && leb (p.stop - t) window

mark_possible : Period → ℕ → ℕ → ℕ → SessionState → SessionState
unfolding starts_near ends_near
mark_possible p window first last s = record s {
  possibly_clipped =
      not s.clipped
      && (starts_near p window first s.first_activity || ends_near p window last s.last_activity);
}

unfoldable pub mark_sessions : Period → ℕ → ℕ → ℕ → List SessionState → List SessionState
unfolding mark_possible
mark_sessions p window first last ss = map (mark_possible p window first last) ss

-- The marks keep every count of the sessions that does not read them.
module _ (f : SessionState → ℕ)
    (same : (s : SessionState) (c d : Bool)
      → f (record s { clipped = c; possibly_clipped = d }) ≡ f s) where
  sum_by-clip_session :
      (id : ℕ) (ss : List SessionState) → sum_by f (clip_session id ss) ≡ sum_by f ss
  unfolding clip_session
  sum_by-clip_session id [] = refl
  sum_by-clip_session id (s ∷ ss) =
      ground (arith, sum_by-clip_session id ss, same s true s.possibly_clipped)

  pub sum_by-mark_sessions :
      (p : Period) (window first last : ℕ) (ss : List SessionState)
      → sum_by f (mark_sessions p window first last ss) ≡ sum_by f ss
  unfolding mark_sessions mark_possible
  sum_by-mark_sessions p window first last [] = refl
  sum_by-mark_sessions p window first last (s ∷ ss) = omega (
    arith,
    same s s.clipped (mark_possible p window first last s).possibly_clipped,
    sum_by-mark_sessions p window first last ss,
  )

  module _ (digest : Text → ℕ) (time : Text → Option ℕ) (p : Period) where
    sum_by-clip_at :
        (r : Row) (o : Option ℕ) (ss : List SessionState) {ts : List SessionState}
        → clip_at digest time p r o ss ≡ ok ts
        → sum_by f ts ≡ sum_by f ss
    unfolding clip_at
    sum_by-clip_at r none ss h = err-ne-ok h
    sum_by-clip_at r (some t) ss h =
        if-eq (not (within p t) && not (is_empty (value r session_id))) _ _
          (λ e.
            subst (λ (ts : List SessionState). sum_by f ts ≡ sum_by f ss) (ok-injective e)
              (sum_by-clip_session (session_digest digest r) ss))
          (λ e. subst (λ (ts : List SessionState). sum_by f ts ≡ sum_by f ss) (ok-injective e) refl)
          h

    clipped_all :
        (rs : List Row) (ss : List SessionState) {ts : List SessionState}
        → fold_ok (clip_row digest time p) ss rs ≡ ok ts
        → sum_by f ts ≡ sum_by f ss
    unfolding clip_row
    clipped_all [] ss h =
        subst (λ (ts : List SessionState). sum_by f ts ≡ sum_by f ss) (ok-injective h) refl
    clipped_all (r ∷ rs) ss h =
        let (us, first, rest) = >>=-eq-ok (clip_row digest time p ss r) _ h in
        clipped_all rs us rest ∙ sum_by-clip_at r (time (value r start_time)) ss first

    pub sum_by-clip_rows :
        (first last : ℕ) (rs : List Row) (ss : List SessionState) {ts : List SessionState}
        → clip_rows digest time p first last rs ss ≡ ok ts
        → sum_by f ts ≡ sum_by f ss
    unfolding clip_rows
    sum_by-clip_rows first last rs ss h =
        if-eq (ltb first p.start || not (ltb last p.stop)) _ _ (clipped_all rs ss)
          (λ e. subst (λ (ts : List SessionState). sum_by f ts ≡ sum_by f ss) (ok-injective e) refl)
          h
