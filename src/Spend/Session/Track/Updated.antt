-- ===== src/Spend/Session/Track/Updated.antt =====
-- internal/spend/session.go: the sums over all sessions, when a row changes one of them or makes a new one.
use fleetdiff.Base.{
  ℕ, ◌+◌, ◌≤◌, ◌≡◌, subst, List, [], ◌∷◌, ◌==◌, arith, All, Result, ok, >>=-eq-ok, ok-injective,
  if-eq, sum_by, length,
}
use fleetdiff.Spend.Session.Store.{SessionState}
use fleetdiff.Spend.Session.Track.{update_states}

-- The sum of a count over all sessions, after one of them has changed or is new.
module _ (P Q : SessionState → Type 0) (weak : (x : SessionState) → P x → Q x)
    (f : SessionState → ℕ) (d : ℕ) (new : SessionState) (step : SessionState → Result SessionState)
    (good : (x y : SessionState) → P x → step x ≡ ok y → (f y ≡ f x + d) × Q y) where
  pub update_states-sum :
      (xs : List SessionState) {ys : List SessionState}
      → f new ≡ 0
      → P new
      → All P xs
      → update_states new step xs ≡ ok ys
      → (sum_by f ys ≡ sum_by f xs + d) × All Q ys
  unfolding update_states
  update_states-sum [] {ys} z p v h =
      let (y, hy, h1) = >>=-eq-ok (step new) _ h in
      let (a, b) = good new y p hy in
      subst (λ ys. (sum_by f ys ≡ 0 + d) × All Q ys) (ok-injective h1) (omega arith, (b, tt))
  update_states-sum (x ∷ xs) {ys} z p v h =
      if-eq (x.id == new.id) _ _
        (λ e.
          let (y, hy, h1) = >>=-eq-ok (step x) _ e in
          let (a, b) = good x y v.0 hy in
          subst (λ ys. (sum_by f ys ≡ f x + sum_by f xs + d) × All Q ys) (ok-injective h1)
            (omega arith, (b, all_weak xs v.1)))
        (λ e.
          let (zs, hz, h1) = >>=-eq-ok (update_states new step xs) _ e in
          let (a, b) = update_states-sum xs z p v.1 hz in
          subst (λ ys. (sum_by f ys ≡ f x + sum_by f xs + d) × All Q ys) (ok-injective h1)
            (omega arith, (weak x v.0, b)))
        h
    where
      all_weak : (xs : List SessionState) → All P xs → All Q xs
      all_weak [] v = tt
      all_weak (x ∷ xs) v = (weak x v.0, all_weak xs v.1)

pub update_states-length :
    (new : SessionState) (step : SessionState → Result SessionState) (xs : List SessionState)
    {ys : List SessionState}
    → update_states new step xs ≡ ok ys
    → length ys ≤ length xs + 1
unfolding update_states
update_states-length new step [] h =
    let (y, hy, h1) = >>=-eq-ok (step new) _ h in
    subst (λ (ys : List SessionState). length ys ≤ 0 + 1) (ok-injective h1) (omega arith)
update_states-length new step (x ∷ xs) h =
    if-eq (x.id == new.id) _ _
      (λ e.
        let (y, hy, h1) = >>=-eq-ok (step x) _ e in
        subst (λ (ys : List SessionState). length ys ≤ length (x ∷ xs) + 1) (ok-injective h1)
          (omega arith))
      (λ e.
        let (zs, hz, h1) = >>=-eq-ok (update_states new step xs) _ e in
        subst (λ (ys : List SessionState). length ys ≤ length (x ∷ xs) + 1) (ok-injective h1)
          (omega (arith, update_states-length new step xs hz)))
      h
