-- ===== src/Spend/Session/Report/Counted.antt =====
-- internal/spend/session.go: what `finishSessions` counts, and which sessions it lists as the largest.
use fleetdiff.Base.{
  ℕ, zero, suc, ◌+◌, ◌≤◌, ◌<◌, ◌≡◌, refl, sym, ap, ◌∙◌, subst, Bool, true, false, List, [], ◌∷◌,
  ◌++◌, map, ltb, arith, add64, word, if◌then◌else◌, Bool-cases, inl, inr, flag, length, keep, take,
  sort, sum_by, sum_by-sort, length-append, IsSorted, sort-IsSorted,
}
use mathlib.Core.List.{append_assoc}
use fleetdiff.Spend.Session.Store.{SessionState, Store}
use fleetdiff.Spend.Session.Report.{
  Shown, Session, Report, Finished, report_session, report_sessions, has_calls, over_cap, list_if,
  session_precedes, finish_sessions, listed, no_report, counts_absence,
}

take_enough : {A : Type 0} (n : ℕ) (xs ys : List A) → n ≤ length xs → take n (xs ++ ys) ≡ take n xs
take_enough zero xs ys h = refl
take_enough (suc n) [] ys h = let q : true ≡ false = ground (arith, h) in cc
take_enough (suc n) (x ∷ xs) ys h = ap (λ zs. x ∷ zs) (take_enough n xs ys (omega (arith, h)))

map-append : {A B : Type 0} (f : A → B) (xs ys : List A) → map f (xs ++ ys) ≡ map f xs ++ map f ys
map-append f [] ys = refl
map-append f (x ∷ xs) ys = ap (λ l. f x ∷ l) (map-append f xs ys)

length-map : {A B : Type 0} (f : A → B) (xs : List A) → length (map f xs) ≡ length xs
length-map f [] = refl
length-map f (x ∷ xs) = omega (arith, length-map f xs)

states_of : List Session → List SessionState
states_of = map (λ x. x.state)

-- Listing an element keeps the list the first of those met so far, and of those to come.
list_if-take :
    (top : ℕ) (c : Bool) (l : List Session) (x : Session) (rest : List SessionState)
    → length l ≤ top
    → take top (states_of (list_if top c l x) ++ rest)
      ≡ take top (states_of l ++ (if c then x.state ∷ rest else rest))
unfolding states_of
list_if-take top false l x rest h = refl
list_if-take top true l x rest h = elim (Bool-cases (ltb (length l) top)) [
  | inl e ↦ rw e (
      ap (take top) (
        ap (λ m. m ++ rest) (map-append (λ x. x.state) l (x ∷ []))
        ∙ append_assoc (states_of l) (x.state ∷ []) rest))
  | inr e ↦
      let full : top ≤ length (states_of l) =
        ground (arith, e, length-map (λ (x : Session). x.state) l) in
      rw e (
        take_enough top (states_of l) rest full
        ∙ sym (take_enough top (states_of l) (x.state ∷ rest) full))
]

list_if-le :
    (top : ℕ) (c : Bool) (l : List Session) (x : Session)
    → length l ≤ top
    → length (list_if top c l x) ≤ top
list_if-le top false l x h = h
list_if-le top true l x h = elim (Bool-cases (ltb (length l) top)) [
  | inl e ↦ rw e (ground (arith, e, length-append l (x ∷ [])))
  | inr e ↦ rw e h
]

take_all : {A : Type 0} (n : ℕ) (xs : List A) → length xs ≤ n → take n (xs ++ []) ≡ xs
take_all zero [] h = refl
take_all (suc n) [] h = refl
take_all zero (x ∷ xs) h = let q : true ≡ false = ground (arith, h) in cc
take_all (suc n) (x ∷ xs) h = ap (λ l. x ∷ l) (take_all n xs (omega (arith, h)))

-- The sessions that have been put in one of the three classes, and those over the cap.
abbrev pub classed : Report → ℕ
classed r = r.sessions + r.rejection_only + r.unanalyzed_only

abbrev pub over : Report → ℕ
over r = r.exceeding + r.partial_exceeding

abbrev pub is_over : Shown → SessionState → Bool
is_over o s = over_cap o.cap s.cost

-- What the loop over some sessions does to a report.
record Counts (o : Shown) (ss : List SessionState) (r t : Report) : Type 0 where
  all_classed : classed t ≡ classed r + length ss
  with_calls : t.sessions ≡ r.sessions + length (keep has_calls ss)
  all_over : over t ≡ over r + length (keep (is_over o) ss)
  first_listed : states_of t.largest ≡ take o.top (states_of r.largest ++ keep has_calls ss)

report_session-Counts :
    (o : Shown) (i : ℕ) (s : SessionState) (r : Report)
    → classed r + 1 < word
    → over r + 1 < word
    → (classed (report_session o i s r) ≡ classed r + 1)
      × ((report_session o i s r).sessions ≡ r.sessions + flag (has_calls s))
      × (over (report_session o i s r) ≡ over r + flag (is_over o s))
unfolding report_session add64
report_session-Counts o i s r a b = (ground arith, ground arith, ground arith)

largest-report_session :
    (o : Shown) (i : ℕ) (s : SessionState) (r : Report)
    → (report_session o i s r).largest ≡ list_if o.top (has_calls s) r.largest (listed o i s)
unfolding report_session
largest-report_session o i s r = refl

state-listed : (o : Shown) (i : ℕ) (s : SessionState) → (listed o i s).state ≡ s
unfolding listed
state-listed o i s = refl

report_sessions-Counts :
    (o : Shown) (i : ℕ) (ss : List SessionState) (r : Report)
    → classed r + length ss < word
    → over r + length ss < word
    → length r.largest ≤ o.top
    → Counts o ss r (report_sessions o i ss r)
unfolding report_sessions states_of
report_sessions-Counts o i [] r a b h = record {
  all_classed = omega arith;
  with_calls = omega arith;
  all_over = omega arith;
  first_listed = sym (
      take_all o.top (states_of r.largest)
        (omega (arith, h, length-map (λ (x : Session). x.state) r.largest)));
}
report_sessions-Counts o i (s ∷ ss) r a b h =
    let (p, q, e) = report_session-Counts o i s r (omega (arith, a)) (omega (arith, b)) in
    let t = report_session o i s r in
    let rest = report_sessions-Counts o (i + 1) ss t (omega (arith, a, p)) (ground (arith, b, e)) (
      subst (λ (l : List Session). length l ≤ o.top) (sym (largest-report_session o i s r))
        (list_if-le o.top (has_calls s) r.largest (listed o i s) h)) in
    record {
      all_classed = omega (arith, rest.all_classed, p);
      with_calls = ground (arith, rest.with_calls, q);
      all_over = ground (arith, rest.all_over, e);
      first_listed =
          rest.first_listed
          ∙ ap (λ (l : List Session). take o.top (states_of l ++ keep has_calls ss))
              (largest-report_session o i s r)
          ∙ list_if-take o.top (has_calls s) r.largest (listed o i s) (keep has_calls ss) h
          ∙ ap
              (λ (x : SessionState). take o.top (
                states_of r.largest
                ++ (if has_calls s then x ∷ keep has_calls ss else keep has_calls ss)))
              (state-listed o i s);
    }

-- The order of a review: no session stands before one of larger spend.
abbrev pub IsBySpend : List SessionState → Type 0
IsBySpend = IsSorted (λ a b. b.cost ≤ a.cost)

sort-IsBySpend : (ss : List SessionState) → IsBySpend (sort session_precedes ss)
unfolding session_precedes
sort-IsBySpend ss =
    sort-IsSorted session_precedes (λ a b. b.cost ≤ a.cost) (λ x y e. ground (arith, e))
      (λ x y e. ground (arith, e)) (λ x y z p q. omega (arith, p, q)) ss

-- A finished review of some sessions.
pub record IsFinished (o : Shown) (ss : List SessionState) (f : Finished) : Type 0 where
  pub all_classed : classed f.report ≡ length ss
  pub with_calls : f.report.sessions ≡ length (keep has_calls ss)
  pub all_over : over f.report ≡ length (keep (is_over o) ss)
  pub by_spend : IsBySpend (sort session_precedes ss)
  pub largest_first :
      map (λ (x : Session). x.state) f.report.largest
      ≡ take o.top (keep has_calls (sort session_precedes ss))

pub length_by : {A : Type 0} (xs : List A) → length xs ≡ sum_by (λ _. 1) xs
length_by [] = refl
length_by (x ∷ xs) = omega (arith, length_by xs)

length-keep :
    {A : Type 0} (p : A → Bool) (xs : List A) → length (keep p xs) ≡ sum_by (λ x. flag (p x)) xs
length-keep p [] = refl
length-keep p (x ∷ xs) = ground (arith, length-keep p xs)

-- A review puts every session in one of three classes: with calls, with rejections only and with no analyzed call. Those with
-- calls are the ones that have calls, those that exceed the cap and those whose known part does are the sessions whose
-- spend is over the cap, and the largest sessions are the first ones that have calls in the order of their spend. There are
-- fewer sessions than a `uint64` counts.
pub finish_sessions-IsFinished :
    (o : Shown) (s : Store) (ss : List SessionState)
    → length ss < word
    → IsFinished o ss (finish_sessions o s ss)
unfolding finish_sessions no_report states_of
finish_sessions-IsFinished o s ss w =
    let ordered = sort session_precedes ss in
    let same : length ordered ≡ length ss =
      length_by ordered ∙ sum_by-sort session_precedes (λ _. 1) ss ∙ sym (length_by ss) in
    let c =
      report_sessions-Counts o 1 ordered (no_report (counts_absence o.cap s))
        (omega (arith, w, same)) (omega (arith, w, same)) (omega arith) in
    let kept : (p : SessionState → Bool) → length (keep p ordered) ≡ length (keep p ss) = λ p.
      length-keep p ordered
      ∙ sum_by-sort session_precedes (λ x. flag (p x)) ss
      ∙ sym (length-keep p ss) in
    record {
      all_classed = omega (arith, c.all_classed, same);
      with_calls = omega (arith, c.with_calls, kept has_calls);
      all_over = omega (arith, c.all_over, kept (is_over o));
      by_spend = sort-IsBySpend ss;
      largest_first = c.first_listed;
    }
