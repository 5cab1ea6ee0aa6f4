-- ===== src/Spend/Agents/Counted.antt =====
-- internal/spend/agents.go: what `add` makes of the counts of rows.
use fleetdiff.Base.{
  ℕ, ◌+◌, ◌*◌, ◌<◌, ◌≡◌, refl, sym, ap, ◌∙◌, subst, Bool, List, [], ◌∷◌, ◌==◌, if-cases, length,
  sum_by, arith, word, add64-eq, ok, err-ne-ok, >>=-eq-ok, ok-injective, fold_ok,
}
use fleetdiff.Spend.Aggregate.{Aggregate, Entry, new_aggregate, add_entry}
use fleetdiff.Spend.Aggregate.Sums.{add_entry-Added}
use fleetdiff.Spend.Routing.Fields.{Side, before, after}
use fleetdiff.Spend.Agents.{AgentState, known, ambiguous, unknown, Resolution}
use fleetdiff.Spend.Agents.Accumulator.{
  max_agents, AgentWindow, AgentEntry, Accumulator, cover_field, cover_state, add_to_state,
  add_window, add_side, new_agent, add_agent, add_known, set_window, window_of, AgentRow, add,
  add_row, add_rows, new_accumulator,
}

abbrev is_known : AgentState → ℕ
is_known known = 1
is_known ambiguous = 0
is_known unknown = 0

-- The aggregates of a period have the rows that the coverage counts, `n` in all.
pub record IsCounted (w : AgentWindow) (n : ℕ) : Type 0 where
  pub all_known : w.of_known.requests ≡ w.coverage.known_rows
  pub all_unknown : w.of_unknown.requests ≡ w.coverage.unknown_rows
  pub all_ambiguous : w.of_ambiguous.requests ≡ w.coverage.ambiguous_rows
  pub rows : w.coverage.known_rows + w.coverage.unknown_rows + w.coverage.ambiguous_rows ≡ n

added_requests :
    (a : Aggregate) (e : Entry) (b : Aggregate)
    → a.requests + 1 < word
    → add_entry a e ≡ ok b
    → b.requests ≡ a.requests + 1
added_requests a e b l h = (add_entry-Added a e b h).requests ∙ add64-eq a.requests 1 l

-- One row of a state.
record IsOneMore (w : AgentWindow) (st : AgentState) (n : ℕ) (v : AgentWindow) : Type 0 where
  counted : IsCounted v (n + 1)
  known_rows : v.coverage.known_rows ≡ w.coverage.known_rows + is_known st

add_to_state-IsOneMore :
    (by_tag : Bool) (r : Resolution) (st : AgentState) (e : Entry) (w v : AgentWindow) (n : ℕ)
    → IsCounted w n
    → n + 1 < word
    → add_to_state st e (record w { coverage = cover_state by_tag r st (cover_field w.coverage r) })
      ≡ ok v
    → IsOneMore w st n v
unfolding add_to_state cover_state cover_field
add_to_state-IsOneMore by_tag r known e w v n i l h =
    let (a, p, q) = >>=-eq-ok (add_entry w.of_known e) _ h in
    let one = added_requests w.of_known e a (omega (arith, i.all_known, i.rows)) p in
    let more = add64-eq w.coverage.known_rows 1 (omega (arith, i.rows)) in
    subst (IsOneMore w known n) (ok-injective q) (record {
      counted = record {
        all_known = omega (arith, one, more, i.all_known);
        all_unknown = i.all_unknown;
        all_ambiguous = i.all_ambiguous;
        rows = omega (arith, more, i.rows);
      };
      known_rows = more;
    })
add_to_state-IsOneMore by_tag r ambiguous e w v n i l h =
    let (a, p, q) = >>=-eq-ok (add_entry w.of_ambiguous e) _ h in
    let one = added_requests w.of_ambiguous e a (omega (arith, i.all_ambiguous, i.rows)) p in
    let more = add64-eq w.coverage.ambiguous_rows 1 (omega (arith, i.rows)) in
    subst (IsOneMore w ambiguous n) (ok-injective q) (record {
      counted = record {
        all_known = i.all_known;
        all_unknown = i.all_unknown;
        all_ambiguous = omega (arith, one, more, i.all_ambiguous);
        rows = omega (arith, more, i.rows);
      };
      known_rows = omega arith;
    })
add_to_state-IsOneMore by_tag r unknown e w v n i l h =
    let (a, p, q) = >>=-eq-ok (add_entry w.of_unknown e) _ h in
    let one = added_requests w.of_unknown e a (omega (arith, i.all_unknown, i.rows)) p in
    let more = add64-eq w.coverage.unknown_rows 1 (omega (arith, i.rows)) in
    subst (IsOneMore w unknown n) (ok-injective q) (record {
      counted = record {
        all_known = i.all_known;
        all_unknown = omega (arith, one, more, i.all_unknown);
        all_ambiguous = i.all_ambiguous;
        rows = omega (arith, more, i.rows);
      };
      known_rows = omega arith;
    })

abbrev pub side_requests : Side → AgentEntry → ℕ
side_requests before a = a.in_before.requests
side_requests after a = a.in_after.requests

-- 1 where both sides are the same period.
abbrev pub same_side : Side → Side → ℕ
same_side before before = 1
same_side before after = 0
same_side after before = 0
same_side after after = 1

add_side_lem :
    (s x : Side) (e : Entry) (a b : AgentEntry)
    → side_requests x a + 1 < word
    → add_side x e a ≡ ok b
    → side_requests s b ≡ side_requests s a + same_side s x
unfolding add_side
add_side_lem before before e a b l h =
    let (g, p, q) = >>=-eq-ok (add_entry a.in_before e) _ h in
    sym (ap (λ b. b.in_before.requests) (ok-injective q)) ∙ added_requests a.in_before e g l p
add_side_lem after before e a b l h =
    let (g, p, q) = >>=-eq-ok (add_entry a.in_before e) _ h in
    let same = ap (λ b. b.in_after.requests) (ok-injective q) in omega arith
add_side_lem before after e a b l h =
    let (g, p, q) = >>=-eq-ok (add_entry a.in_after e) _ h in
    let same = ap (λ b. b.in_before.requests) (ok-injective q) in omega arith
add_side_lem after after e a b l h =
    let (g, p, q) = >>=-eq-ok (add_entry a.in_after e) _ h in
    sym (ap (λ b. b.in_after.requests) (ok-injective q)) ∙ added_requests a.in_after e g l p

add_agent_lem :
    (full : Bool) (d : ℕ) (s x : Side) (e : Entry) (xs ys : List AgentEntry)
    → sum_by (side_requests x) xs + 1 < word
    → add_agent full d x e xs ≡ ok ys
    → sum_by (side_requests s) ys ≡ sum_by (side_requests s) xs + same_side s x
unfolding add_agent new_agent new_aggregate
add_agent_lem full d s x e [] ys l h =
    if-cases full _ _ (λ c g. err-ne-ok g)
      (λ c g.
        let (b, p, q) = >>=-eq-ok (add_side x e (new_agent d)) _ g in
        let one = add_side_lem s x e (new_agent d) b (starts_empty x) p in
        let zero_start = none_yet s in
        subst (λ ys. sum_by (side_requests s) ys ≡ 0 + same_side s x) (ok-injective q)
          (omega arith))
      h
  where
    none_yet : (s : Side) → side_requests s (new_agent d) ≡ 0
    none_yet before = refl
    none_yet after = refl

    starts_empty : (s : Side) → side_requests s (new_agent d) + 1 < word
    starts_empty s = omega (arith, none_yet s)
add_agent_lem full d s x e (a ∷ others) ys l h =
    if-cases (a.digest == d) _ _
      (λ c g.
        let (b, p, q) = >>=-eq-ok (add_side x e a) _ g in
        let one = add_side_lem s x e a b (omega arith) p in
        subst
          (λ ys.
            sum_by (side_requests s) ys ≡ sum_by (side_requests s) (a ∷ others) + same_side s x)
          (ok-injective q) (omega arith))
      (λ c g.
        let (bs, p, q) = >>=-eq-ok (add_agent full d x e others) _ g in
        let rest = add_agent_lem full d s x e others bs (omega arith) p in
        subst
          (λ ys.
            sum_by (side_requests s) ys ≡ sum_by (side_requests s) (a ∷ others) + same_side s x)
          (ok-injective q) (omega arith))
      h

add_known_lem :
    (st : AgentState) (full : Bool) (d : ℕ) (s x : Side) (e : Entry) (xs ys : List AgentEntry)
    → sum_by (side_requests x) xs + 1 < word
    → add_known st full d x e xs ≡ ok ys
    → sum_by (side_requests s) ys ≡ sum_by (side_requests s) xs + is_known st * same_side s x
unfolding add_known
add_known_lem known full d s x e xs ys l h = omega (arith, add_agent_lem full d s x e xs ys l h)
add_known_lem ambiguous full d s x e xs ys l h =
    let same = ap (sum_by (side_requests s)) (ok-injective h) in omega arith
add_known_lem unknown full d s x e xs ys l h =
    let same = ap (sum_by (side_requests s)) (ok-injective h) in omega arith

-- The windows count the rows of their period, and the agents have those of known agents.
no_more : (n : ℕ) → n ≡ n + 0
no_more n = omega arith

one_side : (s : Side) → same_side before s + same_side after s ≡ 1
one_side before = omega arith
one_side after = omega arith

pub record IsPeriod (s : Side) (a : Accumulator) (n : ℕ) : Type 0 where
  pub counted : IsCounted (window_of a s) n
  pub agents : sum_by (side_requests s) a.agents ≡ (window_of a s).coverage.known_rows

pub record IsBalanced (a : Accumulator) (m n : ℕ) : Type 0 where
  pub earlier : IsPeriod before a m
  pub later : IsPeriod after a n

add-IsBalanced :
    (a b : Accumulator) (s : Side) (d : ℕ) (r : Resolution) (e : Entry) (m n : ℕ)
    → m + n + 1 < word
    → IsBalanced a m n
    → add a s d r e ≡ ok b
    → IsBalanced b (m + same_side before s) (n + same_side after s)
unfolding add set_window window_of add_window
add-IsBalanced a b before d r e m n l i h =
    let (agents, p, q) =
      >>=-eq-ok (add_known r.state (length a.agents == max_agents) d before e a.agents) _ h in
    let (w, p2, q2) = >>=-eq-ok (add_window a.by_tag r e a.window_before) _ q in
    let one =
      add_to_state-IsOneMore a.by_tag r r.state e a.window_before w m i.earlier.counted
        (omega arith) p2 in
    let room : sum_by (side_requests before) a.agents + 1 < word =
      omega (arith, i.earlier.agents, i.earlier.counted.rows) in
    let here =
      add_known_lem r.state (length a.agents == max_agents) d before before e a.agents agents room
        p in
    let there =
      add_known_lem r.state (length a.agents == max_agents) d after before e a.agents agents room
        p in
    subst (λ b. IsBalanced b (m + 1) (n + 0)) (ok-injective q2)
      (record {
        earlier = record {
          counted = one.counted;
          agents = omega (arith, here, one.known_rows, i.earlier.agents);
        };
        later =
            subst (λ k. IsPeriod after (record a { agents = agents; window_before = w }) k)
              (no_more n)
              (record { counted = i.later.counted; agents = omega (arith, there, i.later.agents) });
      })
add-IsBalanced a b after d r e m n l i h =
    let (agents, p, q) =
      >>=-eq-ok (add_known r.state (length a.agents == max_agents) d after e a.agents) _ h in
    let (w, p2, q2) = >>=-eq-ok (add_window a.by_tag r e a.window_after) _ q in
    let one =
      add_to_state-IsOneMore a.by_tag r r.state e a.window_after w n i.later.counted (omega arith)
        p2 in
    let room : sum_by (side_requests after) a.agents + 1 < word =
      omega (arith, i.later.agents, i.later.counted.rows) in
    let here =
      add_known_lem r.state (length a.agents == max_agents) d after after e a.agents agents room
        p in
    let there =
      add_known_lem r.state (length a.agents == max_agents) d before after e a.agents agents room
        p in
    subst (λ b. IsBalanced b (m + 0) (n + 1)) (ok-injective q2)
      (record {
        earlier =
            subst (λ k. IsPeriod before (record a { agents = agents; window_after = w }) k)
              (no_more m)
              (record {
                counted = i.earlier.counted;
                agents = omega (arith, there, i.earlier.agents);
              });
        later = record {
          counted = one.counted;
          agents = omega (arith, here, one.known_rows, i.later.agents);
        };
      })

add_all-IsBalanced :
    (xs : List AgentRow) (a b : Accumulator) (m n : ℕ)
    → m + n + length xs < word
    → IsBalanced a m n
    → fold_ok add_row a xs ≡ ok b
    → IsBalanced b
        (m + sum_by (λ x. same_side before x.side) xs)
        (n + sum_by (λ x. same_side after x.side) xs)
unfolding add_row
add_all-IsBalanced [] a b m n l i h =
    subst (λ b. IsBalanced b (m + 0) (n + 0)) (ok-injective h)
      (subst (λ k. IsBalanced a k (n + 0)) (no_more m) (subst (IsBalanced a m) (no_more n) i))
add_all-IsBalanced (x ∷ xs) a b m n l i h =
    let (c, p, q) = >>=-eq-ok (add_row a x) _ h in
    let sides = one_side x.side in
    let one = add-IsBalanced a c x.side x.agent_digest x.resolution x.entry m n (omega arith) i p in
    let rest =
      add_all-IsBalanced xs c b (m + same_side before x.side) (n + same_side after x.side)
        (omega (arith, sides)) one q in
    subst (λ k. IsBalanced b k (n + sum_by (λ x. same_side after x.side) (x ∷ xs))) (omega arith)
      (subst (IsBalanced b (m + same_side before x.side + sum_by (λ x. same_side before x.side) xs))
        (omega arith) rest)

new-IsBalanced : (by_tag : Bool) → IsBalanced (new_accumulator by_tag) 0 0
unfolding new_accumulator new_aggregate window_of
new-IsBalanced by_tag = record {
  earlier = record {
    counted = record { all_known = refl; all_unknown = refl; all_ambiguous = refl; rows = refl };
    agents = refl;
  };
  later = record {
    counted = record { all_known = refl; all_unknown = refl; all_ambiguous = refl; rows = refl };
    agents = refl;
  };
}

-- After any rows that the accumulator accepts, of each period: the aggregates of known, unknown and ambiguous agents
-- have the numbers of rows that the coverage counts, these add up to the rows of the period, and the agents of the
-- period have the rows of the known ones; there must be fewer rows than a `uint64` counts.
pub add_rows-IsBalanced :
    (by_tag : Bool) (xs : List AgentRow) (b : Accumulator)
    → length xs < word
    → add_rows (new_accumulator by_tag) xs ≡ ok b
    → IsBalanced b
        (sum_by (λ x. same_side before x.side) xs)
        (sum_by (λ x. same_side after x.side) xs)
unfolding add_rows
add_rows-IsBalanced by_tag xs b l h =
    let whole =
      add_all-IsBalanced xs (new_accumulator by_tag) b 0 0 (omega arith) (new-IsBalanced by_tag)
        h in
    subst (λ k. IsBalanced b k (sum_by (λ x. same_side after x.side) xs)) (omega arith)
      (subst (IsBalanced b (0 + sum_by (λ x. same_side before x.side) xs)) (omega arith) whole)
