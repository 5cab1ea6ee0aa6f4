-- ===== src/Spend/Routing/Accumulator/Balanced.antt =====
-- The rows that `routingAccumulator.add` of internal/spend/routing.go takes in, counted once in the totals, once in a
-- cohort and once in a model; and what the report then shows of them.
use fleetdiff.Base.{
  ℕ, ◌+◌, ◌≤◌, ◌<◌, ◌≡◌, sym, subst, Bool, true, List, [], ◌∷◌, arith, word, Result, ok, >>=-eq-ok,
  ok-injective, fold_ok, sum_by, All, length, Bool-cases, inl, inr, if-eq, Option,
}
use fleetdiff.Text.{Text, is_empty}
use fleetdiff.Spend.Row.{Row, value, operation, call_type}
use fleetdiff.Spend.Aggregate.{Entry}
use fleetdiff.Spend.Routing.Fields.{Side, before, after}
use fleetdiff.Spend.Routing.Modular.{Same, Same-eq, eq-Same, Same-sym, Same-two, Same-three}
use fleetdiff.Spend.Routing.Merge.{Quantity, is_exact}
use fleetdiff.Spend.Routing.Audit.{Display, display}
use fleetdiff.Spend.Routing.Audit.Conserved.{
  of_pair, of_cohort, of_shown, IsConsistent, display_conserves,
}
use fleetdiff.Spend.Routing.Accumulator.{
  Accumulator, new_accumulator, add_pair, add_cohort, add_supported, add_unsupported, add_routed,
  is_overhead, route_of, agent_of, model_of, register,
}
use fleetdiff.Spend.Routing.Accumulator.Share.{
  wraps, wraps-is_exact, wraps-side_share, HasRoom, of_pair-add_pair, of_pair-new, less_room,
}
use fleetdiff.Spend.Routing.Accumulator.Joined.{more, add_cohort-JoinedAll}

module _ (identity : Text → Text → Option ℕ) (catalog : Text → Option Text) where
  -- The rows of both periods, each with its side, one by one.
  abbrev pub Taken : Type 0
  Taken = Side × Entry

  unfoldable pub add_all : Accumulator → List Taken → Result Accumulator
  add_all = fold_ok (λ a t. add_routed identity catalog a t.0 t.1)

  module _ (s : Side) (q : Quantity) where
    -- Every cohort is the sum of its models, the cohorts sum to the totals, and a counter that could wrap counts at most
    -- `n` rows.
    pub record IsBalanced (n : ℕ) (a : Accumulator) : Type 0 where
      pub consistent : All (IsConsistent s q) a.cohorts
      pub complete : Same (is_exact q) (sum_by (of_cohort s q) a.cohorts) (of_pair s q a.totals)
      pub counted : wraps q ≡ true → of_pair s q a.totals ≤ n

    add_supported-IsBalanced :
        (n : ℕ) (a : Accumulator) (side : Side) (e : Entry) {b : Accumulator}
        → n + 1 < word
        → IsBalanced n a
        → add_supported identity catalog a side e ≡ ok b
        → IsBalanced (n + 1) b
    unfolding add_supported more
    add_supported-IsBalanced n a side e w v h =
        let r = e.row in
        let i = model_of identity catalog r in
        let (rs, hr, h1) = >>=-eq-ok (register a.routes (route_of identity catalog r) 128) _ h in
        let (gs, ha, h2) =
          >>=-eq-ok (register a.agents (agent_of identity catalog a r) 1024) _ h1 in
        let (ms, hm, h3) = >>=-eq-ok (register a.models i 128) _ h2 in
        let (p, hp, h4) =
          >>=-eq-ok
            (add_cohort 0 a.cohorts (route_of identity catalog r) (agent_of identity catalog a r) i
              a.cells side e)
            _ h3 in
        let (t, ht, h5) = >>=-eq-ok (add_pair a.totals side e i.known) _ h4 in
        let room : HasRoom q (of_pair s q a.totals) = λ x. omega (arith, v.counted x) in
        let j =
          add_cohort-JoinedAll s q i a.cells side e 0 a.cohorts (route_of identity catalog r)
            (agent_of identity catalog a r) v.consistent
            (less_room q (sum_by (of_cohort s q) a.cohorts) (of_pair s q a.totals)
              (λ w. omega (arith, eq-Same v.complete (wraps-is_exact q w))) room)
            hp in
        let paid = of_pair-add_pair s q a.totals side e i.known room ht in
        subst (IsBalanced (n + 1)) (ok-injective h5) (record {
          consistent = j.consistent;
          complete = Same-three j.of_total v.complete (Same-sym paid) (omega arith);
          counted = λ x. omega (
            arith,
            eq-Same paid (wraps-is_exact q x),
            v.counted x,
            wraps-side_share s q side e i.known x,
          );
        })

    -- A row outside the analysis leaves cohorts and totals alone.
    add_unsupported-IsBalanced :
        (n : ℕ) (a : Accumulator) (r : Row) (side : Side)
        → IsBalanced n a
        → IsBalanced n (add_unsupported a r side)
    unfolding add_unsupported
    add_unsupported-IsBalanced n a r before v = elim (Bool-cases (is_overhead r)) [
      | inl x ↦
          rw x (record { consistent = v.consistent; complete = v.complete; counted = v.counted })
      | inr x ↦
          rw x (record { consistent = v.consistent; complete = v.complete; counted = v.counted })
    ]
    add_unsupported-IsBalanced n a r after v = elim (Bool-cases (is_overhead r)) [
      | inl x ↦
          rw x (record { consistent = v.consistent; complete = v.complete; counted = v.counted })
      | inr x ↦
          rw x (record { consistent = v.consistent; complete = v.complete; counted = v.counted })
    ]

    add_routed-IsBalanced :
        (n : ℕ) (a : Accumulator) (side : Side) (e : Entry) {b : Accumulator}
        → n + 1 < word
        → IsBalanced n a
        → add_routed identity catalog a side e ≡ ok b
        → IsBalanced (n + 1) b
    unfolding add_routed
    add_routed-IsBalanced n a side e w v h =
        if-eq (is_empty (operation (value e.row call_type))) (ok (add_unsupported a e.row side)) _
          (λ g.
            let u = add_unsupported-IsBalanced n a e.row side v in
            subst (IsBalanced (n + 1)) (ok-injective g) (record {
              consistent = u.consistent;
              complete = u.complete;
              counted = λ x. omega (arith, u.counted x);
            }))
          (add_supported-IsBalanced n a side e w v) h

    add_all-IsBalanced :
        (n : ℕ) (a : Accumulator) (ts : List Taken) {b : Accumulator}
        → n + length ts < word
        → IsBalanced n a
        → add_all a ts ≡ ok b
        → IsBalanced (n + length ts) b
    unfolding add_all
    add_all-IsBalanced n a [] {b} w v h =
        subst (λ k. IsBalanced k b) (omega arith) (subst (IsBalanced n) (ok-injective h) v)
    add_all-IsBalanced n a (t ∷ ts) {b} w v h =
        let (c, first, rest) = >>=-eq-ok (add_routed identity catalog a t.0 t.1) _ h in
        subst (λ k. IsBalanced k b) (omega arith)
          (add_all-IsBalanced (n + 1) c ts (omega arith)
            (add_routed-IsBalanced n a t.0 t.1 (omega arith) v first) rest)

    new-IsBalanced :
        (by_agent show_labels : Bool) → IsBalanced 0 (new_accumulator by_agent show_labels)
    unfolding new_accumulator
    new-IsBalanced by_agent show_labels = record {
      consistent = tt;
      complete = Same-eq (sym (of_pair-new s q));
      counted = λ x. omega (arith, of_pair-new s q);
    }

    -- From the rows of an export to the report: after any rows that the audit takes in, in either order and of either
    -- period, what the shown models hold and what the remainder holds add up to the totals of all rows, for each period
    -- and each quantity: exactly for requests, tokens, spend, the records and tokens of failed rows, unknown models and
    -- the three fallback counts, and modulo 2 ^ 64 for each metric and each counter of quality. There are fewer rows
    -- than a `uint64` counts.
    pub report_conserves :
        (by_agent show_labels : Bool) (ts : List Taken) (top : ℕ) {a : Accumulator} {d : Display}
        → length ts < word
        → add_all (new_accumulator by_agent show_labels) ts ≡ ok a
        → display top a.cohorts ≡ ok d
        → Same
            (is_exact q)
            (sum_by (of_shown s q) d.cohorts + of_pair s q d.remainder.totals)
            (of_pair s q a.totals)
    report_conserves by_agent show_labels ts top {a} w h e =
        let v : IsBalanced (0 + length ts) a =
          add_all-IsBalanced 0 (new_accumulator by_agent show_labels) ts (omega arith)
            (new-IsBalanced by_agent show_labels) h in
        Same-two (display_conserves s q top a.cohorts v.consistent e) v.complete (omega arith)
