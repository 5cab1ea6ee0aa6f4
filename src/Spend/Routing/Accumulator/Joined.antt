-- ===== src/Spend/Routing/Accumulator/Joined.antt =====
-- A row that is added to a cohort of internal/spend/routing.go, and to the cell of its model there.
use fleetdiff.Base.{
  ℕ, ◌+◌, ◌≡◌, sym, subst, List, [], ◌∷◌, arith, ok, err, >>=-eq-ok, ok-injective, sum_by, All, leb,
  ◌&&◌, if-eq, err-ne-ok, too_many_cells, too_many_cohorts,
}
use fleetdiff.Spend.Aggregate.{Entry}
use fleetdiff.Spend.Routing.Fields.{Side}
use fleetdiff.Spend.Routing.Modular.{Same, Same-eq, eq-Same, Same-sym, Same-one, Same-three}
use fleetdiff.Spend.Routing.Merge.{Quantity, is_exact}
use fleetdiff.Spend.Routing.Audit.{Cell, Cohort, RoutingId, new_pair}
use fleetdiff.Spend.Routing.Audit.Conserved.{of_pair, of_cell, of_cohort, IsConsistent}
use fleetdiff.Spend.Routing.Accumulator.{
  add_pair, add_cell, add_to_cohort, add_cohort, same_id, new_cohort,
}
use fleetdiff.Spend.Routing.Accumulator.Share.{
  HasRoom, wraps-is_exact, side_share, of_pair-add_pair, of_pair-new, less_room,
}

module _ (s : Side) (q : Quantity) (i : RoutingId) (cells : ℕ) (side : Side) (e : Entry) where
  unfoldable pub more : ℕ
  more = side_share s q side e i.known

  of_cells-add_cell :
      (cs : List Cell) (n : ℕ) {p : List Cell × ℕ}
      → HasRoom q (sum_by (of_cell s q) cs)
      → add_cell cs i cells side e n ≡ ok p
      → Same (is_exact q) (sum_by (of_cell s q) p.0) (sum_by (of_cell s q) cs + more)
  unfolding add_cell more
  of_cells-add_cell [] n {p} r h =
      if-eq (leb 16384 cells) (err too_many_cells) _ err-ne-ok
        (λ g.
          let (t, ht, h1) = >>=-eq-ok (add_pair new_pair side e i.known) _ g in
          subst (λ (z : List Cell × ℕ). Same (is_exact q) (sum_by (of_cell s q) z.0) (0 + more))
            (ok-injective h1)
            (Same-one
              (of_pair-add_pair s q new_pair side e i.known
                (less_room q (of_pair s q new_pair) 0 (λ _. omega (arith, of_pair-new s q)) r) ht)
              (omega (arith, of_pair-new s q))))
        h
  of_cells-add_cell (c ∷ cs) n {p} r h =
      if-eq (same_id c.id i) _ _
        (λ g.
          let (t, ht, h1) = >>=-eq-ok (add_pair c.totals side e i.known) _ g in
          subst
            (λ (z : List Cell × ℕ).
              Same (is_exact q) (sum_by (of_cell s q) z.0) (sum_by (of_cell s q) (c ∷ cs) + more))
            (ok-injective h1)
            (Same-one
              (of_pair-add_pair s q c.totals side e i.known
                (less_room q (of_cell s q c) (sum_by (of_cell s q) (c ∷ cs)) (λ _. omega arith) r)
                ht)
              (omega arith)))
        (λ g.
          let (t, ht, h1) = >>=-eq-ok (add_cell cs i cells side e n) _ g in
          subst
            (λ (z : List Cell × ℕ).
              Same (is_exact q) (sum_by (of_cell s q) z.0) (sum_by (of_cell s q) (c ∷ cs) + more))
            (ok-injective h1)
            (Same-one
              (of_cells-add_cell cs n
                (less_room q (sum_by (of_cell s q) cs) (sum_by (of_cell s q) (c ∷ cs))
                  (λ _. omega arith) r)
                ht)
              (omega arith)))
        h

  -- A cohort with the row in it.
  pub record Joined (c d : Cohort) : Type 0 where
    pub of_total : Same (is_exact q) (of_cohort s q d) (of_cohort s q c + more)
    pub consistent : IsConsistent s q d

  add_to_cohort-Joined :
      (c : Cohort) {p : Cohort × ℕ}
      → IsConsistent s q c
      → HasRoom q (of_cohort s q c)
      → add_to_cohort c i cells side e ≡ ok p
      → Joined c p.0
  unfolding add_to_cohort more
  add_to_cohort-Joined c v r h =
      let (t, ht, h1) = >>=-eq-ok (add_pair c.totals side e i.known) _ h in
      let (ms, hm, h2) = >>=-eq-ok (add_cell c.models i cells side e e.row.row_number) _ h1 in
      let paid = of_pair-add_pair s q c.totals side e i.known r ht in
      let made =
        of_cells-add_cell c.models e.row.row_number
          (less_room q (sum_by (of_cell s q) c.models) (of_cohort s q c)
            (λ w. omega (arith, eq-Same v (wraps-is_exact q w))) r)
          hm in
      subst (λ (z : Cohort × ℕ). Joined c z.0) (ok-injective h2)
        (record { of_total = paid; consistent = Same-three made v (Same-sym paid) (omega arith) })

  pub record JoinedAll (cs ds : List Cohort) : Type 0 where
    pub of_total : Same (is_exact q) (sum_by (of_cohort s q) ds) (sum_by (of_cohort s q) cs + more)
    pub consistent : All (IsConsistent s q) ds

  new_cohort-IsConsistent :
      (route agent : RoutingId) (n : ℕ) → IsConsistent s q (new_cohort route agent n)
  unfolding new_cohort
  new_cohort-IsConsistent route agent n = Same-eq (sym (of_pair-new s q))

  of_new_cohort : (route agent : RoutingId) (n : ℕ) → of_cohort s q (new_cohort route agent n) ≡ 0
  unfolding new_cohort
  of_new_cohort route agent n = of_pair-new s q

  pub add_cohort-JoinedAll :
      (n : ℕ) (cs : List Cohort) (route agent : RoutingId) {p : List Cohort × ℕ}
      → All (IsConsistent s q) cs
      → HasRoom q (sum_by (of_cohort s q) cs)
      → add_cohort n cs route agent i cells side e ≡ ok p
      → JoinedAll cs p.0
  unfolding add_cohort
  add_cohort-JoinedAll n [] route agent v r h =
      let c : Cohort = new_cohort route agent e.row.row_number in
      if-eq (leb 4096 n) (err too_many_cohorts) _ err-ne-ok
        (λ g.
          let (d, hd, h1) = >>=-eq-ok (add_to_cohort c i cells side e) _ g in
          let j =
            add_to_cohort-Joined c (new_cohort-IsConsistent route agent e.row.row_number)
              (less_room q (of_cohort s q c) 0
                (λ _. omega (arith, of_new_cohort route agent e.row.row_number)) r)
              hd in
          subst (λ (z : List Cohort × ℕ). JoinedAll [] z.0) (ok-injective h1)
            (record {
              of_total =
                  Same-one j.of_total (omega (arith, of_new_cohort route agent e.row.row_number));
              consistent = (j.consistent, tt);
            }))
        h
  add_cohort-JoinedAll n (c ∷ cs) route agent v r h =
      if-eq (same_id c.route route && same_id c.agent agent) _ _
        (λ g.
          let (d, hd, h1) = >>=-eq-ok (add_to_cohort c i cells side e) _ g in
          let j =
            add_to_cohort-Joined c v.0
              (less_room q (of_cohort s q c) (sum_by (of_cohort s q) (c ∷ cs)) (λ _. omega arith) r)
              hd in
          subst (λ (z : List Cohort × ℕ). JoinedAll (c ∷ cs) z.0) (ok-injective h1)
            (record {
              of_total = Same-one j.of_total (omega arith);
              consistent = (j.consistent, v.1);
            }))
        (λ g.
          let (ds, hd, h1) = >>=-eq-ok (add_cohort (n + 1) cs route agent i cells side e) _ g in
          let j =
            add_cohort-JoinedAll (n + 1) cs route agent v.1
              (less_room q (sum_by (of_cohort s q) cs) (sum_by (of_cohort s q) (c ∷ cs))
                (λ _. omega arith) r)
              hd in
          subst (λ (z : List Cohort × ℕ). JoinedAll (c ∷ cs) z.0) (ok-injective h1)
            (record {
              of_total = Same-one j.of_total (omega arith);
              consistent = (v.0, j.consistent);
            }))
        h
