-- ===== src/Spend/Routing/Audit/Conserved.antt =====
-- What the display of the routing audit shows and hides.
use fleetdiff.Base.{
  ℕ, ◌+◌, ◌≡◌, subst, List, [], ◌∷◌, arith, ok, >>=-eq-ok, ok-injective, fold_ok, sum_by-sort,
  sum_by, sum_by-take-drop, take, drop, All, All-take, All-sort,
}
use fleetdiff.Spend.Routing.Totals.{Totals, merge}
use fleetdiff.Spend.Routing.Modular.{Same, Same-eq, Same-one, Same-two, fold_ok-Same}
use fleetdiff.Spend.Routing.Merge.{
  Quantity, quantity, is_exact, quantity-merge, quantity-new_totals,
}
use fleetdiff.Spend.Routing.Fields.{Side, before, after}
use fleetdiff.Spend.Routing.Audit.{
  Pair, new_pair, Cell, Cohort, merge_pair, Remainder, no_remainder, hide_cell, hide_cohort,
  hide_models, hide_rest, Shown, shown, shown_list, Display, display, ordered_models,
  ordered_cohorts, cell_precedes, cohort_precedes,
}

-- A quantity of one period.
abbrev pub side_of : Side → Pair → Totals
side_of before p = p.in_before
side_of after p = p.in_after

module _ (s : Side) (q : Quantity) where
  abbrev pub of_pair : Pair → ℕ
  of_pair p = quantity q (side_of s p)

  abbrev pub of_cell : Cell → ℕ
  of_cell m = of_pair m.totals

  abbrev pub of_cohort : Cohort → ℕ
  of_cohort c = of_pair c.totals

  abbrev pub of_shown : Shown → ℕ
  of_shown d = sum_by of_cell d.cells

of_merge_pair :
    (s : Side) (q : Quantity) (r v p : Pair)
    → merge_pair r v ≡ ok p
    → Same (is_exact q) (of_pair s q p) (of_pair s q r + of_pair s q v)
unfolding merge_pair
of_merge_pair s q r v p h =
    let (b, hb, h1) = >>=-eq-ok (merge r.in_before v.in_before) _ h in
    let (a, ha, h2) = >>=-eq-ok (merge r.in_after v.in_after) _ h1 in
    subst (λ (z : Pair). Same (is_exact q) (of_pair s q z) (of_pair s q r + of_pair s q v))
      (ok-injective h2) (at b a hb ha s)
  where
    at :
        (b a : Totals)
        → merge r.in_before v.in_before ≡ ok b
        → merge r.in_after v.in_after ≡ ok a
        → (s : Side)
        → Same
            (is_exact q)
            (of_pair s q (record { in_before = b; in_after = a }))
            (of_pair s q r + of_pair s q v)
    at b a hb ha before = quantity-merge q r.in_before v.in_before b hb
    at b a hb ha after = quantity-merge q r.in_after v.in_after a ha

module _ (s : Side) (q : Quantity) where
  rest_of : Remainder → ℕ
  rest_of r = of_pair s q r.totals

  hide_cell_adds :
      (r : Remainder) (m : Cell) (t : Remainder)
      → hide_cell r m ≡ ok t
      → Same (is_exact q) (rest_of t) (rest_of r + of_cell s q m)
  unfolding hide_cell rest_of
  hide_cell_adds r m t h =
      let (p, hp, h1) = >>=-eq-ok (merge_pair r.totals m.totals) _ h in
      subst (λ t. Same (is_exact q) (rest_of t) (rest_of r + of_cell s q m)) (ok-injective h1)
        (of_merge_pair s q r.totals m.totals p hp)

  hide_cohort_adds :
      (r : Remainder) (c : Cohort) (t : Remainder)
      → hide_cohort r c ≡ ok t
      → Same (is_exact q) (rest_of t) (rest_of r + of_cohort s q c)
  unfolding hide_cohort rest_of
  hide_cohort_adds r c t h =
      let (p, hp, h1) = >>=-eq-ok (merge_pair r.totals c.totals) _ h in
      subst (λ t. Same (is_exact q) (rest_of t) (rest_of r + of_cohort s q c)) (ok-injective h1)
        (of_merge_pair s q r.totals c.totals p hp)

  hidden : ℕ → Cohort → ℕ
  hidden top c = sum_by (of_cell s q) (drop top (ordered_models c))

  hide_models_adds :
      (top : ℕ) (r : Remainder) (c : Cohort) (t : Remainder)
      → hide_models top r c ≡ ok t
      → Same (is_exact q) (rest_of t) (rest_of r + hidden top c)
  unfolding hide_models hidden
  hide_models_adds top r c t h =
      fold_ok-Same hide_cell rest_of (of_cell s q) hide_cell_adds (drop top (ordered_models c)) r t
        h

  -- The totals of a cohort are the sums of its models.
  abbrev pub IsConsistent : Cohort → Type 0
  IsConsistent c = Same (is_exact q) (sum_by (of_cell s q) c.models) (of_cohort s q c)

  of_shown-hide :
      (top : ℕ) (c : Cohort)
      → IsConsistent c
      → Same (is_exact q) (of_shown s q (shown top c) + hidden top c) (of_cohort s q c)
  unfolding shown hidden
  of_shown-hide top c h = Same-one h (
      omega (
        arith,
        sum_by-take-drop (of_cell s q) top (ordered_models c),
        sum_by-sort cell_precedes (of_cell s q) c.models,
      ))

  shown-hidden-All :
      (top : ℕ) (cs : List Cohort)
      → All IsConsistent cs
      → Same
          (is_exact q)
          (sum_by (of_shown s q) (shown_list top cs) + sum_by (hidden top) cs)
          (sum_by (of_cohort s q) cs)
  shown-hidden-All top [] h = Same-eq (omega arith)
  shown-hidden-All top (c ∷ cs) h =
      Same-two (of_shown-hide top c h.0) (shown-hidden-All top cs h.1) (omega arith)

  hide_rest_adds :
      (top : ℕ) (cs : List Cohort) (r : Remainder)
      → hide_rest top cs ≡ ok r
      → Same (is_exact q) (rest_of r) (
          rest_of no_remainder
          + sum_by (hidden top) (take top cs)
          + sum_by (of_cohort s q) (drop top cs))
  unfolding hide_rest
  hide_rest_adds top cs r h =
      let (u, hu, h1) = >>=-eq-ok (fold_ok (hide_models top) no_remainder (take top cs)) _ h in
      let first =
        fold_ok-Same (hide_models top) rest_of (hidden top) (hide_models_adds top) (take top cs)
          no_remainder u hu in
      let last =
        fold_ok-Same hide_cohort rest_of (of_cohort s q) hide_cohort_adds (drop top cs) u r h1 in
      Same-two first last (omega arith)

  rest-no_remainder : rest_of no_remainder ≡ 0
  unfolding rest_of no_remainder new_pair
  rest-no_remainder = at s q
    where
      at : (s : Side) (q : Quantity) → of_pair s q no_remainder.totals ≡ 0
      at before q = quantity-new_totals q
      at after q = quantity-new_totals q

  -- Nothing is lost between the list and the remainder of an audit: for each period and each quantity, what the shown
  -- models hold and what the remainder holds add up to the totals of all cohorts, when the totals of each cohort are the
  -- sums of its models: exactly for requests, tokens, spend, the records and tokens of failed rows, unknown models and the
  -- three fallback counts, and modulo 2 ^ 64 for each metric and each counter of quality.
  pub display_conserves :
      (top : ℕ) (cs : List Cohort) {d : Display}
      → All IsConsistent cs
      → display top cs ≡ ok d
      → Same
          (is_exact q)
          (sum_by (of_shown s q) d.cohorts + of_pair s q d.remainder.totals)
          (sum_by (of_cohort s q) cs)
  unfolding display rest_of
  display_conserves top cs h e =
      let (r, hr, e1) = >>=-eq-ok (hide_rest top (ordered_cohorts cs)) _ e in
      let os : List Cohort = ordered_cohorts cs in
      let all : All IsConsistent os = All-sort cohort_precedes IsConsistent cs h in
      subst
        (λ (d : Display).
          Same (is_exact q) (sum_by (of_shown s q) d.cohorts + of_pair s q d.remainder.totals)
            (sum_by (of_cohort s q) cs))
        (ok-injective e1)
        (Same-two (hide_rest_adds top os r hr)
          (shown-hidden-All top (take top os) (All-take IsConsistent top os all))
          (omega (
            arith,
            rest-no_remainder,
            sum_by-take-drop (of_cohort s q) top os,
            sum_by-sort cohort_precedes (of_cohort s q) cs,
          )))
