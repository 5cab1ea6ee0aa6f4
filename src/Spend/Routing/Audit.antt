-- ===== src/Spend/Routing/Audit.antt =====
-- internal/spend/routing.go: `routingOrder`, and the loops of `result` that show the leading cohorts and
-- models and merge the others into the remainder.
pub mod Conserved
use fleetdiff.Base.{
  ℕ, zero, suc, ◌+◌, Bool, true, false, List, [], ◌∷◌, ltb, ◌==◌, if◌then◌else◌, add64, Result, ok,
  err, ◌>>=◌, fold_ok, sort, length, take, drop,
}
use fleetdiff.Spend.Routing.Totals.{Totals, new_totals, merge}

-- `routingPair`: the totals of the two periods.
pub record Pair : Type 0 where
  pub in_before : Totals
  pub in_after : Totals

unfoldable pub new_pair : Pair
unfolding new_totals
new_pair = record { in_before = new_totals; in_after = new_totals }

-- `routingID`: a keyed hash, and whether the identity is known.
pub record RoutingId : Type 0 where
  pub hash : ℕ
  pub known : Bool

pub record Cell : Type 0 where
  pub id : RoutingId
  pub totals : Pair
  pub ordinal : ℕ

pub record Cohort : Type 0 where
  pub route : RoutingId
  pub agent : RoutingId
  pub totals : Pair
  pub models : List Cell
  pub ordinal : ℕ

-- `routingOrder(a, ai, b, bi) < 0`: more requests first, then the earlier ordinal.
unfoldable pub routing_precedes : Pair → ℕ → Pair → ℕ → Bool
routing_precedes a ai b bi =
    let x = add64 a.in_before.sums.requests a.in_after.sums.requests in
    let y = add64 b.in_before.sums.requests b.in_after.sums.requests in
    if ltb y x then true else if ltb x y then false else ltb ai bi

abbrev cell_precedes : Cell → Cell → Bool
cell_precedes x y = routing_precedes x.totals x.ordinal y.totals y.ordinal

abbrev cohort_precedes : Cohort → Cohort → Bool
cohort_precedes x y = routing_precedes x.totals x.ordinal y.totals y.ordinal

-- `for side := range 2 { remainder[side].merge(v[side]) }`
unfoldable pub merge_pair : Pair → Pair → Result Pair
merge_pair r v = do
  b ← merge r.in_before v.in_before
  a ← merge r.in_after v.in_after
  ok (record { in_before = b; in_after = a })

-- What is shown, and what remains: its cohorts, its model cells and its totals.
pub record Remainder : Type 0 where
  pub cohorts : ℕ
  pub model_cells : ℕ
  pub totals : Pair

unfoldable pub no_remainder : Remainder
unfolding new_pair
no_remainder = record { cohorts = 0; model_cells = 0; totals = new_pair }

hide_cell : Remainder → Cell → Result Remainder
hide_cell r m = do
  t ← merge_pair r.totals m.totals
  ok (record r { model_cells = r.model_cells + 1; totals = t })

hide_cohort : Remainder → Cohort → Result Remainder
hide_cohort r c = do
  t ← merge_pair r.totals c.totals
  ok (record { cohorts = r.cohorts + 1; model_cells = r.model_cells + length c.models; totals = t })

-- The models of a shown cohort in their order, of which those past `top` are hidden.
abbrev pub ordered_models : Cohort → List Cell
ordered_models c = sort cell_precedes c.models

unfoldable pub hide_models : ℕ → Remainder → Cohort → Result Remainder
unfolding hide_cell
hide_models top r c = fold_ok hide_cell r (drop top (ordered_models c))

pub record Shown : Type 0 where
  pub cohort : Cohort
  pub cells : List Cell

unfoldable pub shown : ℕ → Cohort → Shown
shown top c = record { cohort = c; cells = take top (ordered_models c) }

-- Cohorts past the first `top` are hidden whole.
unfoldable pub hide_rest : ℕ → List Cohort → Result Remainder
unfolding hide_models hide_cohort
hide_rest top ordered = do
  r ← fold_ok (hide_models top) no_remainder (take top ordered)
  fold_ok hide_cohort r (drop top ordered)

pub record Display : Type 0 where
  pub cohorts : List Shown
  pub remainder : Remainder

abbrev pub shown_list : ℕ → List Cohort → List Shown
shown_list top [] = []
shown_list top (c ∷ cs) = shown top c ∷ shown_list top cs

abbrev pub ordered_cohorts : List Cohort → List Cohort
ordered_cohorts cs = sort cohort_precedes cs

unfoldable pub display : ℕ → List Cohort → Result Display
display top cs = do
  r ← hide_rest top (ordered_cohorts cs)
  ok (record { cohorts = shown_list top (take top (ordered_cohorts cs)); remainder = r })
