-- ===== src/Spend/Routing/Partition.antt =====
-- The coverage counts of a routing field partition the rows.
use fleetdiff.Base.{ℕ, ◌+◌, ◌<◌, ◌≡◌, List, [], ◌∷◌, arith, add64-eq, word, length}
use fleetdiff.Spend.Row.{Row}
use fleetdiff.Spend.Routing.Fields.{
  FieldState, known, absent, empty, invalid, FieldCoverage, add_state, RoutingFields, no_fields,
  add_fields,
}

-- Every row is in exactly one state, and the missing ones are those that are not known.
pub record IsPartition (n : ℕ) (c : FieldCoverage) : Type 0 where
  pub states : c.known_rows + c.column_absent_rows + c.empty_or_null_rows + c.invalid_rows ≡ n
  pub missing : c.missing_rows ≡ c.column_absent_rows + c.empty_or_null_rows + c.invalid_rows

add_state-IsPartition :
    (n : ℕ) (c : FieldCoverage) (s : FieldState)
    → n + 1 < word
    → IsPartition n c
    → IsPartition (n + 1) (add_state c s)
unfolding add_state
add_state-IsPartition n c known w h = ground (arith, add64-eq c.known_rows 1)
add_state-IsPartition n c absent w h =
    ground (arith, add64-eq c.column_absent_rows 1, add64-eq c.missing_rows 1)
add_state-IsPartition n c empty w h =
    ground (arith, add64-eq c.empty_or_null_rows 1, add64-eq c.missing_rows 1)
add_state-IsPartition n c invalid w h =
    ground (arith, add64-eq c.invalid_rows 1, add64-eq c.missing_rows 1)

pub record ArePartitions (n : ℕ) (f : RoutingFields) : Type 0 where
  pub agent : IsPartition n f.agent
  pub original_route : IsPartition n f.original_route
  pub attempted : IsPartition n f.attempted
  pub selected_model : IsPartition n f.selected_model
  pub deployment : IsPartition n f.deployment
  pub overhead_marker : IsPartition n f.overhead_marker

add_fields-ArePartitions :
    (n : ℕ) (f : RoutingFields) (r : Row)
    → n + 1 < word
    → ArePartitions n f
    → ArePartitions (n + 1) (add_fields f r)
unfolding add_fields
add_fields-ArePartitions n f r w h = record {
  agent = add_state-IsPartition n f.agent _ w h.agent;
  original_route = add_state-IsPartition n f.original_route _ w h.original_route;
  attempted = add_state-IsPartition n f.attempted _ w h.attempted;
  selected_model = add_state-IsPartition n f.selected_model _ w h.selected_model;
  deployment = add_state-IsPartition n f.deployment _ w h.deployment;
  overhead_marker = add_state-IsPartition n f.overhead_marker _ w h.overhead_marker;
}

-- The rows of one period and call type, in the order in which they come.
unfoldable pub cover_rows : RoutingFields → List Row → RoutingFields
cover_rows f [] = f
cover_rows f (r ∷ rs) = cover_rows (add_fields f r) rs

cover_from :
    (n m : ℕ) (f : RoutingFields) (rs : List Row)
    → n + length rs ≡ m
    → m < word
    → ArePartitions n f
    → ArePartitions m (cover_rows f rs)
unfolding cover_rows
cover_from n m f [] e w h = let q : n ≡ m = omega arith in rw (← q) h
cover_from n m f (r ∷ rs) e w h =
    cover_from (n + 1) m (add_fields f r) rs (omega arith) w
      (add_fields-ArePartitions n f r (omega arith) h)

-- For each of the six routing fields, the known, absent, empty and invalid rows add up to the rows seen,
-- and `MissingRows` is the sum of the last three. There are fewer rows than a `uint64` counts.
pub cover_rows-ArePartitions :
    (rs : List Row) → length rs < word → ArePartitions (length rs) (cover_rows no_fields rs)
cover_rows-ArePartitions rs w = cover_from 0 (length rs) no_fields rs (omega arith) w (record {
  agent = omega arith;
  original_route = omega arith;
  attempted = omega arith;
  selected_model = omega arith;
  deployment = omega arith;
  overhead_marker = omega arith;
})
