-- ===== src/Spend/Routing/Accumulator.antt =====
-- internal/spend/routing.go: the rows as `routingAccumulator.add` takes them in, with the raw measures, the
-- registration of identities and the labels. The keyed hash of an identity is a parameter, and so is the
-- catalog of public models that `reprice.PublicModelID` reads from the bundled prices.
pub mod Share
pub mod Joined
pub mod Balanced
use fleetdiff.Base.{
  ℕ, ◌+◌, ◌==◌, Bool, true, false, ◌&&◌, ◌||◌, not, Option, none, some, List, [], ◌∷◌, ◌++◌, leb,
  if◌then◌else◌, flag, length, add64, Result, ok, err, ◌>>=◌, too_many_identities, too_many_cohorts,
  too_many_cells,
}
use fleetdiff.Text.{Text, codes, text_eq, is_empty}
use fleetdiff.Spend.Period.{cut}
use fleetdiff.Spend.Row.{
  Row, Column, value, operation, call_type, internal_call_origin, original_model_group, agent_id,
  model, custom_llm_provider,
}
use fleetdiff.Spend.CallTypes.{CallTypeCounts, count_row, no_counts}
use fleetdiff.Spend.Aggregate.{Entry, Spending, no_spend, bad_spend, spent, spending}
use fleetdiff.Spend.Routing.Fields.{
  FieldState, known, text_state, selected_model_known, Side, before, after,
}
use fleetdiff.Spend.Routing.Totals.{add_row}
use fleetdiff.Spend.Routing.Audit.{Pair, new_pair, RoutingId, Cell, Cohort}

-- `routingRaw`: the raw counts and the recorded spend of rows that are not analyzed.
pub record RawMeasure : Type 0 where
  pub usage : CallTypeCounts
  pub cost_units : ℕ
  pub spend_missing : ℕ
  pub spend_invalid : ℕ
  pub spend_zero_unknown : ℕ

abbrev pub no_measure : RawMeasure
no_measure = record {
  usage = no_counts;
  cost_units = 0;
  spend_missing = 0;
  spend_invalid = 0;
  spend_zero_unknown = 0;
}

add_spending : RawMeasure → Spending → RawMeasure
add_spending m no_spend = record m { spend_missing = add64 m.spend_missing 1 }
add_spending m bad_spend = record m { spend_invalid = add64 m.spend_invalid 1 }
add_spending m (spent u) = record m {
  cost_units = m.cost_units + u;
  spend_zero_unknown = add64 m.spend_zero_unknown (flag (u == 0));
}

unfoldable pub add_measure : RawMeasure → Row → RawMeasure
unfolding add_spending
add_measure m r = add_spending (record m { usage = count_row m.usage r }) (spending r)

-- Equality of the keys of a map: hash and mark.
unfoldable pub same_id : RoutingId → RoutingId → Bool
same_id a b = a.hash == b.hash && ((a.known && b.known) || (not a.known && not b.known))

abbrev pub unknown_id : RoutingId
unknown_id = record { hash = 0; known = false }

unfoldable pub has_id : RoutingId → List RoutingId → Bool
has_id i [] = false
has_id i (j ∷ ids) = same_id j i || has_id i ids

-- `routingRegister`: the place of an identity in the list, from 1, is its alias.
unfoldable pub register : List RoutingId → RoutingId → ℕ → Result (List RoutingId)
register ids i limit =
    if not i.known || has_id i ids
    then ok ids
    else if leb limit (length ids)
    then err too_many_identities
    else ok (ids ++ i ∷ [])

-- `routingRememberLabel`: a second, different label makes the identity ambiguous, which stays the empty text.
remember_known : List (RoutingId × Text) → RoutingId → Text → List (RoutingId × Text)
remember_known [] i v = (i, v) ∷ []
remember_known ((j, w) ∷ labels) i v =
    let rest = remember_known labels i v in
    if same_id j i then (j, if text_eq w v then v else []) ∷ labels else (j, w) ∷ rest

unfoldable pub remember_label : List (RoutingId × Text) → RoutingId → Text → List (RoutingId × Text)
unfolding remember_known
remember_label labels i v = if i.known then remember_known labels i v else labels

-- `routingAccumulator`, of an audit that is asked for.
pub record Accumulator : Type 0 where
  pub by_agent : Bool
  pub show_labels : Bool
  pub totals : Pair
  pub overhead_before : RawMeasure
  pub overhead_after : RawMeasure
  pub other_before : RawMeasure
  pub other_after : RawMeasure
  pub routes : List RoutingId
  pub agents : List RoutingId
  pub models : List RoutingId
  pub route_labels : List (RoutingId × Text)
  pub agent_labels : List (RoutingId × Text)
  pub model_labels : List (RoutingId × Text)
  pub cohorts : List Cohort
  pub cells : ℕ

unfoldable pub new_accumulator : Bool → Bool → Accumulator
new_accumulator by_agent show_labels = record {
  by_agent = by_agent;
  show_labels = show_labels;
  totals = new_pair;
  overhead_before = no_measure;
  overhead_after = no_measure;
  other_before = no_measure;
  other_after = no_measure;
  routes = [];
  agents = [];
  models = [];
  route_labels = [];
  agent_labels = [];
  model_labels = [];
  cohorts = [];
  cells = 0;
}

is_overhead : Row → Bool
is_overhead r =
    text_eq (value r call_type) (codes "pass_through_endpoint")
    && text_eq (value r internal_call_origin) (codes "autorouter_classifier")

-- A row that is not analyzed goes to the classifier's overhead or to the other rows of its period.
unfoldable pub add_unsupported : Accumulator → Row → Side → Accumulator
unfolding is_overhead
add_unsupported a r before =
    if is_overhead r
    then record a { overhead_before = add_measure a.overhead_before r }
    else record a { other_before = add_measure a.other_before r }
add_unsupported a r after =
    if is_overhead r
    then record a { overhead_after = add_measure a.overhead_after r }
    else record a { other_after = add_measure a.other_after r }

-- The totals of the row's period.
unfoldable pub add_pair : Pair → Side → Entry → Bool → Result Pair
add_pair p before e k = add_row p.in_before e k >>= λ t. ok (record p { in_before = t })
add_pair p after e k = add_row p.in_after e k >>= λ t. ok (record p { in_after = t })

-- The cell of a model in a cohort, which is new at a model's first row; with the number of new cells.
unfoldable pub add_cell : List Cell → RoutingId → ℕ → Side → Entry → ℕ → Result (List Cell × ℕ)
add_cell [] i cells side e n =
    let made = add_pair new_pair side e i.known >>= λ t.
    ok (record { id = i; totals = t; ordinal = n } ∷ [], 1) in
    if leb 16384 cells then err too_many_cells else made
add_cell (c ∷ cs) i cells side e n =
    let here = add_pair c.totals side e i.known >>= λ t. ok (record c { totals = t } ∷ cs, 0) in
    let rest = add_cell cs i cells side e n >>= λ p. ok (c ∷ p.0, p.1) in
    if same_id c.id i then here else rest

add_to_cohort : Cohort → RoutingId → ℕ → Side → Entry → Result (Cohort × ℕ)
unfolding add_cell
add_to_cohort c i cells side e = do
  t ← add_pair c.totals side e i.known
  (ms, k) ← add_cell c.models i cells side e e.row.row_number
  ok (record c { totals = t; models = ms }, k)

new_cohort : RoutingId → RoutingId → ℕ → Cohort
new_cohort route agent n = record {
  route = route;
  agent = agent;
  totals = new_pair;
  models = [];
  ordinal = n;
}

-- The cohort of a route and an agent, which is new at its first row; `n` is the number of cohorts before the
-- list at hand.
unfoldable pub add_cohort :
    ℕ
    → List Cohort
    → RoutingId
    → RoutingId
    → RoutingId
    → ℕ
    → Side
    → Entry
    → Result (List Cohort × ℕ)
unfolding add_to_cohort new_cohort
add_cohort n [] route agent i cells side e =
    let made = add_to_cohort (new_cohort route agent e.row.row_number) i cells side e >>= λ p.
    ok (p.0 ∷ [], p.1) in
    if leb 4096 n then err too_many_cohorts else made
add_cohort n (c ∷ cs) route agent i cells side e =
    let here = add_to_cohort c i cells side e >>= λ p. ok (p.0 ∷ cs, p.1) in
    let rest = add_cohort (n + 1) cs route agent i cells side e >>= λ p. ok (c ∷ p.0, p.1) in
    if same_id c.route route && same_id c.agent agent then here else rest

module _ (identity : Text → Text → Option ℕ) (catalog : Text → Option Text) where
  id_of_hash : Option ℕ → RoutingId
  id_of_hash none = unknown_id
  id_of_hash (some h) = record { hash = h; known = true }

  row_identity_of : FieldState → Text → Text → RoutingId
  row_identity_of known kind v = id_of_hash (identity kind v)
  row_identity_of _ kind v = unknown_id

  -- `routingRowIdentity`
  unfoldable pub row_identity : Row → Text → Column → RoutingId
  unfolding row_identity_of id_of_hash
  row_identity r kind c = row_identity_of (text_state r c) kind (value r c)

  provider_is : Option Text → Text → Bool
  provider_is none p = false
  provider_is (some q) p = text_eq q p

  public_of_cut : Option (Text × Text) → Text → Text
  unfolding provider_is
  public_of_cut none provider = []
  public_of_cut (some (prefix, name)) provider =
      if text_eq prefix provider && not (is_empty prefix) && provider_is (catalog name) prefix
      then name
      else []

  public_of : Option Text → Text → Text → Text
  unfolding public_of_cut
  public_of (some q) model_name provider = model_name
  public_of none model_name provider = public_of_cut (cut model_name) provider

  -- `reprice.PublicModelID`
  unfoldable pub public_model_id : Text → Text → Text
  unfolding public_of cut
  public_model_id model_name provider = public_of (catalog model_name) model_name provider

  route_of : Row → RoutingId
  route_of r = row_identity r (codes "route") original_model_group

  agent_of : Accumulator → Row → RoutingId
  agent_of a r = if a.by_agent then row_identity r (codes "agent") agent_id else unknown_id

  model_of : Row → RoutingId
  model_of r = if selected_model_known r then row_identity r (codes "model") model else unknown_id

  add_supported : Accumulator → Side → Entry → Result Accumulator
  unfolding route_of agent_of model_of
  add_supported a side e =
      let r = e.row in
      let route = route_of r in
      let agent = agent_of a r in
      let i = model_of r in
      register a.routes route 128 >>= λ routes. register a.agents agent 1024 >>= λ agents.
      register a.models i 128 >>= λ models.
      add_cohort 0 a.cohorts route agent i a.cells side e >>= λ p.
      add_pair a.totals side e i.known >>= λ t. ok (record a {
        totals = t;
        routes = routes;
        agents = agents;
        models = models;
        model_labels =
            remember_label a.model_labels i
              (public_model_id (value r model) (value r custom_llm_provider));
        route_labels =
            if a.show_labels
            then remember_label a.route_labels route (value r original_model_group)
            else a.route_labels;
        agent_labels =
            if a.show_labels
            then remember_label a.agent_labels agent (value r agent_id)
            else a.agent_labels;
        cohorts = p.0;
        cells = a.cells + p.1;
      })

  -- `routingAccumulator.add`. An error ends the run, so that the order of the three additions, each of which may
  -- refuse the row, shows in no result.
  unfoldable pub add_routed : Accumulator → Side → Entry → Result Accumulator
  unfolding add_supported
  add_routed a side e =
      let supported = add_supported a side e in
      if is_empty (operation (value e.row call_type))
      then ok (add_unsupported a e.row side)
      else supported
