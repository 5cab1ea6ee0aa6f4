-- ===== src/Spend/Selection.antt =====
-- internal/spend/selection.go: the options of a routing audit, the scope that selects rows, the end times of rows;
-- and of internal/spend/routing.go how the accumulator observes a row before the scope is applied.
use fleetdiff.Base.{
  ℕ, ◌==◌, Bool, true, false, ◌&&◌, ◌||◌, not, Option, none, some, ltb, if◌then◌else◌, length,
  add64, Result, ok, err, show_labels, routing_option, scope_option, bad_identity, bad_record,
}
use fleetdiff.Text.{Text, codes, text_eq, is_empty}
use fleetdiff.Text.Utf8.{valid_utf8, is_blank}
use fleetdiff.Spend.Row.{Row, Column, value, original_model_group, agent_id, end_time}
use fleetdiff.Spend.Routing.Fields.{
  FieldState, known, max_field_bytes, text_state, Side, before, after, Coverage, add_coverage,
}

-- The options that `validateRoutingOptions` reads.
pub record Options : Type 0 where
  pub before_period : Text
  pub after_period : Text
  pub group_by : Text
  pub daily_spend_path : Text
  pub scope_route : Text
  pub scope_agent : Text
  pub routing_audit : Bool
  pub routing_by : Text
  pub labels_shown : Bool
  pub labels_acknowledged : Bool

differ : Bool → Bool → Bool
differ true b = not b
differ false b = b

-- An audit that names no grouping groups by route.
defaulted : Options → Options
defaulted o =
    if o.routing_audit && is_empty o.routing_by then record o { routing_by = codes "route" } else o

bad_scope : Text → Bool
bad_scope v =
    not (is_empty v) && (not (valid_utf8 v) || ltb max_field_bytes (length v) || is_blank v)

scope_checked : Options → Result Options
unfolding bad_scope
scope_checked o =
    if is_empty o.scope_route && is_empty o.scope_agent
    then ok o
    else if is_empty o.before_period || is_empty o.after_period
    then err scope_option
    else if not (is_empty o.daily_spend_path) || text_eq o.group_by (codes "session")
    then err scope_option
    else if bad_scope o.scope_route || bad_scope o.scope_agent
    then err scope_option
    else ok o

by_checked : Options → Result Options
unfolding scope_checked
by_checked o =
    if o.routing_audit
      && not (text_eq o.routing_by (codes "route"))
      && not (text_eq o.routing_by (codes "route-agent"))
    then err routing_option
    else if not (is_empty o.scope_route) && not (is_empty o.scope_agent)
    then err scope_option
    else scope_checked o

-- `validateRoutingOptions`, which returns the options with the default filled in.
unfoldable pub validate_routing_options : Options → Result Options
unfolding by_checked defaulted differ
validate_routing_options o =
    if differ o.labels_shown o.labels_acknowledged
    then err show_labels
    else if o.labels_shown && not o.routing_audit && not (text_eq o.group_by (codes "agent"))
    then err show_labels
    else if not (is_empty o.routing_by) && not o.routing_audit
    then err routing_option
    else by_checked (defaulted o)

-- `validateRoutingEnd`; `timestamp` is the one of the periods.
end_checked : Option ℕ → ℕ → ℕ → Result (Unit {0})
end_checked none start now = err bad_record
end_checked (some stop) start now = if ltb stop start || ltb now stop then err bad_record else ok tt

unfoldable pub validate_routing_end : (Text → Option ℕ) → Row → ℕ → ℕ → Result (Unit {0})
unfolding end_checked
validate_routing_end timestamp r start now =
    let checked = end_checked (timestamp (value r end_time)) start now in
    if is_empty (value r end_time) then ok tt else checked

-- `scopeSelection`: a route or an agent, with its keyed hash.
pub data ScopeKind : Type 0 where
  route agent : ScopeKind

pub record ScopeSelection : Type 0 where
  pub kind : ScopeKind
  pub hash : ℕ

abbrev pub kind_text : ScopeKind → Text
kind_text route = codes "route"
kind_text agent = codes "agent"

-- `scopeField`
abbrev pub scope_field : ScopeKind → Column
scope_field route = original_model_group
scope_field agent = agent_id

-- What `match` says of a row: whether it is in the scope, and whether its identity is known.
pub record Match : Type 0 where
  pub matched : Bool
  pub is_known : Bool

hash_match : Option ℕ → ℕ → Match
hash_match none h = record { matched = false; is_known = false }
hash_match (some g) h = record { matched = g == h; is_known = true }

state_match : FieldState → Match → Match
state_match known m = m
state_match _ m = record { matched = false; is_known = false }

pub record ScopeCounts : Type 0 where
  pub matched_rows : ℕ
  pub nonmatching_known_rows : ℕ
  pub unknown_identity_rows : ℕ

abbrev pub no_scope_counts : ScopeCounts
no_scope_counts = record { matched_rows = 0; nonmatching_known_rows = 0; unknown_identity_rows = 0 }

unfoldable pub count_match : ScopeCounts → Match → ScopeCounts
count_match c m =
    if m.matched
    then record c { matched_rows = add64 c.matched_rows 1 }
    else if m.is_known
    then record c { nonmatching_known_rows = add64 c.nonmatching_known_rows 1 }
    else record c { unknown_identity_rows = add64 c.unknown_identity_rows 1 }

-- What the accumulator keeps of the rows before the scope.
pub record Observed : Type 0 where
  pub coverage : Coverage
  pub scope_before : ScopeCounts
  pub scope_after : ScopeCounts

module _ (identity : Text → Text → Option ℕ) where
  selection_of : ScopeKind → Option ℕ → Result (Option ScopeSelection)
  selection_of k none = err bad_identity
  selection_of k (some h) = ok (some (record { kind = k; hash = h }))

  -- `newScopeSelection`
  unfoldable pub new_scope_selection : Options → Result (Option ScopeSelection)
  unfolding selection_of
  new_scope_selection o =
      if not (is_empty o.scope_agent)
      then selection_of agent (identity (kind_text agent) o.scope_agent)
      else if not (is_empty o.scope_route)
      then selection_of route (identity (kind_text route) o.scope_route)
      else ok none

  -- `scopeSelection.match`
  unfoldable pub match_row : Option ScopeSelection → Row → Match
  unfolding state_match hash_match
  match_row none r = record { matched = true; is_known = true }
  match_row (some s) r =
      state_match (text_state r (scope_field s.kind))
        (hash_match (identity (kind_text s.kind) (value r (scope_field s.kind))) s.hash)

  scope_counted : Option ScopeSelection → ScopeCounts → Match → ScopeCounts
  scope_counted none c m = c
  scope_counted (some s) c m = count_match c m

  -- `routingAccumulator.observe`, with whether the row matches.
  unfoldable pub observe_row : Option ScopeSelection → Observed → Row → Side → Observed × Bool
  unfolding scope_counted
  observe_row s o r before =
      let m = match_row s r in
      (
        record o {
          coverage = add_coverage o.coverage r before;
          scope_before = scope_counted s o.scope_before m;
        },
        m.matched,
      )
  observe_row s o r after =
      let m = match_row s r in
      (
        record o {
          coverage = add_coverage o.coverage r after;
          scope_after = scope_counted s o.scope_after m;
        },
        m.matched,
      )
