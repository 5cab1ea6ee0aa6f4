-- ===== src/Spend/Replay/Attribution.antt =====
-- internal/spend/reprice.go: the counts of the source that `readReprice` keeps, with the attribution of its rows.
use fleetdiff.Base.{ℕ, Bool, true, false, ◌||◌, List, [], ◌∷◌, if◌then◌else◌, add64}
use fleetdiff.Text.{Text, codes, text_eq}
use fleetdiff.Spend.Row.{
  Row, value, is_supported, call_type, model, model_id, original_model_group, agent_id,
}
use fleetdiff.Spend.Routing.Fields.{is_known, text_state, model_state, selected_model_known}

-- `IdentityCoverage` and `AttributionFields`.
pub record IdentityCoverage : Type 0 where
  pub known_rows : ℕ
  pub unknown_rows : ℕ

pub record AttributionFields : Type 0 where
  pub rows : ℕ
  pub route : IdentityCoverage
  pub agent : IdentityCoverage
  pub selected_model : IdentityCoverage
  pub deployment : IdentityCoverage
  pub served_identity : IdentityCoverage

abbrev pub no_identities : IdentityCoverage
no_identities = record { known_rows = 0; unknown_rows = 0 }

abbrev pub no_attribution : AttributionFields
no_attribution = record {
  rows = 0;
  route = no_identities;
  agent = no_identities;
  selected_model = no_identities;
  deployment = no_identities;
  served_identity = no_identities;
}

count_identity : Bool → IdentityCoverage → IdentityCoverage
count_identity c i =
    if c
    then record i { known_rows = add64 i.known_rows 1 }
    else record i { unknown_rows = add64 i.unknown_rows 1 }

unfoldable pub count_attribution : Row → AttributionFields → AttributionFields
unfolding count_identity
count_attribution r a = record {
  rows = add64 a.rows 1;
  route = count_identity (is_known (text_state r original_model_group)) a.route;
  agent = count_identity (is_known (text_state r agent_id)) a.agent;
  selected_model = count_identity (is_known (model_state r model)) a.selected_model;
  deployment = count_identity (is_known (model_state r model_id)) a.deployment;
  served_identity = count_identity (selected_model_known r) a.served_identity;
}

count_call_type : Text → Row → List (Text × AttributionFields) → List (Text × AttributionFields)
count_call_type k r [] = (k, count_attribution r no_attribution) ∷ []
count_call_type k r ((j, a) ∷ ts) =
    let rest = count_call_type k r ts in
    if text_eq j k then (j, count_attribution r a) ∷ ts else (j, a) ∷ rest

-- The name that a type of call is counted under.
attributed_type : Row → Text
attributed_type r =
    if is_supported r || text_eq (value r call_type) (codes "pass_through_endpoint")
    then value r call_type
    else codes "unknown"

-- `Source`, as the reading fills it.
pub record Source : Type 0 where
  pub rows : ℕ
  pub outside : ℕ
  pub attribution : AttributionFields
  pub by_call_type : List (Text × AttributionFields)
  pub any_unsupported : Bool
  pub failed_usage : ℕ
  pub seen : List (List ℕ)

unfoldable pub count_routing : Bool → Row → Source → Source
unfolding count_call_type attributed_type
count_routing false r s = s
count_routing true r s = record s {
  attribution = count_attribution r s.attribution;
  by_call_type = count_call_type (attributed_type r) r s.by_call_type;
}
