-- ===== src/Spend/Agents.antt =====
-- internal/spend/agents.go: the options of an agent grouping, the agent of a row and the accumulator of agents. The two
-- calls of `json.Unmarshal` are parameters.
pub mod Accumulator
pub mod Counted
mod Tests
use fleetdiff.Base.{
  ℕ, suc, ◌+◌, Bool, true, false, ◌&&◌, ◌||◌, not, Option, none, some, List, [], ◌∷◌, ltb, ◌==◌,
  if◌then◌else◌, length, Error, Result, ok, err, ◌>>=◌, agent_options, agent_field,
  request_tags_field, non_string_tags,
}
use fleetdiff.Text.{Text, codes, text_eq, one_of, is_empty}
use fleetdiff.Text.Utf8.{valid_utf8, is_blank, trim}
use fleetdiff.Spend.Row.{Row, agent_id, request_tags}
use fleetdiff.Spend.Reader.Json.{preflight_json}
use fleetdiff.Spend.Routing.Fields.{max_field_bytes}

pub record AgentOptions : Type 0 where
  pub group_by : Text
  pub agent_source : Text
  pub tag_prefix : Text
  pub rank_by : Text
  pub scope_agent : Text

bad_prefix : Text → Bool
bad_prefix s = is_blank s || ltb max_field_bytes (length s) || not (valid_utf8 s)

-- The checks after the source and its prefix.
rank_checked : AgentOptions → Result (Unit {0})
rank_checked o =
    if not (is_empty o.rank_by) && not (text_eq o.rank_by (codes "recorded-spend-change"))
    then err agent_options
    else if not (is_empty o.scope_agent) && text_eq o.agent_source (codes "request-tag")
    then err agent_options
    else ok tt

prefix_checked : AgentOptions → Result (Unit {0})
unfolding bad_prefix rank_checked
prefix_checked o =
    if text_eq o.agent_source (codes "request-tag")
    then (if bad_prefix o.tag_prefix then err agent_options else rank_checked o)
    else if not (is_empty o.tag_prefix)
    then err agent_options
    else rank_checked o

-- `ValidateAgentOptions`
unfoldable pub validate_agent_options : AgentOptions → Result (Unit {0})
unfolding prefix_checked
validate_agent_options o =
    if not (text_eq o.group_by (codes "agent"))
    then (if not (is_empty o.agent_source)
          || not (is_empty o.tag_prefix)
          || not (is_empty o.rank_by)
        then err agent_options
        else ok tt)
    else if not (text_eq o.agent_source (codes "agent_id"))
        && not (text_eq o.agent_source (codes "request-tag"))
    then err agent_options
    else prefix_checked o

pub data AgentState : Type 0 where
  known ambiguous unknown : AgentState

-- `agentResolution`
pub record Resolution : Type 0 where
  pub state : AgentState
  pub label : Text
  pub absent : Bool
  pub empty_field : Bool
  pub non_string : Bool
  pub repeated : ℕ
  pub empty_suffix : ℕ

abbrev pub unresolved : Resolution
unresolved = record {
  state = unknown;
  label = [];
  absent = false;
  empty_field = false;
  non_string = false;
  repeated = 0;
  empty_suffix = 0;
}

-- `strings.CutPrefix`
unfoldable pub cut_prefix : Text → Text → Option Text
cut_prefix [] s = some s
cut_prefix (c ∷ p) [] = none
cut_prefix (c ∷ p) (d ∷ s) = let rest = cut_prefix p s in if c == d then rest else none

-- The labels of the tags, each once, the last first, and the two counts.
pub record Labels : Type 0 where
  pub labels : List Text
  pub again : ℕ
  pub blank : ℕ

unfoldable pub take_label : Labels → Option Text → Labels
take_label l none = l
take_label l (some s) =
    if is_blank s
    then record l { blank = suc l.blank }
    else if one_of s l.labels
    then record l { again = suc l.again }
    else record l { labels = s ∷ l.labels }

unfoldable pub take_labels : Text → Labels → List Text → Labels
unfolding take_label cut_prefix
take_labels prefix l [] = l
take_labels prefix l (t ∷ ts) = take_labels prefix (take_label l (cut_prefix prefix t)) ts

unfoldable pub resolved_labels : Labels → List Text → Resolution
resolved_labels l [] = record unresolved { repeated = l.again; empty_suffix = l.blank }
resolved_labels l (s ∷ []) = record unresolved {
  state = known;
  label = s;
  repeated = l.again;
  empty_suffix = l.blank;
}
resolved_labels l (s ∷ t ∷ ts) = record unresolved {
  state = ambiguous;
  repeated = l.again;
  empty_suffix = l.blank;
}

unfoldable pub resolve_tags : Text → List Text → Resolution
unfolding take_labels resolved_labels
resolve_tags prefix tags =
    let l = take_labels prefix (record { labels = []; again = 0; blank = 0 }) tags in
    resolved_labels l l.labels

-- The elements of a JSON array as they are spelled, and the string that one of them spells.
module _ (elements : Text → Option (List Text)) (string_of : Text → Option Text) where
  is_quoted : Text → Bool
  is_quoted [] = false
  is_quoted (c ∷ s) = c == b'"'

  read_element : Bool → Option Text → Result Text
  read_element true (some s) = ok s
  read_element _ _ = err non_string_tags

  read_elements : List Text → Result (List Text)
  unfolding is_quoted read_element
  read_elements [] = ok []
  read_elements (e ∷ es) =
      read_element (is_quoted e) (string_of e) >>= λ s. read_elements es >>= λ ss. ok (s ∷ ss)

  read_array : Result (Unit {0}) → Option (List Text) → Result (List Text)
  unfolding read_elements
  read_array (err e) es = err request_tags_field
  read_array (ok u) none = err request_tags_field
  read_array (ok u) (some es) = read_elements es

  -- `ParseRequestTags`
  unfoldable pub parse_request_tags : Text → Result (List Text)
  unfolding read_array preflight_json
  parse_request_tags raw =
      if ltb max_field_bytes (length raw)
      then err request_tags_field
      else if text_eq (trim raw) (codes "null")
      then ok []
      else read_array (preflight_json raw 0) (elements raw)

  -- Rows of the database without a namespace may hold other values.
  tags_resolution : AgentOptions → Text → Result (List Text) → Result Resolution
  unfolding resolve_tags
  tags_resolution o namespace (ok tags) = ok (resolve_tags o.tag_prefix tags)
  tags_resolution o namespace (err non_string_tags) =
      if is_empty namespace
      then ok (record unresolved { non_string = true })
      else err non_string_tags
  tags_resolution o namespace (err e) = err e

  resolve_field : AgentOptions → Text → Bool → Option Text → Result Resolution
  unfolding tags_resolution parse_request_tags
  resolve_field o namespace by_tags none = ok (record unresolved { absent = true })
  resolve_field o namespace by_tags (some raw) =
      if ltb max_field_bytes (length raw) || not (valid_utf8 raw)
      then err agent_field
      else if is_blank raw || (by_tags && text_eq (trim raw) (codes "null"))
      then ok (record unresolved { empty_field = true })
      else if by_tags
      then tags_resolution o namespace (parse_request_tags raw)
      else ok (record unresolved { state = known; label = raw })

  -- `resolveAgent`, of a row in a namespace.
  unfoldable pub resolve_agent : Row → Text → AgentOptions → Result Resolution
  unfolding resolve_field
  resolve_agent r namespace o =
      if text_eq o.agent_source (codes "request-tag")
      then resolve_field o namespace true (r.values request_tags)
      else resolve_field o namespace false (r.values agent_id)
