-- ===== src/Spend/Routing/Fields.antt =====
-- internal/spend/routing.go: the state of a routing field in a row, and the coverage counts.
use fleetdiff.Base.{
  ℕ, Bool, true, false, ◌&&◌, ◌||◌, not, Option, none, some, List, [], ◌∷◌, ltb, add64,
  if◌then◌else◌, length,
}
use fleetdiff.Text.{Text, codes, text_eq, one_of, is_empty}
use fleetdiff.Text.Utf8.{valid_utf8, is_blank, trim}
use fleetdiff.Text.Digits.{parse_uint}
use fleetdiff.Spend.Row.{
  Row, Column, value, operation, call_type, agent_id, original_model_group, attempted_fallbacks,
  model, model_id, internal_call_origin,
}

pub data FieldState : Type 0 where
  known absent empty invalid : FieldState

abbrev pub max_field_bytes : ℕ
max_field_bytes = 8192

present_state : Text → FieldState
present_state v =
    if not (valid_utf8 v) || ltb max_field_bytes (length v)
    then invalid
    else if is_blank v
    then empty
    else known

text_state_of : Option Text → FieldState
unfolding present_state
text_state_of none = absent
text_state_of (some v) = present_state v

unfoldable pub text_state : Row → Column → FieldState
unfolding text_state_of
text_state r c = text_state_of (r.values c)

-- `RoutingSelectedTextKnown`: not a placeholder for an unavailable identity.
unfoldable pub selected_text_known : Text → Bool
selected_text_known v =
    if not (valid_utf8 v) || ltb max_field_bytes (length v) || is_blank v
    then false
    else not (
        one_of (trim v) (
          codes "unknown"
          ∷ codes "Unknown"
          ∷ codes "unknown_model"
          ∷ codes "__unknown__"
          ∷ codes "__other__"
          ∷ codes "__missing__"
          ∷ codes "__unmapped__"
          ∷ codes "__overflow__"
          ∷ []))

model_state_of : FieldState → Bool → FieldState
model_state_of known selected = if selected then known else invalid
model_state_of s selected = s

unfoldable pub model_state : Row → Column → FieldState
unfolding model_state_of
model_state r c = model_state_of (text_state r c) (selected_text_known (value r c))

abbrev pub is_known : FieldState → Bool
is_known known = true
is_known _ = false

unfoldable pub selected_model_known : Row → Bool
selected_model_known r = is_known (model_state r model) && is_known (model_state r model_id)

-- `ParseUint(v, 10, 63)` refuses whatever the loop over the bytes refuses.
fallback_number : Option ℕ → ℕ × FieldState
fallback_number none = (0, invalid)
fallback_number (some n) = (n, known)

fallback_of : FieldState → Text → ℕ × FieldState
unfolding fallback_number
fallback_of known v = fallback_number (parse_uint 9223372036854775807 v)
fallback_of s v = (0, s)

unfoldable pub fallback : Row → ℕ × FieldState
unfolding fallback_of
fallback r = fallback_of (text_state r attempted_fallbacks) (value r attempted_fallbacks)

pub record FieldCoverage : Type 0 where
  pub known_rows : ℕ
  pub column_absent_rows : ℕ
  pub empty_or_null_rows : ℕ
  pub invalid_rows : ℕ
  pub missing_rows : ℕ

abbrev pub no_coverage : FieldCoverage
no_coverage = record {
  known_rows = 0;
  column_absent_rows = 0;
  empty_or_null_rows = 0;
  invalid_rows = 0;
  missing_rows = 0;
}

unfoldable pub add_state : FieldCoverage → FieldState → FieldCoverage
add_state c known = record c { known_rows = add64 c.known_rows 1 }
add_state c absent = record c {
  column_absent_rows = add64 c.column_absent_rows 1;
  missing_rows = add64 c.missing_rows 1;
}
add_state c empty = record c {
  empty_or_null_rows = add64 c.empty_or_null_rows 1;
  missing_rows = add64 c.missing_rows 1;
}
add_state c invalid = record c {
  invalid_rows = add64 c.invalid_rows 1;
  missing_rows = add64 c.missing_rows 1;
}

pub record RoutingFields : Type 0 where
  pub agent : FieldCoverage
  pub original_route : FieldCoverage
  pub attempted : FieldCoverage
  pub selected_model : FieldCoverage
  pub deployment : FieldCoverage
  pub overhead_marker : FieldCoverage

abbrev pub no_fields : RoutingFields
no_fields = record {
  agent = no_coverage;
  original_route = no_coverage;
  attempted = no_coverage;
  selected_model = no_coverage;
  deployment = no_coverage;
  overhead_marker = no_coverage;
}

unfoldable pub add_fields : RoutingFields → Row → RoutingFields
add_fields c r = record {
  agent = add_state c.agent (text_state r agent_id);
  original_route = add_state c.original_route (text_state r original_model_group);
  attempted = add_state c.attempted (fallback r).1;
  selected_model = add_state c.selected_model (model_state r model);
  deployment = add_state c.deployment (model_state r model_id);
  overhead_marker = add_state c.overhead_marker (text_state r internal_call_origin);
}

-- The periods of a comparison: `side` 0 and 1.
pub data Side : Type 0 where
  before after : Side

pub record CallTypeCoverage : Type 0 where
  pub call_type_name : Text
  pub fields_before : RoutingFields
  pub fields_after : RoutingFields

pub record Coverage : Type 0 where
  pub all_before : RoutingFields
  pub all_after : RoutingFields
  pub by_call_type : List CallTypeCoverage

-- Only supported names and `pass_through_endpoint` are shown.
unfoldable pub coverage_name : Row → Text
coverage_name r =
    if is_empty (operation (value r call_type))
      && not (text_eq (value r call_type) (codes "pass_through_endpoint"))
    then codes "unknown"
    else value r call_type

unfoldable pub add_side : Side → Row → CallTypeCoverage → CallTypeCoverage
add_side before r c = record c { fields_before = add_fields c.fields_before r }
add_side after r c = record c { fields_after = add_fields c.fields_after r }

abbrev new_call_type : Text → CallTypeCoverage
new_call_type name = record {
  call_type_name = name;
  fields_before = no_fields;
  fields_after = no_fields;
}

-- The entry of the name, which is appended if it is new.
unfoldable pub add_named : Text → Side → Row → List CallTypeCoverage → List CallTypeCoverage
add_named name s r [] = add_side s r (new_call_type name) ∷ []
add_named name s r (c ∷ cs) =
    if text_eq c.call_type_name name then add_side s r c ∷ cs else c ∷ add_named name s r cs

add_all : Side → Row → Coverage → Coverage
add_all before r c = record c { all_before = add_fields c.all_before r }
add_all after r c = record c { all_after = add_fields c.all_after r }

unfoldable pub add_coverage : Coverage → Row → Side → Coverage
unfolding add_all
add_coverage c r s = record (add_all s r c) {
  by_call_type = add_named (coverage_name r) s r c.by_call_type;
}
