-- ===== src/Spend/Row.antt =====
-- internal/spend/reader.go: `Row`, and the column names that the analysis reads.
use fleetdiff.Base.{ℕ, Bool, Option, none, some, [], ◌∷◌, not, if◌then◌else◌}
use fleetdiff.Text.{Text, codes, one_of, is_empty}

-- The allowlisted columns that the modelled code reads.
pub data Column : Type 0 where
  request_id call_type api_key user team_id end_user session_id : Column
  model model_id custom_llm_provider : Column
  prompt_tokens completion_tokens total_tokens : Column
  cache_read_input_tokens cache_write_input_tokens reasoning_output_tokens : Column
  spend status start_time end_time agent_id rejection_kind : Column
  original_model_group attempted_fallbacks internal_call_origin request_tags : Column

pub record Row : Type 0 where
  pub values : Column → Option Text
  pub row_number : ℕ
  pub observation_level : Text

-- `row.Values[field]`, which is empty for an absent column.
abbrev text_or_empty : Option Text → Text
text_or_empty none = []
text_or_empty (some s) = s

abbrev pub value : Row → Column → Text
value r c = text_or_empty (r.values c)

-- internal/spend/accounting.go: `operation`.
unfoldable pub operation : Text → Text
unfolding one_of
operation v =
    if one_of v (
      codes "completion"
      ∷ codes "acompletion"
      ∷ codes "anthropic_messages"
      ∷ codes "aanthropic_messages"
      ∷ codes "responses"
      ∷ codes "aresponses"
      ∷ [])
    then codes "chat"
    else if one_of v (codes "text_completion" ∷ codes "atext_completion" ∷ [])
    then codes "text_completion"
    else []

-- `operation(row.Values["call_type"]) != ""`
unfoldable pub is_supported : Row → Bool
is_supported r = not (is_empty (operation (value r call_type)))
