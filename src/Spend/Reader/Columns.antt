-- ===== src/Spend/Reader/Columns.antt =====
-- internal/spend/reader.go: the names of the columns that are read, kept when empty, or required.
use fleetdiff.Base.{
  Bool, ◌&&◌, ◌||◌, List, [], ◌∷◌, if◌then◌else◌, Result, ok, err, bad_columns, aggregate_export,
}
use fleetdiff.Text.{Text, codes, one_of}

unfoldable pub allowed_column : Text → Bool
allowed_column name = one_of name (
    codes "request_id"
    ∷ codes "call_type"
    ∷ codes "api_key"
    ∷ codes "user"
    ∷ codes "team_id"
    ∷ codes "organization_id"
    ∷ codes "end_user"
    ∷ codes "model"
    ∷ codes "model_id"
    ∷ codes "model_group"
    ∷ codes "custom_llm_provider"
    ∷ codes "prompt_tokens"
    ∷ codes "completion_tokens"
    ∷ codes "total_tokens"
    ∷ codes "spend"
    ∷ codes "status"
    ∷ codes "session_id"
    ∷ codes "startTime"
    ∷ codes "endTime"
    ∷ codes "cache_read_input_tokens"
    ∷ codes "cache_write_input_tokens"
    ∷ codes "reasoning_output_tokens"
    ∷ codes "agent_id"
    ∷ codes "rejection_kind"
    ∷ codes "request_tags"
    ∷ [])

unfoldable pub routing_reader_column : Text → Bool
routing_reader_column name =
    one_of name (
      codes "original_model_group"
      ∷ codes "attempted_fallbacks"
      ∷ codes "internal_call_origin"
      ∷ [])

unfoldable pub retain_spend_empty : Text → Bool → Bool
retain_spend_empty name routing =
    one_of name (codes "rejection_kind" ∷ codes "request_tags" ∷ [])
    || (routing
        && (routing_reader_column name
            || one_of name (codes "agent_id" ∷ codes "model" ∷ codes "model_id" ∷ [])))

abbrev pub required_columns : List Text
required_columns =
    codes "request_id"
    ∷ codes "call_type"
    ∷ codes "startTime"
    ∷ codes "prompt_tokens"
    ∷ codes "completion_tokens"
    ∷ codes "total_tokens"
    ∷ []

-- `seen` holds the names of the record; a name that only an aggregate has says what the export is instead.
missing_column : List Text → Result (Unit {0})
missing_column seen =
    if one_of (codes "data") seen || one_of (codes "Date") seen || one_of (codes "Spend ($)") seen
    then err aggregate_export
    else err bad_columns

columns_from : List Text → List Text → Result (Unit {0})
unfolding missing_column
columns_from [] seen = ok tt
columns_from (key ∷ keys) seen =
    let rest = columns_from keys seen in if one_of key seen then rest else missing_column seen

unfoldable pub check_spend_columns : List Text → Result (Unit {0})
unfolding columns_from
check_spend_columns seen = columns_from required_columns seen
