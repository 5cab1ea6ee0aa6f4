-- ===== src/Accounting/Names.antt =====
-- internal/accounting/accounting.go: the attribute names, the fields of `Fields` and the keys of an
-- `Observation`. A key that the source spells as text is a constructor here; `gen_ai_sketch_` is left off.
use fleetdiff.Base.{List, [], ◌∷◌}

pub data Attribute : Type 0 where
  input_tokens prompt_tokens output_tokens completion_tokens : Attribute
  cache_read_input_tokens cache_write_input_tokens cache_creation_input_tokens : Attribute
  reasoning_output_tokens : Attribute
  input_provenance output_provenance operation_name request_model : Attribute

pub data Field : Type 0 where
  input output cache_read_input cache_write_input reasoning_output : Field

-- `Fields[i].Sources`, in the order in which they are read.
abbrev pub sources : Field → List Attribute
sources input = input_tokens ∷ prompt_tokens ∷ []
sources output = output_tokens ∷ completion_tokens ∷ []
sources cache_read_input = cache_read_input_tokens ∷ []
sources cache_write_input = cache_write_input_tokens ∷ cache_creation_input_tokens ∷ []
sources reasoning_output = reasoning_output_tokens ∷ []

-- The keys of `Metrics`; `total_of f` is `Fields[i].Metric`.
pub data Metric : Type 0 where
  requests_total total_tokens_total missing_token_usage_total : Metric
  total_of : Field → Metric

-- The keys of `Quality` are a field and a mark, `input/missing`.
pub data Mark : Type 0 where
  reported missing invalid conflict subset_violation : Mark

-- The keys of `Provenance` are `input` or `output` and an origin.
pub data Origin : Type 0 where
  provider_reported inferred unavailable unknown : Origin

abbrev pub metrics : List Metric
metrics =
    requests_total
    ∷ total_of input
    ∷ total_of output
    ∷ total_of cache_read_input
    ∷ total_of cache_write_input
    ∷ total_of reasoning_output
    ∷ missing_token_usage_total
    ∷ total_tokens_total
    ∷ []
