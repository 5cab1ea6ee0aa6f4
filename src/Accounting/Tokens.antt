-- ===== src/Accounting/Tokens.antt =====
-- internal/accounting/accounting.go: `Tokens`, `ModelAttempt` and `stringAttribute`.
pub mod Reading
pub mod Sound
use fleetdiff.Base.{
  ℕ, ◌≡◌, Bool, true, false, ◌&&◌, ◌||◌, not, Option, none, some, List, [], ◌∷◌, ltb, ◌==◌,
  if◌then◌else◌, flag, Result, ok, err, ◌>>=◌, fold_ok,
}
use fleetdiff.Text.{Text, codes, one_of, text_eq, is_empty}
use fleetdiff.Accounting.Number.{Value, string_value, number, add_bounded}
use fleetdiff.Accounting.Names.{
  Attribute, input_provenance, output_provenance, operation_name, request_model, Field, input,
  output, cache_read_input, cache_write_input, reasoning_output, sources, Metric, requests_total,
  total_tokens_total, missing_token_usage_total, total_of, Mark, reported, missing, invalid,
  conflict, subset_violation, Origin, provider_reported, inferred, unavailable, unknown,
}

-- `map[string]*AnyValue`.
abbrev pub Attributes : Type 0
Attributes = Attribute → Option Value

-- `tokenObservation`
pub record Seen : Type 0 where
  pub value : ℕ
  pub is_reported : Bool
  pub is_invalid : Bool
  pub is_conflict : Bool

abbrev pub unseen : Seen
unseen = record { value = 0; is_reported = false; is_invalid = false; is_conflict = false }

-- What one source attribute adds: an invalid value, the first valid one or a later one.
unfoldable pub record_number : Seen → Option ℕ → Seen
record_number o none = record o { is_invalid = true }
record_number o (some n) =
    if not o.is_reported
    then record o { value = n; is_reported = true }
    else if o.value == n
    then o
    else record o { is_conflict = true }

unfoldable pub observe_source : Attributes → Seen → Attribute → Result Seen
unfolding record_number
observe_source attrs o source = elim (attrs source) [
  | none ↦ ok o
  | some v ↦ number v >>= λ n. ok (record_number o n)
]

unfoldable pub observe : Attributes → Field → Result Seen
unfolding observe_source
observe attrs f = fold_ok (observe_source attrs) unseen (sources f)

-- `v.GetStringValue()` is empty for another payload.
string_of : Option Value → Text
string_of (some (string_value s)) = s
string_of _ = []

unfoldable pub string_attribute : Attributes → Attribute → Text
unfolding string_of
string_attribute attrs key = string_of (attrs key)

-- The declared origin, which a count that is absent or in doubt does not support.
unfoldable pub origin_named : Text → Origin
origin_named s =
    if text_eq s (codes "provider_reported")
    then provider_reported
    else if text_eq s (codes "inferred")
    then inferred
    else if text_eq s (codes "unavailable")
    then unavailable
    else unknown

abbrev is_doubtful : Seen → Bool
is_doubtful o = not o.is_reported || o.is_invalid || o.is_conflict

unfoldable pub supported_origin : Origin → Bool → Origin
supported_origin provider_reported doubtful = if doubtful then unknown else provider_reported
supported_origin inferred doubtful = if doubtful then unknown else inferred
supported_origin o _ = o

unfoldable pub origin : Text → Seen → Origin
unfolding origin_named supported_origin
origin s o = supported_origin (origin_named s) (is_doubtful o)

-- A count declared unavailable is dropped.
unfoldable pub withdraw : Origin → Seen → Seen
withdraw unavailable o = record o { value = 0; is_reported = false }
withdraw _ o = o

-- The five elements of `observations`.
pub record Usage : Type 0 where
  pub of_input : Seen
  pub of_output : Seen
  pub of_cache_read : Seen
  pub of_cache_write : Seen
  pub of_reasoning : Seen

abbrev pub seen : Usage → Field → Seen
seen u input = u.of_input
seen u output = u.of_output
seen u cache_read_input = u.of_cache_read
seen u cache_write_input = u.of_cache_write
seen u reasoning_output = u.of_reasoning

-- `o.value > parent.value` of a subset that is reported along with its parent.
abbrev pub exceeds : Seen → Seen → Bool
exceeds o parent = parent.is_reported && o.is_reported && ltb parent.value o.value

-- Only the first two fields can be missing; only the others are subsets.
unfoldable pub field_missing : Usage → Field → ℕ
field_missing u input = flag (not u.of_input.is_reported)
field_missing u output = flag (not u.of_output.is_reported)
field_missing u _ = 0

unfoldable pub field_exceeds : Usage → Field → ℕ
field_exceeds u input = 0
field_exceeds u output = 0
field_exceeds u reasoning_output = flag (exceeds u.of_reasoning u.of_output)
field_exceeds u cache_read_input = flag (exceeds u.of_cache_read u.of_input)
field_exceeds u cache_write_input = flag (exceeds u.of_cache_write u.of_input)

unfoldable pub field_quality : Usage → Field → Mark → ℕ
unfolding field_missing field_exceeds
field_quality u f reported = flag (seen u f).is_reported
field_quality u f missing = field_missing u f
field_quality u f invalid = flag (seen u f).is_invalid
field_quality u f conflict = flag (seen u f).is_conflict
field_quality u f subset_violation = field_exceeds u f

-- A key that is absent from a map reads as 0, and no key is ever set to 0 but the five counts.
pub record Observation : Type 0 where
  pub metric : Metric → ℕ
  pub quality : Field → Mark → ℕ
  pub provenance_input : Origin
  pub provenance_output : Origin

unfoldable pub metric_of : Usage → ℕ → Metric → ℕ
metric_of u total requests_total = 1
metric_of u total total_tokens_total = total
metric_of u total missing_token_usage_total =
    flag (not u.of_input.is_reported || not u.of_output.is_reported)
metric_of u total (total_of f) = (seen u f).value

abbrev pub observation : Usage → Origin → Origin → ℕ → Observation
observation u i o total = record {
  metric = metric_of u total;
  quality = field_quality u;
  provenance_input = i;
  provenance_output = o;
}

-- The second and third loop and the sum, once the attributes are read.
unfoldable pub assemble : Attributes → Usage → Result Observation
unfolding string_attribute
assemble attrs u =
    let i = origin (string_attribute attrs input_provenance) u.of_input in
    let o = origin (string_attribute attrs output_provenance) u.of_output in
    let kept = record u { of_input = withdraw i u.of_input; of_output = withdraw o u.of_output } in
    add_bounded kept.of_input.value kept.of_output.value >>= λ total.
    ok (observation kept i o total)

unfoldable pub read_usage : Attributes → Result Usage
read_usage attrs = do
  i ← observe attrs input
  o ← observe attrs output
  r ← observe attrs cache_read_input
  w ← observe attrs cache_write_input
  t ← observe attrs reasoning_output
  ok (record {
    of_input = i;
    of_output = o;
    of_cache_read = r;
    of_cache_write = w;
    of_reasoning = t;
  })

unfoldable pub tokens : Attributes → Result Observation
tokens attrs = read_usage attrs >>= assemble attrs

unfoldable pub model_attempt : Attributes → Bool
unfolding string_attribute
model_attempt attrs =
    let name = string_attribute attrs operation_name in
    if one_of name
      (codes "chat" ∷ codes "generate_content" ∷ codes "text_completion" ∷ codes "embeddings" ∷ [])
    then true
    else is_empty name && not (is_empty (string_attribute attrs request_model))
