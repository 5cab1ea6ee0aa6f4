-- ===== src/Spend/CallTypes.antt =====
-- internal/spend/coverage.go: `recordCallType`, and the counts of internal/spend/report.go that it fills.
pub mod RawSums
use fleetdiff.Base.{
  ℕ, ◌+◌, ◌==◌, Bool, true, false, ◌&&◌, ◌||◌, not, Option, none, some, List, [], ◌∷◌, ◌++◌,
  if◌then◌else◌, flag, length, add64, Result, ok, err, ◌>>=◌, too_many_call_types,
}
use fleetdiff.Text.{Text, codes, text_eq, one_of, is_empty}
use fleetdiff.Text.Digits.{show}
use fleetdiff.Accounting.Number.{Value, string_value, number, add_bounded}
use fleetdiff.Spend.Row.{
  Column, Row, value, operation, call_type, prompt_tokens, completion_tokens, total_tokens,
  cache_read_input_tokens, cache_write_input_tokens,
}
use fleetdiff.Spend.Routing.Fields.{Side, before, after}

-- The sum of a raw column, or the mark that it overflowed.
pub record RawSum : Type 0 where
  pub sum : ℕ
  pub overflow : Bool

-- How a raw column reads: it is empty, unreadable or a number.
pub data Reading : Type 0 where
  empty unreadable : Reading
  count : ℕ → Reading

read_number : Result (Option ℕ) → Reading
read_number (ok (some n)) = count n
read_number _ = unreadable

unfoldable pub read : Text → Reading
unfolding read_number
read v = if is_empty v then empty else read_number (number (string_value v))

bounded_sum : Result ℕ → RawSum
bounded_sum (ok n) = record { sum = n; overflow = false }
bounded_sum (err e) = record { sum = 0; overflow = true }

unfoldable pub add_raw : RawSum → Reading → RawSum
unfolding bounded_sum
add_raw s (count n) = if s.overflow then s else bounded_sum (add_bounded s.sum n)
add_raw s _ = s

abbrev is_missing : Reading → Bool
is_missing empty = true
is_missing _ = false

abbrev is_invalid : Reading → Bool
is_invalid unreadable = true
is_invalid _ = false

pub record CallTypeCounts : Type 0 where
  pub requests : ℕ
  pub cache_read_recorded : ℕ
  pub cache_write_recorded : ℕ
  pub prompt : RawSum
  pub completion : RawSum
  pub total : RawSum
  pub invalid_usage : ℕ
  pub missing_usage : ℕ

abbrev pub no_sum : RawSum
no_sum = record { sum = 0; overflow = false }

abbrev pub no_counts : CallTypeCounts
no_counts = record {
  requests = 0;
  cache_read_recorded = 0;
  cache_write_recorded = 0;
  prompt = no_sum;
  completion = no_sum;
  total = no_sum;
  invalid_usage = 0;
  missing_usage = 0;
}

-- What a row adds to the counts of its call type.
unfoldable pub count_row : CallTypeCounts → Row → CallTypeCounts
count_row c r =
    let p = read (value r prompt_tokens) in
    let q = read (value r completion_tokens) in
    let t = read (value r total_tokens) in
    record {
      requests = add64 c.requests 1;
      cache_read_recorded =
          add64 c.cache_read_recorded (flag (not (is_empty (value r cache_read_input_tokens))));
      cache_write_recorded =
          add64 c.cache_write_recorded (flag (not (is_empty (value r cache_write_input_tokens))));
      prompt = add_raw c.prompt p;
      completion = add_raw c.completion q;
      total = add_raw c.total t;
      invalid_usage = add64 c.invalid_usage (flag (is_invalid p || is_invalid q || is_invalid t));
      missing_usage = add64 c.missing_usage (flag (is_missing p || is_missing q || is_missing t));
    }

-- An element of `r.CallTypes`, with its key in `index`.
pub record CallType : Type 0 where
  pub key : Text
  pub name : Text
  pub analyzed : Bool
  pub in_before : CallTypeCounts
  pub in_after : CallTypeCounts

familiar : Text → Bool
familiar v = one_of v (
    codes "embedding"
    ∷ codes "aembedding"
    ∷ codes "image_generation"
    ∷ codes "aimage_generation"
    ∷ codes "transcription"
    ∷ codes "atranscription"
    ∷ codes "speech"
    ∷ codes "aspeech"
    ∷ codes "moderation"
    ∷ codes "amoderation"
    ∷ codes "rerank"
    ∷ codes "arerank"
    ∷ codes "agent"
    ∷ codes "tool"
    ∷ codes "generate_content"
    ∷ codes "agenerate_content"
    ∷ codes "send_message"
    ∷ codes "asend_message"
    ∷ [])

-- A call type that is not known is named by its place, never by its text.
unfoldable pub shown_name : Text → ℕ → Text
unfolding familiar
shown_name v n =
    if is_empty (operation v) && not (familiar v) then codes "unknown-" ++ show (n + 1) else v

unfoldable pub add_to : CallType → Side → Row → CallType
add_to c before r = record c { in_before = count_row c.in_before r }
add_to c after r = record c { in_after = count_row c.in_after r }

new_type : Text → ℕ → CallType
unfolding shown_name
new_type v n = record {
  key = v;
  name = shown_name v n;
  analyzed = not (is_empty (operation v));
  in_before = no_counts;
  in_after = no_counts;
}

-- `n` is the number of call types before the list at hand, so that its end has the number of all.
unfoldable pub record_from : ℕ → List CallType → Row → Side → Result (List CallType)
unfolding new_type
record_from n [] r side =
    if n == 64
    then err too_many_call_types
    else ok (add_to (new_type (value r call_type) n) side r ∷ [])
record_from n (c ∷ cs) r side =
    let rest = record_from (n + 1) cs r side >>= λ ds. ok (c ∷ ds) in
    if text_eq c.key (value r call_type) then ok (add_to c side r ∷ cs) else rest

unfoldable pub record_call_type : List CallType → Row → Side → Result (List CallType)
record_call_type cs r side = record_from 0 cs r side
