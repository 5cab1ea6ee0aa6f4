-- ===== src/Spend/Usage/Exact.antt =====
-- `attributes` and `Tokens`, composed as for each spend row, against the direct account.
use fleetdiff.Base.{
  ℕ, ◌+◌, ◌≤◌, ◌≡◌, refl, true, false, Option, none, some, [], ◌∷◌, arith, ltb, if◌then◌else◌,
  max_int64, Result, ok, ◌>>=◌, inl, inr,
}
use fleetdiff.Text.{Text, text_eq}
use fleetdiff.Text.Digits.{parse_uint, parse_uint-le}
use fleetdiff.Accounting.Number.{Value, number, add_bounded, add_bounded_fits, add_bounded_cases}
use fleetdiff.Accounting.Names.{
  Attribute, input_tokens, output_tokens, input, output, cache_read_input, cache_write_input,
  reasoning_output, sources,
}
use fleetdiff.Accounting.Names
use fleetdiff.Accounting.Tokens.{
  Attributes, Seen, unseen, observe, observe_source, record_number, read_usage, tokens, assemble,
  origin, withdraw, string_attribute,
}
use fleetdiff.Spend.Row.{Row, Column, value}
use fleetdiff.Spend.Row
use fleetdiff.Spend.Usage.{
  attributes, column_value, paired, checked, refused, count_or_zero, number_or_zero, refuse_pair,
}
use fleetdiff.Spend.Usage.Reference.{
  invalid_seen, seen_count, seen_text, pair_overflows, usage_of, recorded,
}

-- A count past `int64` is refused by `Number`, and then reads as invalid.
number-checked : (s : Text) → number (checked s) ≡ ok (parse_uint max_int64 s)
unfolding checked number parse_uint
number-checked [] = refl
number-checked (c ∷ s) = ground arith

record-seen_count : (n : Option ℕ) → record_number unseen n ≡ seen_count n
unfolding record_number
record-seen_count none = refl
record-seen_count (some n) = refl

seen_count-le :
    (o : Option ℕ) → ((n : ℕ) → o ≡ some n → n ≤ max_int64) → (seen_count o).value ≤ max_int64
seen_count-le none h = omega arith
seen_count-le (some n) h = h n refl

seen_text-le : (s : Text) → (seen_text s).value ≤ max_int64
unfolding seen_text
seen_text-le [] = omega arith
seen_text-le (c ∷ s) = seen_count-le _ (λ n e. parse_uint-le max_int64 (c ∷ s) e)

abbrev read_option : Option Value → Result Seen
read_option none = ok unseen
read_option (some v) = number v >>= λ n. ok (record_number unseen n)

read-column_value :
    (r : Row) (c : Column) → read_option (column_value r c) ≡ ok (seen_text (value r c))
unfolding column_value seen_text
read-column_value r c = at (value r c)
  where
    at :
        (s : Text)
        → read_option (elim s [ [] ↦ none | a ∷ s ↦ some (checked (a ∷ s)) ]) ≡ ok (seen_text s)
    at [] = refl
    at (a ∷ s) = rw (number-checked (a ∷ s), record-seen_count (parse_uint max_int64 (a ∷ s)))

seen_count-value : (o : Option ℕ) → number_or_zero (ok o) ≡ (seen_count o).value
unfolding number_or_zero
seen_count-value none = refl
seen_count-value (some n) = refl

count-column_value :
    (r : Row) (c : Column) → count_or_zero (column_value r c) ≡ (seen_text (value r c)).value
unfolding column_value seen_text count_or_zero
count-column_value r c = at (value r c)
  where
    at :
        (s : Text)
        → count_or_zero (elim s [ [] ↦ none | a ∷ s ↦ some (checked (a ∷ s)) ])
          ≡ (seen_text s).value
    at [] = unfold number number_or_zero in refl
    at (a ∷ s) = rw (number-checked (a ∷ s)) (seen_count-value (parse_uint max_int64 (a ∷ s)))

number-refused : number refused ≡ ok none
unfolding number parse_uint
number-refused = refl

-- A column of the pair, once the sum is known to fit or not.
read-paired :
    (r : Row) (c : Column)
    → read_option (paired r c)
      ≡ ok (if pair_overflows r then invalid_seen else seen_text (value r c))
unfolding paired pair_overflows
read-paired r c =
    rw (count-column_value r Row.prompt_tokens, count-column_value r Row.completion_tokens) (at _ _)
  where
    at :
        (m n : ℕ)
        → read_option (refuse_pair (add_bounded m n) (column_value r c))
          ≡ ok (if ltb max_int64 (m + n) then invalid_seen else seen_text (value r c))
    at m n = elim (add_bounded_cases m n) [
      | inl (fits, e) ↦
          let q : ltb max_int64 (m + n) ≡ false = ground arith in
          rw (e, q) (unfold refuse_pair in read-column_value r c)
      | inr (over, e) ↦
          let q : ltb max_int64 (m + n) ≡ true = ground arith in
          rw (e, q) (unfold refuse_pair in rw number-refused (unfold record_number in refl))
    ]

read_one :
    (attrs : Attributes) (k : Attribute) → observe_source attrs unseen k ≡ read_option (attrs k)
unfolding observe_source
read_one attrs k = at (attrs k)
  where
    at :
        (v : Option Value)
        → (elim v [ none ↦ ok unseen | some v ↦ number v >>= λ n. ok (record_number unseen n) ])
          ≡ read_option v
    at none = refl
    at (some v) = refl

-- What `Tokens` observes in the attributes of a row, field by field.
observe_row : (r : Row) → read_usage (attributes r) ≡ ok (usage_of r)
unfolding read_usage observe usage_of
observe_row r =
    rw
      (
        read_one (attributes r) input_tokens,
        read-paired-input,
        read_one (attributes r) output_tokens,
        read-paired-output,
        read_one (attributes r) Names.cache_read_input_tokens,
        read-read,
        read_one (attributes r) Names.cache_write_input_tokens,
        read-write,
        read_one (attributes r) Names.reasoning_output_tokens,
        read-reasoning,
      )
      (unfold observe_source attributes in refl)
  where
    read-paired-input :
        read_option (attributes r input_tokens)
        ≡ ok (if pair_overflows r then invalid_seen else seen_text (value r Row.prompt_tokens))
    read-paired-input = unfold attributes in read-paired r Row.prompt_tokens

    read-paired-output :
        read_option (attributes r output_tokens)
        ≡ ok (if pair_overflows r then invalid_seen else seen_text (value r Row.completion_tokens))
    read-paired-output = unfold attributes in read-paired r Row.completion_tokens

    read-read :
        read_option (attributes r Names.cache_read_input_tokens)
        ≡ ok (seen_text (value r Row.cache_read_input_tokens))
    read-read = unfold attributes in read-column_value r Row.cache_read_input_tokens

    read-write :
        read_option (attributes r Names.cache_write_input_tokens)
        ≡ ok (seen_text (value r Row.cache_write_input_tokens))
    read-write = unfold attributes in read-column_value r Row.cache_write_input_tokens

    read-reasoning :
        read_option (attributes r Names.reasoning_output_tokens)
        ≡ ok (seen_text (value r Row.reasoning_output_tokens))
    read-reasoning = unfold attributes in read-column_value r Row.reasoning_output_tokens

usage_fits : (r : Row) → (usage_of r).of_input.value + (usage_of r).of_output.value ≤ max_int64
unfolding usage_of pair_overflows
usage_fits r = ground arith

assemble_row : (r : Row) → assemble (attributes r) (usage_of r) ≡ ok (recorded r)
unfolding assemble attributes string_attribute origin text_eq withdraw recorded
assemble_row r =
    rw (add_bounded_fits (usage_of r).of_input.value (usage_of r).of_output.value (usage_fits r))

pub tokens-attributes : (r : Row) → tokens (attributes r) ≡ ok (recorded r)
unfolding tokens
tokens-attributes r = rw (observe_row r) (assemble_row r)
