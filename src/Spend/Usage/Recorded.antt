-- ===== src/Spend/Usage/Recorded.antt =====
-- What every spend row contributes is a sound observation.
use fleetdiff.Base.{ℕ, Option, none, some, [], ◌∷◌, Result, ok, err}
use fleetdiff.Text.{Text}
use fleetdiff.Accounting.Number.{Value, IsInt64, number, string_value}
use fleetdiff.Accounting.Names.{input_tokens, output_tokens, prompt_tokens}
use fleetdiff.Accounting.Names
use fleetdiff.Accounting.Tokens.Reading.{InRange, AreInt64}
use fleetdiff.Accounting.Tokens.Sound.{IsSound, tokens-IsSound}
use fleetdiff.Spend.Row.{Row, Column, value}
use fleetdiff.Spend.Row
use fleetdiff.Spend.Usage.{attributes, column_value, paired, checked, refused, refuse_pair}
use fleetdiff.Spend.Usage.Reference.{recorded}
use fleetdiff.Spend.Usage.Exact.{tokens-attributes}

checked-IsInt64 : (s : Text) → IsInt64 (checked s)
unfolding checked
checked-IsInt64 s = at (number (string_value s))
  where
    at : (n : Result (Option ℕ)) → IsInt64 (elim n [ ok _ ↦ string_value s | err _ ↦ refused ])
    at (ok n) = tt
    at (err e) = tt

column-InRange : (r : Row) (c : Column) → InRange (column_value r c)
unfolding column_value
column-InRange r c = at (value r c)
  where
    at : (s : Text) → InRange (elim s [ [] ↦ none | a ∷ s ↦ some (checked (a ∷ s)) ])
    at [] = tt
    at (a ∷ s) = checked-IsInt64 (a ∷ s)

refuse_pair-InRange : (n : Result ℕ) (v : Option Value) → InRange v → InRange (refuse_pair n v)
unfolding refuse_pair
refuse_pair-InRange (ok n) v h = h
refuse_pair-InRange (err e) v h = tt

paired-InRange : (r : Row) (c : Column) → InRange (paired r c)
unfolding paired
paired-InRange r c = refuse_pair-InRange _ (column_value r c) (column-InRange r c)

pub attributes-AreInt64 : (r : Row) → AreInt64 (attributes r)
unfolding attributes
attributes-AreInt64 r input_tokens = paired-InRange r Row.prompt_tokens
attributes-AreInt64 r output_tokens = paired-InRange r Row.completion_tokens
attributes-AreInt64 r Names.cache_read_input_tokens = column-InRange r Row.cache_read_input_tokens
attributes-AreInt64 r Names.cache_write_input_tokens = column-InRange r Row.cache_write_input_tokens
attributes-AreInt64 r Names.reasoning_output_tokens = column-InRange r Row.reasoning_output_tokens
attributes-AreInt64 r _ = tt

-- Every row records a sound observation, whatever its columns hold.
pub recorded-IsSound : (r : Row) → IsSound (recorded r)
recorded-IsSound r = tokens-IsSound _ (attributes-AreInt64 r) (tokens-attributes r)
