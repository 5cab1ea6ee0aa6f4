-- ===== src/Spend/Provider.antt =====
-- internal/spend/provider_counts.go: the counts of a provider beside the exported rows. The bytes of a file, its
-- lines and the fields of a line, the decoding of the contract and the layout of dates are parameters.
pub mod Integer
pub mod Contract
pub mod Table
pub mod Days
pub mod Entries
pub mod Build
pub mod Add
pub mod Report
mod Tests
use fleetdiff.Base.{
  ℕ, ◌≤◌, ◌≡◌, Bool, true, ◌&&◌, not, Option, none, some, List, [], ◌∷◌, leb, if◌then◌else◌, length,
  Result, ok, err, max_int64, provider_input,
}
use fleetdiff.Text.{Text, text_eq, is_empty}
use fleetdiff.Text.Utf8.{trim, no_control}
use fleetdiff.Text.Digits.{is_digit, parse_uint}

abbrev pub max_provider_rows : ℕ
max_provider_rows = 10000

abbrev pub max_coverage_days : ℕ
max_coverage_days = 3660

pub record ProviderModel : Type 0 where
  pub provider : Text
  pub model_id : Text

unfoldable pub same_model : ProviderModel → ProviderModel → Bool
unfolding text_eq
same_model a b = text_eq a.provider b.provider && text_eq a.model_id b.model_id

pub record Measurements : Type 0 where
  pub requests : Option ℕ
  pub input_tokens : Option ℕ
  pub output_tokens : Option ℕ

unfoldable pub all_digits : Text → Bool
unfolding is_digit
all_digits [] = true
all_digits (c ∷ s) = is_digit c && all_digits s

unfoldable pub read_integer : Option ℕ → Result (Option ℕ)
read_integer none = err provider_input
read_integer (some n) = ok (some n)

-- `providerInteger`; `strconv.ParseUint(value, 10, 63)` refuses what is above 2^63 - 1.
unfoldable pub provider_integer : Text → Result (Option ℕ)
unfolding all_digits read_integer parse_uint
provider_integer s =
    if is_empty s
    then ok none
    else if all_digits s
    then read_integer (parse_uint max_int64 s)
    else err provider_input

-- `providerIdentity`, of a valid text.
unfoldable pub provider_identity : Text → Bool
unfolding trim no_control text_eq
provider_identity s = not (is_empty s) && leb (length s) 256 && text_eq (trim s) s && no_control s
