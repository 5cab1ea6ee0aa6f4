-- ===== src/Spend/Provider/Tests.antt =====
-- Concrete counts: one day of one model, with one row of it, and a failed row of a model that no count names.
use fleetdiff.Base.{
  ℕ, ◌+◌, ◌*◌, ◌/◌, ◌≡◌, refl, true, Option, none, some, List, [], ◌∷◌, arith, All, ok, value_or,
  max_uint64,
}
use fleetdiff.Text.{Text, codes, text_eq}
use fleetdiff.Text.Digits.{show, parse_uint}
use fleetdiff.Accounting.Number.{number, add_bounded}
use fleetdiff.Spend.Period.{Period, Time, day, cut}
use fleetdiff.Spend.Row.{
  Row, Column, custom_llm_provider, model, status, prompt_tokens, completion_tokens,
}
use fleetdiff.Spend.Provider.{ProviderModel, same_model, provider_integer}
use fleetdiff.Spend.Provider.Integer.{provider_integer-show}
use fleetdiff.Spend.Provider.Days.{AreAllDays, period_days, period_days-AreAllDays}
use fleetdiff.Spend.Provider.Entries.{
  ProviderKey, Builder, no_entry, entry, find_entry, put_entry, same_key, is_target, mapped_to,
}
use fleetdiff.Spend.Provider.Add.{target, key_of, add_all, count_entry}
use fleetdiff.Spend.Provider.Add.Keyed.{entry_at}
use fleetdiff.Spend.Provider.Add.Summed.{IsTally, add_all-IsTally}
use fleetdiff.Spend.Provider.Add.Bounded.{IsBounded, HasDistinctKeys, add_all-IsBounded}
use fleetdiff.Spend.Provider.Report.{DayCoverage}
use fleetdiff.Spend.Provider.Report.Filled.{result}
use fleetdiff.Spend.Provider.Report.Finished.{IsDay}
use fleetdiff.Spend.Provider.Report.Reported.{result-AreDays}

-- A date is its number of days here.
abbrev date_of : ℕ → Text
date_of t = show (t / day)

abbrev parsed : Option ℕ → Option Time
parsed none = none
parsed (some n) = some (record { year = 2024; instant = n * day })

abbrev date_from : Text → Option Time
date_from s = parsed (parse_uint max_uint64 s)

abbrev first : ProviderModel
first = record { provider = codes "openai"; model_id = codes "m" }

abbrev one_period : Period
one_period = record { start = 19000 * day + 5; stop = 19002 * day }

abbrev empty_row : Column → Option Text
empty_row _ = none

abbrev counted_row : Column → Option Text
counted_row custom_llm_provider = some (codes "openai")
counted_row model = some (codes "openai/m")
counted_row status = some (codes "success")
counted_row prompt_tokens = some (codes "12")
counted_row completion_tokens = some (codes "x")
counted_row _ = none

abbrev other_row : Column → Option Text
other_row status = some (codes "failure")
other_row _ = none

abbrev row_of : (Column → Option Text) → Row
row_of v = record { values = v; row_number = 1; observation_level = [] }

abbrev first_key : ProviderKey
first_key = record { date = codes "19001"; identity = first; mapped = true }

abbrev builder : Builder
builder = record {
  entries =
      (
        first_key,
        record no_entry {
          measurements =
              some (record { requests = some 3; input_tokens = none; output_tokens = none });
        },
      )
      ∷ [];
  targets = first ∷ [];
  mapping = [];
  contract = none;
  periods = one_period ∷ [];
  now = 20000 * day;
}

abbrev rows : List (Row × ℕ)
rows = (row_of counted_row, 19001 * day + 7) ∷ (row_of other_row, 19001 * day) ∷ []

added : Builder
unfolding add_all show key_of target mapped_to cut is_target same_model text_eq entry find_entry
    same_key put_entry count_entry number add_bounded parse_uint
added = value_or builder (add_all date_of builder rows)

add_all-IsTally_example :
    IsTally
      (key_of date_of builder)
      first_key
      rows
      (entry_at first_key builder.entries)
      (entry_at first_key added.entries)
unfolding added
add_all-IsTally_example = add_all-IsTally date_of rows builder added first_key refl

add_all-IsBounded_example : IsBounded added.entries
unfolding added HasDistinctKeys find_entry
add_all-IsBounded_example =
    add_all-IsBounded date_of rows builder added
      (record { few = omega arith; distinct = (refl, tt) }) refl

days : List DayCoverage
unfolding result added period_days
days = value_or [] (result date_from date_of (λ a b. b) added [])

result-AreDays_example : All (IsDay none) days
unfolding days
result-AreDays_example = result-AreDays date_from date_of (λ a b. b) added [] refl

period_days-AreAllDays_example : AreAllDays one_period (period_days one_period)
period_days-AreAllDays_example = period_days-AreAllDays one_period

provider_integer-show_example : provider_integer (show 4096) ≡ ok (some 4096)
provider_integer-show_example = provider_integer-show 4096 (omega arith)
