-- ===== src/Spend/Provider/Add.antt =====
-- internal/spend/provider_counts.go: `providerBuilder.add`.
pub mod Keyed
pub mod Tallied
pub mod Summed
pub mod Bounded
use fleetdiff.Base.{
  ℕ, ◌+◌, Bool, true, false, ◌&&◌, not, Option, none, some, List, [], ◌∷◌, if◌then◌else◌, Result,
  ok, err, ◌>>=◌, fold_ok, add64,
}
use fleetdiff.Text.{Text, codes, text_eq, is_empty}
use fleetdiff.Accounting.Number.{number, string_value, add_bounded}
use fleetdiff.Spend.Period.{cut}
use fleetdiff.Spend.Row.{
  Row, value, custom_llm_provider, model, status, prompt_tokens, completion_tokens,
}
use fleetdiff.Spend.Provider.{ProviderModel}
use fleetdiff.Spend.Provider.Entries.{
  ProviderKey, ProviderEntry, Entries, Builder, entry, put_entry, is_target, mapped_to,
}

-- The provider and the model that a row names.
abbrev pub source_of : Row → ProviderModel
source_of r = record { provider = value r custom_llm_provider; model_id = value r model }

exact_target : Builder → ProviderModel → Option (Text × Text) → ProviderModel × Bool
exact_target b source none = (source, false)
exact_target b source (some (prefix, name)) =
    let exact : ProviderModel = record { provider = prefix; model_id = name } in
    if not (is_empty prefix) && text_eq prefix source.provider && is_target b.targets exact
    then (exact, true)
    else (source, false)

target_of : Builder → ProviderModel → Option ProviderModel → ProviderModel × Bool
unfolding exact_target
target_of b source (some t) = (t, true)
target_of b source none = exact_target b source (cut source.model_id)

-- The model that a row is counted under, and whether it is mapped.
unfoldable pub target : Builder → ProviderModel → ProviderModel × Bool
unfolding target_of
target b source = target_of b source (mapped_to b.mapping source)

-- `e.rows++`, and the count of the status: whether it is a failure, and whether it is a success.
unfoldable pub count_as : ProviderEntry → Bool → Bool → ProviderEntry
count_as e true b = record e { rows = add64 e.rows 1; failed = add64 e.failed 1 }
count_as e false true = record e { rows = add64 e.rows 1 }
count_as e false false = record e { rows = add64 e.rows 1; unknown = add64 e.unknown 1 }

unfoldable pub count_status : ProviderEntry → Text → ProviderEntry
unfolding count_as
count_status e s = count_as e (text_eq s (codes "failure")) (text_eq s (codes "success"))

-- What `Number` reads, where it reads a number.
readable : Result (Option ℕ) → Option ℕ
readable (ok n) = n
readable (err e) = none

unfoldable pub readable_number : Text → Option ℕ
unfolding readable
readable_number s = readable (number (string_value s))

unfoldable pub add_input : ProviderEntry → Option ℕ → Result ProviderEntry
add_input e none = ok (record e { input_unavailable = true })
add_input e (some n) = add_bounded e.input n >>= λ sum. ok (record e { input = sum })

unfoldable pub add_output : ProviderEntry → Option ℕ → Result ProviderEntry
add_output e none = ok (record e { output_unavailable = true })
add_output e (some n) = add_bounded e.output n >>= λ sum. ok (record e { output = sum })

unfoldable pub count_entry : ProviderEntry → Row → Result ProviderEntry
unfolding count_status add_input add_output readable_number
count_entry e r =
    add_input (count_status e (value r status)) (readable_number (value r prompt_tokens)) >>= λ f.
    add_output f (readable_number (value r completion_tokens))

module _ (date_text : ℕ → Text) where
  unfoldable pub key_of : Builder → Row → ℕ → ProviderKey
  unfolding target
  key_of b r start =
      let t = target b (source_of r) in
      record { date = date_text start; identity = t.0; mapped = t.1 }

  -- `add`, on a builder that is not nil. A call that fails leaves a builder that is not used again.
  unfoldable pub add : Builder → Row × ℕ → Result Builder
  unfolding key_of count_entry
  add b (r, start) = entry b.entries (key_of b r start) >>= λ e.
      count_entry e r >>= λ f. ok (record b { entries = put_entry (key_of b r start) f b.entries })

  unfoldable pub add_all : Builder → List (Row × ℕ) → Result Builder
  unfolding add
  add_all b rows = fold_ok add b rows
