-- ===== src/Spend/Provider/Entries.antt =====
-- internal/spend/provider_counts.go: `providerBuilder` and its entries. The map of entries and the list of its keys
-- grow together: they are one list here, in the order of the keys.
use fleetdiff.Base.{
  ℕ, Bool, true, false, ◌&&◌, ◌==◌, Option, none, some, List, [], ◌∷◌, if◌then◌else◌, length,
  Result, ok, err, provider_input,
}
use fleetdiff.Text.{Text, text_eq}
use fleetdiff.Spend.Period.{Period}
use fleetdiff.Spend.Provider.{ProviderModel, same_model, Measurements, max_provider_rows}
use fleetdiff.Spend.Provider.Contract.{CountContract}

pub record ProviderKey : Type 0 where
  pub date : Text
  pub identity : ProviderModel
  pub mapped : Bool

unfoldable pub same_flag : Bool → Bool → Bool
same_flag true b = b
same_flag false true = false
same_flag false false = true

unfoldable pub same_key : ProviderKey → ProviderKey → Bool
unfolding same_model same_flag
same_key a b =
    text_eq a.date b.date && same_model a.identity b.identity && same_flag a.mapped b.mapped

pub record ProviderEntry : Type 0 where
  pub measurements : Option Measurements
  pub rows : ℕ
  pub failed : ℕ
  pub unknown : ℕ
  pub input : ℕ
  pub output : ℕ
  pub input_unavailable : Bool
  pub output_unavailable : Bool

abbrev pub no_entry : ProviderEntry
no_entry = record {
  measurements = none;
  rows = 0;
  failed = 0;
  unknown = 0;
  input = 0;
  output = 0;
  input_unavailable = false;
  output_unavailable = false;
}

abbrev pub Entries : Type 0
Entries = List (ProviderKey × ProviderEntry)

unfoldable pub find_entry : ProviderKey → Entries → Option ProviderEntry
find_entry k [] = none
find_entry k ((j, e) ∷ es) = let rest = find_entry k es in if same_key j k then some e else rest

-- The entry of a key, changed in place; a new one comes last.
unfoldable pub put_entry : ProviderKey → ProviderEntry → Entries → Entries
put_entry k e [] = (k, e) ∷ []
put_entry k e ((j, d) ∷ es) =
    let rest = put_entry k e es in if same_key j k then (j, e) ∷ es else (j, d) ∷ rest

unfoldable pub entry_of : ℕ → Option ProviderEntry → Result ProviderEntry
entry_of n (some e) = ok e
entry_of n none = if n == max_provider_rows then err provider_input else ok no_entry

-- `b.entry(key)`, whose caller changes the entry and puts it back.
unfoldable pub entry : Entries → ProviderKey → Result ProviderEntry
unfolding entry_of
entry es k = entry_of (length es) (find_entry k es)

pub record Builder : Type 0 where
  pub entries : Entries
  pub targets : List ProviderModel
  pub mapping : List (ProviderModel × ProviderModel)
  pub contract : Option CountContract
  pub periods : List Period
  pub now : ℕ

unfoldable pub is_target : List ProviderModel → ProviderModel → Bool
is_target [] m = false
is_target (t ∷ ts) m = let rest = is_target ts m in if same_model t m then true else rest

-- `b.mapping[source]`
unfoldable pub mapped_to :
    List (ProviderModel × ProviderModel) → ProviderModel → Option ProviderModel
mapped_to [] m = none
mapped_to ((s, t) ∷ ms) m = let rest = mapped_to ms m in if same_model s m then some t else rest
