-- ===== src/Spend/Provider/Build.antt =====
-- internal/spend/provider_counts.go: `newProviderCoverage`. `time.Parse` and `Format` of a date are parameters.
use fleetdiff.Base.{
  ℕ, ◌+◌, Bool, true, false, ◌&&◌, ◌||◌, not, Option, none, some, List, [], ◌∷◌, ltb, leb,
  if◌then◌else◌, length, Result, ok, err, ◌>>=◌, fold_ok, provider_input, provider_mapping,
  provider_contract, provider_scope,
}
use fleetdiff.Text.{Text, codes, text_eq, one_of, is_empty}
use fleetdiff.Spend.Period.{Period, Time, day, cut}
use fleetdiff.Spend.Provider.{
  ProviderModel, same_model, Measurements, provider_integer, provider_identity, max_coverage_days,
}
use fleetdiff.Spend.Provider.Contract.{CountContract}
use fleetdiff.Spend.Provider.Table.{read_table}
use fleetdiff.Spend.Provider.Days.{period_days}
use fleetdiff.Spend.Provider.Entries.{
  ProviderKey, ProviderEntry, Entries, Builder, entry, find_entry, put_entry, is_target, mapped_to,
}

-- The options that are read: the paths, of which only the presence matters here, and the scope.
pub record ProviderOptions : Type 0 where
  pub counts_path : Text
  pub map_path : Text
  pub contract_path : Text
  pub scope_route : Text
  pub scope_agent : Text

module _ (parse_date : Text → Option Time) (date_text : ℕ → Text) where
  add_day : List Text → ℕ → Result (List Text)
  add_day days d =
      let more = if one_of (date_text d) days then days else date_text d ∷ days in
      if ltb max_coverage_days (length more) then err provider_input else ok more

  outside : Option CountContract → Period → Bool
  outside none p = false
  outside (some c) p =
      ltb p.start c.contract_start.time.instant || ltb c.contract_stop.time.instant p.stop

  add_period : Option CountContract → List Text → Period → Result (List Text)
  unfolding add_day outside
  add_period c days p =
      if outside c p then err provider_contract else fold_ok add_day days (period_days p)

  -- The basis of the contract names one provider, or the date is outside the contract.
  wrong_provider : CountContract → Text → Bool
  wrong_provider c name =
      (text_eq c.count_basis (codes "bedrock_invocations") && not (text_eq name (codes "bedrock")))
      || (text_eq c.count_basis (codes "openai_model_requests")
          && not (text_eq name (codes "openai")))

  outside_contract : CountContract → ℕ → Bool
  outside_contract c d =
      not (ltb c.contract_start.time.instant (d + day))
      || ltb c.contract_stop.time.instant (d + day)

  contract_admits : Option CountContract → Text → ℕ → Result (Unit {0})
  unfolding wrong_provider outside_contract
  contract_admits none name d = ok tt
  contract_admits (some c) name d =
      if wrong_provider c name || outside_contract c d then err provider_contract else ok tt

  counts_only_tokens : Option CountContract → Bool
  counts_only_tokens none = false
  counts_only_tokens (some c) = text_eq c.count_basis (codes "tokens_only")

  is_none : Option ℕ → Bool
  is_none none = true
  is_none (some n) = false

  measured : Option CountContract → (Text → Text) → Result Measurements
  unfolding counts_only_tokens is_none
  measured c v = provider_integer (v (codes "requests")) >>= λ r.
      provider_integer (v (codes "input_tokens")) >>= λ i.
      provider_integer (v (codes "output_tokens")) >>= λ o.
      if (is_none r && is_none i && is_none o) || (counts_only_tokens c && not (is_none r))
      then err provider_input
      else ok (record { requests = r; input_tokens = i; output_tokens = o })

  is_date : Option Time → Text → Bool
  is_date none s = false
  is_date (some t) s = leb 1970 t.year && leb t.year 2199 && text_eq (date_text t.instant) s

  instant_of : Option Time → ℕ
  instant_of none = 0
  instant_of (some t) = t.instant

  -- A second row of one key is refused, so that the entry is a new one.
  new_entry : Entries → ProviderKey → Option ProviderEntry → Result ProviderEntry
  new_entry es k (some e) = err provider_input
  new_entry es k none = entry es k

  -- One row of the provider's counts.
  unfoldable pub count_row : Builder → (Text → Text) → Result Builder
  unfolding is_date instant_of contract_admits measured new_entry
  count_row b v =
      let id : ProviderModel = record {
        provider = v (codes "provider");
        model_id = v (codes "provider_model");
      } in
      let k : ProviderKey = record { date = v (codes "date_utc"); identity = id; mapped = true } in
      let d = parse_date (v (codes "date_utc")) in
      if not (is_date d (v (codes "date_utc")))
        || not (provider_identity (v (codes "provider")))
        || not (provider_identity (v (codes "provider_model")))
      then err provider_input
      else contract_admits b.contract (v (codes "provider")) (instant_of d) >>= λ _.
          measured b.contract v >>= λ m. new_entry b.entries k (find_entry k b.entries) >>= λ e.
          ok (record b {
            entries = put_entry k (record e { measurements = some m }) b.entries;
            targets = id ∷ b.targets;
          })

  -- The name `prefix/model` of a source whose provider is that prefix says another target.
  contradicts : List ProviderModel → ProviderModel → ProviderModel → Option (Text × Text) → Bool
  contradicts targets source target none = false
  contradicts targets source target (some (prefix, name)) =
      let exact : ProviderModel = record { provider = prefix; model_id = name } in
      text_eq prefix source.provider && is_target targets exact && not (same_model exact target)

  add_mapping : Builder → ProviderModel → ProviderModel → Option ProviderModel → Result Builder
  unfolding contradicts
  add_mapping b source target (some t) = err provider_mapping
  add_mapping b source target none =
      if contradicts b.targets source target (cut source.model_id)
      then err provider_mapping
      else ok (record b { mapping = (source, target) ∷ b.mapping })

  -- One row of the model map.
  unfoldable pub map_row : Builder → (Text → Text) → Result Builder
  unfolding add_mapping
  map_row b v =
      let source : ProviderModel = record {
        provider = v (codes "source_provider");
        model_id = v (codes "source_model");
      } in
      let target : ProviderModel = record {
        provider = v (codes "provider");
        model_id = v (codes "provider_model");
      } in
      if not (provider_identity source.provider)
        || not (provider_identity source.model_id)
        || not (provider_identity target.provider)
        || not (provider_identity target.model_id)
      then err provider_mapping
      else add_mapping b source target (mapped_to b.mapping source)

  mapping_error : Result Builder → Result Builder
  mapping_error (ok b) = ok b
  mapping_error (err e) = err provider_mapping

  module _ (csv_line : Text → Option (List Text)) where
    -- A file is the lines that it is scanned into; `none` is one that cannot be read.
    read_counts : Option (List Text × Bool) → Builder → Result Builder
    unfolding count_row
    read_counts file b =
        read_table
          (codes "date_utc" ∷ codes "provider" ∷ codes "provider_model" ∷ codes "requests" ∷ [])
          (codes "input_tokens" ∷ codes "output_tokens" ∷ []) csv_line count_row file b

    read_map : Option (List Text × Bool) → Builder → Result Builder
    unfolding map_row mapping_error
    read_map file b = mapping_error (
        read_table
          (codes "source_provider"
            ∷ codes "source_model"
            ∷ codes "provider"
            ∷ codes "provider_model"
            ∷ [])
          [] csv_line map_row file b)

    -- `newProviderCoverage`; `none` is the nil builder, which counts nothing.
    unfoldable pub new_provider_coverage :
        ProviderOptions
        → List Period
        → ℕ
        → Result (Option CountContract)
        → Option (List Text × Bool)
        → Option (List Text × Bool)
        → Result (Option Builder)
    unfolding add_period read_counts read_map
    new_provider_coverage o periods now contract counts model_map =
        if is_empty o.counts_path
        then (if not (is_empty o.map_path) || not (is_empty o.contract_path)
            then err provider_input
            else ok none)
        else if not (is_empty o.scope_route) || not (is_empty o.scope_agent)
        then err provider_scope
        else contract >>= λ c. fold_ok (add_period c) [] periods >>= λ days.
            read_counts counts (record {
              entries = [];
              targets = [];
              mapping = [];
              contract = c;
              periods = periods;
              now = now;
            })
            >>= λ b.
                (if is_empty o.map_path then ok b else read_map model_map b) >>= λ m. ok (some m)
