-- ===== src/Reprice/Config.antt =====
-- internal/reprice/config.go and types.go: prices, measured factors, scenarios and their validation. Whether a text is a
-- date, and of which year, is a parameter (`time.Parse`).
pub mod Validated
use fleetdiff.Base.{
  ℕ, ◌+◌, ◌^◌, Bool, true, false, ◌&&◌, ◌||◌, not, Option, none, some, List, [], ◌∷◌, ◌++◌, ltb,
  leb, ◌==◌, if◌then◌else◌, length, ℤ, pos, negsuc, Result, ok, err, ◌>>=◌, bad_config,
  unknown_price,
}
use fleetdiff.Text.{Text, codes, text_eq, one_of, is_empty}
use fleetdiff.Text.Utf8.{is_blank}
use fleetdiff.Accounting.Cost.{cost, places}

pub data Workload : Type 0 where
  qa extraction coding : Workload

-- `Workloads`
abbrev pub workloads : List Workload
workloads = qa ∷ extraction ∷ coding ∷ []

abbrev pub workload_name : Workload → Text
workload_name qa = codes "qa"
workload_name extraction = codes "extraction"
workload_name coding = codes "coding"

-- A text of `Workloads`, as the element that it names.
unfoldable pub workload_of : Text → Option Workload
workload_of s =
    if text_eq s (codes "qa")
    then some qa
    else if text_eq s (codes "extraction")
    then some extraction
    else if text_eq s (codes "coding")
    then some coding
    else none

pub record Price : Type 0 where
  pub id : Text
  pub provider : Text
  pub input : Text
  pub output : Text
  pub cache_read : Text
  pub cache_write : Text
  pub cache_write_ttl : Text
  pub input_tier_max : ℕ

pub record Prices : Type 0 where
  pub version : ℤ
  pub date : Text
  pub models : List Price
  pub currency : Text
  pub unit : Text

pub record InputFactor : Type 0 where
  pub from : Text
  pub to : Text
  pub factor : Text
  pub n : ℤ
  pub source : Text

pub record Factor : Type 0 where
  pub from : Text
  pub to : Text
  pub workload : Text
  pub output : Text
  pub low : Text
  pub high : Text
  pub n : ℤ
  pub source : Text

pub record Factors : Type 0 where
  pub version : ℤ
  pub date : Text
  pub input_pairs : List InputFactor
  pub pairs : List Factor

pub record Selector : Type 0 where
  pub kind : Text
  pub value : Text

pub record Move : Type 0 where
  pub from : Text
  pub to : Text
  pub fraction : Text
  pub scope : Option Selector

pub record Scenario : Type 0 where
  pub version : ℤ
  pub moves : List Move

pub record Mapping : Type 0 where
  pub selector : Selector
  pub workload : Text

pub record WorkloadMap : Type 0 where
  pub version : ℤ
  pub mappings : List Mapping

-- The number 1 in the units of `Cost`.
unfoldable pub one : ℕ
one = 10 ^ places

-- `decimal`
abbrev pub decimal : Text → Option ℕ
decimal s = cost s

-- `rat`, of a text that has been validated.
abbrev or_zero : Option ℕ → ℕ
or_zero none = 0
or_zero (some n) = n

unfoldable pub rat : Text → ℕ
rat s = or_zero (decimal s)

positive_part : Option ℕ → Option ℕ
positive_part none = none
positive_part (some n) = if n == 0 || ltb one n then none else some n

-- `fraction`: more than 0 and at most 1.
unfoldable pub fraction : Text → Option ℕ
unfolding positive_part one
fraction s = positive_part (decimal s)

abbrev pub is_version : ℕ → ℤ → Bool
is_version k (pos n) = n == k
is_version k (negsuc n) = false

abbrev pub is_positive : ℤ → Bool
is_positive (pos n) = ltb 0 n
is_positive (negsuc n) = false

abbrev pub is_some {ℓ} : {A : Type ℓ} → Option A → Bool
is_some none = false
is_some (some a) = true

-- `if c { return errors.New(...) }`, and `nil` otherwise.
abbrev pub refuse_if : Bool → Result (Unit {0})
refuse_if c = if c then err bad_config else ok tt

year_within : Option ℕ → Bool
year_within none = false
year_within (some y) = leb 2020 y && leb y 2200

bad_price : Price → List Text → Bool
bad_price m seen =
    is_empty m.id
    || ltb 128 (length m.id)
    || is_empty m.provider
    || ltb 64 (length m.provider)
    || one_of m.id seen
    || not (
        is_some (decimal m.input)
        && is_some (decimal m.output)
        && is_some (decimal m.cache_read)
        && is_some (decimal m.cache_write))

-- The loop over the models; `seen` holds the names before.
check_models : List Price → List Text → Result (Unit {0})
unfolding bad_price
check_models [] seen = ok tt
check_models (m ∷ ms) seen = refuse_if (bad_price m seen) >>= λ _. check_models ms (m.id ∷ seen)

other_than : Text → Text → Bool
other_than s t = not (is_empty s) && not (text_eq s t)

-- `validSelector`
unfoldable pub valid_selector : Selector → Bool
valid_selector s =
    one_of s.kind (codes "key" ∷ codes "team" ∷ codes "route" ∷ codes "agent" ∷ [])
    && leb (length s.value) 8192
    && not (is_blank s.value)

bad_scope : Option Selector → Bool
bad_scope none = false
bad_scope (some s) = not (valid_selector s)

bad_move : Move → Bool
unfolding bad_scope valid_selector
bad_move m =
    is_empty m.from
    || is_empty m.to
    || text_eq m.from m.to
    || ltb 128 (length m.from)
    || ltb 128 (length m.to)
    || not (is_some (fraction m.fraction))
    || bad_scope m.scope

check_moves : List Move → Result (Unit {0})
unfolding bad_move
check_moves [] = ok tt
check_moves (m ∷ ms) = refuse_if (bad_move m) >>= λ _. check_moves ms

same_selector : Selector → Selector → Bool
same_selector s t = text_eq s.kind t.kind && text_eq s.value t.value

seen_selector : Selector → List Selector → Bool
unfolding same_selector
seen_selector s [] = false
seen_selector s (t ∷ ts) = same_selector s t || seen_selector s ts

check_mappings : List Mapping → List Selector → Result (Unit {0})
unfolding seen_selector valid_selector
check_mappings [] seen = ok tt
check_mappings (m ∷ ms) seen =
    refuse_if (
      not (valid_selector m.selector)
      || not (is_some (workload_of m.workload))
      || seen_selector m.selector seen)
    >>= λ _. check_mappings ms (m.selector ∷ seen)

-- `validateScenario`
unfoldable pub validate_scenario : Scenario → WorkloadMap → Result (Unit {0})
unfolding check_moves check_mappings
validate_scenario s m = do
  _ ← refuse_if (not (is_version 1 s.version) || length s.moves == 0 || ltb 32 (length s.moves))
  _ ← check_moves s.moves
  _ ← refuse_if (
      (not (is_version 0 m.version) && not (is_version 1 m.version))
      || ltb 1024 (length m.mappings)
      || (ltb 0 (length m.mappings) && not (is_version 1 m.version)))
  check_mappings m.mappings []

-- Positive, and in order.
ordered_factor : Option ℕ → Option ℕ → Option ℕ → Bool
ordered_factor (some m) (some lo) (some hi) = ltb 0 m && ltb 0 lo && leb lo m && leb m hi
ordered_factor _ _ _ = false

positive_factor : Option ℕ → Bool
positive_factor none = false
positive_factor (some r) = ltb 0 r

-- `p.From + "\x00" + p.To`
input_key : InputFactor → Text
input_key p = p.from ++ (0 ∷ p.to)

check_input_pairs : List InputFactor → List Text → Result (Unit {0})
unfolding input_key positive_factor
check_input_pairs [] seen = ok tt
check_input_pairs (p ∷ ps) seen =
    refuse_if (
      not (positive_factor (decimal p.factor))
      || not (is_positive p.n)
      || is_empty p.source
      || one_of (input_key p) seen)
    >>= λ _. check_input_pairs ps (input_key p ∷ seen)

output_key : Factor → Text
output_key p = p.from ++ (0 ∷ (p.to ++ (0 ∷ p.workload)))

bad_factor : Factor → List Text → Bool
unfolding output_key ordered_factor
bad_factor p seen =
    not (ordered_factor (decimal p.output) (decimal p.low) (decimal p.high))
    || not (is_positive p.n)
    || is_empty p.source
    || not (is_some (workload_of p.workload))
    || one_of (output_key p) seen

check_pairs : List Factor → List Text → Result (Unit {0})
unfolding bad_factor
check_pairs [] seen = ok tt
check_pairs (p ∷ ps) seen =
    refuse_if (bad_factor p seen) >>= λ _. check_pairs ps (output_key p ∷ seen)

-- `validateFactors`
unfoldable pub validate_factors : Factors → Result (Unit {0})
unfolding check_input_pairs check_pairs
validate_factors f = check_input_pairs f.input_pairs [] >>= λ _. check_pairs f.pairs []

module _ (year : Text → Option ℕ) where
  -- `validDate`
  unfoldable pub valid_date : Text → Bool
  unfolding year_within
  valid_date s = year_within (year s)

  -- `validatePrices`
  unfoldable pub validate_prices : Prices → Result (Unit {0})
  unfolding check_models other_than
  validate_prices p = do
    _ ← refuse_if (
        not (is_version 1 p.version)
        || not (valid_date p.date)
        || length p.models == 0
        || ltb 128 (length p.models))
    _ ←
        refuse_if
          (other_than p.currency (codes "USD") || other_than p.unit (codes "per_million_tokens"))
    check_models p.models []

  find_bundled : List Price → Price → Option Price
  find_bundled [] p = none
  find_bundled (b ∷ bs) p =
      if text_eq b.id p.id && text_eq b.provider p.provider then some b else find_bundled bs p

  filled : Price → Option Price → Result Price
  filled p none = err unknown_price
  filled p (some b) = ok (record p {
    input_tier_max = if p.input_tier_max == 0 then b.input_tier_max else p.input_tier_max;
    cache_write_ttl = if is_empty p.cache_write_ttl then b.cache_write_ttl else p.cache_write_ttl;
  })

  fill_models : List Price → List Price → Result (List Price)
  unfolding find_bundled filled
  fill_models bundled [] = ok []
  fill_models bundled (p ∷ ps) = do
    q ← filled p (find_bundled bundled p)
    qs ← fill_models bundled ps
    ok (q ∷ qs)

  -- `OverridePrices`
  unfoldable pub override_prices : Prices → Prices → Result Prices
  unfolding fill_models
  override_prices bundled override = do
    _ ← validate_prices override
    ms ← fill_models bundled.models override.models
    ok (record override { models = ms })
