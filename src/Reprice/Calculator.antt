-- ===== src/Reprice/Calculator.antt =====
-- internal/reprice/calculate.go: the calculator, its construction by `New`, and the cost of a bucket. The keyed hash of a
-- selector is a parameter. Amounts are whole numbers: a price, a factor and a fraction count units of 10 ^ -344, a cost of
-- tokens units of 10 ^ -694.
pub mod Fresh
use fleetdiff.Base.{
  ℕ, ◌+◌, ◌*◌, ◌^◌, Bool, true, false, ◌&&◌, ◌||◌, not, Option, none, some, List, [], ◌∷◌, ltb, leb,
  ◌==◌, if◌then◌else◌, sub64, Result, ok, err, ◌>>=◌, bad_config, unknown_price, no_factor,
  bad_identity, workload_conflict,
}
use fleetdiff.Text.{Text, codes, text_eq}
use fleetdiff.Reprice.Config.{
  Workload, workload_of, workload_name, Price, Prices, InputFactor, Factor, Factors, Selector, Move,
  Scenario, Mapping, WorkloadMap, fraction, rat, one, is_version, refuse_if, valid_date,
  validate_prices, validate_scenario, validate_factors,
}

-- `totals`
pub record Sums : Type 0 where
  pub input : ℕ
  pub output : ℕ
  pub read : ℕ
  pub write : ℕ

pub record HashedSelector : Type 0 where
  pub kind : Text
  pub digest : ℕ

-- A key of `buckets`: the empty text, or a workload.
pub data Bucket : Type 0 where
  unmapped : Bucket
  mapped_to : Workload → Bucket

pub record MoveState : Type 0 where
  pub move : Move
  pub ratio : ℕ
  pub input : ℕ
  pub input_source : Text
  pub buckets : Bucket → Option Sums
  pub covered : ℕ
  pub excluded : ℕ
  pub scope : Option HashedSelector

-- A key of `excluded`.
pub data Issue : Type 0 where
  invalid_usage missing_split zero_origin_unknown unpriced_reserved_bucket unusable_usage : Issue
  unknown_served_identity unknown_model_price outside_price_tier unsupported_call_type : Issue
  missing_scope_identity invalid_cache_partition : Issue

-- What a calculator is given, and does not change.
pub record Config : Type 0 where
  pub prices : Prices
  pub factors : Factors
  pub mapping : List (HashedSelector × Workload)
  pub routing : Bool

-- What the records change.
pub record State : Type 0 where
  pub moves : List MoveState
  pub baseline : ℕ
  pub covered : ℕ
  pub unmapped_count : ℕ
  pub excluded : Issue → ℕ

-- `Calculator`: `failures` is the calculator of failed records, with the configuration of its parent.
pub record Calculator : Type 0 where
  pub config : Config
  pub state : State
  pub failures : Option State
  pub failed_input : ℕ
  pub failed_output : ℕ
  pub failed_read : ℕ
  pub failed_write : ℕ

find_price : List Price → Text → Option Price
find_price [] id = none
find_price (p ∷ ps) id = if text_eq p.id id then some p else find_price ps id

-- `Calculator.price`
unfoldable pub price : Config → Text → Option Price
unfolding find_price
price c id = find_price c.prices.models id

-- `cost`: the cost of a bucket, and the part of it that its output has.
unfoldable pub input_cost : Sums → Price → ℕ → ℕ
input_cost t p factor =
    (sub64 (sub64 t.input t.read) t.write * rat p.input
      + t.read * rat p.cache_read
      + t.write * rat p.cache_write)
    * factor

unfoldable pub output_cost : Sums → Price → ℕ → ℕ
output_cost t p factor = t.output * rat p.output * factor

unfoldable pub bucket_cost : Sums → Price → ℕ → ℕ → ℕ
bucket_cost t p input output = input_cost t p input + output_cost t p output

-- `Calculator.outputFactor`
unfoldable pub find_factor : List Factor → Text → Text → Text → Option Factor
find_factor [] from to workload = none
find_factor (p ∷ ps) from to workload =
    if text_eq p.from from && text_eq p.to to && text_eq p.workload workload
    then some p
    else find_factor ps from to workload

find_input : List InputFactor → Text → Text → Option InputFactor
find_input [] from to = none
find_input (p ∷ ps) from to =
    if text_eq p.from from && text_eq p.to to then some p else find_input ps from to

abbrev pub no_buckets : Bucket → Option Sums
no_buckets _ = none

unfoldable pub fresh_move : Move → ℕ → ℕ → Text → MoveState
fresh_move m ratio input source = record {
  move = m;
  ratio = ratio;
  input = input;
  input_source = source;
  buckets = no_buckets;
  covered = 0;
  excluded = 0;
  scope = none;
}

cross_provider : Move → ℕ → Option InputFactor → Result MoveState
cross_provider m ratio none = err no_factor
cross_provider m ratio (some f) = ok (fresh_move m ratio (rat f.factor) f.source)

with_prices : List InputFactor → Move → Option ℕ → Option Price → Option Price → Result MoveState
unfolding cross_provider find_input
with_prices fs m (some ratio) (some from) (some to) =
    let across = cross_provider m ratio (find_input fs m.from m.to) in
    if text_eq from.provider to.provider
    then ok (fresh_move m ratio one (codes "within-provider assumption: 1.0"))
    else across
with_prices fs m _ _ _ = err unknown_price

make_move : Prices → Factors → Move → Result MoveState
unfolding with_prices find_price
make_move p f m =
    with_prices f.input_pairs m (fraction m.fraction) (find_price p.models m.from)
      (find_price p.models m.to)

make_moves : Prices → Factors → List Move → Result (List MoveState)
unfolding make_move
make_moves p f [] = ok []
make_moves p f (m ∷ ms) = do x ← make_move p f m; xs ← make_moves p f ms; ok (x ∷ xs)

abbrev is_routing : Selector → Bool
is_routing s = text_eq s.kind (codes "route") || text_eq s.kind (codes "agent")

scope_routes : Option Selector → Bool
scope_routes none = false
scope_routes (some s) = is_routing s

any_move_routes : List Move → Bool
unfolding scope_routes
any_move_routes [] = false
any_move_routes (m ∷ ms) = scope_routes m.scope || any_move_routes ms

any_mapping_routes : List Mapping → Bool
any_mapping_routes [] = false
any_mapping_routes (m ∷ ms) = is_routing m.selector || any_mapping_routes ms

unfoldable pub same_hash : HashedSelector → HashedSelector → Bool
same_hash a b = text_eq a.kind b.kind && a.digest == b.digest

unfoldable pub find_mapping : List (HashedSelector × Workload) → HashedSelector → Option Workload
find_mapping [] s = none
find_mapping ((k, w) ∷ ms) s = if same_hash k s then some w else find_mapping ms s

unfoldable pub same_workload : Workload → Workload → Bool
same_workload v w = text_eq (workload_name v) (workload_name w)

-- An earlier mapping of the same selector must agree.
add_mapping :
    List (HashedSelector × Workload)
    → HashedSelector
    → Workload
    → Option Workload
    → Result (List (HashedSelector × Workload))
add_mapping ms s w none = ok ((s, w) ∷ ms)
add_mapping ms s w (some v) = if same_workload v w then ok ms else err workload_conflict

workload_or_error : Option Workload → Result Workload
workload_or_error none = err bad_config
workload_or_error (some w) = ok w

module _ (identity : Text → Text → Option ℕ) where
  digest_of : Text → Option ℕ → Result HashedSelector
  digest_of kind none = err bad_identity
  digest_of kind (some d) = ok (record { kind = kind; digest = d })

  -- `Calculator.hashSelector`
  unfoldable pub hash_selector : Selector → Result HashedSelector
  unfolding digest_of
  hash_selector s = digest_of s.kind (identity s.kind s.value)

  scope_move : MoveState → Option Selector → Result MoveState
  scope_move m none = ok m
  scope_move m (some s) = hash_selector s >>= λ h. ok (record m { scope = some h })

  scope_moves : List MoveState → Result (List MoveState)
  unfolding scope_move
  scope_moves [] = ok []
  scope_moves (m ∷ ms) = do x ← scope_move m m.move.scope; xs ← scope_moves ms; ok (x ∷ xs)

  map_workloads :
      List (HashedSelector × Workload) → List Mapping → Result (List (HashedSelector × Workload))
  unfolding add_mapping workload_or_error
  map_workloads ms [] = ok ms
  map_workloads ms (x ∷ xs) = do
    h ← hash_selector x.selector
    w ← workload_or_error (workload_of x.workload)
    next ← add_mapping ms h w (find_mapping ms h)
    map_workloads next xs

  fresh_state : List MoveState → State
  fresh_state ms = record {
    moves = ms;
    baseline = 0;
    covered = 0;
    unmapped_count = 0;
    excluded = λ _. 0;
  }

  -- `New`
  unfoldable pub new_calculator :
      (Text → Option ℕ) → Prices → Factors → Scenario → WorkloadMap → Result Calculator
  unfolding make_moves scope_moves map_workloads fresh_state any_move_routes any_mapping_routes
  new_calculator year p f s m = do
    _ ← validate_prices year p
    _ ← validate_scenario s m
    _ ← refuse_if (not (is_version 1 f.version) || not (valid_date year f.date))
    _ ← validate_factors f
    fresh ← make_moves p f s.moves
    moves ← scope_moves fresh
    mapping ← map_workloads [] m.mappings
    ok (record {
      config = record {
        prices = p;
        factors = f;
        mapping = mapping;
        routing = any_move_routes s.moves || any_mapping_routes m.mappings;
      };
      state = fresh_state moves;
      failures = none;
      failed_input = 0;
      failed_output = 0;
      failed_read = 0;
      failed_write = 0;
    })
