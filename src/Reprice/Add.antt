-- ===== src/Reprice/Add.antt =====
-- internal/reprice/calculate.go: `Calculator.Add`, and failures.go: `addFailure`. A record is checked, its moves are
-- selected, an issue excludes it, and else it is priced.
pub mod Outcome
pub mod Counted
use fleetdiff.Base.{
  ℕ, ◌+◌, ◌-◌, ◌*◌, ◌^◌, Bool, true, false, ◌&&◌, ◌||◌, not, Option, none, some, List, [], ◌∷◌, ltb,
  leb, ◌==◌, if◌then◌else◌, update, Eq, Result, ok, err, ◌>>=◌, record_extrema, overlapping_moves,
  workload_conflict, target_tier, ◌↔◌, ◌≡◌, refl, ==_iff,
}
use fleetdiff.Text.{Text, codes, text_eq, one_of, is_empty}
use fleetdiff.Text.Utf8.{is_blank}
use fleetdiff.Accounting.Number.{add_bounded}
use fleetdiff.Reprice.Config.{Workload, workload_of, Price, Selector, one, is_some}
use fleetdiff.Reprice.Calculator.{
  Sums, HashedSelector, Bucket, unmapped, mapped_to, MoveState, Issue, invalid_usage, missing_split,
  zero_origin_unknown, unpriced_reserved_bucket, unusable_usage, unknown_served_identity,
  unknown_model_price, outside_price_tier, unsupported_call_type, missing_scope_identity,
  invalid_cache_partition, Config, State, Calculator, price, bucket_cost, hash_selector, same_hash,
  find_mapping, same_workload, no_buckets,
}

-- `Record`
pub record Record : Type 0 where
  pub model : Text
  pub key : Text
  pub team : Text
  pub route : Text
  pub agent : Text
  pub served_identity_known : Bool
  pub input : Option ℕ
  pub output : Option ℕ
  pub cache_read : Option ℕ
  pub cache_write : Option ℕ
  pub input_min : Option ℕ
  pub input_max : Option ℕ
  pub count : ℕ
  pub issue : Text
  pub failed : Bool

-- The total of a cohort lies between its extrema: one record has each of them.
extrema_hold : ℕ → Option ℕ → ℕ → ℕ → Bool
extrema_hold count none lo hi = false
extrema_hold count (some total) lo hi =
    leb lo hi && leb (lo * (count - 1) + hi) total && leb total (hi * (count - 1) + lo)

valid_extrema : ℕ → Option ℕ → Option ℕ → Option ℕ → Bool
unfolding extrema_hold
valid_extrema count total none none = true
valid_extrema count total (some lo) (some hi) = extrema_hold count total lo hi
valid_extrema count total _ _ = false

unfoldable pub check_record : Record → Result (Unit {0})
unfolding valid_extrema
check_record r =
    if r.count == 0 || not (valid_extrema r.count r.input r.input_min r.input_max)
    then err record_extrema
    else ok tt

-- `values[kind]`, which has routes and agents only where they are read.
unfoldable pub identity_value : Bool → Record → Text → Text
identity_value routing r kind =
    if text_eq kind (codes "key")
    then r.key
    else if text_eq kind (codes "team")
    then r.team
    else if text_eq kind (codes "route") && routing
    then r.route
    else if text_eq kind (codes "agent") && routing
    then r.agent
    else []

-- How a move meets a record.
pub data Selection : Type 0 where
  passed unknown_scope selected : Selection

unfoldable pub has_hash : HashedSelector → List HashedSelector → Bool
has_hash s [] = false
has_hash s (t ∷ ts) = same_hash s t || has_hash s ts

scope_selection : Bool → Record → List HashedSelector → Option HashedSelector → Selection
scope_selection routing r ids none = selected
scope_selection routing r ids (some s) =
    if is_blank (identity_value routing r s.kind)
    then unknown_scope
    else if has_hash s ids
    then selected
    else passed

unfoldable pub select : Bool → Record → List HashedSelector → MoveState → Selection
unfolding scope_selection
select routing r ids m =
    if text_eq m.move.from r.model then scope_selection routing r ids m.scope else passed

abbrev is_unknown : Selection → Bool
is_unknown unknown_scope = true
is_unknown _ = false

abbrev pub is_touched : Selection → Bool
is_touched passed = false
is_touched _ = true

abbrev ratio_of : Selection → ℕ → ℕ
ratio_of selected n = n
ratio_of _ n = 0

-- `unknownScope`, the sum of the selected fractions, and whether there are indices.
unfoldable pub any_unknown : Bool → Record → List HashedSelector → List MoveState → Bool
any_unknown routing r ids [] = false
any_unknown routing r ids (m ∷ ms) =
    is_unknown (select routing r ids m) || any_unknown routing r ids ms

unfoldable pub ratio_sum : Bool → Record → List HashedSelector → List MoveState → ℕ
ratio_sum routing r ids [] = 0
ratio_sum routing r ids (m ∷ ms) =
    ratio_of (select routing r ids m) m.ratio + ratio_sum routing r ids ms

unfoldable pub any_touched : Bool → Record → List HashedSelector → List MoveState → Bool
any_touched routing r ids [] = false
any_touched routing r ids (m ∷ ms) =
    is_touched (select routing r ids m) || any_touched routing r ids ms

-- The workload that the identities of a record are mapped to, if any, and the same for all of them.
agree : Option Workload → Option Workload → Result (Option Workload)
agree w none = ok w
agree none (some v) = ok (some v)
agree (some w) (some v) = if same_workload w v then ok (some w) else err workload_conflict

workload_from :
    List (HashedSelector × Workload)
    → Option Workload
    → List HashedSelector
    → Result (Option Workload)
unfolding agree
workload_from mapping w [] = ok w
workload_from mapping w (i ∷ ids) =
    agree w (find_mapping mapping i) >>= λ v. workload_from mapping v ids

unfoldable pub record_workload :
    Config → State → Record → List HashedSelector → Result (Option Workload)
unfolding workload_from
record_workload c s r ids =
    let found = workload_from c.mapping none ids in
    if any_touched c.routing r ids s.moves then found else ok none

-- The issue that a reader gives a record.
reader_issue : Text → Option Issue
reader_issue v =
    if is_empty v
    then none
    else if text_eq v (codes "invalid_usage")
    then some invalid_usage
    else if text_eq v (codes "missing_split")
    then some missing_split
    else if text_eq v (codes "zero_origin_unknown")
    then some zero_origin_unknown
    else if text_eq v (codes "unpriced_reserved_bucket")
    then some unpriced_reserved_bucket
    else some unusable_usage

complete_split : Record → Bool
complete_split r =
    is_some r.input && is_some r.output && is_some r.cache_read && is_some r.cache_write

-- `if issue == "" && c { issue = i }`
abbrev if_clear : Option Issue → Bool → Issue → Option Issue
if_clear none c i = if c then some i else none
if_clear (some j) c i = some j

abbrev is_reserved : Option Issue → Bool
is_reserved (some unpriced_reserved_bucket) = true
is_reserved _ = false

-- `if (!c.routing || issue == "") && c { issue = i }`
abbrev if_open : Bool → Option Issue → Bool → Issue → Option Issue
if_open routing o c i = if (not routing || not (is_some o)) && c then some i else o

-- The input of one request: that of the record, or the most of a cohort.
unfoldable pub request_input : Record → Option ℕ
request_input r = elim r.input_max [ none ↦ r.input | some n ↦ some n ]

outside_tier : Option Price → Option ℕ → Bool
outside_tier (some p) (some n) = ltb 0 p.input_tier_max && ltb p.input_tier_max n
outside_tier _ _ = false

unfoldable pub bad_partition : Option ℕ → Option ℕ → Option ℕ → Bool
bad_partition (some input) (some read) (some write) = ltb input read || ltb (input - read) write
bad_partition _ _ _ = false

-- The reason for which a record is excluded, if there is one.
unfoldable pub record_issue : Config → State → Record → List HashedSelector → Option Issue
unfolding reader_issue complete_split outside_tier bad_partition
record_issue c s r ids =
    let split = if_clear (reader_issue r.issue) (not (complete_split r)) missing_split in
    let served =
      if_clear split (c.routing && not r.served_identity_known) unknown_served_identity in
    let priced =
      if_open c.routing served (not (is_reserved served) && not (is_some (price c r.model)))
        unknown_model_price in
    let tiered =
      if_open c.routing priced (outside_tier (price c r.model) (request_input r))
        outside_price_tier in
    let typed =
      if text_eq r.issue (codes "unsupported_call_type")
      then some unsupported_call_type
      else tiered in
    let scoped = if_clear typed (any_unknown c.routing r ids s.moves) missing_scope_identity in
    if_clear scoped (bad_partition r.input r.cache_read r.cache_write) invalid_cache_partition

abbrev pub issue_number : Issue → ℕ
issue_number invalid_usage = 0
issue_number missing_split = 1
issue_number zero_origin_unknown = 2
issue_number unpriced_reserved_bucket = 3
issue_number unusable_usage = 4
issue_number unknown_served_identity = 5
issue_number unknown_model_price = 6
issue_number outside_price_tier = 7
issue_number unsupported_call_type = 8
issue_number missing_scope_identity = 9
issue_number invalid_cache_partition = 10

-- `addCount`: the count of an issue.
unfoldable pub add_count : (Issue → ℕ) → Issue → ℕ → Result (Issue → ℕ)
add_count m k n =
    add_bounded (m k) n >>= λ v. ok (λ j. if issue_number j == issue_number k then v else m j)

exclude_move : Selection → MoveState → ℕ → Result MoveState
exclude_move passed m n = ok m
exclude_move _ m n = add_bounded m.excluded n >>= λ v. ok (record m { excluded = v })

exclude_moves : Bool → Record → List HashedSelector → List MoveState → Result (List MoveState)
unfolding exclude_move
exclude_moves routing r ids [] = ok []
exclude_moves routing r ids (m ∷ ms) = do
  x ← exclude_move (select routing r ids m) m r.count
  xs ← exclude_moves routing r ids ms
  ok (x ∷ xs)

unfoldable pub exclude : Config → State → Record → List HashedSelector → Issue → Result State
unfolding exclude_moves
exclude c s r ids i = do
  counts ← add_count s.excluded i r.count
  ms ← exclude_moves c.routing r ids s.moves
  ok (record s { moves = ms; excluded = counts })

-- Whether a selected move would take the request past the tier that its target is priced for.
past_tier : ℕ → MoveState → Option Price → Bool
past_tier n m none = false
past_tier n m (some p) = ltb 0 p.input_tier_max && ltb (p.input_tier_max * one) (n * m.input)

any_past_tier : Config → Record → List HashedSelector → ℕ → List MoveState → Bool
unfolding past_tier
any_past_tier c r ids n [] = false
any_past_tier c r ids n (m ∷ ms) =
    (is_touched (select c.routing r ids m) && past_tier n m (price c m.move.to))
    || any_past_tier c r ids n ms

no_sums : Option Sums → Sums
no_sums none = record { input = 0; output = 0; read = 0; write = 0 }
no_sums (some t) = t

-- A bucket with the tokens of a record.
unfoldable pub add_sums : Sums → Sums → Result Sums
add_sums v t = do
  i ← add_bounded v.input t.input
  o ← add_bounded v.output t.output
  r ← add_bounded v.read t.read
  w ← add_bounded v.write t.write
  ok (record { input = i; output = o; read = r; write = w })

abbrev same_bucket : Bucket → Bucket → Bool
same_bucket unmapped unmapped = true
same_bucket (mapped_to v) (mapped_to w) = same_workload v w
same_bucket _ _ = false

unfoldable pub set_bucket : (Bucket → Option Sums) → Bucket → Sums → Bucket → Option Sums
set_bucket m b v j = if same_bucket j b then some v else m j

cover_move : Selection → MoveState → Bucket → Sums → ℕ → Result MoveState
unfolding no_sums
cover_move passed m b t n = ok m
cover_move _ m b t n = do
  v ← add_sums (no_sums (m.buckets b)) t
  k ← add_bounded m.covered n
  ok (record m { buckets = set_bucket m.buckets b v; covered = k })

cover_moves :
    Bool → Record → List HashedSelector → List MoveState → Bucket → Sums → Result (List MoveState)
unfolding cover_move
cover_moves routing r ids [] b t = ok []
cover_moves routing r ids (m ∷ ms) b t = do
  x ← cover_move (select routing r ids m) m b t r.count
  xs ← cover_moves routing r ids ms b t
  ok (x ∷ xs)

abbrev pub bucket_of : Option Workload → Bucket
bucket_of none = unmapped
bucket_of (some w) = mapped_to w

abbrev or_zero : Option ℕ → ℕ
or_zero none = 0
or_zero (some n) = n

-- The tokens of a record that has no issue, and so all four of them.
abbrev pub record_sums : Record → Sums
record_sums r = record {
  input = or_zero r.input;
  output = or_zero r.output;
  read = or_zero r.cache_read;
  write = or_zero r.cache_write;
}

abbrev price_or_free : Sums → Option Price → ℕ
price_or_free t none = 0
price_or_free t (some p) = bucket_cost t p one one

-- The cost of the record as it was.
unfoldable pub record_cost : Config → Record → ℕ
record_cost c r = price_or_free (record_sums r) (price c r.model)

count_unmapped : Bool → ℕ → ℕ → Result ℕ
count_unmapped c u n = if c then add_bounded u n else ok u

unfoldable pub cover :
    Config → State → Record → List HashedSelector → Option Workload → Result State
unfolding any_past_tier cover_moves count_unmapped
cover c s r ids w =
    let priced = add_bounded s.covered r.count >>= λ n.
    count_unmapped (any_touched c.routing r ids s.moves && not (is_some w)) s.unmapped_count r.count
    >>= λ u. cover_moves c.routing r ids s.moves (bucket_of w) (record_sums r) >>= λ ms.
        ok (record s {
          moves = ms;
          covered = n;
          unmapped_count = u;
          baseline = s.baseline + record_cost c r;
        }) in
    if any_past_tier c r ids (or_zero (request_input r)) s.moves then err target_tier else priced

-- The fractions of the moves that select a record are at most 1, unless a scope is unknown.
unfoldable pub check_overlap : Config → State → Record → List HashedSelector → Result (Unit {0})
check_overlap c s r ids =
    if not (any_unknown c.routing r ids s.moves) && ltb one (ratio_sum c.routing r ids s.moves)
    then err overlapping_moves
    else ok tt

exclude_or_cover :
    Config → State → Record → List HashedSelector → Option Workload → Option Issue → Result State
exclude_or_cover c s r ids w (some i) = exclude c s r ids i
exclude_or_cover c s r ids w none = cover c s r ids w

module _ (identity : Text → Text → Option ℕ) where
  add_identity : Config → Record → Text → List HashedSelector → Result (List HashedSelector)
  add_identity c r kind ids =
      let hashed =
        hash_selector identity (record { kind = kind; value = identity_value c.routing r kind })
        >>= λ h. ok (h ∷ ids) in
      if is_blank (identity_value c.routing r kind) then ok ids else hashed

  -- The keyed identities of a record.
  unfoldable pub identities : Config → Record → Result (List HashedSelector)
  unfolding add_identity
  identities c r = do
    a ← add_identity c r (codes "agent") []
    b ← add_identity c r (codes "route") a
    d ← add_identity c r (codes "team") b
    add_identity c r (codes "key") d

  -- `Add`, up to the failures.
  unfoldable pub add_state : Config → State → Record → Result State
  unfolding exclude_or_cover
  add_state c s r = check_record r >>= λ _. identities c r >>= λ ids.
      check_overlap c s r ids >>= λ _.
      record_workload c s r ids >>= λ w. exclude_or_cover c s r ids w (record_issue c s r ids)

  -- The moves of the parent, with no record in them.
  fresh_failures : State → State
  fresh_failures s = record {
    moves = fresh s.moves;
    baseline = 0;
    covered = 0;
    unmapped_count = 0;
    excluded = λ _. 0;
  }
    where
      fresh : List MoveState → List MoveState
      fresh [] = []
      fresh (m ∷ ms) = record m { buckets = no_buckets; covered = 0; excluded = 0 } ∷ fresh ms

  abbrev failures_or_fresh : State → Option State → State
  failures_or_fresh s none = fresh_failures s
  failures_or_fresh s (some f) = f

  -- `addFailure`
  unfoldable pub add_failure : Calculator → Record → Result Calculator
  unfolding fresh_failures
  add_failure k r =
      add_state k.config (failures_or_fresh k.state k.failures) (record r { failed = false })
      >>= λ f. ok (record k {
        failures = some f;
        failed_input = k.failed_input + or_zero r.input;
        failed_output = k.failed_output + or_zero r.output;
        failed_read = k.failed_read + or_zero r.cache_read;
        failed_write = k.failed_write + or_zero r.cache_write;
      })

  -- A record with an issue returns before its failure is added.
  unfoldable pub is_covered : Config → State → Record → Result (List HashedSelector) → Bool
  is_covered c s r (err e) = false
  is_covered c s r (ok ids) = not (is_some (record_issue c s r ids))

  -- `Calculator.Add`
  unfoldable pub add : Calculator → Record → Result Calculator
  add k r = add_state k.config k.state r >>= λ s.
      let next = record k { state = s } in
      let failed = add_failure next r in
      if r.failed && is_covered k.config k.state r (identities k.config r) then failed else ok next
