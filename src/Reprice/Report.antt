-- ===== src/Reprice/Report.antt =====
-- internal/reprice/calculate.go: `Calculator.Result`, and failures.go: `pricedFailures`. The report holds exact amounts, in
-- units of 10 ^ -1038: a cost of tokens times a fraction. Its texts are printed from them by `text`.
pub mod Ordered
pub mod Enveloped
use fleetdiff.Base.{
  ℕ, zero, suc, ◌+◌, ◌*◌, ◌/◌, ◌%◌, ◌^◌, Bool, true, false, ◌&&◌, ◌||◌, not, Option, none, some,
  List, [], ◌∷◌, ◌++◌, map, ltb, leb, ◌==◌, if◌then◌else◌, keep, ℤ, pos, negsuc, ◌+ℤ◌, ◌-ℤ◌, ltb_ℤ,
}
use fleetdiff.Text.{Text, codes, one_of}
use fleetdiff.Text.Digits.{show}
use fleetdiff.Reprice.Config.{
  Workload, qa, extraction, coding, workload_name, Price, Factor, one, rat, is_some,
}
use fleetdiff.Reprice.Calculator.{
  Sums, Bucket, unmapped, mapped_to, MoveState, Issue, Config, State, Calculator, price, input_cost,
  output_cost, bucket_cost, find_factor,
}

-- A column of the results: the mapped workloads, or one workload for all that is not mapped.
pub data Variant : Type 0 where
  mapped : Variant
  assume : Workload → Variant

abbrev pub variant_name : Variant → Text
variant_name mapped = codes "mapped"
variant_name (assume w) = workload_name w

-- `slices.Clone(Workloads)`, or `mapped` where nothing is unmapped.
unfoldable pub default_variants : ℕ → List Variant
default_variants n =
    if n == 0 then mapped ∷ [] else assume qa ∷ assume extraction ∷ assume coding ∷ []

pub record WorkloadCost : Type 0 where
  pub workload : Variant
  pub mean : ℤ
  pub low : ℤ
  pub high : ℤ

pub record MoveReport : Type 0 where
  pub item : ℕ
  pub from : Text
  pub to : Text
  pub fraction : Text
  pub scoped : Bool
  pub covered : ℕ
  pub excluded : ℕ
  pub input_factor : ℕ
  pub input_source : Text
  pub before : Option ℕ
  pub level1 : Option ℕ
  pub output_share : Option ℕ
  pub level2 : List WorkloadCost
  pub factor_sources : List Text
  pub gap : Text

pub record Envelope : Type 0 where
  pub lowest : ℤ
  pub highest : ℤ

pub record Report : Type 0 where
  pub covered : ℕ
  pub excluded : Issue → ℕ
  pub unmapped_count : ℕ
  pub before : Option ℕ
  pub level1 : Option ℤ
  pub level2 : List WorkloadCost
  pub envelope : Option Envelope
  pub moves : List MoveReport

pub record PricedFailures : Type 0 where
  pub records : ℕ
  pub input : ℕ
  pub output : ℕ
  pub cache_read : ℕ
  pub cache_write : ℕ
  pub total : ℕ
  pub report : Report

-- `text`: nine places, of a fraction of `unit`, halves away from zero.
pad : ℕ → ℕ → List ℕ
pad zero n = []
pad (suc places) n = pad places (n / 10) ++ (b'0' + n % 10) ∷ []

decimal_text : ℕ → Text
unfolding pad
decimal_text nano = show (nano / 1000000000) ++ (b'.' ∷ pad 9 nano)

nano_of : ℕ → ℕ → ℕ
nano_of unit n = (2 * n * 1000000000 + unit) / (2 * unit)

unfoldable pub text : ℕ → ℤ → Text
unfolding decimal_text nano_of
text unit (pos n) = decimal_text (nano_of unit n)
text unit (negsuc n) = b'-' ∷ decimal_text (nano_of unit (n + 1))

-- The part that output has of a cost, in units of 10 ^ -9.
unfoldable pub output_share : ℕ → ℕ → Option ℕ
unfolding nano_of
output_share out next = if next == 0 then none else some (nano_of next out)

-- The buckets that hold records, in the order of their names.
present : Bucket → Option Sums → List (Bucket × Sums)
present b none = []
present b (some t) = (b, t) ∷ []

unfoldable pub bucket_list : MoveState → List (Bucket × Sums)
unfolding present
bucket_list m =
    present unmapped (m.buckets unmapped)
    ++ (present (mapped_to coding) (m.buckets (mapped_to coding))
        ++ (present (mapped_to extraction) (m.buckets (mapped_to extraction))
            ++ present (mapped_to qa) (m.buckets (mapped_to qa))))

-- A cost at the price of a model, which `New` has found.
abbrev pub priced : Option Price → (Price → ℕ) → ℕ
priced none f = 0
priced (some p) f = f p

unfoldable pub cost_at : Config → Text → ℕ → ℕ → Sums → ℕ
cost_at c model input output t = priced (price c model) (λ p. bucket_cost t p input output)

unfoldable pub output_at : Config → Text → Sums → ℕ
output_at c model t = priced (price c model) (λ p. output_cost t p one)

unfoldable pub sum_buckets : (Sums → ℕ) → List (Bucket × Sums) → ℕ
sum_buckets f [] = 0
sum_buckets f ((b, t) ∷ ks) = f t + sum_buckets f ks

-- The central, lower and upper cost of the moved buckets, before the fraction.
pub record Triple : Type 0 where
  pub mean : ℕ
  pub low : ℕ
  pub high : ℕ

abbrev assumed : Bucket → Variant → Text
assumed unmapped v = variant_name v
assumed (mapped_to w) v = workload_name w

unfoldable pub add_triple : Config → MoveState → Factor → Sums → Triple → Triple
add_triple c m f t v = record {
  mean = v.mean + cost_at c m.move.to m.input (rat f.output) t;
  low = v.low + cost_at c m.move.to m.input (rat f.low) t;
  high = v.high + cost_at c m.move.to m.input (rat f.high) t;
}

add_source : List Text → Text → List Text
add_source sources s = if one_of s sources then sources else sources ++ s ∷ []

-- The sources met, and the costs if every bucket has a factor.
abbrev pub Costed : Type 0
Costed = List Text × Option Triple

when_found : Option Factor → List Text → (Factor → Costed) → Costed
when_found none sources next = (sources, none)
when_found (some f) sources next = next f

unfoldable pub cost_variant :
    Config → MoveState → Variant → List Text → Triple → List (Bucket × Sums) → Costed
unfolding when_found add_source
cost_variant c m v sources t [] = (sources, some t)
cost_variant c m v sources t ((b, x) ∷ ks) =
    when_found (find_factor c.factors.pairs m.move.from m.move.to (assumed b v)) sources
      (λ f. cost_variant c m v (add_source sources f.source) (add_triple c m f x t) ks)

abbrev pub no_triple : Triple
no_triple = record { mean = 0; low = 0; high = 0 }

-- `t + (v * ratio - before)`, for each of the three.
unfoldable pub shift : ℕ → ℕ → WorkloadCost → Triple → WorkloadCost
shift ratio before t v = record t {
  mean = t.mean +ℤ (pos (v.mean * ratio) -ℤ pos before);
  low = t.low +ℤ (pos (v.low * ratio) -ℤ pos before);
  high = t.high +ℤ (pos (v.high * ratio) -ℤ pos before);
}

unfoldable pub moved_cost : ℕ → Variant → Triple → WorkloadCost
moved_cost ratio w v = record {
  workload = w;
  mean = pos (v.mean * ratio);
  low = pos (v.low * ratio);
  high = pos (v.high * ratio);
}

-- What the loop over the variants leaves of one move.
pub record Pass : Type 0 where
  pub totals : List WorkloadCost
  pub level2 : List WorkloadCost
  pub sources : List Text
  pub complete : Bool

after_variant : ℕ → ℕ → WorkloadCost → Option Triple → Pass → Pass
after_variant ratio before t none rest = record rest { totals = t ∷ rest.totals; complete = false }
after_variant ratio before t (some v) rest = record rest {
  totals = shift ratio before t v ∷ rest.totals;
  level2 = moved_cost ratio t.workload v ∷ rest.level2;
}

unfoldable pub pass_variants : Config → MoveState → ℕ → List Text → List WorkloadCost → Pass
unfolding after_variant
pass_variants c m before sources [] = record {
  totals = [];
  level2 = [];
  sources = sources;
  complete = true;
}
pass_variants c m before sources (t ∷ ts) =
    let costed = cost_variant c m t.workload sources no_triple (bucket_list m) in
    after_variant m.ratio before t costed.1 (pass_variants c m before costed.0 ts)

-- The running state of `result`.
pub record Running : Type 0 where
  pub moves : List MoveReport
  pub totals : List WorkloadCost
  pub level1 : ℤ
  pub complete : Bool

empty_move : ℕ → MoveState → MoveReport
empty_move n m = record {
  item = n;
  from = m.move.from;
  to = m.move.to;
  fraction = m.move.fraction;
  scoped = is_some m.scope;
  covered = m.covered;
  excluded = m.excluded;
  input_factor = m.input;
  input_source = m.input_source;
  before = none;
  level1 = none;
  output_share = none;
  level2 = [];
  factor_sources = [];
  gap = codes "no covered matching usage";
}

run_covered : Config → ℕ → MoveState → Running → Running
unfolding empty_move
run_covered c n m s =
    let before = sum_buckets (cost_at c m.move.from one one) (bucket_list m) * m.ratio in
    let next = sum_buckets (cost_at c m.move.to m.input one) (bucket_list m) * m.ratio in
    let out = sum_buckets (output_at c m.move.to) (bucket_list m) * m.ratio in
    let pass = pass_variants c m before [] s.totals in
    record {
      moves =
          s.moves
          ++ record (empty_move n m) {
            before = some before;
            level1 = some next;
            output_share = output_share out next;
            level2 = pass.level2;
            factor_sources = pass.sources;
            gap = if pass.complete then [] else codes "no measured verbosity factor";
          }
            ∷ [];
      totals = pass.totals;
      level1 = s.level1 +ℤ (pos next -ℤ pos before);
      complete = s.complete && pass.complete;
    }

unfoldable pub run_move : Config → ℕ → MoveState → Running → Running
unfolding run_covered
run_move c n m s =
    if m.covered == 0
    then record s { moves = s.moves ++ empty_move n m ∷ []; complete = false }
    else run_covered c n m s

unfoldable pub run_moves : Config → ℕ → List MoveState → Running → Running
run_moves c n [] s = s
run_moves c n (m ∷ ms) s = run_moves c (n + 1) ms (run_move c n m s)

min_ℤ : ℤ → ℤ → ℤ
min_ℤ a b = if ltb_ℤ b a then b else a

max_ℤ : ℤ → ℤ → ℤ
max_ℤ a b = if ltb_ℤ a b then b else a

widen : Envelope → WorkloadCost → Envelope
unfolding min_ℤ max_ℤ
widen e t = record { lowest = min_ℤ e.lowest t.low; highest = max_ℤ e.highest t.high }

envelope_from : Envelope → List WorkloadCost → Envelope
unfolding widen
envelope_from e [] = e
envelope_from e (t ∷ ts) = envelope_from (widen e t) ts

unfoldable pub envelope : List WorkloadCost → Option Envelope
unfolding envelope_from
envelope [] = none
envelope (t ∷ ts) = some (envelope_from (record { lowest = t.low; highest = t.high }) ts)

unfoldable pub start_total : ℕ → Variant → WorkloadCost
start_total baseline v = record {
  workload = v;
  mean = pos baseline;
  low = pos baseline;
  high = pos baseline;
}

unfoldable pub run_result : Config → State → List Variant → Running
run_result c s vs =
    let baseline = s.baseline * one in
    run_moves c 1 s.moves (record {
      moves = [];
      totals = map (start_total baseline) vs;
      level1 = pos baseline;
      complete = true;
    })

pub empty_moves : ℕ → List MoveState → List MoveReport
empty_moves n [] = []
empty_moves n (m ∷ ms) = empty_move n m ∷ empty_moves (n + 1) ms

-- `result` of the moves and the variants that are given.
unfoldable pub result_of : Config → State → List Variant → Report
unfolding empty_moves empty_move
result_of c s vs =
    let run = run_result c s vs in
    let priced_report : Report = record {
      covered = s.covered;
      excluded = s.excluded;
      unmapped_count = s.unmapped_count;
      before = some (s.baseline * one);
      level1 = some run.level1;
      level2 = if run.complete then run.totals else [];
      envelope = if run.complete then envelope run.totals else none;
      moves = run.moves;
    } in
    if s.covered == 0
    then record {
      covered = 0;
      excluded = s.excluded;
      unmapped_count = s.unmapped_count;
      before = none;
      level1 = none;
      level2 = [];
      envelope = none;
      moves = empty_moves 1 s.moves;
    }
    else priced_report

-- `Calculator.Result` without the failures.
unfoldable pub result : Calculator → Report
result k = result_of k.config k.state (default_variants k.state.unmapped_count)

-- `pricedFailures`: a move with no failures adds nothing, and the variants are those of the parent.
unfoldable pub priced_failures : Calculator → State → PricedFailures
priced_failures k f = record {
  records = f.covered;
  input = k.failed_input;
  output = k.failed_output;
  cache_read = k.failed_read;
  cache_write = k.failed_write;
  total = k.failed_input + k.failed_output;
  report =
      result_of k.config (record f { moves = keep (λ m. ltb 0 m.covered) f.moves })
        (map (λ (w : WorkloadCost). w.workload) (result k).level2);
}
