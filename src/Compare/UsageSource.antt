-- ===== src/Compare/UsageSource.antt =====
-- internal/compare/investigate.go: `usageSourceQuestion`, which of its answers a report gets.
pub mod Sound
use fleetdiff.Base.{
  ℕ, zero, suc, ◌+◌, ◌-◌, ◌≤◌, ◌≡◌, refl, sym, ap, ◌∙◌, subst, Bool, true, false, ◌&&◌, ◌||◌, not,
  Option, none, some, List, [], ◌∷◌, ◌++◌, ltb, ◌==◌, if◌then◌else◌, if-cases, arith,
}
use fleetdiff.Text.{Text, codes, text_eq}

pub record Counter : Type 0 where
  pub counter_name : Text
  pub count_before : ℕ
  pub count_after : ℕ

pub record UsageCoverage : Type 0 where
  pub requests : ℕ
  pub missing : ℕ

-- What the question reads of a report.
pub record SourceReport : Type 0 where
  pub usage_before : Option UsageCoverage
  pub usage_after : Option UsageCoverage
  pub counters : List Counter
  pub complete : Bool

-- The answers: the origin is unknown, the counts disagree, some usage is declared otherwise, all of it is the
-- provider's but the coverage is not complete, or all of it is the provider's.
pub data SourceAnswer : Type 0 where
  unknown_origin counts_disagree declared_otherwise provider_incomplete provider_reported :
      SourceAnswer

find_counter : Text → List Counter → Option Counter
find_counter name [] = none
find_counter name (c ∷ cs) =
    let rest = find_counter name cs in if text_eq c.counter_name name then some c else rest

pub data Source : Type 0 where
  reported inferred unavailable unknown : Source

source_text : Source → Text
source_text reported = codes "provider_reported"
source_text inferred = codes "inferred"
source_text unavailable = codes "unavailable"
source_text unknown = codes "unknown"

unfoldable pub source_counter : List Counter → Text → Source → Option Counter
unfolding find_counter source_text
source_counter cs field s =
    find_counter (codes "usage_provenance.v1." ++ field ++ b'.' ∷ source_text s) cs

-- The state of the loops: what the sources of a field have left of the requests, and two marks.
pub record Tally : Type 0 where
  pub left_before : ℕ
  pub left_after : ℕ
  pub has_unknown : Bool
  pub provider_only : Bool

pub data Outcome : Type 0 where
  unknown_stop disagreeing_stop : Outcome
  running : Tally → Outcome

is_unknown : Source → Bool
is_unknown unknown = true
is_unknown _ = false

is_reported : Source → Bool
is_reported reported = true
is_reported _ = false

take_source : Source → Option Counter → Tally → Outcome
unfolding is_unknown is_reported
take_source s none t = unknown_stop
take_source s (some c) t =
    if ltb t.left_before c.count_before || ltb t.left_after c.count_after
    then disagreeing_stop
    else running (record {
      left_before = t.left_before - c.count_before;
      left_after = t.left_after - c.count_after;
      has_unknown =
          t.has_unknown
          || (is_unknown s && (not (c.count_before == 0) || not (c.count_after == 0)));
      provider_only =
          t.provider_only && (is_reported s || (c.count_before == 0 && c.count_after == 0));
    })

continue_with : Outcome → (Tally → Outcome) → Outcome
continue_with unknown_stop f = unknown_stop
continue_with disagreeing_stop f = disagreeing_stop
continue_with (running t) f = f t

module _ (cs : List Counter) (before after : ℕ) where
  all_taken : Tally → Outcome
  all_taken t = if t.left_before == 0 && t.left_after == 0 then running t else unknown_stop

  take_field : Text → Tally → Outcome
  unfolding take_source source_counter continue_with all_taken
  take_field field t =
      continue_with
        (take_source reported (source_counter cs field reported)
          (record t { left_before = before; left_after = after }))
        λ a. continue_with (take_source inferred (source_counter cs field inferred) a) λ b.
          continue_with (take_source unavailable (source_counter cs field unavailable) b)
            λ c. continue_with (take_source unknown (source_counter cs field unknown) c) all_taken

  both_fields : Outcome
  unfolding take_field continue_with
  both_fields =
      continue_with
        (take_field (codes "input") (record {
          left_before = before;
          left_after = after;
          has_unknown = false;
          provider_only = true;
        }))
        (take_field (codes "output"))

answer_of : Bool → ℕ → ℕ → Outcome → SourceAnswer
answer_of complete missing_before missing_after unknown_stop = unknown_origin
answer_of complete missing_before missing_after disagreeing_stop = counts_disagree
answer_of complete missing_before missing_after (running t) =
    if t.has_unknown
    then unknown_origin
    else if t.provider_only && complete && missing_before == 0 && missing_after == 0
    then provider_reported
    else if t.provider_only
    then provider_incomplete
    else declared_otherwise

covered_answer : SourceReport → Option UsageCoverage → Option UsageCoverage → SourceAnswer
unfolding both_fields answer_of
covered_answer r (some a) (some b) =
    if a.requests == 0 || b.requests == 0
    then unknown_origin
    else answer_of r.complete a.missing b.missing (both_fields r.counters a.requests b.requests)
covered_answer r _ _ = unknown_origin

-- `usageSourceQuestion`
unfoldable pub usage_source : SourceReport → SourceAnswer
unfolding covered_answer
usage_source r = covered_answer r r.usage_before r.usage_after
