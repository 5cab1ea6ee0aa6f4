-- ===== src/Spend/Agents/Accumulator.antt =====
-- internal/spend/agents.go: `agentAccumulator` and its `add`. A digest of an agent is a number.
use fleetdiff.Base.{
  ℕ, Bool, ◌&&◌, not, List, [], ◌∷◌, ◌==◌, if◌then◌else◌, length, add64, Result, ok, err, ◌>>=◌,
  fold_ok, too_many_agents,
}
use fleetdiff.Spend.Aggregate.{Aggregate, Entry, new_aggregate, add_entry}
use fleetdiff.Spend.Routing.Fields.{Side, before, after}
use fleetdiff.Spend.Agents.{AgentState, known, ambiguous, unknown, Resolution}

abbrev pub max_agents : ℕ
max_agents = 1024

pub record AgentCoverage : Type 0 where
  pub known_rows : ℕ
  pub unknown_rows : ℕ
  pub ambiguous_rows : ℕ
  pub absent_rows : ℕ
  pub empty_rows : ℕ
  pub non_string_rows : ℕ
  pub no_match_rows : ℕ
  pub repeated_rows : ℕ
  pub repeated_tags : ℕ
  pub suffix_rows : ℕ
  pub suffix_tags : ℕ

abbrev pub no_coverage : AgentCoverage
no_coverage = record {
  known_rows = 0;
  unknown_rows = 0;
  ambiguous_rows = 0;
  absent_rows = 0;
  empty_rows = 0;
  non_string_rows = 0;
  no_match_rows = 0;
  repeated_rows = 0;
  repeated_tags = 0;
  suffix_rows = 0;
  suffix_tags = 0;
}

-- The aggregates of one period, with its coverage.
pub record AgentWindow : Type 0 where
  pub of_known : Aggregate
  pub of_unknown : Aggregate
  pub of_ambiguous : Aggregate
  pub coverage : AgentCoverage

pub record AgentEntry : Type 0 where
  pub digest : ℕ
  pub in_before : Aggregate
  pub in_after : Aggregate

-- The entries stand in their order.
pub record Accumulator : Type 0 where
  pub by_tag : Bool
  pub window_before : AgentWindow
  pub window_after : AgentWindow
  pub agents : List AgentEntry

-- The counts that do not depend on the state.
unfoldable pub cover_field : AgentCoverage → Resolution → AgentCoverage
cover_field c r = record c {
  absent_rows = if r.absent then add64 c.absent_rows 1 else c.absent_rows;
  empty_rows = if r.empty_field then add64 c.empty_rows 1 else c.empty_rows;
  non_string_rows = if r.non_string then add64 c.non_string_rows 1 else c.non_string_rows;
  repeated_rows = if r.repeated == 0 then c.repeated_rows else add64 c.repeated_rows 1;
  repeated_tags = if r.repeated == 0 then c.repeated_tags else add64 c.repeated_tags r.repeated;
  suffix_rows = if r.empty_suffix == 0 then c.suffix_rows else add64 c.suffix_rows 1;
  suffix_tags = if r.empty_suffix == 0 then c.suffix_tags else add64 c.suffix_tags r.empty_suffix;
}

unfoldable pub cover_state : Bool → Resolution → AgentState → AgentCoverage → AgentCoverage
cover_state by_tag r known c = record c { known_rows = add64 c.known_rows 1 }
cover_state by_tag r ambiguous c = record c { ambiguous_rows = add64 c.ambiguous_rows 1 }
cover_state by_tag r unknown c = record c {
  unknown_rows = add64 c.unknown_rows 1;
  no_match_rows =
      if not r.absent && not r.empty_field && not r.non_string && by_tag
      then add64 c.no_match_rows 1
      else c.no_match_rows;
}

-- The row goes to the aggregate of its state.
unfoldable pub add_to_state : AgentState → Entry → AgentWindow → Result AgentWindow
unfolding add_entry
add_to_state known e w = add_entry w.of_known e >>= λ a. ok (record w { of_known = a })
add_to_state ambiguous e w = add_entry w.of_ambiguous e >>= λ a. ok (record w { of_ambiguous = a })
add_to_state unknown e w = add_entry w.of_unknown e >>= λ a. ok (record w { of_unknown = a })

unfoldable pub add_window : Bool → Resolution → Entry → AgentWindow → Result AgentWindow
unfolding cover_field cover_state add_to_state
add_window by_tag r e w =
    add_to_state r.state e
      (record w { coverage = cover_state by_tag r r.state (cover_field w.coverage r) })

unfoldable pub add_side : Side → Entry → AgentEntry → Result AgentEntry
unfolding add_entry
add_side before e a = add_entry a.in_before e >>= λ b. ok (record a { in_before = b })
add_side after e a = add_entry a.in_after e >>= λ b. ok (record a { in_after = b })

unfoldable pub new_agent : ℕ → AgentEntry
unfolding new_aggregate
new_agent d = record { digest = d; in_before = new_aggregate; in_after = new_aggregate }

-- The agent of the digest, a new one last; `room` is how many new ones may come.
unfoldable pub add_agent : Bool → ℕ → Side → Entry → List AgentEntry → Result (List AgentEntry)
unfolding add_side new_agent
add_agent full d s e [] =
    if full then err too_many_agents else add_side s e (new_agent d) >>= λ b. ok (b ∷ [])
add_agent full d s e (a ∷ others) =
    let here = add_side s e a >>= λ b. ok (b ∷ others) in
    let later = add_agent full d s e others >>= λ bs. ok (a ∷ bs) in
    if a.digest == d then here else later

unfoldable pub add_known :
    AgentState → Bool → ℕ → Side → Entry → List AgentEntry → Result (List AgentEntry)
unfolding add_agent
add_known known full d s e agents = add_agent full d s e agents
add_known ambiguous full d s e agents = ok agents
add_known unknown full d s e agents = ok agents

unfoldable pub set_window : Accumulator → Side → AgentWindow → Accumulator
set_window a before w = record a { window_before = w }
set_window a after w = record a { window_after = w }

unfoldable pub window_of : Accumulator → Side → AgentWindow
window_of a before = a.window_before
window_of a after = a.window_after

-- A row that reaches `add`: its period, the digest of its agent, what it resolved to and what it adds.
pub record AgentRow : Type 0 where
  pub side : Side
  pub agent_digest : ℕ
  pub resolution : Resolution
  pub entry : Entry

-- `add`, on an accumulator that is not nil. After an error it is not used again.
unfoldable pub add : Accumulator → Side → ℕ → Resolution → Entry → Result Accumulator
unfolding add_known add_window set_window window_of
add a s d r e = add_known r.state (length a.agents == max_agents) d s e a.agents >>= λ agents.
    add_window a.by_tag r e (window_of a s) >>= λ w.
    ok (set_window (record a { agents = agents }) s w)

unfoldable pub add_row : Accumulator → AgentRow → Result Accumulator
unfolding add
add_row a x = add a x.side x.agent_digest x.resolution x.entry

unfoldable pub add_rows : Accumulator → List AgentRow → Result Accumulator
unfolding add_row
add_rows a xs = fold_ok add_row a xs

unfoldable pub new_accumulator : Bool → Accumulator
unfolding new_aggregate
new_accumulator by_tag =
    let w : AgentWindow = record {
      of_known = new_aggregate;
      of_unknown = new_aggregate;
      of_ambiguous = new_aggregate;
      coverage = no_coverage;
    } in
    record { by_tag = by_tag; window_before = w; window_after = w; agents = [] }
