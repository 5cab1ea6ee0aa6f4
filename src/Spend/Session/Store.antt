-- ===== src/Spend/Session/Store.antt =====
-- internal/spend/session.go: what one row does to the running report, to the sessions and to their memberships, in the
-- second reading of `ReviewSessions`. There is no file of daily spend, so no coverage of rows by day.
use fleetdiff.Base.{ℕ, ◌==◌, Bool, true, false, Option, none, List, [], ◌∷◌, if◌then◌else◌, add64}
use fleetdiff.Text.{Text, text_eq, is_empty}
use fleetdiff.Spend.Row.{Row, value, agent_id}
use fleetdiff.Spend.Quality.{Quality, no_quality}

pub data Rejection : Type 0 where
  session_budget session_iterations other_budget : Rejection

abbrev pub rejection_number : Rejection → ℕ
rejection_number session_budget = 0
rejection_number session_iterations = 1
rejection_number other_budget = 2

abbrev pub count_rejection : (Rejection → ℕ) → Rejection → Rejection → ℕ
count_rejection m k j = if rejection_number j == rejection_number k then add64 (m j) 1 else m j

-- `SessionAgentCoverage`
pub record AgentCoverage : Type 0 where
  pub known_rows : ℕ
  pub missing_rows : ℕ

abbrev pub no_agents : AgentCoverage
no_agents = record { known_rows = 0; missing_rows = 0 }

unfoldable pub count_agent : Row → AgentCoverage → AgentCoverage
count_agent r a =
    if is_empty (value r agent_id)
    then record a { missing_rows = add64 a.missing_rows 1 }
    else record a { known_rows = add64 a.known_rows 1 }

unfoldable pub count_type : Text → Row → List (Text × AgentCoverage) → List (Text × AgentCoverage)
count_type k r [] = (k, count_agent r no_agents) ∷ []
count_type k r ((j, a) ∷ ts) =
    let rest = count_type k r ts in if text_eq j k then (j, count_agent r a) ∷ ts else (j, a) ∷ rest

-- `sessionState`
pub record SessionState : Type 0 where
  pub id : ℕ
  pub order : ℕ
  pub calls : ℕ
  pub tokens_recorded : ℕ
  pub cost : ℕ
  pub spend_complete : Bool
  pub missing_spend : ℕ
  pub invalid_spend : ℕ
  pub unanalyzed_rows : ℕ
  pub rejections : Rejection → ℕ
  pub rejection_coverage : Bool
  pub censored : Bool
  pub clipped : Bool
  pub possibly_clipped : Bool
  pub first : Option ℕ
  pub last : Option ℕ
  pub first_activity : Option ℕ
  pub last_activity : Option ℕ
  pub keys : ℕ
  pub teams : ℕ
  pub agents : ℕ
  pub attribution : AgentCoverage

unfoldable pub new_session : ℕ → ℕ → SessionState
new_session id order = record {
  id = id;
  order = order;
  calls = 0;
  tokens_recorded = 0;
  cost = 0;
  spend_complete = true;
  missing_spend = 0;
  invalid_spend = 0;
  unanalyzed_rows = 0;
  rejections = λ _. 0;
  rejection_coverage = true;
  censored = false;
  clipped = false;
  possibly_clipped = false;
  first = none;
  last = none;
  first_activity = none;
  last_activity = none;
  keys = 0;
  teams = 0;
  agents = 0;
  attribution = no_agents;
}

pub data MemberKind : Type 0 where
  of_key of_team of_agent : MemberKind

abbrev pub kind_number : MemberKind → ℕ
kind_number of_key = 0
kind_number of_team = 1
kind_number of_agent = 2

-- `sessionMember`
pub record Member : Type 0 where
  pub session : ℕ
  pub identity : ℕ
  pub kind : MemberKind

-- The running part of `SessionReport`, and what the reading keeps beside it.
pub record Store : Type 0 where
  pub rows : ℕ
  pub selected_rows : ℕ
  pub unsupported_rows : ℕ
  pub unattributed_rows : ℕ
  pub unattributed_spend : ℕ
  pub unattributed_spend_rows : ℕ
  pub unattributed_missing_spend : ℕ
  pub unattributed_invalid_spend : ℕ
  pub classified_rows : ℕ
  pub unclassified_failures : ℕ
  pub model_calls : ℕ
  pub quality : Quality
  pub recorded_tokens : ℕ
  pub rejections : Rejection → ℕ
  pub attribution : AgentCoverage
  pub attribution_by_type : List (Text × AgentCoverage)
  pub states : List SessionState
  pub members : List Member
  pub seen : List (List ℕ)

unfoldable pub new_store : Store
new_store = record {
  rows = 0;
  selected_rows = 0;
  unsupported_rows = 0;
  unattributed_rows = 0;
  unattributed_spend = 0;
  unattributed_spend_rows = 0;
  unattributed_missing_spend = 0;
  unattributed_invalid_spend = 0;
  classified_rows = 0;
  unclassified_failures = 0;
  model_calls = 0;
  quality = no_quality;
  recorded_tokens = 0;
  rejections = λ _. 0;
  attribution = no_agents;
  attribution_by_type = [];
  states = [];
  members = [];
  seen = [];
}
