-- ===== src/Odds/Matching.antt =====
-- app/services/odds_matching.py: which fixture an odds event belongs to. Instants are aware, and
-- counted in microseconds. The log lines are left out.
pub mod Sole
pub mod Unique
pub mod Oriented
use football_agent.Prelude.{
  ℕ, String, Bool, true, false, ◌&&◌, Option, none, some, List, [], ◌∷◌, ◌++◌, ◌*◌, ◌≡◌, ◌≤◌, leb,
  if◌then◌else◌, code_eq, str_eq, strip, dist, keep, length, is_some, suc,
}
use football_agent.Prelude.Dict.{Dict, lookup}
use football_agent.Domain.Entities.{Fixture}
use football_agent.Odds.TeamNames.{Name, normalize_team_name, name_in}

pub data MatchOutcome : Type 0 where
  matched unmatched ambiguous : MatchOutcome

pub record MatchCandidate : Type 0 where
  pub fixture_id : ℕ
  pub home_norm : Name
  pub away_norm : Name
  pub kickoff : ℕ

pub record MatchResult : Type 0 where
  pub outcome : MatchOutcome
  pub fixture_id : Option ℕ
  pub candidate_count : ℕ

-- `alias_names`, by default the name alone.
abbrev pub resolve : Option (Name → List Name) → Name → List Name
resolve none n = n ∷ []
resolve (some alias_names) n = alias_names n

abbrev pub is_hit : Name → Name → ℕ → ℕ → Option (Name → List Name) → MatchCandidate → Bool
is_hit home away commence_time tolerance alias_names c =
    name_in home (resolve alias_names c.home_norm)
    && name_in away (resolve alias_names c.away_norm)
    && leb (dist c.kickoff commence_time) tolerance

abbrev pub result_of : List MatchCandidate → MatchResult
result_of [] = record { outcome = MatchOutcome.unmatched; fixture_id = none; candidate_count = 0 }
result_of (c ∷ []) = record {
  outcome = MatchOutcome.matched;
  fixture_id = some c.fixture_id;
  candidate_count = 1;
}
result_of (c ∷ d ∷ cs) = record {
  outcome = MatchOutcome.ambiguous;
  fixture_id = none;
  candidate_count = length (c ∷ d ∷ cs);
}

unfoldable pub match_event :
    String → String → ℕ → List MatchCandidate → ℕ → Option (Name → List Name) → MatchResult
match_event event_home event_away commence_time candidates tolerance alias_names = result_of (
    keep
      (is_hit (normalize_team_name event_home) (normalize_team_name event_away) commence_time
        tolerance alias_names)
      candidates)

-- What `match_odds_event_to_fixture` reads of an odds event.
pub record OddsEvent : Type 0 where
  pub home_team : String
  pub away_team : String
  pub commence_time : ℕ

-- A fixture and the normalised names of its teams.
pub record NamedFixture : Type 0 where
  pub fixture : Fixture
  pub home : Name
  pub away : Name

abbrev pub named_by : Fixture → Option String → Option String → List NamedFixture
named_by f none away = []
named_by f (some home) none = []
named_by f (some home) (some away) =
    record { fixture = f; home = normalize_team_name home; away = normalize_team_name away } ∷ []

-- The fixtures whose teams both have a name.
abbrev pub named_fixtures : Dict String → List Fixture → List NamedFixture
named_fixtures team_names [] = []
named_fixtures team_names (f ∷ fs) =
    named_by f (lookup f.home_team_id team_names) (lookup f.away_team_id team_names)
    ++ named_fixtures team_names fs

abbrev pub is_near : OddsEvent → ℕ → NamedFixture → Bool
is_near event tolerance n = leb (dist n.fixture.kickoff.tick event.commence_time) tolerance

abbrev pub is_reversed : OddsEvent → ℕ → NamedFixture → Bool
is_reversed event tolerance n =
    code_eq (normalize_team_name event.home_team) n.away
    && code_eq (normalize_team_name event.away_team) n.home
    && is_near event tolerance n

abbrev pub is_oriented : OddsEvent → ℕ → NamedFixture → Bool
is_oriented event tolerance n =
    code_eq (normalize_team_name event.home_team) n.home
    && code_eq (normalize_team_name event.away_team) n.away
    && is_near event tolerance n

abbrev name_or_empty : Option String → String
name_or_empty none = ""
name_or_empty (some name) = name

abbrev pub match_method : OddsEvent → Dict String → Fixture → String
match_method event team_names f =
    if str_eq (strip event.home_team) (name_or_empty (lookup f.home_team_id team_names))
      && str_eq (strip event.away_team) (name_or_empty (lookup f.away_team_id team_names))
    then "EXACT"
    else "FUZZY"

abbrev pub pick_hit : OddsEvent → Dict String → List NamedFixture → Option Fixture × String
pick_hit event team_names [] = (none, "FAILED")
pick_hit event team_names (n ∷ []) = (some n.fixture, match_method event team_names n.fixture)
pick_hit event team_names (n ∷ m ∷ ns) = (none, "AMBIGUOUS")

abbrev pub unless_reversed : List NamedFixture → Option Fixture × String → Option Fixture × String
unless_reversed [] found = found
unless_reversed (n ∷ ns) found = (none, "REVERSED")

abbrev pub minutes : ℕ → ℕ
minutes n = n * 60000000

unfoldable pub match_odds_event_to_fixture :
    OddsEvent → List Fixture → Dict String → ℕ → Option Fixture × String
match_odds_event_to_fixture event fixtures team_names tolerance_minutes =
    let candidates = named_fixtures team_names fixtures in
    let tolerance = minutes tolerance_minutes in
    unless_reversed (keep (is_reversed event tolerance) candidates)
      (pick_hit event team_names (keep (is_oriented event tolerance) candidates))
