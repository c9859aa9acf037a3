-- ===== src/Odds/Tests.antt =====
-- Names, matching and the prioritized provider on concrete data.
use football_agent.Prelude.{
  ℕ, String, none, some, List, [], ◌∷◌, ◌≡◌, refl, codes, All, map, ap, suc, true, strip,
}
use football_agent.Prelude.Int.{ℤ, pos}
use football_agent.Prelude.Number.{int_number}
use football_agent.Prelude.Dict.{Dict}
use football_agent.Domain.Entities.{Fixture, MatchStatus}
use football_agent.Odds.TeamNames.{normalize_team_name, normalize_codes}
use football_agent.Odds.Schema.{
  ProviderFixtureOdds, ProviderOddsTarget, Reply, answered, failed, rate_limit,
}
use football_agent.Odds.Matching.{
  MatchCandidate, match_event, OddsEvent, minutes, match_odds_event_to_fixture,
}
use football_agent.Odds.Matching.Sole.{IsSole}
use football_agent.Odds.Matching.Unique.{Fits, match_event_unique}
use football_agent.Odds.Matching.Oriented.{Oriented, Reversed, match_odds_event-Oriented}
use football_agent.Odds.Prioritized.{Query, OddsSource, Kept, found, get_odds}
use football_agent.Odds.Prioritized.Targeted.{get_odds_for_fixtures}

arsenal : normalize_team_name "  Arsenal  FC " ≡ codes "arsenal"
unfolding normalize_team_name normalize_codes
arsenal = refl

brighton : normalize_team_name "Brighton and  Hove Albion" ≡ codes "brighton"
unfolding normalize_team_name normalize_codes
brighton = refl

-- Only the last suffix goes, and only at a word's start.
united :
    map normalize_team_name ("A.F.C. Bournemouth" ∷ "Hull City AFC" ∷ "Oldtown" ∷ [])
    ≡ codes "a f c bournemouth" ∷ codes "hull city" ∷ codes "oldtown" ∷ []
unfolding normalize_team_name normalize_codes
united = refl

abbrev candidate : ℕ → String → String → ℕ → MatchCandidate
candidate i home away kickoff = record {
  fixture_id = i;
  home_norm = normalize_team_name home;
  away_norm = normalize_team_name away;
  kickoff = minutes kickoff;
}

abbrev round : List MatchCandidate
round =
    candidate 1 "Arsenal" "Everton" 600
    ∷ candidate 2 "Chelsea" "Everton" 600
    ∷ candidate 3 "Arsenal" "Everton" 5000
    ∷ []

round_matched :
    (match_event "Arsenal FC" "Everton FC" (minutes 610) round (minutes 180) none).fixture_id
    ≡ some 1
unfolding match_event normalize_team_name normalize_codes
round_matched = refl

match_event_unique_example :
    (c : MatchCandidate) × IsSole
      (Fits "Arsenal FC" "Everton FC" (minutes 610) (minutes 180) none)
      round
      c
    × (c.fixture_id ≡ 1)
match_event_unique_example =
    ((match_event_unique "Arsenal FC" "Everton FC" (minutes 610) round (minutes 180) none).0 1).0
      round_matched

abbrev fixture : ℕ → ℕ → ℕ → Fixture
fixture i home away = record {
  id = i;
  home_team_id = home;
  away_team_id = away;
  kickoff = record { tick = minutes 600; aware = true };
  status = MatchStatus.scheduled;
  score = none;
  external_id = none;
  external_source = none;
}

abbrev names : Dict String
names = (1, "Arsenal") ∷ (2, "Everton") ∷ (3, "Chelsea") ∷ []

abbrev event : OddsEvent
event = record { home_team = "Arsenal FC"; away_team = "Everton"; commence_time = minutes 605 }

event_fuzzy :
    match_odds_event_to_fixture event (fixture 7 1 2 ∷ fixture 8 3 2 ∷ []) names 15
    ≡ (some (fixture 7 1 2), "FUZZY")
unfolding match_odds_event_to_fixture normalize_team_name normalize_codes strip
event_fuzzy = refl

match_odds_event-Oriented_example :
    All (λ g. ¬ Reversed event (minutes 15) names g) (fixture 7 1 2 ∷ fixture 8 3 2 ∷ [])
    × IsSole
        (Oriented event (minutes 15) names)
        (fixture 7 1 2 ∷ fixture 8 3 2 ∷ [])
        (fixture 7 1 2)
match_odds_event-Oriented_example =
    (match_odds_event-Oriented event (fixture 7 1 2 ∷ fixture 8 3 2 ∷ []) names 15
        (fixture 7 1 2)).0
      (ap (λ p. p.0) event_fuzzy)

abbrev target : ℕ → String → String → ProviderOddsTarget
target i home away = record {
  fixture_id = i;
  home_team = home;
  away_team = away;
  kickoff = minutes 600;
}

abbrev quoted : String → String → String → String → ProviderFixtureOdds ℤ
quoted source id home away = record {
  provider_id = id;
  commence_time = minutes 600;
  home_team = home;
  away_team = away;
  bookmakers =
      record {
        market = "h2h";
        bookmaker_key = "bet365";
        bookmaker_title = "Bet365";
        last_update = some 5;
        outcomes =
            record { name = home; price = pos 2 }
            ∷ record { name = "Draw"; price = pos 3 }
            ∷ record { name = away; price = pos 4 }
            ∷ [];
      }
      ∷ [];
  source = source;
}

-- A source that always gives the same reply; the world counts the requests.
abbrev source_of : Reply (List (ProviderFixtureOdds ℤ)) → OddsSource ℕ ℤ
source_of reply = record {
  get_odds = λ q w. (reply, suc w);
  get_historical_odds = λ q at w. (reply, suc w);
  get_odds_for_fixtures = λ q ts w. (reply, suc w);
  requests_made = λ w. w;
}

abbrev query : Query
query = record { sport = "football"; markets = "h2h" ∷ []; regions = "eu" ∷ [] }

abbrev fresh : Kept ℤ
fresh = record { errors = []; coverage = none }

abbrev first_source : OddsSource ℕ ℤ
first_source = source_of (answered (quoted "odds-api.io" "a" "Arsenal" "Everton" ∷ []))

abbrev second_source : OddsSource ℕ ℤ
second_source = source_of (
    answered (
      quoted "the-odds-api" "x" "Chelsea" "Leeds"
      ∷ quoted "odds-api.io" "a" "Arsenal" "Leeds"
      ∷ []))

abbrev targets : List ProviderOddsTarget
targets = target 2 "Chelsea" "Leeds" ∷ target 3 "Fulham" "Burnley" ∷ []

after_failure :
    (get_odds (source_of (failed rate_limit)) first_source query fresh 0).odds
    ≡ found (quoted "odds-api.io" "a" "Arsenal" "Everton" ∷ [])
unfolding get_odds
after_failure = refl
