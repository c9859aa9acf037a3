-- ===== src/Odds/Ingestion/Tests.antt =====
-- Ingestions on concrete events. Prices are integers.
use football_agent.Prelude.{
  ℕ, String, Option, none, some, List, [], ◌∷◌, ◌+◌, ◌≡◌, refl, codes, length,
}
use football_agent.Prelude.Int.{ℤ, pos}
use football_agent.Prelude.Number.{int_number}
use football_agent.Odds.TeamNames.{normalize_team_name, normalize_codes}
use football_agent.Odds.Schema.{BookmakerMarket, ProviderFixtureOdds}
use football_agent.Odds.Matching.{MatchCandidate, match_event}
use football_agent.Odds.Ingestion.Tables.{OddsTables}
use football_agent.Odds.Ingestion.{
  IngestState, start_of, canonical_bookmaker_identity, classify_outcome, get_or_create_bookmaker,
  ingest_event_odds, process_events,
}
use football_agent.Odds.Ingestion.Idempotent.{process_events_again}

bet365 : canonical_bookmaker_identity "Bet365 (no latency)" "Bet 365" ≡ (codes "bet365", "Bet365")
unfolding canonical_bookmaker_identity
bet365 = refl

titled : canonical_bookmaker_identity "" "William Hill" ≡ (codes "williamhill", "William Hill")
unfolding canonical_bookmaker_identity
titled = refl

abbrev market : String → Option ℕ → ℕ → BookmakerMarket ℤ
market key at price = record {
  bookmaker_key = key;
  bookmaker_title = key;
  market = "h2h";
  last_update = at;
  outcomes =
      record { name = "Arsenal FC"; price = pos 2 }
      ∷ record { name = "Draw"; price = pos price }
      ∷ record { name = "Nobody"; price = pos 4 }
      ∷ [];
}

abbrev event : String → List (BookmakerMarket ℤ) → ProviderFixtureOdds ℤ
event home markets = record {
  provider_id = "e";
  commence_time = 600;
  home_team = home;
  away_team = "Everton";
  bookmakers = markets;
  source = "the-odds-api";
}

-- Two spellings of one bookmaker, a market without a time, and an event of no fixture.
abbrev events : List (ProviderFixtureOdds ℤ)
events =
    event "Arsenal"
      (market "bet365" (some 5) 3 ∷ market "Bet-365" (some 5) 1 ∷ market "x" none 3 ∷ [])
    ∷ event "Chelsea" (market "bet365" (some 5) 3 ∷ [])
    ∷ []

abbrev candidates : List MatchCandidate
candidates =
    record {
      fixture_id = 1;
      home_norm = normalize_team_name "Arsenal";
      away_norm = normalize_team_name "Everton";
      kickoff = 600;
    }
    ∷ []

abbrev empty_tables : OddsTables ℤ
empty_tables = record { snapshots = []; bookmakers = []; next_id = 7 }

abbrev counts : Option (IngestState ℤ) → List ℕ
counts none = []
counts (some s) =
    s.counters.created
    ∷ s.counters.existing
    ∷ s.counters.outcomes_skipped
    ∷ s.counters.matched_count
    ∷ s.counters.unmatched_count
    ∷ length s.tables.bookmakers
    ∷ []

events_counted :
    counts (process_events candidates 0 none events (start_of empty_tables))
    ≡ 2 ∷ 1 ∷ 6 ∷ 1 ∷ 1 ∷ 1 ∷ []
unfolding process_events ingest_event_odds get_or_create_bookmaker classify_outcome match_event
    normalize_team_name normalize_codes canonical_bookmaker_identity
events_counted = refl

process_events_again_example :
    (t u : IngestState ℤ) × (process_events candidates 0 none events (start_of empty_tables)
      ≡ some t)
    × (process_events candidates 0 none events (start_of t.tables) ≡ some u)
    × (u.tables ≡ t.tables)
    × (u.counters.created ≡ 0)
    × (u.counters.existing ≡ t.counters.created + t.counters.existing)
process_events_again_example = process_events_again candidates 0 none events empty_tables
