-- ===== src/Odds/Ingestion.antt =====
-- app/services/odds_ingestion.py: the odds of provider events become snapshots of the matched
-- fixtures. The two tables that are written are lists of rows, with the unique key of
-- app/repositories/sqlalchemy/models.py; a new identifier is the next number. Texts are ASCII. A
-- price is a number, not NaN, and is stored as it is reported: then `Odds(Decimal(str(price)))`
-- repeats the test of the loop, while of a NaN it would raise and end the run.
pub mod Tables
pub mod Counted
pub mod Sampled
pub mod Accounts
pub mod Growth
pub mod Again
pub mod Idempotent
mod Tests
use football_agent.Prelude.{
  ℕ, String, Bool, true, false, ◌&&◌, ◌||◌, not, Option, none, some, List, [], ◌∷◌, ◌++◌, ◌+◌, ltb,
  leb, keep, length, if◌then◌else◌, str_eq, code_eq, code_in, codes, suc,
}
use football_agent.Prelude.Number.{Number}
use football_agent.Odds.TeamNames.{Name, lower, normalize_team_name}
use football_agent.Odds.Schema.{OddsOutcome, BookmakerMarket, ProviderFixtureOdds}
use football_agent.Odds.Matching.{
  MatchOutcome, MatchCandidate, MatchResult, matched, unmatched, ambiguous, match_event,
}
use football_agent.Odds.Ingestion.Tables.{
  SnapshotRow, OddsTables, add_if_absent, get_by_external_id, add_bookmaker,
}

abbrev is_alphanumeric : ℕ → Bool
is_alphanumeric c = (leb b'a' c && leb c b'z') || (leb b'0' c && leb c b'9')

-- `key or title`
abbrev or_other : String → String → String
or_other key title = if str_eq key "" then title else key

unfoldable pub canonical_bookmaker_identity : String → String → Name × String
canonical_bookmaker_identity key title =
    let normalized = keep is_alphanumeric (lower (or_other key title)) in
    if code_in normalized ("bet365" ∷ "bet365nolatency" ∷ [])
    then (codes "bet365", "Bet365")
    else (normalized, or_other title key)

unfoldable pub classify_outcome : String → String → String → Option String
classify_outcome name home_team away_team =
    let normalized = normalize_team_name name in
    if code_eq normalized (normalize_team_name home_team)
    then some "home"
    else if code_eq normalized (normalize_team_name away_team)
    then some "away"
    else if code_eq normalized (codes "draw")
    then some "draw"
    else none

pub record Counters : Type 0 where
  pub fetched : ℕ
  pub matched_count : ℕ
  pub unmatched_count : ℕ
  pub ambiguous_count : ℕ
  pub created : ℕ
  pub existing : ℕ
  pub outcomes_skipped : ℕ

-- The parts of a label: the two names and the instant.
abbrev pub Label : Type 0
Label = String × String × ℕ

-- What a run carries: the tables, the bookmakers that it has met, the counters and the samples.
pub record IngestState (F : Type 0) : Type 0 where
  pub tables : OddsTables F
  pub bookmaker_cache : List (Name × ℕ)
  pub counters : Counters
  pub unmatched_samples : List Label
  pub ambiguous_samples : List (Label × ℕ)

-- The state at the start of a run.
abbrev pub start_of : {F : Type 0} → OddsTables F → IngestState F
start_of tables = record {
  tables = tables;
  bookmaker_cache = [];
  counters = record {
    fetched = 0;
    matched_count = 0;
    unmatched_count = 0;
    ambiguous_count = 0;
    created = 0;
    existing = 0;
    outcomes_skipped = 0;
  };
  unmatched_samples = [];
  ambiguous_samples = [];
}

abbrev pub find_cached : Name → List (Name × ℕ) → Option ℕ
find_cached key [] = none
find_cached key ((k, id) ∷ cache) = if code_eq key k then some id else find_cached key cache

abbrev pub sample_cap : ℕ
sample_cap = 20

-- `samples.append(x)`, below the cap
abbrev pub append_sample : {A : Type 0} → A → List A → List A
append_sample x samples = if ltb (length samples) sample_cap then samples ++ x ∷ [] else samples

module _ {F : Type 0} where
  abbrev count_skipped : ℕ → IngestState F → IngestState F
  count_skipped n s = record s {
    counters = record s.counters { outcomes_skipped = s.counters.outcomes_skipped + n };
  }

  abbrev count_added : Bool × OddsTables F → IngestState F → IngestState F
  count_added (added, tables) s = record s {
    tables = tables;
    counters =
        if added
        then record s.counters { created = s.counters.created + 1 }
        else record s.counters { existing = s.counters.existing + 1 };
  }

  abbrev pub add_row : Option (SnapshotRow F) → IngestState F → IngestState F
  add_row none s = count_skipped 1 s
  add_row (some r) s = count_added (add_if_absent r s.tables) s

  abbrev cache_id : Name → ℕ × OddsTables F → IngestState F → ℕ × IngestState F
  cache_id key (id, tables) s =
      (id, record s { tables = tables; bookmaker_cache = (key, id) ∷ s.bookmaker_cache })

  abbrev pub from_table : Name → String → Option ℕ → IngestState F → ℕ × IngestState F
  from_table key name (some id) s = cache_id key (id, s.tables) s
  from_table key name none s = cache_id key (add_bookmaker key name s.tables) s

  abbrev pub from_cache : Name → String → Option ℕ → IngestState F → ℕ × IngestState F
  from_cache key name (some id) s = (id, s)
  from_cache key name none s = from_table key name (get_by_external_id key s.tables) s

  unfoldable pub get_or_create_bookmaker : String → String → IngestState F → ℕ × IngestState F
  get_or_create_bookmaker key title s =
      let (canonical_key, canonical_title) = canonical_bookmaker_identity key title in
      from_cache canonical_key canonical_title (find_cached canonical_key s.bookmaker_cache) s

module _ {F : Type 0} ⦃f : Number F⦄ where
  -- The row of an outcome that is usable.
  abbrev pub row_of :
      ProviderFixtureOdds F → ℕ → ℕ → ℕ → OddsOutcome F → Option String → Option (SnapshotRow F)
  row_of event fixture_id bookmaker_id at o none = none
  row_of event fixture_id bookmaker_id at o (some code) =
      if f.le o.price (f.of_nat 1)
      then none
      else some (record {
        fixture_id = fixture_id;
        bookmaker_id = bookmaker_id;
        code = code;
        odds = o.price;
        captured_at = at;
        provider_source = event.source;
        provider_event_id = event.provider_id;
      })

  abbrev pub ingest_outcome :
      ProviderFixtureOdds F → ℕ → ℕ → ℕ → OddsOutcome F → IngestState F → IngestState F
  ingest_outcome event fixture_id bookmaker_id at o s =
      add_row
        (row_of event fixture_id bookmaker_id at o
          (classify_outcome o.name event.home_team event.away_team))
        s

  abbrev pub ingest_outcomes :
      ProviderFixtureOdds F → ℕ → ℕ → ℕ → List (OddsOutcome F) → IngestState F → IngestState F
  ingest_outcomes event fixture_id bookmaker_id at [] s = s
  ingest_outcomes event fixture_id bookmaker_id at (o ∷ os) s =
      ingest_outcomes event fixture_id bookmaker_id at os
        (ingest_outcome event fixture_id bookmaker_id at o s)

  abbrev pub ingest_dated :
      ProviderFixtureOdds F → ℕ → BookmakerMarket F → Option ℕ → IngestState F → IngestState F
  ingest_dated event fixture_id m none s = count_skipped (length m.outcomes) s
  ingest_dated event fixture_id m (some at) s =
      let (bookmaker_id, t) = get_or_create_bookmaker m.bookmaker_key m.bookmaker_title s in
      ingest_outcomes event fixture_id bookmaker_id at m.outcomes t

  abbrev pub ingest_market :
      ProviderFixtureOdds F → ℕ → BookmakerMarket F → IngestState F → IngestState F
  ingest_market event fixture_id m s =
      if str_eq m.market "h2h" then ingest_dated event fixture_id m m.last_update s else s

  abbrev pub ingest_markets :
      ProviderFixtureOdds F → ℕ → List (BookmakerMarket F) → IngestState F → IngestState F
  ingest_markets event fixture_id [] s = s
  ingest_markets event fixture_id (m ∷ ms) s =
      ingest_markets event fixture_id ms (ingest_market event fixture_id m s)

  unfoldable pub ingest_event_odds : ProviderFixtureOdds F → ℕ → IngestState F → IngestState F
  ingest_event_odds event fixture_id s = ingest_markets event fixture_id event.bookmakers s

  abbrev pub label_of : ProviderFixtureOdds F → Label
  label_of event = (event.home_team, event.away_team, event.commence_time)

  abbrev pub count_fetched : IngestState F → IngestState F
  count_fetched s = record s { counters = record s.counters { fetched = s.counters.fetched + 1 } }

  abbrev pub count_matched : IngestState F → IngestState F
  count_matched s = record s {
    counters = record s.counters { matched_count = s.counters.matched_count + 1 };
  }

  abbrev pub leave_unmatched : ProviderFixtureOdds F → IngestState F → IngestState F
  leave_unmatched event s = record s {
    counters = record s.counters { unmatched_count = s.counters.unmatched_count + 1 };
    unmatched_samples = append_sample (label_of event) s.unmatched_samples;
  }

  abbrev pub leave_ambiguous : ProviderFixtureOdds F → ℕ → IngestState F → IngestState F
  leave_ambiguous event n s = record s {
    counters = record s.counters { ambiguous_count = s.counters.ambiguous_count + 1 };
    ambiguous_samples = append_sample (label_of event, n) s.ambiguous_samples;
  }

  -- The `assert`: a match without a fixture, which `match_event` never gives, would end the run.
  abbrev pub process_result :
      ProviderFixtureOdds F → MatchOutcome → Option ℕ → ℕ → IngestState F → Option (IngestState F)
  process_result event unmatched id n s = some (leave_unmatched event s)
  process_result event ambiguous id n s = some (leave_ambiguous event n s)
  process_result event matched none n s = none
  process_result event matched (some id) n s = some (ingest_event_odds event id (count_matched s))

  module _ (candidates : List MatchCandidate) (tolerance : ℕ)
      (alias_names : Option (Name → List Name)) where
    abbrev pub match_of : ProviderFixtureOdds F → MatchResult
    match_of event =
        match_event event.home_team event.away_team event.commence_time candidates tolerance
          alias_names

    abbrev pub process_event : ProviderFixtureOdds F → IngestState F → Option (IngestState F)
    process_event event s =
        let r = match_of event in
        process_result event r.outcome r.fixture_id r.candidate_count (count_fetched s)

    abbrev pub and_then :
        (IngestState F → Option (IngestState F)) → Option (IngestState F) → Option (IngestState F)
    and_then next none = none
    and_then next (some s) = next s

    unfoldable pub process_events :
        List (ProviderFixtureOdds F) → IngestState F → Option (IngestState F)
    process_events [] s = some s
    process_events (event ∷ events) s = and_then (process_events events) (process_event event s)
