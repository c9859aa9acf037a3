-- ===== src/Odds/Prioritized/Targeted.antt =====
-- app/providers/impl/prioritized_odds_provider.py: `get_odds_for_fixtures`. Both providers are
-- asked, the fallback about the targets that the primary one leaves uncovered.
use football_agent.Prelude.{
  ℕ, String, Bool, ◌&&◌, not, Option, none, some, is_some, List, [], ◌∷◌, ◌++◌, ◌-◌, ◌==◌,
  if◌then◌else◌, str_eq, keep, any, length, map, codes, contains,
}
use football_agent.Prelude.Number.{Number}
use football_agent.Prelude.TextDict.{TextDict, insert}
use football_agent.Odds.TeamNames.{Name, normalize_team_name, name_in}
use football_agent.Odds.Matching.{MatchCandidate, match_event, minutes}
use football_agent.Odds.Schema.{
  OddsOutcome, BookmakerMarket, ProviderFixtureOdds, ProviderOddsTarget,
}
use football_agent.Odds.Prioritized.{
  Query, OddsSource, CoverageStats, Kept, Attempt, attempt, primary_label, fallback_label, Answer,
  found,
}

abbrev pub candidate_of : ProviderOddsTarget → MatchCandidate
candidate_of t = record {
  fixture_id = t.fixture_id;
  home_norm = normalize_team_name t.home_team;
  away_norm = normalize_team_name t.away_team;
  kickoff = t.kickoff;
}

abbrev pub candidates_of : List ProviderOddsTarget → List MatchCandidate
candidates_of targets = map candidate_of targets

abbrev pub add_id : Option ℕ → List ℕ → List ℕ
add_id none covered = covered
add_id (some i) covered = if contains i covered then covered else covered ++ i ∷ []

module _ {F : Type 0} where
  -- `merged` and `seen` grow together: an event is seen when it is merged.
  abbrev pub same_key : ProviderFixtureOdds F → ProviderFixtureOdds F → Bool
  same_key a b = str_eq a.source b.source && str_eq a.provider_id b.provider_id

  abbrev pub merge_into :
      List (ProviderFixtureOdds F) → List (ProviderFixtureOdds F) → List (ProviderFixtureOdds F)
  merge_into merged [] = merged
  merge_into merged (e ∷ es) =
      merge_into (if any (same_key e) merged then merged else merged ++ e ∷ []) es

  unfoldable pub merge_provider_events :
      List (ProviderFixtureOdds F) → List (ProviderFixtureOdds F) → List (ProviderFixtureOdds F)
  merge_provider_events primary fallback = merge_into [] (primary ++ fallback)

-- `_event_has_usable_h2h`
module _ {F : Type 0} ⦃f : Number F⦄ where
  abbrev pub priced_names : List (OddsOutcome F) → List Name
  priced_names outcomes =
      map (λ o. normalize_team_name o.name) (keep (λ o. f.lt (f.of_nat 1) o.price) outcomes)

  abbrev pub has_complete_h2h : String → String → BookmakerMarket F → Bool
  has_complete_h2h home away m =
      str_eq m.market "h2h"
      && is_some m.last_update
      && name_in (normalize_team_name home) (priced_names m.outcomes)
      && name_in (normalize_team_name away) (priced_names m.outcomes)
      && name_in (codes "draw") (priced_names m.outcomes)

  unfoldable pub event_has_usable_h2h : ProviderFixtureOdds F → Bool
  event_has_usable_h2h e = any (has_complete_h2h e.home_team e.away_team) e.bookmakers

  -- The fixture that a usable event is matched to.
  unfoldable pub covers : List ProviderOddsTarget → ProviderFixtureOdds F → Option ℕ
  covers targets e =
      if event_has_usable_h2h e
      then (match_event e.home_team e.away_team e.commence_time (candidates_of targets)
          (minutes 180) none).fixture_id
      else none

  abbrev pub matched_from : List ProviderOddsTarget → List ℕ → List (ProviderFixtureOdds F) → List ℕ
  matched_from targets covered [] = covered
  matched_from targets covered (e ∷ es) =
      matched_from targets (add_id (covers targets e) covered) es

  unfoldable pub matched_fixture_ids :
      List (ProviderFixtureOdds F) → List ProviderOddsTarget → List ℕ
  matched_fixture_ids events targets = matched_from targets [] events

  unfoldable pub empty_coverage : ℕ → CoverageStats F
  empty_coverage n = record {
    targeted_fixtures = n;
    primary_requests = 0;
    primary_events_returned = 0;
    primary_empty_events = 0;
    fallback_attempts = 0;
    fallback_requests = 0;
    fallback_successes = 0;
    fallback_events_returned = 0;
    combined_odds_coverage = f.of_nat 0;
    unmatched_reason_counts = [];
  }

-- `[t for t in targets if t.fixture_id not in covered]`
abbrev pub uncovered : List ℕ → List ProviderOddsTarget → List ProviderOddsTarget
uncovered covered targets = keep (λ t. not (contains t.fixture_id covered)) targets

-- `if items: counts[reason] = len(items)`
abbrev pub count_some : String → ℕ → TextDict ℕ → TextDict ℕ
count_some reason n counts = if n == 0 then counts else insert reason n counts

abbrev pub count_failure : Option String → ℕ → TextDict ℕ → TextDict ℕ
count_failure none n counts = counts
count_failure (some reason) n counts = insert reason n counts

-- The part that asks the fallback about the missing targets, if there are any.
pub record Fallback (W F : Type 0) : Type 0 where
  pub attempts : ℕ
  pub requests : ℕ
  pub events : List (ProviderFixtureOdds F)
  pub failure : Option String
  pub errors : TextDict ℕ
  pub world : W

module _ {W F : Type 0} (fallback : OddsSource W F) where
  unfoldable pub ask_fallback : Query → List ProviderOddsTarget → TextDict ℕ → W → Fallback W F
  ask_fallback q [] errors w = record {
    attempts = 0;
    requests = 0;
    events = [];
    failure = none;
    errors = errors;
    world = w;
  }
  ask_fallback q (t ∷ ts) errors w =
      let (reply, w') = fallback.get_odds_for_fixtures q (t ∷ ts) w in
      let a = attempt fallback_label errors reply in
      record {
        attempts = 1;
        requests = fallback.requests_made w' - fallback.requests_made w;
        events = a.results;
        failure = a.failure;
        errors = a.errors;
        world = w';
      }

module _ {W F : Type 0} ⦃f : Number F⦄ where
  -- The coverage and the events, once both providers have been asked.
  unfoldable pub combine : List ProviderOddsTarget → ℕ → Attempt F → Fallback W F → Answer W F
  combine targets primary_requests a b =
      let missing = uncovered (matched_fixture_ids a.results targets) targets in
      let fallback_covered = matched_fixture_ids b.events missing in
      let still_missing = uncovered fallback_covered missing in
      let combined = merge_provider_events a.results b.events in
      let combined_covered = matched_fixture_ids combined targets in
      record {
        odds = found combined;
        kept = record {
          errors = b.errors;
          coverage = some (record {
            targeted_fixtures = length targets;
            primary_requests = primary_requests;
            primary_events_returned = length a.results;
            primary_empty_events = length missing;
            fallback_attempts = b.attempts;
            fallback_requests = b.requests;
            fallback_successes = length fallback_covered;
            fallback_events_returned = length b.events;
            combined_odds_coverage =
                f.div (f.of_nat (length combined_covered)) (f.of_nat (length targets));
            unmatched_reason_counts = count_failure b.failure (length missing) (
                count_failure a.failure (length targets) (
                  count_some "NO_BOOKMAKER_ODDS" (length still_missing)
                    (count_some "PRIMARY_EMPTY" (length missing) [])));
          });
        };
        world = b.world;
      }

module _ {W F : Type 0} ⦃f : Number F⦄ (primary fallback : OddsSource W F) where
  abbrev pub ask_both : Query → List ProviderOddsTarget → W → Answer W F
  ask_both q targets w =
      let (reply, w') = primary.get_odds_for_fixtures q targets w in
      let a = attempt primary_label [] reply in
      combine targets (primary.requests_made w' - primary.requests_made w) a (
        ask_fallback fallback q (uncovered (matched_fixture_ids a.results targets) targets) a.errors
          w')

  unfoldable pub get_odds_for_fixtures : Query → List ProviderOddsTarget → Kept F → W → Answer W F
  get_odds_for_fixtures q [] kept w = record {
    odds = found [];
    kept = record { errors = []; coverage = some (empty_coverage 0) };
    world = w;
  }
  get_odds_for_fixtures q (t ∷ ts) kept w = ask_both q (t ∷ ts) w
