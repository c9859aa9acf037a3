-- ===== src/Odds/Prioritized.antt =====
-- app/providers/impl/prioritized_odds_provider.py: the odds of one provider, and of a second one
-- where the first fails. The two providers are parameters: what they answer is a value or an
-- exception, and changes the world that they stand in. Targeted odds are in the child Targeted.
pub mod Targeted
pub mod Merged
pub mod Coverage
pub mod Accounts
use football_agent.Prelude.{
  ℕ, String, Bool, ◌||◌, Option, none, some, List, [], ◌+◌, if◌then◌else◌, str_append,
}
use football_agent.Prelude.TextDict.{TextDict, insert, count_at}
use football_agent.Odds.TeamNames.{lower, has_part}
use football_agent.Odds.Schema.{
  ProviderFixtureOdds, ProviderOddsTarget, ProviderFailure, rate_limit, auth, provider_error,
  other_error, Reply, answered, failed,
}

-- What a call asks for, beside the sport.
pub record Query : Type 0 where
  pub sport : String
  pub markets : List String
  pub regions : List String

-- An odds provider in a world `W`. `requests_made` is what its `stats()` reads off its counter, which
-- does not fail in the repository's providers. Instants are aware: of a naive one, the comparison
-- in `match_event` would raise.
pub record OddsSource (W F : Type 0) : Type 0 where
  pub get_odds : Query → W → Reply (List (ProviderFixtureOdds F)) × W
  pub get_historical_odds : Query → ℕ → W → Reply (List (ProviderFixtureOdds F)) × W
  pub get_odds_for_fixtures :
      Query → List ProviderOddsTarget → W → Reply (List (ProviderFixtureOdds F)) × W
  pub requests_made : W → ℕ

pub record CoverageStats (F : Type 0) : Type 0 where
  pub targeted_fixtures : ℕ
  pub primary_requests : ℕ
  pub primary_events_returned : ℕ
  pub primary_empty_events : ℕ
  pub fallback_attempts : ℕ
  pub fallback_requests : ℕ
  pub fallback_successes : ℕ
  pub fallback_events_returned : ℕ
  pub combined_odds_coverage : F
  pub unmatched_reason_counts : TextDict ℕ

-- What the provider keeps; the coverage is empty before the first call and after `pop`.
pub record Kept (F : Type 0) : Type 0 where
  pub errors : TextDict ℕ
  pub coverage : Option (CoverageStats F)

-- `_classify_error`, less the count
abbrev pub classify_text : List ℕ → String
classify_text lowered =
    if has_part "event_not_found" lowered || has_part "no event found" lowered
    then "NO_ODDS_EVENT_NOT_FOUND"
    else if has_part "market_not_found" lowered
    then "NO_ODDS_MARKET_NOT_FOUND"
    else if has_part "mapping" lowered
    then "NO_ODDS_MAPPING_FAILED"
    else "NO_ODDS_PROVIDER_ERROR"

abbrev pub reason_of : ProviderFailure → String
reason_of rate_limit = "NO_ODDS_RATE_LIMIT"
reason_of auth = "NO_ODDS_AUTH"
reason_of (provider_error text) = classify_text (lower text)
reason_of other_error = "NO_ODDS_PROVIDER_ERROR"

abbrev pub bump : String → TextDict ℕ → TextDict ℕ
bump label errors = insert label (count_at label errors + 1) errors

-- The two parts of what `_try_provider` and its two kin return, and the errors after it.
pub record Attempt (F : Type 0) : Type 0 where
  pub results : List (ProviderFixtureOdds F)
  pub failure : Option String
  pub errors : TextDict ℕ

abbrev pub attempt :
    {F : Type 0} → String → TextDict ℕ → Reply (List (ProviderFixtureOdds F)) → Attempt F
attempt label errors (answered events) = record {
  results = events;
  failure = none;
  errors = errors;
}
attempt label errors (failed why) = record {
  results = [];
  failure = some (reason_of why);
  errors = bump label errors;
}

abbrev pub primary_label : String
primary_label = "primary (Odds-API.io)"

abbrev pub fallback_label : String
fallback_label = "fallback (The Odds API)"

-- The events, or the text of the OddsProviderError.
pub data Odds (F : Type 0) : Type 0 where
  found : List (ProviderFixtureOdds F) → Odds F
  all_failed : String → Odds F

-- What a call returns, what the provider keeps after it, and the world after it.
pub record Answer (W F : Type 0) : Type 0 where
  pub odds : Odds F
  pub kept : Kept F
  pub world : W

abbrev pub finish_fallback :
    {W F : Type 0} → (String → String) → Kept F → W → Attempt F → Answer W F
finish_fallback text kept w a = record {
  odds = elim a.failure [ none ↦ found a.results | some why ↦ all_failed (text why) ];
  kept = record kept { errors = a.errors };
  world = w;
}

-- Only a failure of the primary provider leads to the fallback.
abbrev pub after_primary :
    {W F : Type 0}
    → (W → Reply (List (ProviderFixtureOdds F)) × W)
    → (String → String → String)
    → Kept F
    → W
    → Attempt F
    → Answer W F
after_primary ask text kept w a = elim a.failure [
  | none ↦ record { odds = found a.results; kept = record kept { errors = [] }; world = w }
  | some why ↦ finish_fallback (text why) kept (ask w).1 (attempt fallback_label a.errors (ask w).0)
]

abbrev pub both_failed : String → String → String → String
both_failed sport why why' =
    str_append "All odds providers failed for sport '"
      (str_append sport (str_append "': primary=" (str_append why (str_append ", fallback=" why'))))

abbrev pub historical_failed : String → String → String → String
historical_failed sport why why' =
    str_append "All providers failed for historical odds (sport='" (str_append sport "')")

module _ {W F : Type 0} (primary fallback : OddsSource W F) where
  unfoldable pub get_odds : Query → Kept F → W → Answer W F
  get_odds q kept w =
      let (reply, w') = primary.get_odds q w in
      after_primary (fallback.get_odds q) (both_failed q.sport) kept w'
        (attempt primary_label kept.errors reply)

  unfoldable pub get_historical_odds : Query → ℕ → Kept F → W → Answer W F
  get_historical_odds q at kept w =
      let (reply, w') = primary.get_historical_odds q at w in
      after_primary (fallback.get_historical_odds q at) (historical_failed q.sport) kept w'
        (attempt primary_label kept.errors reply)

-- `pop_errors` and `pop_coverage_stats`
abbrev pub pop_errors : {F : Type 0} → Kept F → TextDict ℕ × Kept F
pop_errors kept = (kept.errors, record kept { errors = [] })

abbrev pub pop_coverage_stats : {F : Type 0} → Kept F → Option (CoverageStats F) × Kept F
pop_coverage_stats kept = (kept.coverage, record kept { coverage = none })
