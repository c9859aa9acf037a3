-- ===== src/Odds/Schema.antt =====
-- app/providers/schemas/odds.py: what the odds providers report, and the fixtures that they are
-- asked about. Instants are aware, and counted in microseconds.
use football_agent.Prelude.{ℕ, String, Option, List}

pub record OddsOutcome (F : Type 0) : Type 0 where
  pub name : String
  pub price : F

pub record BookmakerMarket (F : Type 0) : Type 0 where
  pub bookmaker_key : String
  pub bookmaker_title : String
  pub market : String
  pub last_update : Option ℕ
  pub outcomes : List (OddsOutcome F)

pub record ProviderFixtureOdds (F : Type 0) : Type 0 where
  pub provider_id : String
  pub commence_time : ℕ
  pub home_team : String
  pub away_team : String
  pub bookmakers : List (BookmakerMarket F)
  pub source : String

pub record ProviderOddsTarget : Type 0 where
  pub fixture_id : ℕ
  pub home_team : String
  pub away_team : String
  pub kickoff : ℕ

-- The exceptions that the code tells apart, and a value or one of them.
pub data ProviderFailure : Type 0 where
  rate_limit auth : ProviderFailure
  provider_error : String → ProviderFailure
  other_error : ProviderFailure

pub data Reply (A : Type 0) : Type 0 where
  answered : A → Reply A
  failed : ProviderFailure → Reply A
