-- ===== src/Settlement/Ports.antt =====
-- app/services/settlement.py, `SettlementService`: what the service is given, what it writes and
-- what it reports.
use football_agent.Prelude.{ℕ, String, List, Option}
use football_agent.Prelude.Dict.{Dict}
use football_agent.Domain.Markets.{MarketType}
use football_agent.Domain.Entities.{
  Fixture, ProviderFixture, ValueBet, Settlement, SettlementResult,
}
use football_agent.Settlement.State.{FixtureLifecycle}
use football_agent.Settlement.Resolve.{SettlementDetail}
use football_agent.Settlement.Evidence.{AuthoritativeVoidEvidence, Outcome}

-- What a bankroll entry says of its settlement: the parts of the `reason` text.
pub record EntryReason (F : Type 0) : Type 0 where
  pub fixture_id : ℕ
  pub market : MarketType
  pub code : String
  pub line : Option F
  pub result : SettlementResult
  pub basis : String

pub record BankrollEntry (D F : Type 0) : Type 0 where
  pub amount : D
  pub balance_after : D
  pub reason : EntryReason F

pub record SettlementReport (D : Type 0) : Type 0 where
  pub fixtures_checked : ℕ
  pub bets_eligible : ℕ
  pub bets_settled : ℕ
  pub bets_skipped : ℕ
  pub total_pl : D
  pub details : List (SettlementDetail D)
  pub provider_requests : ℕ
  pub deferred_fixtures : Dict String

-- The repositories and providers that the service is given. The unsettled bets are listed twice,
-- the second time under the lock, when another process may have settled some.
pub record Ports (D F : Type 0) : Type 0 where
  pub initial_unsettled : List ℕ
  pub still_unsettled : List ℕ
  pub get_value_bet : ℕ → Option (ValueBet D F)
  pub get_fixture : ℕ → Option Fixture
  pub provider_fixture : String → Outcome (Option ProviderFixture)
  pub void_evidence :
      Option
        (ValueBet D F → Fixture → FixtureLifecycle → Outcome (Option AuthoritativeVoidEvidence))
  pub initial_bankroll : Option D
  pub latest_balance : D → D

-- The rows that the transaction adds.
pub record Store (D F : Type 0) : Type 0 where
  pub settlements : List (Settlement D)
  pub bankroll : List (BankrollEntry D F)
