-- ===== src/Domain/Entities.antt =====
-- app/models/entities: fixtures, value bets and settlement records, with the fields that the
-- modelled services read. Identifiers (UUIDs) are only compared, so they are numbers. An instant
-- is a count of microseconds and whether the `datetime` carries a time zone.
use football_agent.Prelude.{
  ℕ, String, Bool, ◌||◌, Option, none, some, is_some, not, ltb, if◌then◌else◌, str_eq, strip,
  str_len,
}
use football_agent.Prelude.Int.{ℤ}
use football_agent.Prelude.Number.{Number, nought}
use football_agent.Domain.Score.{Score}
use football_agent.Domain.Markets.{Selection}

pub record Instant : Type 0 where
  pub tick : ℕ
  pub aware : Bool

pub data MatchStatus : Type 0 where
  scheduled live finished postponed cancelled : MatchStatus

pub record Fixture : Type 0 where
  pub id : ℕ
  pub home_team_id : ℕ
  pub away_team_id : ℕ
  pub kickoff : Instant
  pub status : MatchStatus
  pub score : Option Score
  pub external_id : Option String
  pub external_source : Option String

-- What the fixtures feed reports of one match.
pub record ProviderFixture : Type 0 where
  pub provider_id : String
  pub status : String
  pub home_score : Option ℤ
  pub away_score : Option ℤ
  pub regulation_home_score : Option ℤ
  pub regulation_away_score : Option ℤ

-- `stake` is the amount of the stake's money; the odds are decimal odds.
pub record ValueBet (D F : Type 0) : Type 0 where
  pub id : ℕ
  pub fixture_id : ℕ
  pub selection : Selection F
  pub odds : D
  pub bookmaker_id : Option ℕ
  pub stake : Option D

pub data SettlementResult : Type 0 where
  win loss push void : SettlementResult

pub record Settlement (D : Type 0) : Type 0 where
  pub value_bet_id : ℕ
  pub fixture_id : ℕ
  pub result : SettlementResult
  pub score_home : Option ℕ
  pub score_away : Option ℕ
  pub profit_loss : D
  pub void_reason_code : Option String
  pub bankroll_before : D
  pub bankroll_after : D

abbrev reason_text : Option String → String
reason_text none = ""
reason_text (some r) = strip r

-- The checks of `Settlement.__post_init__`; `none` is the ValueError.
module _ {D : Type 0} ⦃d : Number D⦄ where
  unfoldable pub check_void : Settlement D → Option (Settlement D)
  check_void s =
      if is_some s.score_home || is_some s.score_away
      then none
      else if not (d.eq s.profit_loss nought)
      then none
      else if str_eq (reason_text s.void_reason_code) ""
      then none
      else if ltb 64 (str_len (reason_text s.void_reason_code))
      then none
      else some (record s { void_reason_code = some (reason_text s.void_reason_code) })

  unfoldable pub check_played : Settlement D → Option (Settlement D)
  check_played s =
      if not (is_some s.score_home) || not (is_some s.score_away)
      then none
      else if is_some s.void_reason_code
      then none
      else some s

  abbrev check_by : SettlementResult → Settlement D → Option (Settlement D)
  check_by SettlementResult.void s = check_void s
  check_by SettlementResult.win s = check_played s
  check_by SettlementResult.loss s = check_played s
  check_by SettlementResult.push s = check_played s

  unfoldable pub make_settlement : Settlement D → Option (Settlement D)
  make_settlement s = check_by s.result s
