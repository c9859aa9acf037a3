-- ===== src/Settlement/Resolve.antt =====
-- app/services/settlement.py: the result of one bet from the regulation-time score.
pub mod Earned
pub mod Outcomes
pub mod Played
use football_agent.Prelude.{
  ℕ, ◌+◌, String, Bool, true, false, ◌&&◌, not, Option, none, some, ltb, ◌==◌, if◌then◌else◌,
  str_eq, str_append,
}
use football_agent.Prelude.Number.{Number, nought, neg}
use football_agent.Domain.Score.{Score}
use football_agent.Domain.Markets.{MarketType, Selection, market_value}
use football_agent.Domain.Entities.{Fixture, ValueBet, SettlementResult}

-- `SettlementResult_`, the detail of one bet.
pub record SettlementDetail (D : Type 0) : Type 0 where
  pub value_bet_id : ℕ
  pub fixture_id : ℕ
  pub result : SettlementResult
  pub score_home : Option ℕ
  pub score_away : Option ℕ
  pub profit_loss : D
  pub bankroll_before : D
  pub bankroll_after : D
  pub settled : Bool
  pub message : String
  pub void_reason_code : Option String

abbrev win_if : Bool → SettlementResult
win_if b = if b then SettlementResult.win else SettlementResult.loss

-- What a market says of a selection: a result, or why there is none.
pub data Verdict : Type 0 where
  outcome : SettlementResult → Verdict
  skipped : String → Verdict

abbrev unsupported : MarketType → Verdict
unsupported m = Verdict.skipped (str_append "Unsupported market: " (market_value m))

unfoldable pub match_result_verdict : String → ℕ → ℕ → Verdict
match_result_verdict code home away =
    if str_eq code "home"
    then Verdict.outcome (win_if (ltb away home))
    else if str_eq code "draw"
    then Verdict.outcome (win_if (home == away))
    else if str_eq code "away"
    then Verdict.outcome (win_if (ltb home away))
    else unsupported MarketType.match_result

unfoldable pub btts_verdict : String → ℕ → ℕ → Verdict
btts_verdict code home away =
    let both_scored = ltb 0 home && ltb 0 away in
    if str_eq code "yes"
    then Verdict.outcome (win_if both_scored)
    else if str_eq code "no"
    then Verdict.outcome (win_if (not both_scored))
    else unsupported MarketType.both_teams_to_score

module _ {F : Type 0} ⦃f : Number F⦄ where
  -- The total is an `int`, the line a `float`.
  unfoldable pub over_under_verdict : String → Option F → ℕ → Verdict
  over_under_verdict code none total = Verdict.skipped "Over/Under without line"
  over_under_verdict code (some line) total =
      if str_eq code "over"
      then Verdict.outcome (
          if f.lt line (f.of_nat total)
          then SettlementResult.win
          else if f.eq (f.of_nat total) line
          then SettlementResult.push
          else SettlementResult.loss)
      else if str_eq code "under"
      then Verdict.outcome (
          if f.lt (f.of_nat total) line
          then SettlementResult.win
          else if f.eq (f.of_nat total) line
          then SettlementResult.push
          else SettlementResult.loss)
      else unsupported MarketType.over_under

  unfoldable pub verdict_in : MarketType → String → Option F → Score → Verdict
  verdict_in MarketType.match_result code line score =
      match_result_verdict code score.home score.away
  verdict_in MarketType.over_under code line score =
      over_under_verdict code line (score.home + score.away)
  verdict_in MarketType.both_teams_to_score code line score =
      btts_verdict code score.home score.away
  verdict_in MarketType.double_chance code line score = unsupported MarketType.double_chance
  verdict_in MarketType.asian_handicap code line score = unsupported MarketType.asian_handicap
  verdict_in MarketType.correct_score code line score = unsupported MarketType.correct_score
  verdict_in MarketType.draw_no_bet code line score = unsupported MarketType.draw_no_bet

  abbrev pub verdict : Selection F → Score → Verdict
  verdict s score = verdict_in s.market s.code s.line score

module _ {D : Type 0} ⦃d : Number D⦄ where
  -- What a stake returns beyond itself: `_result` has VOID fall under its `else` too.
  abbrev pub profit_of : SettlementResult → D → D → D
  profit_of SettlementResult.win amount odds = d.mul amount (d.sub odds (d.of_nat 1))
  profit_of SettlementResult.push amount odds = nought
  profit_of SettlementResult.loss amount odds = neg amount
  profit_of SettlementResult.void amount odds = neg amount

module _ {D F : Type 0} ⦃d : Number D⦄ where
  -- `_skip`
  abbrev pub skip : ValueBet D F → Fixture → Score → String → SettlementDetail D
  skip bet fixture score why = record {
    value_bet_id = bet.id;
    fixture_id = fixture.id;
    result = SettlementResult.push;
    score_home = some score.home;
    score_away = some score.away;
    profit_loss = nought;
    bankroll_before = nought;
    bankroll_after = nought;
    settled = false;
    message = why;
    void_reason_code = none;
  }

  abbrev pub staked_result :
      ValueBet D F → Fixture → Score → SettlementResult → Option D → SettlementDetail D
  staked_result bet fixture score r none = skip bet fixture score "No stake defined"
  staked_result bet fixture score r (some amount) = record {
    value_bet_id = bet.id;
    fixture_id = fixture.id;
    result = r;
    score_home = some score.home;
    score_away = some score.away;
    profit_loss = profit_of r amount bet.odds;
    bankroll_before = nought;
    bankroll_after = nought;
    settled = true;
    message = "";
    void_reason_code = none;
  }

  -- `_result`
  unfoldable pub result_of : ValueBet D F → Fixture → Score → SettlementResult → SettlementDetail D
  result_of bet fixture score r = staked_result bet fixture score r bet.stake

  abbrev pub conclude : ValueBet D F → Fixture → Score → Verdict → SettlementDetail D
  conclude bet fixture score (Verdict.outcome r) = result_of bet fixture score r
  conclude bet fixture score (Verdict.skipped why) = skip bet fixture score why

  -- `_resolve`
  unfoldable pub resolve : ⦃f : Number F⦄ → ValueBet D F → Fixture → Score → SettlementDetail D
  resolve bet fixture score = conclude bet fixture score (verdict bet.selection score)
