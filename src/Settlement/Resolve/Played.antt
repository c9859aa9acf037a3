-- ===== src/Settlement/Resolve/Played.antt =====
-- app/services/settlement.py: the row of a played bet, as the constructor of a settlement wants it.
use football_agent.Prelude.{String, ◌≡◌, ◌≢◌, refl, ap, Option, none, some, arith}
use football_agent.Prelude.Number.{Number}
use football_agent.Domain.Score.{Score}
use football_agent.Domain.Markets.{MarketType}
use football_agent.Domain.Entities.{Fixture, ValueBet, SettlementResult}
use football_agent.Settlement.Resolve.{
  SettlementDetail, Verdict, match_result_verdict, btts_verdict, over_under_verdict, verdict_in,
  resolve, result_of, verdict, conclude, staked_result,
}

module _ {F : Type 0} ⦃f : Number F⦄ where
  -- No market gives VOID, which only evidence does.
  not_void :
      (m : MarketType) (code : String) (line : Option F) (score : Score)
      → verdict_in m code line score ≢ Verdict.outcome SettlementResult.void
  unfolding verdict_in match_result_verdict over_under_verdict btts_verdict
  not_void MarketType.match_result code line score = ground arith
  not_void MarketType.over_under code none score = ground arith
  not_void MarketType.over_under code (some line) score = ground arith
  not_void MarketType.both_teams_to_score code line score = ground arith
  not_void MarketType.double_chance code line score = ground arith
  not_void MarketType.asian_handicap code line score = ground arith
  not_void MarketType.correct_score code line score = ground arith
  not_void MarketType.draw_no_bet code line score = ground arith

module _ {D : Type 0} where
  -- What a settlement row of a played bet has to be.
  pub record IsPlayed (score : Score) (r : SettlementDetail D) : Type 0 where
    pub not_void_result : r.result ≢ SettlementResult.void
    pub home_given : r.score_home ≡ some score.home
    pub away_given : r.score_away ≡ some score.away
    pub no_reason : r.void_reason_code ≡ none

module _ {D F : Type 0} ⦃d : Number D⦄ ⦃f : Number F⦄ where
  staked-IsPlayed :
      (bet : ValueBet D F) (fixture : Fixture) (score : Score) (r : SettlementResult)
      (stake : Option D)
      → r ≢ SettlementResult.void
      → IsPlayed score (staked_result bet fixture score r stake)
  staked-IsPlayed bet fixture score r none nv = record {
    not_void_result = λ e. cc;
    home_given = refl;
    away_given = refl;
    no_reason = refl;
  }
  staked-IsPlayed bet fixture score r (some a) nv = record {
    not_void_result = nv;
    home_given = refl;
    away_given = refl;
    no_reason = refl;
  }

  concluded-IsPlayed :
      (bet : ValueBet D F) (fixture : Fixture) (score : Score) (v : Verdict)
      → v ≢ Verdict.outcome SettlementResult.void
      → IsPlayed score (conclude bet fixture score v)
  unfolding result_of
  concluded-IsPlayed bet fixture score (Verdict.skipped why) nv = record {
    not_void_result = λ e. cc;
    home_given = refl;
    away_given = refl;
    no_reason = refl;
  }
  concluded-IsPlayed bet fixture score (Verdict.outcome r) nv =
      staked-IsPlayed bet fixture score r bet.stake (λ e. nv (ap Verdict.outcome e))

  pub resolve-IsPlayed :
      (bet : ValueBet D F) (fixture : Fixture) (score : Score)
      → IsPlayed score (resolve bet fixture score)
  unfolding resolve
  resolve-IsPlayed bet fixture score =
      let s = bet.selection in
      concluded-IsPlayed bet fixture score (verdict s score) (not_void s.market s.code s.line score)

  staked_ids :
      (bet : ValueBet D F) (fixture : Fixture) (score : Score) (r : SettlementResult)
      (stake : Option D)
      → let x = staked_result bet fixture score r stake in
        (x.value_bet_id ≡ bet.id) × (x.fixture_id ≡ fixture.id)
  staked_ids bet fixture score r none = (refl, refl)
  staked_ids bet fixture score r (some a) = (refl, refl)

  concluded_ids :
      (bet : ValueBet D F) (fixture : Fixture) (score : Score) (v : Verdict)
      → let x = conclude bet fixture score v in
        (x.value_bet_id ≡ bet.id) × (x.fixture_id ≡ fixture.id)
  unfolding result_of
  concluded_ids bet fixture score (Verdict.skipped why) = (refl, refl)
  concluded_ids bet fixture score (Verdict.outcome r) = staked_ids bet fixture score r bet.stake

  pub resolve_ids :
      (bet : ValueBet D F) (fixture : Fixture) (score : Score)
      → let x = resolve bet fixture score in (x.value_bet_id ≡ bet.id) × (x.fixture_id ≡ fixture.id)
  unfolding resolve
  resolve_ids bet fixture score = concluded_ids bet fixture score (verdict bet.selection score)
