-- ===== src/Domain/Markets.antt =====
-- app/models/value_objects/markets.py: market families, and one bettable outcome of a market.
use football_agent.Prelude.{
  String, Bool, true, false, ◌&&◌, Option, none, some, is_some, not, if◌then◌else◌, str_eq,
}

pub data MarketType : Type 0 where
  match_result double_chance over_under both_teams_to_score : MarketType
  asian_handicap correct_score draw_no_bet : MarketType

-- `market.value`
abbrev pub market_value : MarketType → String
market_value MarketType.match_result = "1x2"
market_value MarketType.double_chance = "double_chance"
market_value MarketType.over_under = "over_under"
market_value MarketType.both_teams_to_score = "btts"
market_value MarketType.asian_handicap = "asian_handicap"
market_value MarketType.correct_score = "correct_score"
market_value MarketType.draw_no_bet = "draw_no_bet"

-- The line is a `float`.
pub record Selection (F : Type 0) : Type 0 where
  pub market : MarketType
  pub code : String
  pub line : Option F

abbrev pub needs_line : MarketType → Bool
needs_line MarketType.over_under = true
needs_line MarketType.asian_handicap = true
needs_line _ = false

-- `Selection(market, code, line)`; `none` is the ValueError.
unfoldable pub make_selection : {F : Type 0} → MarketType → String → Option F → Option (Selection F)
make_selection m c l =
    if str_eq c ""
    then none
    else if needs_line m && not (is_some l)
    then none
    else some (record { market = m; code = c; line = l })
