-- ===== src/Gates/MarketMovement/Tests.antt =====
-- A market that moves between two instants. Prices are integers, times seconds.
use football_agent.Prelude.{
  ℕ, String, true, none, some, List, [], ◌∷◌, ◌≡◌, ◌<◌, ltb, refl, if◌then◌else◌,
}
use football_agent.Prelude.Int.{ℤ, pos, leb_ℤ, ◌+ℤ◌, ◌-ℤ◌}
use football_agent.Prelude.Number.{int_number}
use football_agent.Domain.Markets.{MarketType}
use football_agent.Domain.Entities.{Instant}
use football_agent.Settlement.Evidence.{Outcome}
use football_agent.Gates.MarketQuote.{
  OddsSnapshot, VerifiedMarketQuotePolicy, VerifiedMarketQuoteResult, VerifiedSelectionQuote,
  make_quote, make_result,
}
use football_agent.Gates.MarketQuote.Latest.{latest_by_selection_and_bookmaker}
use football_agent.Gates.MarketQuote.Quote.{build_quote}
use football_agent.Gates.MarketQuote.Service.{verify, evaluate_latest}
use football_agent.Gates.MarketMovement.{
  VerifiedSelectionMovement, MovementResult, make_movement, make_movement_result, build_movement,
  build_movements, compare,
}
use football_agent.Gates.MarketMovement.Compared.{Compared, compare-Compared}

abbrev at : ℕ → Instant
at n = record { tick = n; aware = true }

abbrev snapshot : ℕ → ℕ → String → ℕ → ℕ → OddsSnapshot ℤ ℤ
snapshot id bookmaker code price time = record {
  id = id;
  bookmaker_id = bookmaker;
  selection = record { market = MarketType.match_result; code = code; line = none };
  odds = pos price;
  captured_at = at time;
}

-- The price of a home win and the time of the snapshots.
abbrev listing : ℕ → ℕ → List (OddsSnapshot ℤ ℤ)
listing home time =
    snapshot 1 1 "home" home time
    ∷ snapshot 2 1 "draw" 3 time
    ∷ snapshot 3 1 "away" 4 time
    ∷ snapshot 4 2 "home" home time
    ∷ snapshot 5 2 "draw" 3 time
    ∷ snapshot 6 2 "away" 4 time
    ∷ []

abbrev list_by_fixture : ℕ → Instant → Outcome (List (OddsSnapshot ℤ ℤ))
list_by_fixture fixture_id as_of =
    Outcome.ok (if ltb as_of.tick 90 then listing 2 30 else listing 5 80)

abbrev policy : VerifiedMarketQuotePolicy ℤ
policy = record {
  maximum_age = 50;
  preliminary_maximum_age = 70;
  minimum_bookmakers = 2;
  maximum_relative_deviation = pos 0;
}

abbrev quote : String → ℕ → ℕ → List ℕ → VerifiedSelectionQuote ℤ ℤ
quote code price time ids = record {
  quote = record {
    selection = record { market = MarketType.match_result; code = code; line = none };
    odds = pos price;
    bookmaker_id = some 1;
  };
  captured_at = at time;
  consensus_decimal_odds = pos price;
  contributing_snapshot_ids = ids;
  contributing_bookmaker_ids = 1 ∷ 2 ∷ [];
}

abbrev moved : String → ℕ → ℕ → List ℕ → VerifiedSelectionMovement ℤ ℤ
moved code before after ids = record {
  selection = record { market = MarketType.match_result; code = code; line = none };
  opening_quote = quote code before 30 ids;
  current_quote = quote code after 80 ids;
  movement = record { opening_odds = pos before; current_odds = pos after };
}

abbrev drift : MovementResult ℤ ℤ
drift = record {
  accepted = true;
  opening_as_of = at 50;
  current_as_of = at 100;
  movements =
      moved "home" 2 5 (1 ∷ 4 ∷ [])
      ∷ moved "draw" 3 3 (2 ∷ 5 ∷ [])
      ∷ moved "away" 4 4 (3 ∷ 6 ∷ [])
      ∷ [];
  issues = [];
}

compared_drift : compare leb_ℤ policy list_by_fixture 9 (at 50) (at 100) ≡ Outcome.ok drift
unfolding compare make_movement make_movement_result build_movement build_movements verify
    evaluate_latest latest_by_selection_and_bookmaker ◌-ℤ◌ ◌+ℤ◌ build_quote make_quote make_result
compared_drift = refl

compare-Compared_example :
    (o : VerifiedMarketQuoteResult ℤ ℤ) × (c : VerifiedMarketQuoteResult ℤ ℤ) × (verify leb_ℤ policy
        list_by_fixture 9
        (at 50)
      ≡ Outcome.ok o)
    × (verify leb_ℤ policy list_by_fixture 9 (at 100) ≡ Outcome.ok c)
    × (50 < 100)
    × Compared leb_ℤ policy list_by_fixture o c 9 (at 50) (at 100) drift true
compare-Compared_example =
    compare-Compared leb_ℤ policy list_by_fixture 9 (at 50) (at 100) drift compared_drift
