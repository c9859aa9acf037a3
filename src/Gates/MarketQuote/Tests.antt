-- ===== src/Gates/MarketQuote/Tests.antt =====
-- Markets on concrete snapshots. Prices are integers, times seconds.
use football_agent.Prelude.{ℕ, String, true, none, some, List, [], ◌∷◌, ◌≡◌, refl}
use football_agent.Prelude.Int.{ℤ, pos, leb_ℤ, ◌+ℤ◌, ◌-ℤ◌}
use football_agent.Prelude.Number.{int_number}
use football_agent.Domain.Markets.{MarketType}
use football_agent.Domain.Entities.{Instant}
use football_agent.Settlement.Evidence.{Outcome, ok, raised}
use football_agent.Gates.MarketQuote.{
  OddsSnapshot, MarketQuoteVerificationStatus, VerifiedMarketQuotePolicy, VerifiedMarketQuoteResult,
  VerifiedSelectionQuote, make_quote, make_result,
}
use football_agent.Gates.MarketQuote.Latest.{latest_by_selection_and_bookmaker}
use football_agent.Gates.MarketQuote.Newest.{HoldsNewest, find, latest-Newest}
use football_agent.Gates.MarketQuote.Quote.{build_quote}
use football_agent.Gates.MarketQuote.Service.{verify, evaluate_latest}
use football_agent.Gates.MarketQuote.Admitted.{IsMarket, verify-IsMarket}

abbrev at : ℕ → Instant
at n = record { tick = n; aware = true }

abbrev snapshot : ℕ → ℕ → String → ℕ → ℕ → OddsSnapshot ℤ ℤ
snapshot id bookmaker code price time = record {
  id = id;
  bookmaker_id = bookmaker;
  selection = record { market = MarketType.match_result; code = code; line = none };
  odds = pos price;
  captured_at = at time;
}

abbrev listing : List (OddsSnapshot ℤ ℤ)
listing =
    snapshot 1 1 "home" 2 50
    ∷ snapshot 2 1 "draw" 3 50
    ∷ snapshot 3 1 "away" 4 50
    ∷ snapshot 4 2 "home" 2 60
    ∷ snapshot 5 2 "draw" 4 60
    ∷ snapshot 6 2 "away" 5 60
    ∷ snapshot 7 1 "home" 3 80
    ∷ []

abbrev list_by_fixture : ℕ → Instant → Outcome (List (OddsSnapshot ℤ ℤ))
list_by_fixture fixture_id as_of = Outcome.ok listing

abbrev policy : VerifiedMarketQuotePolicy ℤ
policy = record {
  maximum_age = 50;
  preliminary_maximum_age = 70;
  minimum_bookmakers = 2;
  maximum_relative_deviation = pos 0;
}

abbrev outcome_at : ℕ → Outcome (VerifiedMarketQuoteResult ℤ ℤ)
outcome_at time = verify leb_ℤ policy list_by_fixture 9 (at time)

abbrev status_of : Outcome (VerifiedMarketQuoteResult ℤ ℤ) → MarketQuoteVerificationStatus
status_of (raised text) = MarketQuoteVerificationStatus.not_found
status_of (ok r) = r.status

-- Later, the market is informational only, and then too old.
statuses :
    (status_of (outcome_at 120) ≡ MarketQuoteVerificationStatus.preliminary)
    × (status_of (outcome_at 151) ≡ MarketQuoteVerificationStatus.too_stale)
    × (status_of (outcome_at 131) ≡ MarketQuoteVerificationStatus.rejected)
unfolding verify evaluate_latest latest_by_selection_and_bookmaker ◌-ℤ◌ ◌+ℤ◌ build_quote make_quote
    make_result
statuses = (refl, refl, refl)

abbrev quote : String → ℕ → ℕ → ℕ → ℤ → List ℕ → VerifiedSelectionQuote ℤ ℤ
quote code bookmaker price time consensus ids = record {
  quote = record {
    selection = record { market = MarketType.match_result; code = code; line = none };
    odds = pos price;
    bookmaker_id = some bookmaker;
  };
  captured_at = at time;
  consensus_decimal_odds = consensus;
  contributing_snapshot_ids = ids;
  contributing_bookmaker_ids = 1 ∷ 2 ∷ [];
}

-- The first bookmaker's home price is its later one.
abbrev market : VerifiedMarketQuoteResult ℤ ℤ
market = record {
  status = MarketQuoteVerificationStatus.verified;
  as_of = at 100;
  quotes =
      quote "home" 2 2 60 (pos 2) (7 ∷ 4 ∷ [])
      ∷ quote "draw" 1 3 50 (pos 3) (2 ∷ 5 ∷ [])
      ∷ quote "away" 1 4 50 (pos 4) (3 ∷ 6 ∷ [])
      ∷ [];
  issues = [];
  observed_snapshot_count = 7;
  eligible_snapshot_count = 6;
}

market_verified : outcome_at 100 ≡ Outcome.ok market
unfolding verify evaluate_latest latest_by_selection_and_bookmaker ◌-ℤ◌ ◌+ℤ◌ build_quote make_quote
    make_result
market_verified = refl

verify-IsMarket_example :
    (found : List (OddsSnapshot ℤ ℤ)) × (list_by_fixture 9 (at 100) ≡ Outcome.ok found)
    × IsMarket leb_ℤ policy found (at 100) market
verify-IsMarket_example =
    verify-IsMarket leb_ℤ policy list_by_fixture 9 (at 100) market market_verified refl

-- The first bookmaker's home price at 80 counts, not the one at 50.
latest-Newest_example :
    HoldsNewest ("home", 1) listing (find ("home", 1) (latest_by_selection_and_bookmaker listing))
latest-Newest_example = latest-Newest listing ("home", 1)
