-- ===== src/Picks/Tests.antt =====
-- A day of four fixtures, in whole units.
use football_agent.Prelude.{
  ℕ, Bool, true, false, none, some, List, [], ◌∷◌, ◌≡◌, refl, contains, strip,
}
use football_agent.Prelude.Int.{ℤ, pos}
use football_agent.Prelude.Number.{int_number}
use football_agent.Settlement.Evidence.{Outcome}
use football_agent.Picks.Whitelist.{CompetitionWhitelist, make_whitelist, is_allowed}
use football_agent.Picks.{
  DayFixture, SelectionAnalysis, DetailedAnalysis, PickLimits, PickServices, run, run_day, scan,
  review_top,
}

abbrev league : CompetitionWhitelist
league = make_whitelist (
    record {
      match_names_norm = "premier league" ∷ [];
      sport_keys_norm = "soccer_epl" ∷ [];
      enabled = true;
      league_id = some (pos 39);
      country = some "england";
    }
    ∷ [])

-- A name of the list with the id of another league does not pass; a sport key does.
namesake :
    (is_allowed (λ t. t) league "premier league" none (some "england") ≡ true)
    × (is_allowed (λ t. t) league "premier league" none (some "belarus") ≡ false)
    × (is_allowed (λ t. t) league "premier league" (some (pos 116)) (some "england") ≡ false)
    × (is_allowed (λ t. t) league "other" (some (pos 39)) none ≡ true)
    × (is_allowed (λ t. t) league "soccer_epl" none none ≡ true)
unfolding is_allowed make_whitelist strip
namesake = (refl, refl, refl, refl, refl)

abbrev selection : Bool → ℕ → SelectionAnalysis ℤ
selection ok ev = record {
  recommended = ok;
  expected_value = pos ev;
  kelly_fraction = pos 1;
  confidence = pos 8;
}

abbrev fixture : ℕ → DayFixture
fixture i = record { id = i; competition_id = 1 }

-- The only selection that the gate recommends is worth the fixture's id.
abbrev analysis : DayFixture → Outcome (DetailedAnalysis ℤ)
analysis x =
    Outcome.ok
      (record { fixture_id = x.id; selections = selection false 100 ∷ selection true x.id ∷ [] })

abbrev reviewed_in : List ℕ → DetailedAnalysis ℤ → Outcome (ℕ × List ℕ)
reviewed_in logs d = Outcome.ok (1, d.fixture_id ∷ logs)

-- The store is the list of the fixtures that have a decision log.
abbrev services : PickServices ℤ (List ℕ)
services = record {
  str_of = λ _. "unknown";
  normalize = λ t. t;
  get_competition = λ _.
      Outcome.ok
        (some (record { name = "premier league"; external_id = none; country = some "england" }));
  analyze_detailed = analysis;
  log_predictions = λ s x d. (Outcome.ok 2, s);
  list_by_fixture = λ s j. Outcome.ok (contains j s);
  has_log = λ s j. contains j s;
  review_detailed = reviewed_in;
}

abbrev limits : PickLimits ℤ
limits = record { min_ev = pos 3; min_kelly = pos 1; min_confidence = pos 6; max_picks = 2 }

abbrev day : List DayFixture
day = fixture 2 ∷ fixture 5 ∷ fixture 4 ∷ fixture 7 ∷ []

-- Fixture 2 does not qualify; of the best two, 7 was reviewed before.
run_of_day :
    run services limits (Outcome.ok day) (Outcome.ok league) (7 ∷ [])
    ≡ Outcome.ok (
      record {
        fixtures_analyzed = 4;
        fixtures_qualified = 3;
        fixtures_reviewed = 1;
        fixtures_skipped_existing = 1;
        value_bets_created = 1;
        fixtures_skipped_unsupported_competition = 0;
        predictions_logged = 8;
        reviewed_fixture_ids = 5 ∷ [];
      },
      5 ∷ 7 ∷ [],
    )
unfolding run run_day scan review_top is_allowed make_whitelist strip
run_of_day = refl
