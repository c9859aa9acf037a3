-- ===== src/Picks.antt =====
-- app/services/daily_top_picks.py: `DailyTopPicksService.run`. The analysis, the log of predictions
-- and the committee review are parameters, with the store that they read and write; so is what
-- the repositories return. An exception that the code does not catch ends the run.
pub mod Whitelist
pub mod Best
pub mod Scanned
pub mod Reviewed
pub mod Ranked
pub mod Counted
pub mod Ended
mod Tests
use football_agent.Prelude.{
  ℕ, suc, String, Bool, true, false, ◌&&◌, not, Option, none, some, List, [], ◌∷◌, ◌++◌, ◌+◌, ◌≤◌,
  take, keep, length, ltb, is_some, if◌then◌else◌, str_eq,
}
use football_agent.Prelude.Int.{ℤ}
use football_agent.Prelude.Dict.{Dict, lookup, insert}
use football_agent.Prelude.Number.{Number, max_of}
use football_agent.Prelude.Text.Numerals.{int_of}
use football_agent.Settlement.Evidence.{Outcome, ok, raised, bind_outcome}
use football_agent.Picks.Whitelist.{CompetitionWhitelist, is_allowed}

pub record DayFixture : Type 0 where
  pub id : ℕ
  pub competition_id : ℕ

pub record Competition : Type 0 where
  pub name : String
  pub external_id : Option String
  pub country : Option String

pub record SelectionAnalysis (F : Type 0) : Type 0 where
  pub recommended : Bool
  pub expected_value : F
  pub kelly_fraction : F
  pub confidence : F

pub record DetailedAnalysis (F : Type 0) : Type 0 where
  pub fixture_id : ℕ
  pub selections : List (SelectionAnalysis F)

pub record PickLimits (F : Type 0) : Type 0 where
  pub min_ev : F
  pub min_kelly : F
  pub min_confidence : F
  pub max_picks : ℕ

pub record DailyRunReport : Type 0 where
  pub fixtures_analyzed : ℕ
  pub fixtures_qualified : ℕ
  pub fixtures_reviewed : ℕ
  pub fixtures_skipped_existing : ℕ
  pub value_bets_created : ℕ
  pub fixtures_skipped_unsupported_competition : ℕ
  pub predictions_logged : ℕ
  pub reviewed_fixture_ids : List ℕ

-- What the run uses of the other services and the database `S`.
pub record PickServices (F S : Type 0) : Type 0 where
  pub str_of : ℕ → String
  pub normalize : String → String
  pub get_competition : ℕ → Outcome (Option Competition)
  pub analyze_detailed : DayFixture → Outcome (DetailedAnalysis F)
  -- the rows that `log_fixture_predictions` has inserted
  pub log_predictions : S → DayFixture → DetailedAnalysis F → Outcome ℕ × S
  -- whether `decision_logs.list_by_fixture` returns a row
  pub list_by_fixture : S → ℕ → Outcome Bool
  -- whether the database has such a row
  pub has_log : S → ℕ → Bool
  -- the value bets that `review_detailed` has stored
  pub review_detailed : S → DetailedAnalysis F → Outcome (ℕ × S)

-- The loop over the fixtures, between two of them.
pub record Scan (F S : Type 0) : Type 0 where
  pub scored : List (ℕ × F)
  pub detailed_by_id : Dict (DetailedAnalysis F)
  pub predictions_logged : ℕ
  pub skipped_unsupported : ℕ
  pub store : S

-- The loop over the best of them.
pub record Reviews (S : Type 0) : Type 0 where
  pub reviewed : ℕ
  pub skipped : ℕ
  pub value_bets : ℕ
  pub reviewed_ids : List ℕ
  pub store : S

-- `int(comp.external_id)`, under `suppress(ValueError, TypeError)`
abbrev league_id_of : Option String → Option ℤ
league_id_of none = none
league_id_of (some t) = if str_eq t "" then none else int_of t

module _ {F S : Type 0} ⦃f : Number F⦄ (env : PickServices F S) (limits : PickLimits F)
    (whitelist : CompetitionWhitelist) where
  abbrev competition_name : ℕ → Outcome (Option Competition) → String
  competition_name i (raised text) = env.str_of i
  competition_name i (ok none) = env.str_of i
  competition_name i (ok (some c)) = c.name

  abbrev is_allowed_as : String → Outcome (Option Competition) → Bool
  is_allowed_as name (raised text) = is_allowed env.normalize whitelist name none none
  is_allowed_as name (ok none) = is_allowed env.normalize whitelist name none none
  is_allowed_as name (ok (some c)) =
      is_allowed env.normalize whitelist name (league_id_of c.external_id) c.country

  abbrev pub is_on_whitelist : DayFixture → Bool
  is_on_whitelist fixture =
      let comp = env.get_competition fixture.competition_id in
      is_allowed_as (competition_name fixture.competition_id comp) comp

  -- `_qualifies`
  abbrev pub qualifies : SelectionAnalysis F → Bool
  qualifies s =
      s.recommended
      && f.le limits.min_ev s.expected_value
      && f.le limits.min_kelly s.kelly_fraction
      && f.le limits.min_confidence s.confidence

  abbrev pub best_from : F → List (SelectionAnalysis F) → F
  best_from ev [] = ev
  best_from ev (s ∷ ss) = best_from (max_of ev s.expected_value) ss

  abbrev pub best_of : List (SelectionAnalysis F) → Option F
  best_of [] = none
  best_of (s ∷ ss) = some (best_from s.expected_value ss)

  -- The best expected value of the selections that qualify.
  abbrev pub best_ev : DetailedAnalysis F → Option F
  best_ev d = best_of (keep qualifies d.selections)

  abbrev inserted : Outcome ℕ → ℕ
  inserted (raised text) = 0
  inserted (ok n) = n

  abbrev add_scored : DayFixture → DetailedAnalysis F → Option F → Scan F S → Scan F S
  add_scored fixture d none c = c
  add_scored fixture d (some ev) c = record c {
    scored = c.scored ++ ((fixture.id, ev) ∷ []);
    detailed_by_id = insert fixture.id d c.detailed_by_id;
  }

  abbrev pub add_detailed : DayFixture → Scan F S → DetailedAnalysis F → Scan F S
  add_detailed fixture c d =
      let (report, store) = env.log_predictions c.store fixture d in
      add_scored fixture d (best_ev d)
        (record c { predictions_logged = c.predictions_logged + inserted report; store = store })

  abbrev pub scan_fixture : Scan F S → DayFixture → Outcome (Scan F S)
  scan_fixture c fixture =
      if not (is_on_whitelist fixture)
      then Outcome.ok (record c { skipped_unsupported = suc c.skipped_unsupported })
      else bind_outcome (env.analyze_detailed fixture) (λ d. Outcome.ok (add_detailed fixture c d))

  unfoldable pub scan : Scan F S → List DayFixture → Outcome (Scan F S)
  scan c [] = Outcome.ok c
  scan c (fixture ∷ fixtures) = bind_outcome (scan_fixture c fixture) (λ c'. scan c' fixtures)

  -- `sort(key=..., reverse=True)` is stable: here by insertion.
  abbrev pub insert_scored : ℕ × F → List (ℕ × F) → List (ℕ × F)
  insert_scored e [] = e ∷ []
  insert_scored e (x ∷ xs) =
      let rest = insert_scored e xs in if f.lt e.1 x.1 then x ∷ rest else e ∷ x ∷ xs

  abbrev pub sort_scored : List (ℕ × F) → List (ℕ × F)
  sort_scored [] = []
  sort_scored (e ∷ es) = insert_scored e (sort_scored es)

  abbrev add_review : Reviews S → ℕ → ℕ × S → Reviews S
  add_review r i (created, store) = record r {
    reviewed = suc r.reviewed;
    value_bets = r.value_bets + created;
    reviewed_ids = r.reviewed_ids ++ (i ∷ []);
    store = store;
  }

  abbrev pub review_detail : Reviews S → ℕ → Option (DetailedAnalysis F) → Outcome (Reviews S)
  review_detail r i none = Outcome.raised "KeyError"
  review_detail r i (some d) =
      bind_outcome (env.review_detailed r.store d) (λ done. Outcome.ok (add_review r i done))

  abbrev pub review_one : Dict (DetailedAnalysis F) → Reviews S → ℕ → Outcome (Reviews S)
  review_one details r i = bind_outcome (env.list_by_fixture r.store i) (λ logged.
      if logged
      then Outcome.ok (record r { skipped = suc r.skipped })
      else review_detail r i (lookup i details))

  unfoldable pub review_top :
      Dict (DetailedAnalysis F) → Reviews S → List (ℕ × F) → Outcome (Reviews S)
  review_top details r [] = Outcome.ok r
  review_top details r (e ∷ es) =
      bind_outcome (review_one details r e.0) (λ r'. review_top details r' es)

  abbrev pub first_scan : S → Scan F S
  first_scan store = record {
    scored = [];
    detailed_by_id = [];
    predictions_logged = 0;
    skipped_unsupported = 0;
    store = store;
  }

  abbrev pub first_reviews : S → Reviews S
  first_reviews store = record {
    reviewed = 0;
    skipped = 0;
    value_bets = 0;
    reviewed_ids = [];
    store = store;
  }

  abbrev pub top_of : List (ℕ × F) → List (ℕ × F)
  top_of scored = take limits.max_picks (sort_scored scored)

  abbrev pub day_report : List DayFixture → Scan F S → Reviews S → DailyRunReport
  day_report fixtures c r = record {
    fixtures_analyzed = length fixtures;
    fixtures_qualified = length c.scored;
    fixtures_reviewed = r.reviewed;
    fixtures_skipped_existing = r.skipped;
    value_bets_created = r.value_bets;
    fixtures_skipped_unsupported_competition = c.skipped_unsupported;
    predictions_logged = c.predictions_logged;
    reviewed_fixture_ids = r.reviewed_ids;
  }

  -- The run from the listed fixtures on. The store is the database as it leaves it.
  unfoldable pub run_day : S → List DayFixture → Outcome (DailyRunReport × S)
  run_day store fixtures = bind_outcome (scan (first_scan store) fixtures) (λ c.
      bind_outcome (review_top c.detailed_by_id (first_reviews c.store) (top_of c.scored))
        (λ r. Outcome.ok (day_report fixtures c r, r.store)))

module _ {F S : Type 0} ⦃f : Number F⦄ (env : PickServices F S) (limits : PickLimits F) where
  -- The fixtures are what `list_by_kickoff_window` returns, the whitelist what `get_whitelist` does.
  unfoldable pub run :
      Outcome (List DayFixture) → Outcome CompetitionWhitelist → S → Outcome (DailyRunReport × S)
  run listing loaded store =
      bind_outcome listing
        (λ fixtures. bind_outcome loaded (λ whitelist. run_day env limits whitelist store fixtures))
