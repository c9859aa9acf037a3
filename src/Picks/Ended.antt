-- ===== src/Picks/Ended.antt =====
-- How a run of the daily picks ends.
use football_agent.Prelude.{ℕ, true, not, List, ◌++◌, ◌+◌, ◌≡◌, ◌⊎◌, All, Some, length, min, count}
use mathlib.Core.List.{Perm}
use football_agent.Prelude.Number.{Number}
use football_agent.Settlement.Evidence.{Outcome, ok, raised}
use football_agent.Picks.Whitelist.{CompetitionWhitelist}
use football_agent.Picks.{
  DayFixture, DetailedAnalysis, PickLimits, PickServices, DailyRunReport, is_on_whitelist,
}
use football_agent.Picks.Scanned.{Qualified, Scanned}
use football_agent.Picks.Best.{IsBest}
use football_agent.Picks.Counted.{candidates}
use football_agent.Picks.Reviewed.{AllDifferent, IsReview, Reviewed}
use football_agent.Picks.Ranked.{IsRanked}

module _ {F S : Type 0} ⦃f : Number F⦄ (env : PickServices F S) (limits : PickLimits F)
    (whitelist : CompetitionWhitelist) where
  -- The value is the best one of the analysis of a fixture of this id.
  abbrev pub Valued : List DayFixture → ℕ × F → Type 0
  Valued fixtures e =
      Some
        (λ x.
          (x.id ≡ e.0)
          × ((d : DetailedAnalysis F) × (env.analyze_detailed x ≡ Outcome.ok d)
              × IsBest env limits whitelist d.selections e.1))
        fixtures

  -- A run that ends well: the best of the fixtures that qualify, at most so many, are reviewed
  -- unless they were; the rest are not better.
  pub record IsRun (s : S) (fixtures : List DayFixture) (report : DailyRunReport) (t : S)
      : Type 0 where
    pub top : List (ℕ × F)
    pub rest : List (ℕ × F)
    pub qualified : All (Qualified env limits whitelist fixtures) (top ++ rest)
    pub valued : All (Valued fixtures) (top ++ rest)
    pub in_order : IsRanked env limits whitelist (top ++ rest)
    pub complete : Perm (top ++ rest) (candidates env limits whitelist fixtures)
    pub as_many : report.fixtures_qualified ≡ length (top ++ rest)
    pub left_out :
        report.fixtures_skipped_unsupported_competition
        ≡ count (λ x. not (is_on_whitelist env limits whitelist x)) fixtures
    pub cut : length top ≡ min limits.max_picks report.fixtures_qualified
    pub reviews : All (IsReview env limits whitelist s t top) report.reviewed_fixture_ids
    pub once : AllDifferent report.reviewed_fixture_ids
    pub logged : All (λ e. env.has_log t e.0 ≡ true) top
    pub accounted : report.fixtures_reviewed + report.fixtures_skipped_existing ≡ length top
    pub counted : report.fixtures_reviewed ≡ length report.reviewed_fixture_ids

  abbrev pub DayEnds : S → List DayFixture → Outcome (DailyRunReport × S) → Type 0
  DayEnds s fixtures (ok (report, t)) = IsRun s fixtures report t
  DayEnds s fixtures (raised text) =
      Some (λ x. env.analyze_detailed x ≡ Outcome.raised text) fixtures
      ⊎ ((u : S) × (d : DetailedAnalysis F) × (env.review_detailed u d ≡ Outcome.raised text))
      ⊎ ((u : S) × (j : ℕ) × (env.list_by_fixture u j ≡ Outcome.raised text))

module _ {F S : Type 0} ⦃f : Number F⦄ (env : PickServices F S) (limits : PickLimits F) where
  -- The listing, the whitelist, or the day's run that an exception comes from; or a run that ends
  -- well on what was listed.
  abbrev pub RunEnds :
      Outcome (List DayFixture)
      → Outcome CompetitionWhitelist
      → S
      → Outcome (DailyRunReport × S)
      → Type 0
  RunEnds (raised why) loaded s o = o ≡ Outcome.raised why
  RunEnds (ok fixtures) (raised why) s o = o ≡ Outcome.raised why
  RunEnds (ok fixtures) (ok whitelist) s o = DayEnds env limits whitelist s fixtures o
