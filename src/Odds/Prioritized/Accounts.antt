-- ===== src/Odds/Prioritized/Accounts.antt =====
-- What `get_odds_for_fixtures` reports of the targets that it was asked about.
use football_agent.Prelude.{some, List, ◌+◌, ◌≡◌, ◌==◌, if◌then◌else◌, length}
use football_agent.Prelude.Number.{Number}
use football_agent.Prelude.TextDict.{TextDict, count_at}
use football_agent.Odds.Schema.{ProviderOddsTarget}
use football_agent.Odds.Prioritized.{Query, OddsSource, Answer, CoverageStats}
use football_agent.Odds.Prioritized.Targeted.{matched_fixture_ids}
use football_agent.Odds.Prioritized.Merged.{asked, left_over, fallback_asked}

module _ {W F : Type 0} ⦃f : Number F⦄ (primary fallback : OddsSource W F) where
  -- The reported coverage adds up.
  pub record Adds (q : Query) (ts : List ProviderOddsTarget) (w : W) (a : Answer W F)
      (c : CoverageStats F) : Type 0 where
    pub reported : a.kept.coverage ≡ some c
    pub targeted : c.targeted_fixtures ≡ length ts
    pub of_primary :
        length (matched_fixture_ids (asked primary q ts w).0 ts) + c.primary_empty_events
        ≡ c.targeted_fixtures
    pub of_fallback :
        c.fallback_successes + count_at "NO_BOOKMAKER_ODDS" c.unmatched_reason_counts
        ≡ c.primary_empty_events
    pub all_left : c.primary_empty_events ≡ length (left_over primary fallback q ts w)
    pub covered :
        c.fallback_successes
        ≡ length (
            matched_fixture_ids
              (fallback_asked primary fallback q ts w).0
              (left_over primary fallback q ts w))
    pub counted : c.fallback_attempts ≡ (if c.primary_empty_events == 0 then 0 else 1)
    pub asked_so : a.world ≡ (fallback_asked primary fallback q ts w).1
