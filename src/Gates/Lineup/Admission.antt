-- ===== src/Gates/Lineup/Admission.antt =====
-- What a lineup that the gate admits has passed.
use football_agent.Prelude.{
  ℕ, Bool, true, false, Option, none, some, List, [], ◌∷◌, ◌++◌, ==_iff, ap, sym, ◌∙◌, ◌≡◌, ◌↔◌,
  refl, ◌≤◌, str_eq, arith,
}
use football_agent.Domain.Entities.{Instant, Fixture}
use football_agent.Settlement.Evidence.{ok}
use football_agent.Gates.Recommendation.{rank}
use football_agent.Gates.Lineup.Entity.{Lineup, LineupStatus}
use football_agent.Gates.Lineup.{
  LineupAdmissionDecision, VerifiedLineupPolicy, LineupVerificationIssue, team_failures, judge_team,
  LineupReason, decide, VerifiedFixtureLineups, LineupRepository, verify, AnalysisStage, admit,
  requires_confirmed_lineups, verify_team, lineup_issues,
}

-- The lineup is the team's for this fixture, confirmed, from the policy's source, captured by the
-- decision time and of enough evidence.
abbrev pub IsSound : VerifiedLineupPolicy → ℕ → ℕ → Instant → Lineup → Type 0
IsSound policy fixture_id team_id as_of l =
    (l.fixture_id ≡ fixture_id)
    × (l.team_id ≡ team_id)
    × (str_eq l.source_name policy.source ≡ true)
    × (l.status ≡ LineupStatus.confirmed)
    × (l.captured_at.tick ≤ as_of.tick)
    × (rank policy.minimum_evidence ≤ rank l.source_evidence)

abbrev pub HasSound : VerifiedLineupPolicy → ℕ → ℕ → Instant → Option Lineup → Type 0
HasSound policy fixture_id team_id as_of none = true ≡ false
HasSound policy fixture_id team_id as_of (some l) = IsSound policy fixture_id team_id as_of l

lineup_issues-IsSound :
    (policy : VerifiedLineupPolicy) (fixture_id team_id : ℕ) (as_of : Instant) (l : Lineup)
    → (lineup_issues policy fixture_id team_id as_of l ≡ [])
      ↔ IsSound policy fixture_id team_id as_of l
unfolding lineup_issues
lineup_issues-IsSound policy fixture_id team_id as_of l = ground arith

issues_none :
    (is_home : Bool) (team : ℕ) (l : Lineup) (issues : List LineupVerificationIssue)
    → (team_failures is_home (record { team_id = team; lineup = some l; issues = issues }) ≡ [])
      ↔ (issues ≡ [])
issues_none is_home team l [] = (λ h. refl, λ h. refl)
issues_none is_home team l (i ∷ is) = (λ h. absurd (cc h), λ h. absurd (cc h))

team_failures-HasSound :
    (is_home : Bool) (policy : VerifiedLineupPolicy) (fixture_id team_id : ℕ) (as_of : Instant)
    (o : Option Lineup)
    → (team_failures is_home (judge_team policy fixture_id team_id as_of o) ≡ [])
      ↔ HasSound policy fixture_id team_id as_of o
team_failures-HasSound is_home policy fixture_id team_id as_of none =
    (λ h. absurd (cc h), λ h. absurd (cc h))
team_failures-HasSound is_home policy fixture_id team_id as_of (some l) =
    let a = issues_none is_home team_id l (lineup_issues policy fixture_id team_id as_of l) in
    let b = lineup_issues-IsSound policy fixture_id team_id as_of l in
    (λ h. b.0 (a.0 h), λ h. a.1 (b.1 h))

-- Only the empty list of failures is an approval, and only two empty lists append to it.
decide_both :
    (a b : List LineupReason) → ((decide (a ++ b)).approved ≡ true) ↔ ((a ≡ []) × (b ≡ []))
decide_both [] [] = (λ h. (refl, refl), λ h. refl)
decide_both [] (w ∷ ws) = (λ h. absurd (cc h), λ h. absurd (cc h.1))
decide_both (w ∷ ws) b = (λ h. absurd (cc h), λ h. absurd (cc h.0))

-- What the gate does with a result for its own fixture, at a stage that asks for one.
admit_asked :
    (id : ℕ) (stage : AnalysisStage) (v : VerifiedFixtureLineups)
    → requires_confirmed_lineups stage ≡ true
    → v.fixture_id ≡ id
    → admit (record { fixture_id = id; stage = stage; lineups = some v })
      ≡ decide (team_failures true v.home ++ team_failures false v.away)
unfolding admit
admit_asked id stage v asked same = let e = (==_iff v.fixture_id id).1 same in rw (asked, e) refl

-- For a time with a zone the verification returns, and at a stage that asks for lineups the gate
-- then admits the fixture exactly when the latest lineup of each team is there and sound.
pub verify-admit-IsSound :
    (repository : LineupRepository) (policy : VerifiedLineupPolicy) (fixture : Fixture)
    (as_of : Instant) (stage : AnalysisStage)
    → as_of.aware ≡ true
    → requires_confirmed_lineups stage ≡ true
    → (v : VerifiedFixtureLineups) × (verify repository policy fixture as_of ≡ ok v)
      × (((admit (record { fixture_id = fixture.id; stage = stage; lineups = some v })).approved
            ≡ true)
          ↔ (HasSound policy fixture.id fixture.home_team_id as_of
                (repository fixture.id fixture.home_team_id policy.source as_of)
              × HasSound policy fixture.id fixture.away_team_id as_of
                  (repository fixture.id fixture.away_team_id policy.source as_of)))
unfolding verify verify_team admit
verify-admit-IsSound repository policy fixture as_of stage aware asked =
    let latest = λ (team : ℕ). repository fixture.id team policy.source as_of in
    let judge = λ (team : ℕ). judge_team policy fixture.id team as_of (latest team) in
    let home = judge fixture.home_team_id in
    let away = judge fixture.away_team_id in
    let v : VerifiedFixtureLineups = record {
      fixture_id = fixture.id;
      as_of = as_of;
      home = home;
      away = away;
    } in
    let a =
      team_failures-HasSound true policy fixture.id fixture.home_team_id as_of
        (latest fixture.home_team_id) in
    let b =
      team_failures-HasSound false policy fixture.id fixture.away_team_id as_of
        (latest fixture.away_team_id) in
    let d = decide_both (team_failures true home) (team_failures false away) in
    let e =
      ap (λ (r : LineupAdmissionDecision). r.approved)
        (admit_asked fixture.id stage v asked refl) in
    (
      v,
      rw aware refl,
      (λ h. let p = d.0 (sym e ∙ h) in (a.0 p.0, b.0 p.1), λ h. e ∙ d.1 (a.1 h.0, b.1 h.1)),
    )
