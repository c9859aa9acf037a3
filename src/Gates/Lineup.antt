-- ===== src/Gates/Lineup.antt =====
-- app/models/entities/lineup.py, app/services/verified_lineup.py and
-- app/services/lineup_admission_gate.py: a lineup, its verification at a decision time, and the
-- gate that asks for verified lineups. The lineup repository is a parameter.
pub mod Entity
pub mod Admission
use football_agent.Prelude.{
  ℕ, String, Bool, true, false, ◌&&◌, ◌||◌, Option, none, some, not, List, [], ◌∷◌, ◌++◌, ◌==◌, ltb,
  str_eq, strip, if◌then◌else◌,
}
use football_agent.Domain.Entities.{Instant, Fixture}
use football_agent.Settlement.Evidence.{Outcome, ok, raised}
use football_agent.Gates.Recommendation.{EvidenceLevel, meets_minimum}
use football_agent.Gates.Lineup.Entity.{Lineup, is_confirmed}

pub data LineupVerificationIssue : Type 0 where
  missing fixture_mismatch team_mismatch source_mismatch : LineupVerificationIssue
  not_confirmed future_snapshot evidence_below_minimum : LineupVerificationIssue

pub record VerifiedLineupPolicy : Type 0 where
  pub source : String
  pub minimum_evidence : EvidenceLevel

abbrev pub make_policy : String → EvidenceLevel → Option VerifiedLineupPolicy
make_policy source minimum =
    if str_eq source "" || not (str_eq source (strip source))
    then none
    else some (record { source = source; minimum_evidence = minimum })

pub record VerifiedTeamLineupResult : Type 0 where
  pub team_id : ℕ
  pub lineup : Option Lineup
  pub issues : List LineupVerificationIssue

abbrev pub team_accepted : VerifiedTeamLineupResult → Bool
team_accepted r = elim r.lineup [
  | none ↦ false
  | some _ ↦ elim r.issues [ [] ↦ true | _ ∷ _ ↦ false ]
]

pub record VerifiedFixtureLineups : Type 0 where
  pub fixture_id : ℕ
  pub as_of : Instant
  pub home : VerifiedTeamLineupResult
  pub away : VerifiedTeamLineupResult

abbrev pub fixture_accepted : VerifiedFixtureLineups → Bool
fixture_accepted v = team_accepted v.home && team_accepted v.away

-- `get_latest_by_source(fixture_id, team_id, source, status=CONFIRMED, as_of=as_of)`
abbrev pub LineupRepository : Type 0
LineupRepository = ℕ → ℕ → String → Instant → Option Lineup

abbrev issue_if : Bool → LineupVerificationIssue → List LineupVerificationIssue
issue_if bad issue = if bad then issue ∷ [] else []

unfoldable pub lineup_issues :
    VerifiedLineupPolicy → ℕ → ℕ → Instant → Lineup → List LineupVerificationIssue
lineup_issues policy fixture_id team_id as_of l =
    issue_if (not (l.fixture_id == fixture_id)) LineupVerificationIssue.fixture_mismatch
    ++ issue_if (not (l.team_id == team_id)) LineupVerificationIssue.team_mismatch
    ++ issue_if (not (str_eq l.source_name policy.source)) LineupVerificationIssue.source_mismatch
    ++ issue_if (not (is_confirmed l)) LineupVerificationIssue.not_confirmed
    ++ issue_if (ltb as_of.tick l.captured_at.tick) LineupVerificationIssue.future_snapshot
    ++ issue_if (not (meets_minimum l.source_evidence policy.minimum_evidence))
        LineupVerificationIssue.evidence_below_minimum

abbrev pub judge_team :
    VerifiedLineupPolicy → ℕ → ℕ → Instant → Option Lineup → VerifiedTeamLineupResult
judge_team policy fixture_id team_id as_of none = record {
  team_id = team_id;
  lineup = none;
  issues = LineupVerificationIssue.missing ∷ [];
}
judge_team policy fixture_id team_id as_of (some l) = record {
  team_id = team_id;
  lineup = some l;
  issues = lineup_issues policy fixture_id team_id as_of l;
}

unfoldable pub verify_team :
    LineupRepository → VerifiedLineupPolicy → ℕ → ℕ → Instant → VerifiedTeamLineupResult
verify_team repository policy fixture_id team_id as_of =
    judge_team policy fixture_id team_id as_of (repository fixture_id team_id policy.source as_of)

unfoldable pub verify :
    LineupRepository → VerifiedLineupPolicy → Fixture → Instant → Outcome VerifiedFixtureLineups
verify repository policy fixture as_of =
    if not as_of.aware
    then raised "as_of must be timezone-aware"
    else ok (record {
      fixture_id = fixture.id;
      as_of = as_of;
      home = verify_team repository policy fixture.id fixture.home_team_id as_of;
      away = verify_team repository policy fixture.id fixture.away_team_id as_of;
    })

pub data AnalysisStage : Type 0 where
  initial post_lineup final : AnalysisStage

abbrev pub requires_confirmed_lineups : AnalysisStage → Bool
requires_confirmed_lineups AnalysisStage.initial = false
requires_confirmed_lineups AnalysisStage.post_lineup = true
requires_confirmed_lineups AnalysisStage.final = true

pub record LineupAdmissionInput : Type 0 where
  pub fixture_id : ℕ
  pub stage : AnalysisStage
  pub lineups : Option VerifiedFixtureLineups

-- What the texts of the reasons say; a team's reasons say which side it plays on.
pub data LineupReason : Type 0 where
  not_required no_result wrong_fixture all_verified : LineupReason
  unexplained : Bool → LineupReason
  refused : Bool → LineupVerificationIssue → LineupReason

pub record LineupAdmissionDecision : Type 0 where
  pub approved : Bool
  pub reasons : List LineupReason

abbrev issue_reasons : Bool → List LineupVerificationIssue → List LineupReason
issue_reasons is_home [] = []
issue_reasons is_home (i ∷ is) = LineupReason.refused is_home i ∷ issue_reasons is_home is

abbrev pub team_failures : Bool → VerifiedTeamLineupResult → List LineupReason
team_failures is_home r = if team_accepted r then [] else elim r.issues [
  | [] ↦ LineupReason.unexplained is_home ∷ []
  | i ∷ is ↦ issue_reasons is_home (i ∷ is)
]

abbrev pub lineup_failures : ℕ → VerifiedFixtureLineups → List LineupReason
lineup_failures fixture_id v =
    (if v.fixture_id == fixture_id then [] else LineupReason.wrong_fixture ∷ [])
    ++ team_failures true v.home
    ++ team_failures false v.away

abbrev pub decide : List LineupReason → LineupAdmissionDecision
decide [] = record { approved = true; reasons = LineupReason.all_verified ∷ [] }
decide (w ∷ ws) = record { approved = false; reasons = w ∷ ws }

abbrev pub judge_lineups : ℕ → Option VerifiedFixtureLineups → LineupAdmissionDecision
judge_lineups fixture_id none = record { approved = false; reasons = LineupReason.no_result ∷ [] }
judge_lineups fixture_id (some v) = decide (lineup_failures fixture_id v)

unfoldable pub admit : LineupAdmissionInput → LineupAdmissionDecision
admit i =
    if not (requires_confirmed_lineups i.stage)
    then record { approved = true; reasons = LineupReason.not_required ∷ [] }
    else judge_lineups i.fixture_id i.lineups
