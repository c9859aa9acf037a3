-- ===== src/Gates/Tests.antt =====
-- The gates on concrete inputs.
use football_agent.Prelude.{
  ℕ, String, Bool, true, false, none, some, List, [], ◌∷◌, ◌≡◌, ◌≢◌, refl, arith, ◌↔◌, ◌==◌,
  if◌then◌else◌, map,
}
use football_agent.Prelude.Int.{ℤ, pos}
use football_agent.Prelude.Number.{int_number, int-IsOrdered}
use football_agent.Domain.Entities.{Instant, Fixture, MatchStatus}
use football_agent.Settlement.Evidence.{ok}
use football_agent.Gates.Recommendation.{
  GateInput, GateReason, EvidenceLevel, RiskLevel, default_thresholds, evaluate, evaluate-Meets,
  evaluate_conflict,
}
use football_agent.Gates.Daily.{CandidateEvaluation, select, ranked}
use football_agent.Gates.Daily.Ranked.{IsSelection, select-IsSelection}
use football_agent.Gates.Lineup.Entity.{
  Lineup, LineupStatus, make_lineup, IsLineup, make_lineup-IsLineup,
}
use football_agent.Gates.Lineup.{
  VerifiedLineupPolicy, VerifiedFixtureLineups, LineupRepository, AnalysisStage, verify, admit,
}
use football_agent.Gates.Lineup.Admission.{HasSound, verify-admit-IsSound}
use football_agent.Gates.PreKickoff.{
  PreKickoffCheckpoint, PreKickoffState, PreKickoffSnapshot, PreKickoffThresholds, resolve_state,
  resolve_checkpoint, completed_checkpoints, minutes,
}
use football_agent.Gates.PreKickoff.Resolved.{
  resolve_state_bet, resolve_checkpoint-IsLatest, recorded_never_due,
}

abbrev good_bet : GateInput ℤ
good_bet = record {
  decision_score = pos 90;
  expected_value = pos 2;
  data_completeness = pos 95;
  evidence_level = EvidenceLevel.b;
  risk_level = RiskLevel.medium;
}

abbrev risky_bet : GateInput ℤ
risky_bet = record good_bet { risk_level = RiskLevel.high }

evaluate-Meets_example : (evaluate default_thresholds good_bet).approved ≡ true
evaluate-Meets_example =
    (evaluate-Meets default_thresholds good_bet).1 (refl, refl, refl, refl, λ h. absurd (cc h))

evaluate_conflict_example :
    (evaluate default_thresholds risky_bet).reasons
    ≡ GateReason.high_risk ∷ GateReason.conflict ∷ []
evaluate_conflict_example =
    (evaluate_conflict default_thresholds risky_bet).1
      (refl, (refl, refl, refl, refl, λ h. absurd (cc h)))

abbrev candidate : String → ℤ → Bool → CandidateEvaluation ℤ
candidate label value approved = record {
  label = label;
  gate_input = record good_bet { expected_value = value };
  gate_decision = record { approved = approved; reasons = GateReason.all_met ∷ [] };
}

abbrev day : List (CandidateEvaluation ℤ)
day =
    candidate "a" (pos 1) true
    ∷ candidate "b" (pos 9) false
    ∷ candidate "c" (pos 3) true
    ∷ candidate "d" (pos 1) true
    ∷ []

select-IsSelection_example : IsSelection 2 day (select 2 day)
select-IsSelection_example = select-IsSelection int-IsOrdered 2 day

selected_labels : map (λ c. c.label) (select 2 day).selected ≡ "c" ∷ "a" ∷ []
unfolding select ranked
selected_labels = refl

abbrev at : ℕ → Instant
at n = record { tick = n; aware = true }

abbrev eleven : ℕ → ℕ → Lineup
eleven team first = record {
  fixture_id = 7;
  team_id = team;
  status = LineupStatus.confirmed;
  source_name = "api-football";
  source_evidence = EvidenceLevel.a;
  starting = 1 ∷ 2 ∷ 3 ∷ 4 ∷ 5 ∷ 6 ∷ 7 ∷ 8 ∷ 9 ∷ 10 ∷ first ∷ [];
  substitutes = 20 ∷ 21 ∷ [];
  captured_at = at 50;
  source_updated_at = none;
}

eleven_made : make_lineup (eleven 1 11) ≡ some (eleven 1 11)
unfolding make_lineup
eleven_made = refl

make_lineup-IsLineup_example : IsLineup (eleven 1 11)
make_lineup-IsLineup_example = make_lineup-IsLineup (eleven 1 11) (eleven 1 11) eleven_made

abbrev policy : VerifiedLineupPolicy
policy = record { source = "api-football"; minimum_evidence = EvidenceLevel.b }

abbrev home_only : LineupRepository
home_only fixture_id team source as_of = if team == 1 then some (eleven 1 11) else none

abbrev game : Fixture
game = record {
  id = 7;
  home_team_id = 1;
  away_team_id = 2;
  kickoff = at 100;
  status = MatchStatus.scheduled;
  score = none;
  external_id = none;
  external_source = none;
}

verify-admit-IsSound_example :
    (v : VerifiedFixtureLineups) × (verify home_only policy game (at 60) ≡ ok v)
    × (((admit (record { fixture_id = 7; stage = AnalysisStage.final; lineups = some v })).approved
          ≡ true)
        ↔ (HasSound policy 7 1 (at 60) (some (eleven 1 11)) × HasSound policy 7 2 (at 60) none))
verify-admit-IsSound_example =
    verify-admit-IsSound home_only policy game (at 60) AnalysisStage.final refl refl

abbrev thresholds : PreKickoffThresholds ℤ
thresholds = record { min_expected_value = pos 1; min_confidence = pos 0 }

abbrev snapshot : PreKickoffSnapshot ℤ
snapshot = record {
  checkpoint = PreKickoffCheckpoint.t60;
  historical_data_sufficient = true;
  lineup_available = true;
  odds_available = true;
  model_probability_available = true;
  expected_value = some (pos 2);
  confidence = some (pos 1);
  gate_passed = true;
  risk_passed = true;
  kickoff_time = at (minutes 100);
  current_time = at (minutes 50);
  previous_state = none;
}

resolve_state_bet_example : resolve_state thresholds snapshot ≡ PreKickoffState.bet
resolve_state_bet_example =
    (resolve_state_bet thresholds snapshot).1
      (pos 2, pos 1, (refl, refl, refl, refl, refl, refl), (refl, refl, refl, refl))

resolve_checkpoint-IsLatest_example :
    resolve_checkpoint (at (minutes 100)) (at (minutes 50)) (PreKickoffCheckpoint.t90 ∷ [])
    ≡ ok (some PreKickoffCheckpoint.t60)
resolve_checkpoint-IsLatest_example =
    (resolve_checkpoint-IsLatest (at (minutes 100)) (at (minutes 50))
        (PreKickoffCheckpoint.t90 ∷ []) PreKickoffCheckpoint.t60 refl refl).1
      ((omega arith, omega arith), refl)

recorded_never_due_example :
    resolve_checkpoint
      (at (minutes 100))
      (at (minutes 50))
      (completed_checkpoints "f" ("f:T-60" ∷ []))
    ≢ ok (some PreKickoffCheckpoint.t60)
recorded_never_due_example =
    recorded_never_due "f" "f:T-60" ("f:T-60" ∷ []) PreKickoffCheckpoint.t60 refl refl
      (at (minutes 100)) (at (minutes 50))
