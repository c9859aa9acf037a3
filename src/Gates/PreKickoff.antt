-- ===== src/Gates/PreKickoff.antt =====
-- app/models/value_objects/pre_kickoff.py, app/services/pre_kickoff_state_resolver.py and
-- app/services/pre_kickoff_checkpoint_resolver.py. Times are counted in microseconds, and
-- `a >= b - timedelta` is tested as `b <= a + timedelta`.
pub mod Resolved
use football_agent.Prelude.{
  ℕ, String, Bool, true, false, ◌&&◌, ◌||◌, Option, none, some, is_some, not, List, [], ◌∷◌, ◌++◌,
  ◌+◌, ◌-◌, ◌*◌, ltb, leb, any, if◌then◌else◌, str_eq, str_append,
}
use football_agent.Prelude.Number.{Number, nought}
use football_agent.Domain.Entities.{Instant}
use football_agent.Settlement.Evidence.{Outcome, ok, raised}

pub data PreKickoffCheckpoint : Type 0 where
  t90 t60 t30 post_t30 : PreKickoffCheckpoint

pub data PreKickoffState : Type 0 where
  insufficient_history waiting_for_lineup odds_missing watch final_no_bet bet : PreKickoffState

pub record PreKickoffSnapshot (F : Type 0) : Type 0 where
  pub checkpoint : PreKickoffCheckpoint
  pub historical_data_sufficient : Bool
  pub lineup_available : Bool
  pub odds_available : Bool
  pub model_probability_available : Bool
  pub expected_value : Option F
  pub confidence : Option F
  pub gate_passed : Bool
  pub risk_passed : Bool
  pub kickoff_time : Instant
  pub current_time : Instant
  pub previous_state : Option PreKickoffState

pub record PreKickoffThresholds (F : Type 0) : Type 0 where
  pub min_expected_value : F
  pub min_confidence : F

abbrev pub minutes : ℕ → ℕ
minutes n = n * 60000000

abbrev pub at_t30 : PreKickoffCheckpoint → Bool
at_t30 PreKickoffCheckpoint.t30 = true
at_t30 PreKickoffCheckpoint.post_t30 = true
at_t30 _ = false

abbrev pub final_checkpoint_reached : {F : Type 0} → PreKickoffSnapshot F → Bool
final_checkpoint_reached s =
    at_t30 s.checkpoint || leb s.kickoff_time.tick (s.current_time.tick + minutes 30)

module _ {F : Type 0} ⦃f : Number F⦄ where
  abbrev pub in_unit : F → Bool
  in_unit c = f.le nought c && f.le c (f.of_nat 1)

  -- `math.isfinite` is a parameter of the two constructors.
  abbrev pub make_thresholds : (F → Bool) → PreKickoffThresholds F → Option (PreKickoffThresholds F)
  make_thresholds is_finite t =
      if not (is_finite t.min_expected_value)
      then none
      else if not (is_finite t.min_confidence) || not (in_unit t.min_confidence)
      then none
      else some t

  abbrev pub bad_value : (F → Bool) → Option F → Bool
  bad_value is_finite none = false
  bad_value is_finite (some v) = not (is_finite v)

  abbrev pub bad_confidence : (F → Bool) → Option F → Bool
  bad_confidence is_finite none = false
  bad_confidence is_finite (some v) = not (is_finite v) || not (in_unit v)

  unfoldable pub make_snapshot : (F → Bool) → PreKickoffSnapshot F → Option (PreKickoffSnapshot F)
  make_snapshot is_finite s =
      if not s.kickoff_time.aware || not s.current_time.aware
      then none
      else if bad_value is_finite s.expected_value
      then none
      else if bad_confidence is_finite s.confidence
      then none
      else some s

  abbrev pub production_rules_pass : PreKickoffThresholds F → PreKickoffSnapshot F → F → F → Bool
  production_rules_pass t s value confidence =
      f.le t.min_expected_value value
      && f.le t.min_confidence confidence
      && s.gate_passed
      && s.risk_passed

  abbrev pub resolve_values :
      PreKickoffThresholds F → PreKickoffSnapshot F → F → F → PreKickoffState
  resolve_values t s value confidence =
      if production_rules_pass t s value confidence
      then PreKickoffState.bet
      else if final_checkpoint_reached s
      then PreKickoffState.final_no_bet
      else PreKickoffState.watch

  abbrev pub resolve_complete :
      PreKickoffThresholds F → PreKickoffSnapshot F → Option F → Option F → PreKickoffState
  resolve_complete t s none confidence = PreKickoffState.watch
  resolve_complete t s (some value) none = PreKickoffState.watch
  resolve_complete t s (some value) (some confidence) =
      if not s.model_probability_available
      then PreKickoffState.watch
      else resolve_values t s value confidence

  unfoldable pub resolve_state : PreKickoffThresholds F → PreKickoffSnapshot F → PreKickoffState
  resolve_state t s =
      if not s.historical_data_sufficient
      then PreKickoffState.insufficient_history
      else if not s.lineup_available
      then PreKickoffState.waiting_for_lineup
      else if not s.odds_available
      then PreKickoffState.odds_missing
      else resolve_complete t s s.expected_value s.confidence

-- `_CHECKPOINT_KEY_LABELS`; the text of a fixture's UUID is a parameter.
abbrev pub key_label : PreKickoffCheckpoint → Option String
key_label PreKickoffCheckpoint.t90 = some "T-90"
key_label PreKickoffCheckpoint.t60 = some "T-60"
key_label PreKickoffCheckpoint.t30 = some "T-30"
key_label PreKickoffCheckpoint.post_t30 = none

abbrev pub key_of : String → Option String → Outcome String
key_of fixture_id none = raised "unsupported checkpoint"
key_of fixture_id (some label) = ok (str_append fixture_id (str_append ":" label))

abbrev pub checkpoint_idempotency_key : String → PreKickoffCheckpoint → Outcome String
checkpoint_idempotency_key fixture_id checkpoint = key_of fixture_id (key_label checkpoint)

abbrev pub same_checkpoint : PreKickoffCheckpoint → PreKickoffCheckpoint → Bool
same_checkpoint PreKickoffCheckpoint.t90 PreKickoffCheckpoint.t90 = true
same_checkpoint PreKickoffCheckpoint.t60 PreKickoffCheckpoint.t60 = true
same_checkpoint PreKickoffCheckpoint.t30 PreKickoffCheckpoint.t30 = true
same_checkpoint PreKickoffCheckpoint.post_t30 PreKickoffCheckpoint.post_t30 = true
same_checkpoint _ _ = false

abbrev pub is_completed : List PreKickoffCheckpoint → PreKickoffCheckpoint → Bool
is_completed done c = any (λ d. same_checkpoint c d) done

abbrev pub has_key : Outcome String → List String → Bool
has_key (raised e) keys = false
has_key (ok key) keys = any (λ k. str_eq key k) keys

abbrev pub if_completed : String → List String → PreKickoffCheckpoint → List PreKickoffCheckpoint
if_completed fixture_id keys c =
    if has_key (checkpoint_idempotency_key fixture_id c) keys then c ∷ [] else []

unfoldable pub completed_checkpoints : String → List String → List PreKickoffCheckpoint
completed_checkpoints fixture_id keys =
    if_completed fixture_id keys PreKickoffCheckpoint.t90
    ++ if_completed fixture_id keys PreKickoffCheckpoint.t60
    ++ if_completed fixture_id keys PreKickoffCheckpoint.t30

abbrev pub latest_checkpoint : ℕ → PreKickoffCheckpoint
latest_checkpoint remaining =
    if leb remaining (minutes 30)
    then PreKickoffCheckpoint.t30
    else if leb remaining (minutes 60)
    then PreKickoffCheckpoint.t60
    else PreKickoffCheckpoint.t90

unfoldable pub resolve_checkpoint :
    Instant → Instant → List PreKickoffCheckpoint → Outcome (Option PreKickoffCheckpoint)
resolve_checkpoint kickoff now completed =
    if not kickoff.aware || not now.aware
    then raised "kickoff_time and current_time must be timezone-aware"
    else if leb kickoff.tick now.tick || ltb (minutes 90) (kickoff.tick - now.tick)
    then ok none
    else let latest = latest_checkpoint (kickoff.tick - now.tick) in
      ok (if is_completed completed latest then none else some latest)
