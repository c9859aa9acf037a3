-- ===== src/Gates/PreKickoff/Resolved.antt =====
-- What the two resolvers decide.
use football_agent.Prelude.{
  ℕ, String, true, false, Option, none, some, not, List, ◌≡◌, ◌≢◌, ◌↔◌, if◌then◌else◌, refl, ◌≤◌,
  ◌<◌, ◌+◌, arith, any, str_eq,
}
use football_agent.Prelude.Number.{Number}
use football_agent.Domain.Entities.{Instant}
use football_agent.Settlement.Evidence.{ok}
use football_agent.Gates.PreKickoff.{
  PreKickoffCheckpoint, PreKickoffState, PreKickoffSnapshot, PreKickoffThresholds, minutes,
  resolve_state, resolve_complete, is_completed, completed_checkpoints, resolve_checkpoint,
  checkpoint_idempotency_key, has_key,
}

module _ {F : Type 0} ⦃f : Number F⦄ where
  abbrev pub IsComplete : PreKickoffSnapshot F → F → F → Type 0
  IsComplete s value confidence =
      (s.historical_data_sufficient ≡ true)
      × (s.lineup_available ≡ true)
      × (s.odds_available ≡ true)
      × (s.model_probability_available ≡ true)
      × (s.expected_value ≡ some value)
      × (s.confidence ≡ some confidence)

  -- What production asks of a bet on complete data.
  abbrev pub Passes : PreKickoffThresholds F → PreKickoffSnapshot F → F → F → Type 0
  Passes t s value confidence =
      (f.le t.min_expected_value value ≡ true)
      × (f.le t.min_confidence confidence ≡ true)
      × (s.gate_passed ≡ true)
      × (s.risk_passed ≡ true)

  -- The state is BET exactly when the data are complete, expected value and confidence reach
  -- their thresholds, and the gate and the risk check have passed, whatever the checkpoint.
  pub resolve_state_bet :
      (t : PreKickoffThresholds F) (s : PreKickoffSnapshot F)
      → (resolve_state t s ≡ PreKickoffState.bet) ↔ (
          (value : F) × (confidence : F) × IsComplete s value confidence
          × Passes t s value confidence)
  unfolding resolve_state
  resolve_state_bet t s = by_values s.expected_value s.confidence
    where
      by_values :
          (ev co : Option F)
          → ((if not s.historical_data_sufficient
                then PreKickoffState.insufficient_history
                else if not s.lineup_available
                then PreKickoffState.waiting_for_lineup
                else if not s.odds_available
                then PreKickoffState.odds_missing
                else resolve_complete t s ev co)
              ≡ PreKickoffState.bet)
            ↔ ((value : F) × (confidence : F) × ((s.historical_data_sufficient ≡ true)
                  × (s.lineup_available ≡ true)
                  × (s.odds_available ≡ true)
                  × (s.model_probability_available ≡ true)
                  × (ev ≡ some value)
                  × (co ≡ some confidence))
                × Passes t s value confidence)
      by_values none co = (λ h. ground arith, λ (v, c, k, p). ground arith)
      by_values (some v) none = (λ h. ground arith, λ (v', c, k, p). ground arith)
      by_values (some v) (some c) =
          (λ h. (v, c, ground arith, ground arith), λ (v', c', k, p). ground arith)

-- The half hour before kickoff in which a checkpoint is the latest.
abbrev pub IsLatest : PreKickoffCheckpoint → ℕ → ℕ → Type 0
IsLatest PreKickoffCheckpoint.t30 kickoff now = (now < kickoff) × (kickoff ≤ now + minutes 30)
IsLatest PreKickoffCheckpoint.t60 kickoff now =
    (now + minutes 30 < kickoff) × (kickoff ≤ now + minutes 60)
IsLatest PreKickoffCheckpoint.t90 kickoff now =
    (now + minutes 60 < kickoff) × (kickoff ≤ now + minutes 90)
IsLatest PreKickoffCheckpoint.post_t30 kickoff now = true ≡ false

-- For times with a zone a checkpoint is due exactly when its window holds the time left until
-- kickoff and it has not been completed.
pub resolve_checkpoint-IsLatest :
    (kickoff now : Instant) (done : List PreKickoffCheckpoint) (c : PreKickoffCheckpoint)
    → kickoff.aware ≡ true
    → now.aware ≡ true
    → (resolve_checkpoint kickoff now done ≡ ok (some c))
      ↔ (IsLatest c kickoff.tick now.tick × (is_completed done c ≡ false))
unfolding resolve_checkpoint
resolve_checkpoint-IsLatest kickoff now done PreKickoffCheckpoint.t90 h k = ground arith
resolve_checkpoint-IsLatest kickoff now done PreKickoffCheckpoint.t60 h k = ground arith
resolve_checkpoint-IsLatest kickoff now done PreKickoffCheckpoint.t30 h k = ground arith
resolve_checkpoint-IsLatest kickoff now done PreKickoffCheckpoint.post_t30 h k = ground arith

due-fresh :
    (kickoff now : Instant) (done : List PreKickoffCheckpoint) (c : PreKickoffCheckpoint)
    → resolve_checkpoint kickoff now done ≡ ok (some c)
    → is_completed done c ≡ false
unfolding resolve_checkpoint
due-fresh kickoff now done c h = ground arith

recorded-completed :
    (fixture_id : String) (keys : List String) (c : PreKickoffCheckpoint)
    → has_key (checkpoint_idempotency_key fixture_id c) keys ≡ true
    → is_completed (completed_checkpoints fixture_id keys) c ≡ true
unfolding completed_checkpoints
recorded-completed fixture_id keys PreKickoffCheckpoint.t90 h = rw h refl
recorded-completed fixture_id keys PreKickoffCheckpoint.t60 h = rw h (ground arith)
recorded-completed fixture_id keys PreKickoffCheckpoint.t30 h = rw h (ground arith)
recorded-completed fixture_id keys PreKickoffCheckpoint.post_t30 h = absurd (cc h)

-- A checkpoint whose key is stored for the fixture is never due for it again, at any time.
pub recorded_never_due :
    (fixture_id key : String) (keys : List String) (c : PreKickoffCheckpoint)
    → checkpoint_idempotency_key fixture_id c ≡ ok key
    → any (λ k. str_eq key k) keys ≡ true
    → (kickoff now : Instant)
    → resolve_checkpoint kickoff now (completed_checkpoints fixture_id keys) ≢ ok (some c)
recorded_never_due fixture_id key keys c h k kickoff now due =
    let fresh = due-fresh kickoff now (completed_checkpoints fixture_id keys) c due in
    let there = recorded-completed fixture_id keys c (rw h k) in absurd (cc (fresh, there))
