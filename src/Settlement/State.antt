-- ===== src/Settlement/State.antt =====
-- app/services/settlement.py: the lifecycle of a fixture as the feed reports it, and the
-- authoritative state from which bets are settled.
pub mod Final
use football_agent.Prelude.{
  ℕ, String, List, [], ◌∷◌, Bool, true, false, ◌&&◌, ◌||◌, Option, none, some, is_some, not, ◌≡◌,
  if◌then◌else◌, str_eq, opt_str_eq, str_append, strip, upper, codes, code_eq, code_in,
}
use football_agent.Prelude.Int.{ℤ}
use football_agent.Domain.Score.{Score, make_score}
use football_agent.Domain.Entities.{Fixture, ProviderFixture}

pub data FixtureLifecycle : Type 0 where
  not_started live interrupted ft aet pen : FixtureLifecycle
  postponed cancelled abandoned awarded_walkover unknown : FixtureLifecycle

-- `lifecycle.value`
abbrev pub lifecycle_value : FixtureLifecycle → String
lifecycle_value FixtureLifecycle.not_started = "NOT_STARTED"
lifecycle_value FixtureLifecycle.live = "LIVE"
lifecycle_value FixtureLifecycle.interrupted = "INTERRUPTED"
lifecycle_value FixtureLifecycle.ft = "FT"
lifecycle_value FixtureLifecycle.aet = "AET"
lifecycle_value FixtureLifecycle.pen = "PEN"
lifecycle_value FixtureLifecycle.postponed = "POSTPONED"
lifecycle_value FixtureLifecycle.cancelled = "CANCELLED"
lifecycle_value FixtureLifecycle.abandoned = "ABANDONED"
lifecycle_value FixtureLifecycle.awarded_walkover = "AWARDED_WALKOVER"
lifecycle_value FixtureLifecycle.unknown = "UNKNOWN"

pub record AuthoritativeSettlementState : Type 0 where
  pub lifecycle : FixtureLifecycle
  pub regulation_score : Option Score
  pub score_basis : Option String
  pub reason : Option String

-- `lifecycle in {FT, AET, PEN}`
abbrev pub is_final : FixtureLifecycle → Bool
is_final FixtureLifecycle.ft = true
is_final FixtureLifecycle.aet = true
is_final FixtureLifecycle.pen = true
is_final _ = false

abbrev pub is_ft : FixtureLifecycle → Bool
is_ft FixtureLifecycle.ft = true
is_ft _ = false

abbrev pub can_settle : AuthoritativeSettlementState → Bool
can_settle s = is_final s.lifecycle && is_some s.regulation_score

-- `lifecycle in _VOID_EVIDENCE_LIFECYCLES`
abbrev pub takes_void_evidence : FixtureLifecycle → Bool
takes_void_evidence FixtureLifecycle.interrupted = true
takes_void_evidence FixtureLifecycle.postponed = true
takes_void_evidence FixtureLifecycle.cancelled = true
takes_void_evidence FixtureLifecycle.abandoned = true
takes_void_evidence FixtureLifecycle.awarded_walkover = true
takes_void_evidence FixtureLifecycle.unknown = true
takes_void_evidence _ = false

-- The lifecycle of a status in upper case, with no white space at its ends.
status_lifecycle : List ℕ → FixtureLifecycle
status_lifecycle status =
    if code_in status ("TBD" ∷ "NS" ∷ [])
    then FixtureLifecycle.not_started
    else if code_in status ("1H" ∷ "HT" ∷ "2H" ∷ "ET" ∷ "BT" ∷ "P" ∷ "LIVE" ∷ [])
    then FixtureLifecycle.live
    else if code_in status ("SUSP" ∷ "INT" ∷ [])
    then FixtureLifecycle.interrupted
    else if code_eq status (codes "FT")
    then FixtureLifecycle.ft
    else if code_eq status (codes "AET")
    then FixtureLifecycle.aet
    else if code_eq status (codes "PEN")
    then FixtureLifecycle.pen
    else if code_eq status (codes "PST")
    then FixtureLifecycle.postponed
    else if code_eq status (codes "CANC")
    then FixtureLifecycle.cancelled
    else if code_eq status (codes "ABD")
    then FixtureLifecycle.abandoned
    else if code_in status ("AWD" ∷ "WO" ∷ [])
    then FixtureLifecycle.awarded_walkover
    else FixtureLifecycle.unknown

unfoldable pub lifecycle_of : String → FixtureLifecycle
unfolding status_lifecycle
lifecycle_of raw_status = status_lifecycle (upper (strip raw_status))

-- `_score_pair`: a score only when both counts are there and neither is negative.
unfoldable pub score_pair : Option ℤ → Option ℤ → Option Score
score_pair none _ = none
score_pair (some _) none = none
score_pair (some h) (some a) = make_score h a

abbrev pub unsettled : FixtureLifecycle → String → AuthoritativeSettlementState
unsettled l why = record {
  lifecycle = l;
  regulation_score = none;
  score_basis = none;
  reason = some why;
}

abbrev settled_by : FixtureLifecycle → Score → String → AuthoritativeSettlementState
settled_by l s basis = record {
  lifecycle = l;
  regulation_score = some s;
  score_basis = some basis;
  reason = none;
}

-- The aggregate goals, which are regulation-time goals only for a plain FT fixture.
abbrev from_aggregate : FixtureLifecycle → Option Score → AuthoritativeSettlementState
from_aggregate l none = unsettled l "authoritative regulation-time score unavailable"
from_aggregate l (some s) = settled_by l s "provider.goals"

abbrev from_scores : FixtureLifecycle → Option Score → Option Score → AuthoritativeSettlementState
from_scores l (some s) _ = settled_by l s "provider.score.fulltime"
from_scores l none aggregate = from_aggregate l (if is_ft l then aggregate else none)

-- `_authoritative_state` for a fixture that the provider returned.
unfoldable pub refreshed_state : Fixture → ProviderFixture → AuthoritativeSettlementState
refreshed_state fixture refreshed =
    if not (opt_str_eq (some refreshed.provider_id) fixture.external_id)
    then unsettled FixtureLifecycle.unknown "provider fixture identity mismatch"
    else let l = lifecycle_of refreshed.status in
      if not (is_final l)
      then unsettled l
          (str_append (str_append "fixture lifecycle " (lifecycle_value l)) " is not settleable")
      else from_scores l
          (score_pair refreshed.regulation_home_score refreshed.regulation_away_score)
          (score_pair refreshed.home_score refreshed.away_score)

unfoldable pub authoritative_state : Fixture → Option ProviderFixture → AuthoritativeSettlementState
authoritative_state fixture none = unsettled FixtureLifecycle.unknown "provider fixture missing"
authoritative_state fixture (some refreshed) = refreshed_state fixture refreshed
