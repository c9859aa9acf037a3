-- ===== src/Settlement/Plan.antt =====
-- app/services/settlement.py, the first part of `SettlementService.settle_all`, which only reads:
-- the candidates, the state of each fixture, the VOID evidence, and what is deferred.
pub mod Found
pub mod Asked
use football_agent.Prelude.{
  ℕ, ◌+◌, String, List, [], ◌∷◌, ◌++◌, Bool, true, false, ◌&&◌, ◌||◌, not, Option, none, some,
  is_some, ◌==◌, if◌then◌else◌, str_eq, str_append, any,
}
use football_agent.Prelude.Dict.{Dict, lookup, insert}
use football_agent.Domain.Entities.{Fixture, ProviderFixture, ValueBet}
use football_agent.Settlement.State.{
  FixtureLifecycle, AuthoritativeSettlementState, lifecycle_value, can_settle, takes_void_evidence,
  unsettled, authoritative_state,
}
use football_agent.Settlement.Evidence.{
  AuthoritativeVoidEvidence, Outcome, ok, raised, validate_void_evidence,
}
use football_agent.Settlement.Ports.{Ports}

abbrev pub Candidate : Type 0 → Type 0 → Type 0
Candidate D F = ValueBet D F × Fixture

-- The candidates in their order, and `fixtures_by_id`.
abbrev pub Gathered : Type 0 → Type 0 → Type 0
Gathered D F = List (Candidate D F) × Dict Fixture

abbrev is_api_football : Option String → Bool
is_api_football none = false
is_api_football (some s) = str_eq s "api-football"

abbrev pub lacks_identity : Fixture → String → Bool
lacks_identity fixture external =
    not (is_api_football fixture.external_source) || str_eq external ""

abbrev pub no_identity : AuthoritativeSettlementState × ℕ
no_identity = (unsettled FixtureLifecycle.unknown "missing API-Football fixture identity", 0)

abbrev pub refreshed_from :
    Fixture → Outcome (Option ProviderFixture) → Outcome (AuthoritativeSettlementState × ℕ)
refreshed_from fixture (raised e) = raised e
refreshed_from fixture (ok refreshed) = ok (authoritative_state fixture refreshed, 1)

abbrev reason_or_lifecycle : AuthoritativeSettlementState → String
reason_or_lifecycle state = elim state.reason [
  | none ↦ lifecycle_value state.lifecycle
  | some why ↦ if str_eq why "" then lifecycle_value state.lifecycle else why
]

module _ {D F : Type 0} where
  abbrev add_candidate : ValueBet D F → Fixture → Gathered D F → Gathered D F
  add_candidate bet fixture (cs, ds) = (cs ++ ((bet, fixture) ∷ []), ds)

  -- The fixture of a bet: the one that was fetched already, or a new one, which is kept.
  abbrev pub with_fixture :
      ValueBet D F → Option Fixture → Option Fixture → Gathered D F → Gathered D F
  with_fixture bet (some known) fetched acc = add_candidate bet known acc
  with_fixture bet none none acc = acc
  with_fixture bet none (some fixture) (cs, ds) =
      add_candidate bet fixture (cs, insert fixture.id fixture ds)

  abbrev pub gather_bet : Ports D F → Option (ValueBet D F) → Gathered D F → Gathered D F
  gather_bet ports none acc = acc
  gather_bet ports (some bet) acc =
      with_fixture bet (lookup bet.fixture_id acc.1) (ports.get_fixture bet.fixture_id) acc

  -- The loop over the unsettled bets; what is missing is passed over.
  unfoldable pub gather : Ports D F → List ℕ → Gathered D F → Gathered D F
  gather ports [] acc = acc
  gather ports (i ∷ ids) acc = gather ports ids (gather_bet ports (ports.get_value_bet i) acc)

  abbrev pub external_state :
      Ports D F → Fixture → Option String → Outcome (AuthoritativeSettlementState × ℕ)
  external_state ports fixture none = ok no_identity
  external_state ports fixture (some external) =
      if lacks_identity fixture external
      then ok no_identity
      else refreshed_from fixture (ports.provider_fixture external)

  -- The state of one fixture, and the provider requests that it took.
  unfoldable pub fixture_state : Ports D F → Fixture → Outcome (AuthoritativeSettlementState × ℕ)
  fixture_state ports fixture = external_state ports fixture fixture.external_id

  unfoldable pub refresh_states :
      Ports D F
      → Dict Fixture
      → Dict AuthoritativeSettlementState
      → ℕ
      → Outcome (Dict AuthoritativeSettlementState × ℕ)
  refresh_states ports [] states requests = ok (states, requests)
  refresh_states ports ((_, fixture) ∷ rest) states requests = elim (fixture_state ports fixture) [
    | raised e ↦ raised e
    | ok (state, asked) ↦
        refresh_states ports rest (insert fixture.id state states) (requests + asked)
  ]

  -- Asks for the evidence of one bet, and checks what is given.
  abbrev pub asked_evidence :
      Outcome (Option AuthoritativeVoidEvidence)
      → ValueBet D F
      → Fixture
      → Dict AuthoritativeVoidEvidence
      → Outcome (Dict AuthoritativeVoidEvidence)
  asked_evidence (raised e) bet fixture found = raised e
  asked_evidence (ok none) bet fixture found = ok found
  asked_evidence (ok (some e)) bet fixture found = elim (validate_void_evidence e bet fixture) [
    | raised why ↦ raised why
    | ok _ ↦ ok (insert bet.id e found)
  ]

  -- `states[fixture.id]` raises KeyError on a missing key.
  abbrev pub evidence_for :
      (ValueBet D F → Fixture → FixtureLifecycle → Outcome (Option AuthoritativeVoidEvidence))
      → Option AuthoritativeSettlementState
      → Candidate D F
      → Dict AuthoritativeVoidEvidence
      → Outcome (Dict AuthoritativeVoidEvidence)
  evidence_for ask none c found = raised "KeyError"
  evidence_for ask (some state) (bet, fixture) found =
      if can_settle state || not (takes_void_evidence state.lifecycle)
      then ok found
      else asked_evidence (ask bet fixture state.lifecycle) bet fixture found

  unfoldable pub collect_evidence :
      (ValueBet D F → Fixture → FixtureLifecycle → Outcome (Option AuthoritativeVoidEvidence))
      → Dict AuthoritativeSettlementState
      → List (Candidate D F)
      → Dict AuthoritativeVoidEvidence
      → Outcome (Dict AuthoritativeVoidEvidence)
  collect_evidence ask states [] found = ok found
  collect_evidence ask states (c ∷ cs) found =
      elim (evidence_for ask (lookup c.1.id states) c found) [
        | raised e ↦ raised e
        | ok found' ↦ collect_evidence ask states cs found'
      ]

  -- With no evidence provider there is no evidence.
  unfoldable pub void_evidence_of :
      Ports D F
      → Dict AuthoritativeSettlementState
      → List (Candidate D F)
      → Outcome (Dict AuthoritativeVoidEvidence)
  void_evidence_of ports states cs = elim ports.void_evidence [
    | none ↦ ok []
    | some ask ↦ collect_evidence ask states cs []
  ]

  -- Fixtures that cannot settle and have a candidate without evidence. The key is the text of the
  -- fixture's id.
  unfoldable pub deferred_of :
      Dict AuthoritativeSettlementState
      → List (Candidate D F)
      → Dict AuthoritativeVoidEvidence
      → Dict String
      → Dict String
  deferred_of [] cs found acc = acc
  deferred_of ((k, state) ∷ rest) cs found acc = deferred_of rest cs found (
      if can_settle state || not (any (λ c. c.1.id == k && not (is_some (lookup c.0.id found))) cs)
      then acc
      else insert k (reason_or_lifecycle state) acc)
