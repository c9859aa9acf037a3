-- ===== src/Settlement/Plan/Asked.antt =====
-- What the collected VOID evidence is, and when reading raises no exception.
use football_agent.Prelude.{
  ℕ, ◌+◌, String, List, [], ◌∷◌, Bool, true, false, ◌||◌, not, ◌≡◌, refl, Option, none, some,
  is_some, All, if◌then◌else◌,
}
use football_agent.Prelude.Dict.{Dict, lookup, insert, All-insert}
use football_agent.Domain.Entities.{Fixture, ProviderFixture, ValueBet}
use football_agent.Settlement.State.{
  FixtureLifecycle, AuthoritativeSettlementState, can_settle, takes_void_evidence,
}
use football_agent.Settlement.Evidence.{
  AuthoritativeVoidEvidence, Outcome, ok, raised, IsEvidence, validate_void_evidence,
}
use football_agent.Settlement.Ports.{Ports}
use football_agent.Settlement.Plan.{
  Candidate, fixture_state, external_state, refreshed_from, no_identity, lacks_identity,
  refresh_states, asked_evidence, evidence_for, collect_evidence, void_evidence_of,
}

-- An answer of the evidence provider that is of use: nothing, or constructed evidence for this
-- very bet.
abbrev pub IsFitting :
    {D F : Type 0} → ValueBet D F → Fixture → Outcome (Option AuthoritativeVoidEvidence) → Type 0
IsFitting bet fixture (raised e) = ⊥
IsFitting bet fixture (ok none) = Unit
IsFitting bet fixture (ok (some e)) = IsEvidence e × (validate_void_evidence e bet fixture ≡ ok tt)

-- The result of a step of the reading that does not raise.
abbrev pub Gives {ℓ} : {A : Type ℓ} → (A → Type 0) → Outcome A → Type 0
Gives P (raised e) = ⊥
Gives P (ok a) = P a

Gives-if {ℓ} :
    {A : Type ℓ} (P : A → Type 0) (b : Bool) (x y : Outcome A)
    → Gives P x
    → Gives P y
    → Gives P (if b then x else y)
Gives-if P true x y h k = h
Gives-if P false x y h k = k

Gives-elim {ℓ κ} :
    {A : Type ℓ} {B : Type κ} (P : A → Type 0) (Q : B → Type 0) (o : Outcome A)
    (rest : A → Outcome B)
    → Gives P o
    → ((a : A) → P a → Gives Q (rest a))
    → Gives Q (elim o [ raised e ↦ raised e | ok a ↦ rest a ])
Gives-elim P Q (ok a) rest h k = k a h
Gives-elim P Q (raised e) rest h k = absurd h

abbrev pub AllEvidence : Dict AuthoritativeVoidEvidence → Type 0
AllEvidence = All (λ e. IsEvidence e.1)

refreshed_from-Gives :
    (fixture : Fixture) (o : Outcome (Option ProviderFixture))
    → Gives (λ _. Unit {0}) o
    → Gives (λ _. Unit {0}) (refreshed_from fixture o)
refreshed_from-Gives fixture (raised e) h = absurd h
refreshed_from-Gives fixture (ok r) h = tt

module _ {D F : Type 0} where
  asked_evidence-Gives :
      (o : Outcome (Option AuthoritativeVoidEvidence)) (bet : ValueBet D F) (fixture : Fixture)
      (found : Dict AuthoritativeVoidEvidence)
      → IsFitting bet fixture o
      → AllEvidence found
      → Gives AllEvidence (asked_evidence o bet fixture found)
  asked_evidence-Gives (raised e) bet fixture found fit h = absurd fit
  asked_evidence-Gives (ok none) bet fixture found fit h = h
  asked_evidence-Gives (ok (some e)) bet fixture found fit h =
      rw (fit.1, Gives) (All-insert (λ e. IsEvidence e.1) bet.id e found h fit.0)

  module _
      (ask : ValueBet D F → Fixture → FixtureLifecycle → Outcome (Option AuthoritativeVoidEvidence))
      (fits : (bet : ValueBet D F) (fixture : Fixture) (l : FixtureLifecycle)
        → IsFitting bet fixture (ask bet fixture l)) where
    evidence_for-Gives :
        (o : Option AuthoritativeSettlementState) (c : Candidate D F)
        (found : Dict AuthoritativeVoidEvidence)
        → is_some o ≡ true
        → AllEvidence found
        → Gives AllEvidence (evidence_for ask o c found)
    evidence_for-Gives none c found k h = absurd (cc k)
    evidence_for-Gives (some state) (bet, fixture) found k h =
        Gives-if AllEvidence (can_settle state || not (takes_void_evidence state.lifecycle))
          (ok found) (asked_evidence (ask bet fixture state.lifecycle) bet fixture found) h
          (asked_evidence-Gives (ask bet fixture state.lifecycle) bet fixture found
            (fits bet fixture state.lifecycle) h)

    collect_evidence-Gives :
        (states : Dict AuthoritativeSettlementState) (cs : List (Candidate D F))
        (found : Dict AuthoritativeVoidEvidence)
        → All (λ c. is_some (lookup c.1.id states) ≡ true) cs
        → AllEvidence found
        → Gives AllEvidence (collect_evidence ask states cs found)
    unfolding collect_evidence
    collect_evidence-Gives states [] found k h = h
    collect_evidence-Gives states (c ∷ cs) found k h =
        Gives-elim AllEvidence AllEvidence (evidence_for ask (lookup c.1.id states) c found)
          (λ found'. collect_evidence ask states cs found')
          (evidence_for-Gives (lookup c.1.id states) c found k.0 h)
          (λ found' h'. collect_evidence-Gives states cs found' k.1 h')

  -- What the service relies on: the feed answers, and the evidence provider gives nothing or
  -- evidence for the bet that it is asked about.
  pub record IsAnswering (ports : Ports D F) : Type 0 where
    pub feed : (x : String) → Gives (λ _. Unit {0}) (ports.provider_fixture x)
    pub fits :
        (ask : ValueBet D F
          → Fixture
          → FixtureLifecycle
          → Outcome (Option AuthoritativeVoidEvidence))
        → ports.void_evidence ≡ some ask
        → (bet : ValueBet D F) (fixture : Fixture) (l : FixtureLifecycle)
        → IsFitting bet fixture (ask bet fixture l)

  pub void_evidence_of-Gives :
      (ports : Ports D F)
      → IsAnswering ports
      → (states : Dict AuthoritativeSettlementState) (cs : List (Candidate D F))
      → All (λ c. is_some (lookup c.1.id states) ≡ true) cs
      → Gives AllEvidence (void_evidence_of ports states cs)
  unfolding void_evidence_of
  void_evidence_of-Gives ports a states cs k = by_provider ports.void_evidence refl
    where
      by_provider :
          (o : Option (
            ValueBet D F → Fixture → FixtureLifecycle → Outcome (Option AuthoritativeVoidEvidence)))
          → ports.void_evidence ≡ o
          → Gives AllEvidence
              (elim o [ none ↦ ok [] | some ask ↦ collect_evidence ask states cs [] ])
      by_provider none e = tt
      by_provider (some ask) e = collect_evidence-Gives ask (a.fits ask e) states cs [] k tt

  fixture_state-Gives :
      (ports : Ports D F)
      → IsAnswering ports
      → (fixture : Fixture) → Gives (λ _. Unit {0}) (fixture_state ports fixture)
  unfolding fixture_state
  fixture_state-Gives ports a fixture = by_identity fixture.external_id
    where
      by_identity : (o : Option String) → Gives (λ _. Unit {0}) (external_state ports fixture o)
      by_identity none = tt
      by_identity (some external) =
          Gives-if (λ _. Unit) (lacks_identity fixture external) (ok no_identity)
            (refreshed_from fixture (ports.provider_fixture external)) tt
            (refreshed_from-Gives fixture (ports.provider_fixture external) (a.feed external))

  pub refresh_states-Gives :
      (ports : Ports D F)
      → IsAnswering ports
      → (ds : Dict Fixture) (states : Dict AuthoritativeSettlementState) (n : ℕ)
      → Gives (λ _. Unit {0}) (refresh_states ports ds states n)
  unfolding refresh_states
  refresh_states-Gives ports a [] states n = tt
  refresh_states-Gives ports a ((_, fixture) ∷ ds) states n =
      Gives-elim (λ _. Unit) (λ _. Unit) (fixture_state ports fixture)
        (λ made. refresh_states ports ds (insert fixture.id made.0 states) (n + made.1))
        (fixture_state-Gives ports a fixture)
        (λ made _. refresh_states-Gives ports a ds (insert fixture.id made.0 states) (n + made.1))
