-- ===== src/Settlement/Rows.antt =====
-- app/services/settlement.py, `settle_all`: what each settlement row rests on, back to what the
-- provider reported and what the evidence provider gave.
use mathlib.Core.Path.{subst}
use football_agent.Prelude.{
  ℕ, String, List, [], ◌∷◌, Bool, true, false, not, ◌||◌, ◌≡◌, refl, ◌∙◌, ap, Option, none, some,
  arith, All, if◌then◌else◌,
}
use football_agent.Prelude.Dict.{Dict, lookup, insert, All-insert}
use football_agent.Domain.Score.{Score}
use football_agent.Domain.Entities.{Fixture, ProviderFixture, ValueBet}
use football_agent.Settlement.State.{
  FixtureLifecycle, AuthoritativeSettlementState, can_settle, takes_void_evidence,
}
use football_agent.Settlement.State.Final.{Grounds, regulation_score_iff}
use football_agent.Settlement.Evidence.{
  AuthoritativeVoidEvidence, Outcome, ok, raised, validate_void_evidence,
}
use football_agent.Settlement.Ports.{Ports}
use football_agent.Settlement.Plan.{
  Candidate, fixture_state, external_state, refreshed_from, no_identity, lacks_identity,
  asked_evidence, evidence_for, collect_evidence,
}
use football_agent.Settlement.Plan.Found.{IsMade, IsFetched, IsListed}

-- A fact of the value that a step returns, if it returns.
abbrev pub May {ℓ} : {A : Type ℓ} → (A → Type 0) → Outcome A → Type 0
May P (raised e) = Unit
May P (ok a) = P a

May-if {ℓ} :
    {A : Type ℓ} (P : A → Type 0) (b : Bool) (x y : Outcome A)
    → (b ≡ true → May P x)
    → (b ≡ false → May P y)
    → May P (if b then x else y)
May-if P true x y h k = h refl
May-if P false x y h k = k refl

pub May-elim {ℓ κ} :
    {A : Type ℓ} {B : Type κ} (P : A → Type 0) (Q : B → Type 0) (o : Outcome A)
    (rest : A → Outcome B)
    → May P o
    → ((a : A) → P a → May Q (rest a))
    → May Q (elim o [ raised e ↦ raised e | ok a ↦ rest a ])
May-elim P Q (ok a) rest h k = k a h
May-elim P Q (raised e) rest h k = tt

module _ {D F : Type 0} (ports : Ports D F) where
  -- The repository gave a fixture of this id, and of its identity at the provider, and the provider
  -- reported this fixture in a final lifecycle, with this score.
  pub record IsReported (k : ℕ) (score : Score) : Type 0 where
    pub fixture : Fixture
    pub external : String
    pub report : ProviderFixture
    pub same : fixture.id ≡ k
    pub fetched : IsFetched ports fixture
    pub identity : fixture.external_id ≡ some external
    pub asked : ports.provider_fixture external ≡ ok (some report)
    pub grounds : Grounds fixture report score

  -- The evidence provider gave this evidence for a listed bet of this id, on a lifecycle that takes
  -- it.
  pub record IsInstructed (e : ℕ × AuthoritativeVoidEvidence) : Type 0 where
    pub ask : ValueBet D F → Fixture → FixtureLifecycle → Outcome (Option AuthoritativeVoidEvidence)
    pub bet : ValueBet D F
    pub fixture : Fixture
    pub lifecycle : FixtureLifecycle
    pub same : bet.id ≡ e.0
    pub listed : IsListed ports (bet, fixture)
    pub provider : ports.void_evidence ≡ some ask
    pub given : ask bet fixture lifecycle ≡ ok (some e.1)
    pub fitting : validate_void_evidence e.1 bet fixture ≡ ok tt
    pub taken : takes_void_evidence lifecycle ≡ true

  abbrev pub AllInstructed : Dict AuthoritativeVoidEvidence → Type 0
  AllInstructed = All IsInstructed

  -- A state with a score comes from a report.
  abbrev Scores : Fixture → AuthoritativeSettlementState × ℕ → Type 0
  Scores fixture (state, n) =
      (score : Score) → state.regulation_score ≡ some score → IsReported fixture.id score

  refreshed-Scores :
      (fixture : Fixture) (external : String) (o : Outcome (Option ProviderFixture))
      → ports.provider_fixture external ≡ o
      → IsFetched ports fixture
      → fixture.external_id ≡ some external
      → May (Scores fixture) (refreshed_from fixture o)
  refreshed-Scores fixture external (raised e) eq got id = tt
  refreshed-Scores fixture external (ok refreshed) eq got id = λ score has.
      let (r, is_r, g) = (regulation_score_iff fixture refreshed score).0 has in
      record {
        fixture = fixture;
        external = external;
        report = r;
        same = refl;
        fetched = got;
        identity = id;
        asked = eq ∙ ap ok is_r;
        grounds = g;
      }

  fixture_state-Scores :
      (fixture : Fixture)
      → IsFetched ports fixture
      → May (Scores fixture) (fixture_state ports fixture)
  unfolding fixture_state
  fixture_state-Scores fixture got = by_identity fixture.external_id refl
    where
      by_identity :
          (o : Option String)
          → fixture.external_id ≡ o
          → May (Scores fixture) (external_state ports fixture o)
      by_identity none id = λ score h. cc
      by_identity (some external) id =
          May-if (Scores fixture) (lacks_identity fixture external) (ok no_identity)
            (refreshed_from fixture (ports.provider_fixture external)) (λ _ score h. cc)
            (λ _. refreshed-Scores fixture external (ports.provider_fixture external) refl got id)

  pub IsMade-IsReported :
      (k : ℕ) (state : AuthoritativeSettlementState) (score : Score)
      → IsMade ports (k, state)
      → state.regulation_score ≡ some score
      → IsReported k score
  IsMade-IsReported k state score m has =
      subst (λ j. IsReported j score) m.same
        (subst (May (Scores m.fixture)) m.made (fixture_state-Scores m.fixture m.fetched) score has)

  module _
      (ask : ValueBet D F → Fixture → FixtureLifecycle → Outcome (Option AuthoritativeVoidEvidence))
      (provider : ports.void_evidence ≡ some ask) where
    asked-Instructed :
        (o : Outcome (Option AuthoritativeVoidEvidence)) (bet : ValueBet D F) (fixture : Fixture)
        (l : FixtureLifecycle) (found : Dict AuthoritativeVoidEvidence)
        → ask bet fixture l ≡ o
        → takes_void_evidence l ≡ true
        → IsListed ports (bet, fixture)
        → AllInstructed found
        → May AllInstructed (asked_evidence o bet fixture found)
    asked-Instructed (raised e) bet fixture l found eq t i h = tt
    asked-Instructed (ok none) bet fixture l found eq t i h = h
    asked-Instructed (ok (some e)) bet fixture l found eq t i h =
        checked (validate_void_evidence e bet fixture) refl
      where
        checked :
            (v : Outcome (Unit {0}))
            → validate_void_evidence e bet fixture ≡ v
            → May AllInstructed
                (elim v [ raised why ↦ raised why | ok _ ↦ ok (insert bet.id e found) ])
        checked (raised why) valid = tt
        checked (ok _) valid = All-insert IsInstructed bet.id e found h (record {
          ask = ask;
          bet = bet;
          fixture = fixture;
          lifecycle = l;
          same = refl;
          listed = i;
          provider = provider;
          given = eq;
          fitting = valid;
          taken = t;
        })

    evidence_for-Instructed :
        (o : Option AuthoritativeSettlementState) (c : Candidate D F)
        (found : Dict AuthoritativeVoidEvidence)
        → IsListed ports c
        → AllInstructed found
        → May AllInstructed (evidence_for ask o c found)
    evidence_for-Instructed none c found i h = tt
    evidence_for-Instructed (some state) (bet, fixture) found i h =
        let l = state.lifecycle in
        May-if AllInstructed (can_settle state || not (takes_void_evidence l)) (ok found)
          (asked_evidence (ask bet fixture l) bet fixture found) (λ _. h)
          (λ open_state.
            asked-Instructed (ask bet fixture l) bet fixture l found refl (ground arith) i h)

    pub collect-Instructed :
        (states : Dict AuthoritativeSettlementState) (cs : List (Candidate D F))
        (found : Dict AuthoritativeVoidEvidence)
        → All (IsListed ports) cs
        → AllInstructed found
        → May AllInstructed (collect_evidence ask states cs found)
    unfolding collect_evidence
    collect-Instructed states [] found is h = h
    collect-Instructed states (c ∷ cs) found is h =
        May-elim AllInstructed AllInstructed (evidence_for ask (lookup c.1.id states) c found)
          (λ found'. collect_evidence ask states cs found')
          (evidence_for-Instructed (lookup c.1.id states) c found is.0 h)
          (λ found' h'. collect-Instructed states cs found' is.1 h')
