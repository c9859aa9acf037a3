-- ===== src/Settlement/Batch/Total.antt =====
-- The settlement loop never stops half-way: no lookup, assertion or row check fails.
use mathlib.Core.Path.{subst}
use football_agent.Prelude.{
  ℕ, ◌+◌, String, List, Bool, true, false, not, ◌≡◌, refl, Option, none, some, is_some, arith, All,
  ltb, contains, if◌then◌else◌, str_eq, strip, str_len,
}
use football_agent.Prelude.Text.Strip.{strip_idem}
use football_agent.Prelude.Number.{Number, nought, IsOrdered}
use football_agent.Prelude.Dict.{Dict, lookup, All-lookup}
use football_agent.Domain.Score.{Score}
use football_agent.Domain.Entities.{
  Fixture, ProviderFixture, ValueBet, Settlement, SettlementResult, make_settlement, check_void,
  check_played,
}
use football_agent.Settlement.State.{AuthoritativeSettlementState, can_settle}
use football_agent.Settlement.State.Final.{IsCoherent, authoritative_state-IsCoherent}
use football_agent.Settlement.Resolve.{SettlementDetail, resolve}
use football_agent.Settlement.Resolve.Played.{IsPlayed, resolve-IsPlayed}
use football_agent.Settlement.Evidence.{
  AuthoritativeVoidEvidence, Outcome, ok, raised, IsEvidence, make_evidence, void_result,
}
use football_agent.Settlement.Ports.{Ports}
use football_agent.Settlement.Plan.{
  Candidate, fixture_state, external_state, refreshed_from, no_identity, lacks_identity,
}
use football_agent.Settlement.Plan.Found.{IsMade}
use football_agent.Settlement.Batch.{
  Tally, Progress, row_of, record_result, settle_one, settle_loop, settle_in, settle_by,
  settle_scored, add_checked,
}
use football_agent.Settlement.Batch.Rule.{Holds, Holds-if, settle_loop_rule}

-- Its reason code passes the checks of a settlement row.
evidence_reason :
    (raw e : AuthoritativeVoidEvidence)
    → make_evidence raw ≡ ok e
    → (str_eq (strip e.reason_code) "" ≡ false) × (ltb 64 (str_len (strip e.reason_code)) ≡ false)
unfolding make_evidence
evidence_reason raw e h = ground (arith, strip_idem raw.reason_code)

IsCoherent-no_identity : IsCoherent no_identity.0
IsCoherent-no_identity = record { scored = refl; based = refl; explained = refl }

-- The state of a completed reading, if there is one, is coherent.
abbrev Coherent : Outcome (AuthoritativeSettlementState × ℕ) → Type 0
Coherent (raised e) = Unit
Coherent (ok (state, n)) = IsCoherent state

refreshed_from-Coherent :
    (fixture : Fixture) (o : Outcome (Option ProviderFixture)) → Coherent (refreshed_from fixture o)
refreshed_from-Coherent fixture (raised e) = tt
refreshed_from-Coherent fixture (ok refreshed) = authoritative_state-IsCoherent fixture refreshed

Coherent-if :
    (b : Bool) (x y : Outcome (AuthoritativeSettlementState × ℕ))
    → Coherent x
    → Coherent y
    → Coherent (if b then x else y)
Coherent-if true x y h k = h
Coherent-if false x y h k = k

module _ {D F : Type 0} (ports : Ports D F) where
  external_state-Coherent :
      (fixture : Fixture) (o : Option String) → Coherent (external_state ports fixture o)
  external_state-Coherent fixture none = IsCoherent-no_identity
  external_state-Coherent fixture (some external) =
      Coherent-if (lacks_identity fixture external) (ok no_identity)
        (refreshed_from fixture (ports.provider_fixture external)) IsCoherent-no_identity
        (refreshed_from-Coherent fixture (ports.provider_fixture external))

  fixture_state-Coherent : (fixture : Fixture) → Coherent (fixture_state ports fixture)
  unfolding fixture_state
  fixture_state-Coherent fixture = external_state-Coherent fixture fixture.external_id

  IsMade-IsCoherent : (e : ℕ × AuthoritativeSettlementState) → IsMade ports e → IsCoherent e.1
  IsMade-IsCoherent e m = subst Coherent m.made (fixture_state-Coherent m.fixture)

module _ {D : Type 0} ⦃d : Number D⦄ where
  played_row :
      (score : Score) (r : SettlementDetail D) (before after : D)
      → IsPlayed score r
      → is_some (make_settlement (row_of r before after)) ≡ true
  unfolding make_settlement check_played
  played_row score r before after p = by_result r.result refl
    where
      by_result :
          (x : SettlementResult)
          → r.result ≡ x
          → is_some (make_settlement (row_of r before after)) ≡ true
      by_result x e = ground (arith, p.not_void_result, p.home_given, p.away_given, p.no_reason)

module _ {D F : Type 0} ⦃d : Number D⦄ where
  void_row :
      (laws : IsOrdered d) (bet : ValueBet D F) (fixture : Fixture) (e : AuthoritativeVoidEvidence)
      (before after : D)
      → IsEvidence e
      → is_some (make_settlement (row_of (void_result bet fixture e) before after)) ≡ true
  unfolding make_settlement check_void
  void_row laws bet fixture e before after (raw, made) =
      let zero_eq = laws.eq-eq-le nought nought in
      let zero_le = laws.le_refl nought in ground (arith, evidence_reason raw e made)

  -- Any tally will do: what counts is that the round goes on.
  abbrev pub GoesOn : Progress D F → Type 0
  GoesOn = Holds ⊥ (λ _. Unit)

  add_checked-GoesOn :
      (bet : ValueBet D F) (r : SettlementDetail D) (basis : String) (o : Option (Settlement D))
      (after : D) (t : Tally D F)
      → is_some o ≡ true
      → GoesOn (add_checked bet r basis o after t)
  add_checked-GoesOn bet r basis none after t h = absurd (cc h)
  add_checked-GoesOn bet r basis (some row) after t h = tt

  record_result-GoesOn :
      (bet : ValueBet D F) (r : SettlementDetail D) (basis : String) (t : Tally D F)
      → ((before after : D) → is_some (make_settlement (row_of r before after)) ≡ true)
      → GoesOn (record_result bet r basis t)
  unfolding record_result
  record_result-GoesOn bet r basis t h =
      let after = d.add t.running_balance r.profit_loss in
      Holds-if ⊥ (λ _. Unit) (not r.settled) _ _ (λ _. tt)
        λ _. add_checked-GoesOn bet r basis _ after t (h t.running_balance after)

module _ {D F : Type 0} ⦃d : Number D⦄ ⦃f : Number F⦄ where
  settle_scored-GoesOn :
      (bet : ValueBet D F) (fixture : Fixture) (score : Option Score) (basis : Option String)
      (t : Tally D F)
      → is_some score ≡ true
      → is_some basis ≡ true
      → GoesOn (settle_scored bet fixture score basis t)
  settle_scored-GoesOn bet fixture none basis t h k = absurd (cc h)
  settle_scored-GoesOn bet fixture (some score) none t h k = absurd (cc k)
  settle_scored-GoesOn bet fixture (some score) (some basis) t h k =
      record_result-GoesOn bet (resolve bet fixture score) basis t λ before after.
        played_row score (resolve bet fixture score) before after
          (resolve-IsPlayed bet fixture score)

  settle_by-GoesOn :
      IsOrdered d
      → (bet : ValueBet D F) (fixture : Fixture) (state : AuthoritativeSettlementState)
        (o : Option AuthoritativeVoidEvidence) (t : Tally D F)
      → IsCoherent state
      → ((e : AuthoritativeVoidEvidence) → o ≡ some e → IsEvidence e)
      → GoesOn (settle_by bet fixture state o t)
  settle_by-GoesOn laws bet fixture state (some e) t co ev =
      record_result-GoesOn bet (void_result bet fixture e) _ t
        λ before after. void_row laws bet fixture e before after (ev e refl)
  settle_by-GoesOn laws bet fixture state none t co ev =
      Holds-if ⊥ (λ _. Unit) (not (can_settle state)) _ _ (λ _. tt)
        λ can.
          settle_scored-GoesOn bet fixture state.regulation_score state.score_basis t
            (ground (arith, co.scored)) (ground (arith, co.scored, co.based))

  settle_in-GoesOn :
      IsOrdered d
      → (ports : Ports D F) (states : Dict AuthoritativeSettlementState)
        (found : Dict AuthoritativeVoidEvidence) (bet : ValueBet D F) (fixture : Fixture)
        (t : Tally D F)
      → All (IsMade ports) states
      → All (λ e. IsEvidence e.1) found
      → (o : Option AuthoritativeSettlementState) → lookup fixture.id states ≡ o
      → is_some o ≡ true
      → GoesOn (settle_in bet fixture o (lookup bet.id found) t)
  settle_in-GoesOn laws ports states found bet fixture t made ev none e h = absurd (cc h)
  settle_in-GoesOn laws ports states found bet fixture t made ev (some state) e h =
      settle_by-GoesOn laws bet fixture state (lookup bet.id found) t
        (IsMade-IsCoherent ports (fixture.id, state)
          (All-lookup (IsMade ports) fixture.id state states made e))
        λ v given. All-lookup (λ x. IsEvidence x.1) bet.id v found ev given

  -- With a made state for each candidate's fixture and evidence from its constructor, the loop
  -- ends without an exception.
  pub settle_loop-GoesOn :
      IsOrdered d
      → (ports : Ports D F) (states : Dict AuthoritativeSettlementState)
        (found : Dict AuthoritativeVoidEvidence) (still : List ℕ) (cs : List (Candidate D F))
        (t : Tally D F)
      → All (IsMade ports) states
      → All (λ e. IsEvidence e.1) found
      → All (λ c. is_some (lookup c.1.id states) ≡ true) cs
      → GoesOn (settle_loop states found still cs t)
  settle_loop-GoesOn laws ports states found still cs t made ev known =
      settle_loop_rule ⊥ (λ _. Unit) (λ c. is_some (lookup c.1.id states) ≡ true) states found still
        one cs t known tt
    where
      one :
          (c : Candidate D F) (t : Tally D F)
          → is_some (lookup c.1.id states) ≡ true
          → Unit {0}
          → GoesOn (settle_one states found still c t)
      one (bet, fixture) t k _ =
          unfold settle_one in
          Holds-if ⊥ (λ _. Unit) (not (contains bet.id still)) _ _ (λ _. tt)
            λ _.
              settle_in-GoesOn laws ports states found bet fixture
                (record t { eligible = t.eligible + 1 }) made ev (lookup fixture.id states) refl k
