-- ===== src/Settlement/Batch/Closed.antt =====
-- The settlement loop fails closed: what every row that it writes rests on.
use football_agent.Prelude.{
  ℕ, ◌+◌, String, List, [], ◌∷◌, true, not, ◌≡◌, refl, ◌∙◌, Option, none, some, arith, All,
  All-append, contains, ◌⊎◌, inl, inr,
}
use football_agent.Prelude.Number.{Number, nought}
use football_agent.Prelude.Dict.{Dict, lookup}
use football_agent.Domain.Score.{Score}
use football_agent.Domain.Entities.{
  Fixture, ValueBet, Settlement, SettlementResult, make_settlement,
}
use football_agent.Settlement.State.{AuthoritativeSettlementState, can_settle}
use football_agent.Settlement.Resolve.{SettlementDetail, resolve}
use football_agent.Settlement.Resolve.Played.{resolve_ids}
use football_agent.Settlement.Evidence.{AuthoritativeVoidEvidence, void_result}
use football_agent.Settlement.Plan.{Candidate}
use football_agent.Settlement.Batch.{
  Tally, next, row_of, record_result, settle_one, settle_loop, settle_in, settle_by, settle_scored,
  add_checked, skip_detail,
}
use football_agent.Settlement.Batch.Rule.{Holds, Holds-if, settle_loop_rule}
use football_agent.Settlement.Batch.Ledger.{SameRow, make_settlement-SameRow}

module _ {D : Type 0} (F : Type 0) ⦃d : Number D⦄ ⦃f : Number F⦄
    (states : Dict AuthoritativeSettlementState) (found : Dict AuthoritativeVoidEvidence)
    (still : List ℕ) (Known : Candidate D F → Type 0) where
  -- A row for VOID evidence of the bet.
  abbrev pub IsVoided : ValueBet D F → Settlement D → Type 0
  IsVoided bet row =
      (e : AuthoritativeVoidEvidence) × (lookup bet.id found ≡ some e)
      × (row.result ≡ SettlementResult.void)
      × (row.profit_loss ≡ nought)

  -- A row for the score of a state that can settle.
  abbrev pub IsScored : ValueBet D F → Fixture → Settlement D → Type 0
  IsScored bet fixture row =
      (state : AuthoritativeSettlementState) × (score : Score) × (lookup fixture.id states
        ≡ some state)
      × (lookup bet.id found ≡ none)
      × (can_settle state ≡ true)
      × (state.regulation_score ≡ some score)
      × ((resolve bet fixture score).settled ≡ true)
      × (row.result ≡ (resolve bet fixture score).result)
      × (row.profit_loss ≡ (resolve bet fixture score).profit_loss)

  pub record IsJustified (row : Settlement D) : Type 0 where
    pub bet : ValueBet D F
    pub fixture : Fixture
    pub same_bet : row.value_bet_id ≡ bet.id
    pub same_fixture : row.fixture_id ≡ fixture.id
    pub known : Known (bet, fixture)
    pub unsettled : contains bet.id still ≡ true
    pub why : IsVoided bet row ⊎ IsScored bet fixture row

  abbrev pub AllJustified : Tally D F → Type 0
  AllJustified t = All IsJustified t.store.settlements

  -- A detail that is recorded adds at most one row, which is that detail's.
  record_result-Justified :
      (bet : ValueBet D F) (r : SettlementDetail D) (basis : String) (t : Tally D F)
      → ((row : Settlement D)
          → r.settled ≡ true
          → row.value_bet_id ≡ r.value_bet_id
          → row.fixture_id ≡ r.fixture_id
          → row.result ≡ r.result
          → row.profit_loss ≡ r.profit_loss
          → IsJustified row)
      → AllJustified t
      → Holds Unit AllJustified (record_result bet r basis t)
  unfolding record_result
  record_result-Justified bet r basis t just h =
      let after = d.add t.running_balance r.profit_loss in
      let row = row_of r t.running_balance after in
      Holds-if Unit AllJustified (not r.settled) (next (skip_detail r t))
        (add_checked bet r basis (make_settlement row) after t) (λ _. h)
        (λ e. added (make_settlement row) (ground arith) (make_settlement-SameRow row))
    where
      added :
          (o : Option (Settlement D))
          → r.settled ≡ true
          → SameRow (row_of r t.running_balance (d.add t.running_balance r.profit_loss)) o
          → Holds Unit AllJustified
              (add_checked bet r basis o (d.add t.running_balance r.profit_loss) t)
      added none e same = tt
      added (some s) e same =
          All-append IsJustified t.store.settlements (s ∷ []) h
            (just s e same.0 same.5 same.4 same.1, tt)

  module _ (bet : ValueBet D F) (fixture : Fixture) (t : Tally D F)
      (is_known : Known (bet, fixture)) (unsettled_bet : contains bet.id still ≡ true)
      (h : AllJustified t) where
    scored-Justified :
        (state : AuthoritativeSettlementState) (score : Option Score) (basis : Option String)
        → lookup fixture.id states ≡ some state
        → lookup bet.id found ≡ none
        → can_settle state ≡ true
        → state.regulation_score ≡ score
        → Holds Unit AllJustified (settle_scored bet fixture score basis t)
    scored-Justified state none basis ls lf can e = tt
    scored-Justified state (some score) none ls lf can e = tt
    scored-Justified state (some score) (some basis) ls lf can e =
        record_result-Justified bet (resolve bet fixture score) basis t
          (λ row settled same_bet same_fixture same_result same_profit. record {
            bet = bet;
            fixture = fixture;
            same_bet = same_bet ∙ (resolve_ids bet fixture score).0;
            same_fixture = same_fixture ∙ (resolve_ids bet fixture score).1;
            known = is_known;
            unsettled = unsettled_bet;
            why = inr (state, score, ls, lf, can, e, settled, same_result, same_profit);
          })
          h

    by-Justified :
        (state : AuthoritativeSettlementState) (o : Option AuthoritativeVoidEvidence)
        → lookup fixture.id states ≡ some state
        → lookup bet.id found ≡ o
        → Holds Unit AllJustified (settle_by bet fixture state o t)
    by-Justified state none ls lf =
        Holds-if Unit AllJustified (not (can_settle state)) _ _ (λ _. h)
          λ can.
            scored-Justified state state.regulation_score state.score_basis ls lf (ground arith)
              refl
    by-Justified state (some e) ls lf =
        record_result-Justified bet (void_result bet fixture e) _ t
          (λ row settled same_bet same_fixture same_result same_profit. record {
            bet = bet;
            fixture = fixture;
            same_bet = same_bet;
            same_fixture = same_fixture;
            known = is_known;
            unsettled = unsettled_bet;
            why = inl (e, lf, same_result, same_profit);
          })
          h

    in-Justified :
        (o : Option AuthoritativeSettlementState)
        → lookup fixture.id states ≡ o
        → Holds Unit AllJustified (settle_in bet fixture o (lookup bet.id found) t)
    in-Justified none ls = tt
    in-Justified (some state) ls = by-Justified state (lookup bet.id found) ls refl

  pub settle_loop-Justified :
      (cs : List (Candidate D F)) (t : Tally D F)
      → All Known cs
      → AllJustified t
      → Holds Unit AllJustified (settle_loop states found still cs t)
  settle_loop-Justified cs t is h =
      settle_loop_rule Unit AllJustified Known states found still one cs t is h
    where
      one :
          (c : Candidate D F) (t : Tally D F)
          → Known c
          → AllJustified t
          → Holds Unit AllJustified (settle_one states found still c t)
      one (bet, fixture) t is h =
          unfold settle_one in
          Holds-if Unit AllJustified (not (contains bet.id still)) _ _ (λ _. h)
            λ open_bet.
              in-Justified bet fixture (record t { eligible = t.eligible + 1 }) is (ground arith) h
                (lookup fixture.id states) refl
