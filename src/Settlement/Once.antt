-- ===== src/Settlement/Once.antt =====
-- app/services/settlement.py, `settle_all`: no bet is settled more often than it is listed.
use football_agent.Prelude.{
  ℕ, ◌+◌, ◌≤◌, String, List, [], ◌∷◌, ◌++◌, not, ◌≡◌, refl, Option, none, some, arith, ◌==◌,
  contains, if◌then◌else◌, ap,
}
use football_agent.Prelude.Number.{Number}
use football_agent.Prelude.Dict.{Dict, lookup}
use football_agent.Domain.Score.{Score}
use football_agent.Domain.Entities.{Fixture, ValueBet, Settlement, make_settlement}
use football_agent.Settlement.State.{AuthoritativeSettlementState, can_settle}
use football_agent.Settlement.Resolve.{SettlementDetail, resolve}
use football_agent.Settlement.Resolve.Played.{resolve_ids}
use football_agent.Settlement.Evidence.{AuthoritativeVoidEvidence, Outcome, ok, raised, void_result}
use football_agent.Settlement.Ports.{SettlementReport, Ports, Store}
use football_agent.Settlement.Plan.{
  Candidate, Gathered, gather, gather_bet, with_fixture, refresh_states, void_evidence_of,
}
use football_agent.Settlement.Batch.{
  Tally, Progress, next, failed, row_of, record_result, add_checked, skip_detail, settle_one,
  settle_loop, settle_in, settle_scored, settle_all, settle_planned, settle_gathered, start_tally,
  finish, no_rows, empty_report,
}
use football_agent.Settlement.Batch.Rule.{Holds, Holds-if, Holds-elim}
use football_agent.Settlement.Batch.Ledger.{SameRow, make_settlement-SameRow}

abbrev pub count : ℕ → List ℕ → ℕ
count k [] = 0
count k (j ∷ js) = (if k == j then 1 else 0) + count k js

count-append : (k : ℕ) (is js : List ℕ) → count k (is ++ js) ≡ count k is + count k js
count-append k [] js = omega arith
count-append k (i ∷ is) js = omega (arith, count-append k is js)

-- The bets of the rows.
abbrev pub settled_ids : {D : Type 0} → List (Settlement D) → List ℕ
settled_ids [] = []
settled_ids (r ∷ rs) = r.value_bet_id ∷ settled_ids rs

abbrev bet_ids : {D F : Type 0} → List (Candidate D F) → List ℕ
bet_ids [] = []
bet_ids (c ∷ cs) = c.0.id ∷ bet_ids cs

settled_ids-snoc :
    {D : Type 0} (k : ℕ) (rs : List (Settlement D)) (r : Settlement D)
    → count k (settled_ids (rs ++ (r ∷ [])))
      ≡ count k (settled_ids rs) + (if k == r.value_bet_id then 1 else 0)
settled_ids-snoc k [] r = omega arith
settled_ids-snoc k (x ∷ rs) r = omega (arith, settled_ids-snoc k rs r)

bet_ids-snoc :
    {D F : Type 0} (k : ℕ) (cs : List (Candidate D F)) (c : Candidate D F)
    → count k (bet_ids (cs ++ (c ∷ []))) ≡ count k (bet_ids cs) + (if k == c.0.id then 1 else 0)
bet_ids-snoc k [] c = omega arith
bet_ids-snoc k (x ∷ cs) c = omega (arith, bet_ids-snoc k cs c)

module _ {D F : Type 0} ⦃d : Number D⦄ (k : ℕ) where
  -- At most `n` rows of the bet `k`.
  abbrev AtMost : ℕ → Tally D F → Type 0
  AtMost n t = count k (settled_ids t.store.settlements) ≤ n

  record_result-AtMost :
      (bet : ValueBet D F) (r : SettlementDetail D) (basis : String) (t : Tally D F)
      → r.value_bet_id ≡ bet.id
      → Holds Unit
          (AtMost (count k (settled_ids t.store.settlements) + (if k == bet.id then 1 else 0)))
          (record_result bet r basis t)
  unfolding record_result
  record_result-AtMost bet r basis t same =
      let after = d.add t.running_balance r.profit_loss in
      let row = row_of r t.running_balance after in
      Holds-if Unit _ (not r.settled) (next (skip_detail r t))
        (add_checked bet r basis (make_settlement row) after t) (λ _. omega arith)
        (λ _. added (make_settlement row) (make_settlement-SameRow row))
    where
      added :
          (o : Option (Settlement D))
          → SameRow (row_of r t.running_balance (d.add t.running_balance r.profit_loss)) o
          → Holds Unit
              (AtMost (count k (settled_ids t.store.settlements) + (if k == bet.id then 1 else 0)))
              (add_checked bet r basis o (d.add t.running_balance r.profit_loss) t)
      added none h = tt
      added (some s) h = ground (arith, settled_ids-snoc k t.store.settlements s, h.0)

  weaken : (m n : ℕ) (o : Progress D F) → m ≤ n → Holds Unit (AtMost m) o → Holds Unit (AtMost n) o
  weaken m n (next t) le h = omega arith
  weaken m n (failed e t) le h = tt

module _ {D F : Type 0} ⦃d : Number D⦄ ⦃f : Number F⦄ (k : ℕ)
    (states : Dict AuthoritativeSettlementState) (found : Dict AuthoritativeVoidEvidence)
    (still : List ℕ) where
  settle_in-AtMost :
      (bet : ValueBet D F) (fixture : Fixture) (o : Option AuthoritativeSettlementState)
      (e : Option AuthoritativeVoidEvidence) (t : Tally D F)
      → Holds Unit
          (AtMost k (count k (settled_ids t.store.settlements) + (if k == bet.id then 1 else 0)))
          (settle_in bet fixture o e t)
  settle_in-AtMost bet fixture none e t = tt
  settle_in-AtMost bet fixture (some state) (some e) t =
      record_result-AtMost k bet (void_result bet fixture e) _ t refl
  settle_in-AtMost bet fixture (some state) none t =
      Holds-if Unit _ (not (can_settle state)) _ _ (λ _. omega arith)
        (λ _. scored state.regulation_score state.score_basis)
    where
      scored :
          (score : Option Score) (basis : Option String)
          → Holds Unit
              (AtMost k
                (count k (settled_ids t.store.settlements) + (if k == bet.id then 1 else 0)))
              (settle_scored bet fixture score basis t)
      scored none basis = tt
      scored (some score) none = tt
      scored (some score) (some basis) =
          record_result-AtMost k bet (resolve bet fixture score) basis t
            (resolve_ids bet fixture score).0

  settle_one-AtMost :
      (c : Candidate D F) (t : Tally D F)
      → Holds Unit
          (AtMost k (count k (settled_ids t.store.settlements) + (if k == c.0.id then 1 else 0)))
          (settle_one states found still c t)
  unfolding settle_one
  settle_one-AtMost (bet, fixture) t =
      Holds-if Unit _ (not (contains bet.id still)) _ _ (λ _. omega arith)
        (λ _.
          settle_in-AtMost bet fixture (lookup fixture.id states) (lookup bet.id found)
            (record t { eligible = t.eligible + 1 }))

  settle_loop-AtMost :
      (cs : List (Candidate D F)) (t : Tally D F)
      → Holds Unit
          (AtMost k (count k (settled_ids t.store.settlements) + count k (bet_ids cs)))
          (settle_loop states found still cs t)
  unfolding settle_loop
  settle_loop-AtMost [] t = omega arith
  settle_loop-AtMost (c ∷ cs) t =
      Holds-elim Unit _ _ (settle_one states found still c t)
        (λ t'. settle_loop states found still cs t') (settle_one-AtMost c t)
        (λ t' h. weaken k _ _ _ (omega arith) (settle_loop-AtMost cs t'))

module _ {D F : Type 0} ⦃d : Number D⦄ ⦃f : Number F⦄ (ports : Ports D F)
    (named : (i : ℕ) (bet : ValueBet D F) → ports.get_value_bet i ≡ some bet → bet.id ≡ i)
    (k : ℕ) where
  gather-count :
      (ids : List ℕ) (acc : Gathered D F)
      → count k (bet_ids (gather ports ids acc).0) ≤ count k (bet_ids acc.0) + count k ids
  unfolding gather
  gather-count [] acc = omega arith
  gather-count (i ∷ ids) acc = omega (
    arith,
    by_bet (ports.get_value_bet i) refl,
    gather-count ids (gather_bet ports (ports.get_value_bet i) acc),
  )
    where
      by_fixture :
          (bet : ValueBet D F) (known fetched : Option Fixture)
          → bet.id ≡ i
          → count k (bet_ids (with_fixture bet known fetched acc).0)
            ≤ count k (bet_ids acc.0) + (if k == i then 1 else 0)
      by_fixture bet (some fixture) fetched e =
          rw (← e) (omega (arith, bet_ids-snoc k acc.0 (bet, fixture)))
      by_fixture bet none none e = omega arith
      by_fixture bet none (some fixture) e =
          rw (← e) (omega (arith, bet_ids-snoc k acc.0 (bet, fixture)))

      by_bet :
          (o : Option (ValueBet D F))
          → ports.get_value_bet i ≡ o
          → count k (bet_ids (gather_bet ports o acc).0)
            ≤ count k (bet_ids acc.0) + (if k == i then 1 else 0)
      by_bet none e = omega arith
      by_bet (some bet) e =
          by_fixture bet (lookup bet.fixture_id acc.1) (ports.get_fixture bet.fixture_id)
            (named i bet e)

  abbrev pub AtMostListed : Outcome (SettlementReport D) × Store D F → Type 0
  AtMostListed (raised _, s) = Unit
  AtMostListed (ok _, s) = count k (settled_ids s.settlements) ≤ count k ports.initial_unsettled

  finish-AtMostListed :
      (n checked requests : ℕ) (deferred : Dict String) (o : Progress D F)
      → n ≤ count k ports.initial_unsettled
      → Holds Unit (AtMost k n) o
      → AtMostListed (finish checked requests deferred o)
  finish-AtMostListed n checked requests deferred (failed e t) le h = tt
  finish-AtMostListed n checked requests deferred (next t) le h = omega arith

  planned-AtMostListed :
      (g : Gathered D F) (states : Dict AuthoritativeSettlementState) (requests : ℕ)
      (found : Dict AuthoritativeVoidEvidence)
      → count k (bet_ids g.0) ≤ count k ports.initial_unsettled
      → AtMostListed (settle_planned ports g states requests found)
  unfolding settle_planned
  planned-AtMostListed (cs, fixtures) states requests found le =
      finish-AtMostListed (count k (bet_ids cs)) _ _ _ _ le (
        weaken k _ _ _ (omega arith)
          (settle_loop-AtMost k states found ports.still_unsettled cs (start_tally _)))

  AtMostListed-elim {ℓ} :
      {A : Type ℓ} (o : Outcome A) (rest : A → Outcome (SettlementReport D) × Store D F)
      → ((a : A) → AtMostListed (rest a))
      → AtMostListed (elim o [ raised e ↦ (raised e, no_rows) | ok a ↦ rest a ])
  AtMostListed-elim (raised e) rest h = tt
  AtMostListed-elim (ok a) rest h = h a

  -- Where each stored bet has the id that it is fetched by, a run that returns has settled no bet
  -- more often than the bet is listed as unsettled, so once at most where it is listed once.
  pub settle_all-AtMostListed : AtMostListed (settle_all ports)
  unfolding settle_all
  settle_all-AtMostListed = by_ids ports.initial_unsettled refl
    where
      by_ids :
          (ids : List ℕ)
          → ports.initial_unsettled ≡ ids
          → AtMostListed (elim ids [
            | [] ↦ (ok empty_report, no_rows)
            | i ∷ rest ↦ settle_gathered ports (gather ports (i ∷ rest) ([], []))
          ])
      by_ids [] e = omega arith
      by_ids (i ∷ ids) e =
          let g = gather ports (i ∷ ids) ([], []) in
          AtMostListed-elim (refresh_states ports g.1 [] 0) _ λ made.
            AtMostListed-elim (void_evidence_of ports made.0 g.0) _ λ found.
              planned-AtMostListed g made.0 made.1 found
                (omega (arith, gather-count (i ∷ ids) ([], []), ap (count k) e))
