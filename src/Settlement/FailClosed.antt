-- ===== src/Settlement/FailClosed.antt =====
-- app/services/settlement.py, `settle_all`: the settlement rows of a whole run.
use mathlib.Core.Path.{subst}
use football_agent.Prelude.{
  ℕ, String, List, [], ◌∷◌, true, ◌≡◌, refl, none, some, All, All-map, contains, ◌⊎◌, inl, inr,
}
use football_agent.Prelude.Number.{Number, nought}
use football_agent.Prelude.Dict.{Dict, All-lookup}
use football_agent.Domain.Score.{Score}
use football_agent.Domain.Entities.{Fixture, ValueBet, Settlement, SettlementResult}
use football_agent.Settlement.State.{AuthoritativeSettlementState}
use football_agent.Settlement.Resolve.{SettlementDetail, resolve}
use football_agent.Settlement.Resolve.Outcomes.{Pays, resolve-Pays}
use football_agent.Settlement.Evidence.{AuthoritativeVoidEvidence, Outcome, ok, raised}
use football_agent.Settlement.Ports.{SettlementReport, Ports, Store}
use football_agent.Settlement.Plan.{
  Candidate, Gathered, gather, refresh_states, collect_evidence, void_evidence_of,
}
use football_agent.Settlement.Plan.Found.{
  IsGathered, IsListed, IsMade, Refreshed, gather-IsGathered, refresh_states-Refreshed,
}
use football_agent.Settlement.Batch.{
  Progress, next, failed, settle_all, settle_planned, settle_gathered, start_tally, finish, no_rows,
  empty_report,
}
use football_agent.Settlement.Batch.Rule.{Holds}
use football_agent.Settlement.Batch.Closed.{IsJustified, settle_loop-Justified}
use football_agent.Settlement.Rows.{
  May, AllInstructed, IsInstructed, IsReported, IsMade-IsReported, collect-Instructed,
}

module _ {D F : Type 0} ⦃d : Number D⦄ ⦃f : Number F⦄ (ports : Ports D F) where
  pub void_evidence_of-Instructed :
      (states : Dict AuthoritativeSettlementState) (cs : List (Candidate D F))
      → All (IsListed ports) cs
      → May (AllInstructed ports) (void_evidence_of ports states cs)
  unfolding void_evidence_of
  void_evidence_of-Instructed states cs is = by_provider ports.void_evidence refl
    where
      by_provider :
          (o : _)
          → ports.void_evidence ≡ o
          → May
              (AllInstructed ports)
              (elim o [ none ↦ ok [] | some ask ↦ collect_evidence ask states cs [] ])
      by_provider none e = tt
      by_provider (some ask) e = collect-Instructed ports ask e states cs [] is tt

  -- A VOID row: it moves no money, and was instructed for a listed bet of its id.
  abbrev pub IsVoidRow : Settlement D → Type 0
  IsVoidRow row =
      (e : AuthoritativeVoidEvidence) × (row.result ≡ SettlementResult.void)
      × (row.profit_loss ≡ nought)
      × IsInstructed ports (row.value_bet_id, e)

  -- A played row: its fixture was reported final with a regulation-time score, and it has the
  -- result that this means for the selection of a listed bet and pays the stake accordingly.
  abbrev pub IsPlayedRow : Settlement D → Type 0
  IsPlayedRow row =
      (bet : ValueBet D F) × (fixture : Fixture) × (score : Score) × (r : SettlementDetail D)
      × (row.value_bet_id ≡ bet.id)
      × (row.fixture_id ≡ fixture.id)
      × IsListed ports (bet, fixture)
      × IsReported ports row.fixture_id score
      × Pays bet score r
      × (row.result ≡ r.result)
      × (row.profit_loss ≡ r.profit_loss)

  -- A row of a bet that was still unsettled under the lock, either VOID or played.
  abbrev pub IsGrounded : Settlement D → Type 0
  IsGrounded row =
      (contains row.value_bet_id ports.still_unsettled ≡ true) × (IsVoidRow row ⊎ IsPlayedRow row)

  module _ (states : Dict AuthoritativeSettlementState) (found : Dict AuthoritativeVoidEvidence)
      (made : All (IsMade ports) states) (instructed : AllInstructed ports found) where
    paid_by :
        (bet : ValueBet D F) (fixture : Fixture) (score : Score)
        → (resolve bet fixture score).settled ≡ true
        → Pays bet score (resolve bet fixture score)
    paid_by bet fixture score h = elim (resolve-Pays bet fixture score) [
      | inl (_, p) ↦ p
      | inr (unpaid, _, _) ↦ absurd (cc unpaid)
    ]

    Justified-Grounded :
        (row : Settlement D)
        → IsJustified F states found ports.still_unsettled (IsListed ports) row
        → IsGrounded row
    Justified-Grounded row j = (
      rw j.same_bet j.unsettled,
      elim j.why [
        | inl (e, given, result, profit) ↦ inl (
          e,
          result,
          profit,
          rw j.same_bet (All-lookup (IsInstructed ports) j.bet.id e found instructed given),
        )
        | inr (state, score, ls, lf, can, has, settled, result, profit) ↦ inr (
          j.bet,
          j.fixture,
          score,
          resolve j.bet j.fixture score,
          j.same_bet,
          j.same_fixture,
          j.known,
          rw j.same_fixture (
              IsMade-IsReported ports j.fixture.id state score
                (All-lookup (IsMade ports) j.fixture.id state states made ls) has),
          paid_by j.bet j.fixture score settled,
          result,
          profit,
        )
      ],
    )

  -- The rows that a run leaves in the transaction; an exception in the loop rolls them back.
  abbrev pub AllGrounded : Outcome (SettlementReport D) × Store D F → Type 0
  AllGrounded (raised _, s) = Unit
  AllGrounded (ok _, s) = All IsGrounded s.settlements

  module _ (states : Dict AuthoritativeSettlementState) (found : Dict AuthoritativeVoidEvidence)
      (made : All (IsMade ports) states) (instructed : AllInstructed ports found) where
    finish-AllGrounded :
        (checked requests : ℕ) (deferred : Dict String) (o : Progress D F)
        → Holds Unit
            (λ t.
              All
                (IsJustified F states found ports.still_unsettled (IsListed ports))
                t.store.settlements)
            o
        → AllGrounded (finish checked requests deferred o)
    finish-AllGrounded checked requests deferred (failed e t) h = tt
    finish-AllGrounded checked requests deferred (next t) h =
        All-map (Justified-Grounded states found made instructed) t.store.settlements h

    planned-AllGrounded :
        (g : Gathered D F) (requests : ℕ)
        → All (IsListed ports) g.0
        → AllGrounded (settle_planned ports g states requests found)
    unfolding settle_planned
    planned-AllGrounded (cs, fixtures) requests is = finish-AllGrounded _ _ _ _ (
        settle_loop-Justified F states found ports.still_unsettled (IsListed ports) cs
          (start_tally _) is tt)

  AllGrounded-elim {ℓ} :
      {A : Type ℓ} (P : A → Type 0) (o : Outcome A)
      (rest : A → Outcome (SettlementReport D) × Store D F)
      → May P o
      → ((a : A) → o ≡ ok a → P a → AllGrounded (rest a))
      → AllGrounded (elim o [ raised e ↦ (raised e, no_rows) | ok a ↦ rest a ])
  AllGrounded-elim P (raised e) rest m h = tt
  AllGrounded-elim P (ok a) rest m h = h a refl m

  May-any {ℓ} : {A : Type ℓ} (o : Outcome A) → May (λ _. Unit) o
  May-any (raised e) = tt
  May-any (ok a) = tt

  gathered-AllGrounded :
      (g : Gathered D F) → IsGathered ports g → AllGrounded (settle_gathered ports g)
  gathered-AllGrounded g ok_g =
      AllGrounded-elim (λ _. Unit) (refresh_states ports g.1 [] 0) _ (May-any _)
        λ made e _.
          let facts =
            subst (Refreshed ports g.1 []) e (refresh_states-Refreshed ports g.1 [] 0 ok_g.0 tt) in
          AllGrounded-elim (AllInstructed ports) (void_evidence_of ports made.0 g.0) _
            (void_evidence_of-Instructed made.0 g.0 ok_g.2)
            λ found _ instructed.
              planned-AllGrounded made.0 found facts.0 instructed g made.1 ok_g.2

  -- A run that returns fails closed: each row that it has written is of a bet that was still
  -- unsettled under the lock, and it is either VOID, moving no money, on evidence given for a
  -- repository's bet of that id in a lifecycle that takes evidence, or played. Then a fixture of
  -- the row's fixture id, read from the repository, was reported by the provider, under the
  -- fixture's own external id, as final with a regulation-time score; and the row has the result
  -- that this score means for the selection of a repository's bet of its bet id, and pays that
  -- bet's stake accordingly.
  pub settle_all-AllGrounded : AllGrounded (settle_all ports)
  unfolding settle_all
  settle_all-AllGrounded = by_ids ports.initial_unsettled
    where
      by_ids :
          (ids : List ℕ)
          → AllGrounded (elim ids [
            | [] ↦ (ok empty_report, no_rows)
            | i ∷ rest ↦ settle_gathered ports (gather ports (i ∷ rest) ([], []))
          ])
      by_ids [] = tt
      by_ids (i ∷ ids) =
          gathered-AllGrounded (gather ports (i ∷ ids) ([], []))
            (gather-IsGathered ports (i ∷ ids) ([], []) (tt, tt, tt))
