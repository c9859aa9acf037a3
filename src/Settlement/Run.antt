-- ===== src/Settlement/Run.antt =====
-- app/services/settlement.py, `settle_all` as a whole: what a run writes and reports, and that it
-- returns.
use mathlib.Core.Path.{subst}
use football_agent.Prelude.{
  ℕ, ◌+◌, String, Bool, true, false, if◌then◌else◌, List, [], ◌∷◌, ◌≡◌, refl, sym, ◌∙◌, ap, is_some,
  inl, All, All-map, length,
}
use football_agent.Prelude.Number.{Number, nought, IsExact, IsOrdered}
use football_agent.Prelude.Dict.{Dict, lookup}
use football_agent.Settlement.State.{AuthoritativeSettlementState}
use football_agent.Settlement.Resolve.{SettlementDetail}
use football_agent.Settlement.Evidence.{AuthoritativeVoidEvidence, Outcome, ok, raised}
use football_agent.Settlement.Ports.{SettlementReport, Ports, Store}
use football_agent.Settlement.Plan.{Gathered, gather, refresh_states, void_evidence_of}
use football_agent.Settlement.Plan.Found.{
  IsGathered, IsMade, Refreshed, gather-IsGathered, refresh_states-Refreshed,
}
use football_agent.Settlement.Plan.Asked.{
  AllEvidence, Gives, IsAnswering, void_evidence_of-Gives, refresh_states-Gives,
}
use football_agent.Settlement.Batch.{
  Progress, next, failed, settle_all, settle_planned, settle_gathered, start_tally, finish, no_rows,
  empty_report, total_pl_from, default_balance,
}
use football_agent.Settlement.Batch.Rule.{Holds}
use football_agent.Settlement.Batch.Ledger.{Chain, Matched, IsLedger, settle_loop-IsLedger}
use football_agent.Settlement.Batch.Total.{GoesOn, settle_loop-GoesOn}

-- The balance that a run starts from.
abbrev pub opening : {D F : Type 0} ⦃d : Number D⦄ → Ports D F → D
opening ports = ports.latest_balance (default_balance ports.initial_bankroll)

module _ {D : Type 0} ⦃d : Number D⦄ where
  add_if :
      IsExact d
      → (start acc x : D) (b : Bool)
      → (if b then d.add (d.add start acc) x else d.add start acc)
        ≡ d.add start (if b then d.add acc x else acc)
  add_if laws start acc x true = laws.add_assoc start acc x
  add_if laws start acc x false = refl

  total_pl_from-start :
      IsExact d
      → (start acc : D) (rs : List (SettlementDetail D))
      → total_pl_from (d.add start acc) rs ≡ d.add start (total_pl_from acc rs)
  unfolding total_pl_from
  total_pl_from-start laws start acc [] = refl
  total_pl_from-start laws start acc (r ∷ rs) =
      ap (λ b. total_pl_from b rs) (add_if laws start acc r.profit_loss r.settled)
      ∙ total_pl_from-start laws start (if r.settled then d.add acc r.profit_loss else acc) rs

module _ {D F : Type 0} where
  -- The run returns a report.
  abbrev pub Returns : (Outcome (SettlementReport D) × Store D F) → Type 0
  Returns (raised _, s) = ⊥
  Returns (ok r, s) = Unit

module _ {D F : Type 0} ⦃d : Number D⦄ where
  -- What a run has written and reports, from the opening balance.
  pub record IsAccounted (start : D) (r : SettlementReport D) (s : Store D F) : Type 0 where
    pub chain : Chain start s.settlements (d.add start r.total_pl)
    pub matched : Matched s.settlements s.bankroll
    pub counted : r.bets_settled ≡ length s.settlements
    pub eligible_counted : r.bets_eligible ≡ r.bets_settled + r.bets_skipped

  abbrev pub Accounts : D → Outcome (SettlementReport D) × Store D F → Type 0
  Accounts start (raised _, s) = Unit
  Accounts start (ok r, s) = IsAccounted start r s

  finish-Accounts :
      IsExact d
      → (start : D) (checked requests : ℕ) (deferred : Dict String) (o : Progress D F)
      → Holds Unit (IsLedger start) o
      → Accounts start (finish checked requests deferred o)
  finish-Accounts laws start checked requests deferred (failed e t) h = tt
  finish-Accounts laws start checked requests deferred (next t) h =
      let total = total_pl_from-start laws start nought t.details in
      let same = ap (λ b. total_pl_from b t.details) (laws.add_zero start) in
      record {
        chain =
            subst (λ b. Chain start t.store.settlements b) (sym h.paid ∙ sym same ∙ total) h.chain;
        matched = h.matched;
        counted = h.counted;
        eligible_counted = h.eligible_counted;
      }

module _ {D F : Type 0} ⦃d : Number D⦄ ⦃f : Number F⦄ where
  settle_planned-Accounts :
      IsExact d
      → (ports : Ports D F) (g : Gathered D F) (states : Dict AuthoritativeSettlementState)
        (requests : ℕ) (found : Dict AuthoritativeVoidEvidence)
      → Accounts (opening ports) (settle_planned ports g states requests found)
  unfolding settle_planned total_pl_from
  settle_planned-Accounts laws ports (cs, fixtures) states requests found =
      finish-Accounts laws (opening ports) _ _ _ _ (
        settle_loop-IsLedger states found ports.still_unsettled (opening ports) cs
          (start_tally (opening ports))
          (record {
            chain = refl;
            matched = tt;
            paid = refl;
            counted = refl;
            eligible_counted = refl;
          }))

  Accounts-elim {ℓ} :
      {A : Type ℓ} (start : D) (o : Outcome A) (rest : A → Outcome (SettlementReport D) × Store D F)
      → ((a : A) → Accounts start (rest a))
      → Accounts {F = F} start (elim o [ raised e ↦ (raised e, no_rows) | ok a ↦ rest a ])
  Accounts-elim start (raised e) rest h = tt
  Accounts-elim start (ok a) rest h = h a

  settle_gathered-Accounts :
      IsExact d
      → (ports : Ports D F) (g : Gathered D F) → Accounts (opening ports) (settle_gathered ports g)
  settle_gathered-Accounts laws ports g =
      Accounts-elim (opening ports) (refresh_states ports g.1 [] 0) _ λ made.
        Accounts-elim (opening ports) (void_evidence_of ports made.0 g.0) _
          λ found. settle_planned-Accounts laws ports g made.0 made.1 found

  -- A run that returns has written a ledger: each row starts from the balance that the row before
  -- it left, the first from the opening balance, and adds its profit or loss; the last balance is
  -- the opening one plus the reported total; the bankroll entries are the rows' amounts and
  -- balances in order; as many rows as bets reported settled; and each eligible bet is settled or
  -- skipped. Sums are taken to be exact.
  pub settle_all-Accounts :
      IsExact d → (ports : Ports D F) → Accounts (opening ports) (settle_all ports)
  unfolding settle_all
  settle_all-Accounts laws ports = by_ids ports.initial_unsettled
    where
      by_ids :
          (ids : List ℕ)
          → Accounts {F = F} (opening ports) (elim ids [
            | [] ↦ (ok empty_report, no_rows)
            | i ∷ rest ↦ settle_gathered ports (gather ports (i ∷ rest) ([], []))
          ])
      by_ids [] = record {
        chain = sym (laws.add_zero (opening ports));
        matched = tt;
        counted = refl;
        eligible_counted = refl;
      }
      by_ids (i ∷ ids) = settle_gathered-Accounts laws ports (gather ports (i ∷ ids) ([], []))

  Returns-elim {ℓ} :
      {A : Type ℓ} (P : A → Type 0) (o : Outcome A)
      (rest : A → Outcome (SettlementReport D) × Store D F)
      → Gives P o
      → ((a : A) → o ≡ ok a → P a → Returns (rest a))
      → Returns {D = D} {F = F} (elim o [ raised e ↦ (raised e, no_rows) | ok a ↦ rest a ])
  Returns-elim P (raised e) rest g h = absurd g
  Returns-elim P (ok a) rest g h = h a refl g

  finish-Returns :
      (checked requests : ℕ) (deferred : Dict String) (o : Progress D F)
      → GoesOn o
      → Returns (finish checked requests deferred o)
  finish-Returns checked requests deferred (next t) h = tt
  finish-Returns checked requests deferred (failed e t) h = absurd h

  settle_planned-Returns :
      IsOrdered d
      → (ports : Ports D F) (g : Gathered D F) (states : Dict AuthoritativeSettlementState)
        (requests : ℕ) (found : Dict AuthoritativeVoidEvidence)
      → All (IsMade ports) states
      → AllEvidence found
      → All (λ c. is_some (lookup c.1.id states) ≡ true) g.0
      → Returns (settle_planned ports g states requests found)
  unfolding settle_planned
  settle_planned-Returns laws ports (cs, fixtures) states requests found made ev known =
      finish-Returns _ _ _ _
        (settle_loop-GoesOn laws ports states found ports.still_unsettled cs _ made ev known)

  settle_gathered-Returns :
      IsOrdered d
      → (ports : Ports D F) → IsAnswering ports
      → (g : Gathered D F) → IsGathered ports g
      → Returns (settle_gathered ports g)
  settle_gathered-Returns laws ports answers g ok_g =
      Returns-elim (λ _. Unit) (refresh_states ports g.1 [] 0) _
        (refresh_states-Gives ports answers g.1 [] 0)
        λ made e _.
          let facts =
            subst (Refreshed ports g.1 []) e (refresh_states-Refreshed ports g.1 [] 0 ok_g.0 tt) in
          let known = All-map (λ c k. facts.1 c.1.id (inl k)) g.0 ok_g.1 in
          Returns-elim AllEvidence (void_evidence_of ports made.0 g.0) _
            (void_evidence_of-Gives ports answers made.0 g.0 known)
            λ found _ ev. settle_planned-Returns laws ports g made.0 made.1 found facts.0 ev known

  -- If the feed answers and the evidence provider gives nothing or evidence for the bet that it
  -- is asked about, a run returns a report: no dictionary lookup, assertion or check of a
  -- settlement row fails, whatever the repositories hold. Decimals are taken to be ordered.
  pub settle_all-Returns :
      IsOrdered d → (ports : Ports D F) → IsAnswering ports → Returns (settle_all ports)
  unfolding settle_all
  settle_all-Returns laws ports answers = by_ids ports.initial_unsettled
    where
      by_ids :
          (ids : List ℕ)
          → Returns {D = D} {F = F} (elim ids [
            | [] ↦ (ok empty_report, no_rows)
            | i ∷ rest ↦ settle_gathered ports (gather ports (i ∷ rest) ([], []))
          ])
      by_ids [] = tt
      by_ids (i ∷ ids) =
          settle_gathered-Returns laws ports answers (gather ports (i ∷ ids) ([], []))
            (gather-IsGathered ports (i ∷ ids) ([], []) (tt, tt, tt))
