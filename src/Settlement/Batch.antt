-- ===== src/Settlement/Batch.antt =====
-- app/services/settlement.py, the second part of `SettlementService.settle_all`: the loop that
-- writes settlements and bankroll entries, and the report.
pub mod Rule
pub mod Ledger
pub mod Total
pub mod Closed
use football_agent.Prelude.{
  ℕ, ◌+◌, String, List, [], ◌∷◌, ◌++◌, Bool, true, false, not, Option, none, some, if◌then◌else◌,
  str_append, contains, length,
}
use football_agent.Prelude.Number.{Number, nought}
use football_agent.Prelude.Dict.{Dict, lookup}
use football_agent.Domain.Score.{Score}
use football_agent.Domain.Entities.{
  Fixture, ValueBet, Settlement, SettlementResult, make_settlement,
}
use football_agent.Settlement.State.{AuthoritativeSettlementState, can_settle}
use football_agent.Settlement.Resolve.{SettlementDetail, resolve}
use football_agent.Settlement.Evidence.{AuthoritativeVoidEvidence, Outcome, ok, raised, void_result}
use football_agent.Settlement.Ports.{EntryReason, BankrollEntry, SettlementReport, Ports, Store}
use football_agent.Settlement.Plan.{
  Candidate, Gathered, gather, refresh_states, void_evidence_of, deferred_of,
}

-- The variables of the loop, and the rows added so far.
pub record Tally (D F : Type 0) : Type 0 where
  pub store : Store D F
  pub running_balance : D
  pub details : List (SettlementDetail D)
  pub eligible : ℕ
  pub settled : ℕ
  pub skipped : ℕ

-- One round of the loop: it goes on, or an exception leaves it.
pub data Progress (D F : Type 0) : Type 0 where
  next : Tally D F → Progress D F
  failed : String → Tally D F → Progress D F

module _ {D : Type 0} ⦃d : Number D⦄ where
  abbrev pub row_of : SettlementDetail D → D → D → Settlement D
  row_of r before after = record {
    value_bet_id = r.value_bet_id;
    fixture_id = r.fixture_id;
    result = r.result;
    score_home = r.score_home;
    score_away = r.score_away;
    profit_loss = r.profit_loss;
    void_reason_code = r.void_reason_code;
    bankroll_before = before;
    bankroll_after = after;
  }

  -- `sum(... if item.settled, Decimal("0"))`, from the left.
  abbrev add_settled : D → SettlementDetail D → D
  add_settled acc r = if r.settled then d.add acc r.profit_loss else acc

  unfoldable pub total_pl_from : D → List (SettlementDetail D) → D
  total_pl_from acc [] = acc
  total_pl_from acc (r ∷ rs) = total_pl_from (add_settled acc r) rs

  -- `default_balance`
  abbrev pub default_balance : Option D → D
  default_balance none = nought
  default_balance (some m) = m

  abbrev pub empty_report : SettlementReport D
  empty_report = record {
    fixtures_checked = 0;
    bets_eligible = 0;
    bets_settled = 0;
    bets_skipped = 0;
    total_pl = nought;
    details = [];
    provider_requests = 0;
    deferred_fixtures = [];
  }

module _ {D F : Type 0} ⦃d : Number D⦄ where
  abbrev pub entry_of : ValueBet D F → SettlementDetail D → String → D → BankrollEntry D F
  entry_of bet r basis after = record {
    amount = r.profit_loss;
    balance_after = after;
    reason = record {
      fixture_id = r.fixture_id;
      market = bet.selection.market;
      code = bet.selection.code;
      line = bet.selection.line;
      result = r.result;
      basis = basis;
    };
  }

  abbrev pub skip_detail : SettlementDetail D → Tally D F → Tally D F
  skip_detail r t = record t { skipped = t.skipped + 1; details = t.details ++ (r ∷ []) }

  abbrev pub write_row :
      ValueBet D F → SettlementDetail D → String → Settlement D → D → Tally D F → Tally D F
  write_row bet r basis row after t = record {
    store = record {
      settlements = t.store.settlements ++ (row ∷ []);
      bankroll = t.store.bankroll ++ (entry_of bet r basis after ∷ []);
    };
    running_balance = after;
    details =
        t.details
        ++ (record r { bankroll_before = t.running_balance; bankroll_after = after } ∷ []);
    eligible = t.eligible;
    settled = t.settled + 1;
    skipped = t.skipped;
  }

  abbrev pub add_checked :
      ValueBet D F
      → SettlementDetail D
      → String
      → Option (Settlement D)
      → D
      → Tally D F
      → Progress D F
  add_checked bet r basis none after t = failed "ValueError" t
  add_checked bet r basis (some row) after t = next (write_row bet r basis row after t)

  -- What follows once the result is known: a skipped one is only reported.
  unfoldable pub record_result :
      ValueBet D F → SettlementDetail D → String → Tally D F → Progress D F
  record_result bet r basis t =
      if not r.settled
      then next (skip_detail r t)
      else let after = d.add t.running_balance r.profit_loss in
        add_checked bet r basis (make_settlement (row_of r t.running_balance after)) after t

  abbrev pub settle_scored :
      ⦃f : Number F⦄
      → ValueBet D F
      → Fixture
      → Option Score
      → Option String
      → Tally D F
      → Progress D F
  settle_scored bet fixture none basis t = failed "AssertionError" t
  settle_scored bet fixture (some score) none t = failed "AssertionError" t
  settle_scored bet fixture (some score) (some basis) t =
      record_result bet (resolve bet fixture score) basis t

  abbrev pub settle_by :
      ⦃f : Number F⦄
      → ValueBet D F
      → Fixture
      → AuthoritativeSettlementState
      → Option AuthoritativeVoidEvidence
      → Tally D F
      → Progress D F
  settle_by bet fixture state (some e) t =
      record_result bet (void_result bet fixture e) (str_append "authoritative_void:" e.reason_code)
        t
  settle_by bet fixture state none t =
      if not (can_settle state)
      then next (record t { skipped = t.skipped + 1 })
      else settle_scored bet fixture state.regulation_score state.score_basis t

  abbrev pub settle_in :
      ⦃f : Number F⦄
      → ValueBet D F
      → Fixture
      → Option AuthoritativeSettlementState
      → Option AuthoritativeVoidEvidence
      → Tally D F
      → Progress D F
  settle_in bet fixture none e t = failed "KeyError" t
  settle_in bet fixture (some state) e t = settle_by bet fixture state e t

module _ {D F : Type 0} ⦃d : Number D⦄ ⦃f : Number F⦄ where
  -- The body of the loop for one candidate.
  unfoldable pub settle_one :
      Dict AuthoritativeSettlementState
      → Dict AuthoritativeVoidEvidence
      → List ℕ
      → Candidate D F
      → Tally D F
      → Progress D F
  settle_one states found still (bet, fixture) t =
      if not (contains bet.id still)
      then next t
      else settle_in bet fixture (lookup fixture.id states) (lookup bet.id found)
          (record t { eligible = t.eligible + 1 })

  unfoldable pub settle_loop :
      Dict AuthoritativeSettlementState
      → Dict AuthoritativeVoidEvidence
      → List ℕ
      → List (Candidate D F)
      → Tally D F
      → Progress D F
  settle_loop states found still [] t = next t
  settle_loop states found still (c ∷ cs) t = elim (settle_one states found still c t) [
    | failed e t' ↦ failed e t'
    | next t' ↦ settle_loop states found still cs t'
  ]

module _ {D F : Type 0} ⦃d : Number D⦄ where
  abbrev pub no_rows : Store D F
  no_rows = record { settlements = []; bankroll = [] }

  abbrev pub start_tally : D → Tally D F
  start_tally balance = record {
    store = no_rows;
    running_balance = balance;
    details = [];
    eligible = 0;
    settled = 0;
    skipped = 0;
  }

  abbrev pub report_of : ℕ → ℕ → Dict String → Tally D F → SettlementReport D
  report_of checked requests deferred t = record {
    fixtures_checked = checked;
    bets_eligible = t.eligible;
    bets_settled = t.settled;
    bets_skipped = t.skipped;
    total_pl = total_pl_from nought t.details;
    details = t.details;
    provider_requests = requests;
    deferred_fixtures = deferred;
  }

  abbrev pub finish : ℕ → ℕ → Dict String → Progress D F → Outcome (SettlementReport D) × Store D F
  finish checked requests deferred (failed e t) = (raised e, t.store)
  finish checked requests deferred (next t) = (ok (report_of checked requests deferred t), t.store)

module _ {D F : Type 0} ⦃d : Number D⦄ ⦃f : Number F⦄ where
  -- The writing part, once the states and the evidence are there.
  unfoldable pub settle_planned :
      Ports D F
      → Gathered D F
      → Dict AuthoritativeSettlementState
      → ℕ
      → Dict AuthoritativeVoidEvidence
      → Outcome (SettlementReport D) × Store D F
  settle_planned ports (cs, fixtures) states requests found =
      finish (length fixtures) requests (deferred_of states cs found []) (
        settle_loop states found ports.still_unsettled cs
          (start_tally (ports.latest_balance (default_balance ports.initial_bankroll))))

  abbrev pub settle_gathered : Ports D F → Gathered D F → Outcome (SettlementReport D) × Store D F
  settle_gathered ports g = elim (refresh_states ports g.1 [] 0) [
    | raised e ↦ (raised e, no_rows)
    | ok (states, requests) ↦ elim (void_evidence_of ports states g.0) [
      | raised e ↦ (raised e, no_rows)
      | ok found ↦ settle_planned ports g states requests found
    ]
  ]

  unfoldable pub settle_all : Ports D F → Outcome (SettlementReport D) × Store D F
  settle_all ports = elim ports.initial_unsettled [
    | [] ↦ (ok empty_report, no_rows)
    | i ∷ ids ↦ settle_gathered ports (gather ports (i ∷ ids) ([], []))
  ]
