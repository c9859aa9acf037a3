-- ===== src/Settlement/Tests.antt =====
-- Runs of the settlement service on concrete data, with integers for the numbers.
use mathlib.Core.Path.{subst}
use mathlib.Core.Option.{some-injective}
use football_agent.Prelude.{
  ℕ, [], ◌∷◌, Bool, true, false, ◌≡◌, refl, Option, none, some, arith, ◌⊎◌, ◌↔◌, if◌then◌else◌,
  ◌==◌, ◌&&◌, str_eq, strip, upper, code_in, ◌≢◌,
}
use football_agent.Prelude.Int.{ℤ, pos, ◌+ℤ◌, ◌-ℤ◌, ◌*ℤ◌}
use football_agent.Prelude.Number.{int_number, int-IsExact, int-IsOrdered}
use football_agent.Domain.Score.{MatchResult, score_of, make_score, result}
use football_agent.Domain.Markets.{MarketType}
use football_agent.Domain.Entities.{
  Instant, MatchStatus, Fixture, ProviderFixture, ValueBet, make_settlement, check_void,
  check_played,
}
use football_agent.Settlement.State.{
  FixtureLifecycle, is_final, authoritative_state, refreshed_state, lifecycle_of, score_pair,
}
use football_agent.Settlement.State.Final.{
  lifecycle_of-final, regulation_score_iff, StateOf, IsCoherent, authoritative_state-IsCoherent,
}
use football_agent.Settlement.Resolve.{
  match_result_verdict, over_under_verdict, verdict_in, resolve, result_of,
}
use football_agent.Settlement.Resolve.Outcomes.{
  Wins, Loses, match_result_pays_one, Sides, over_under-Sides, Pays, Unpaid, resolve-Pays,
}
use football_agent.Settlement.Evidence.{
  AuthoritativeVoidEvidence, Outcome, ok, raised, make_evidence, opt_id_eq, validate_void_evidence,
}
use football_agent.Settlement.Ports.{Ports, SettlementReport}
use football_agent.Settlement.Plan.{
  gather, fixture_state, refresh_states, collect_evidence, void_evidence_of, deferred_of,
}
use football_agent.Settlement.Plan.Asked.{IsAnswering, IsFitting}
use football_agent.Settlement.Batch.{
  record_result, settle_one, settle_loop, total_pl_from, settle_planned, settle_all,
}
use football_agent.Settlement.Run.{
  opening, Accounts, settle_all-Accounts, Returns, settle_all-Returns,
}
use football_agent.Settlement.FailClosed.{AllGrounded, settle_all-AllGrounded}
use football_agent.Settlement.Once.{AtMostListed, settle_all-AtMostListed}

abbrev kickoff : Instant
kickoff = record { tick = 1000; aware = true }

-- A fixture known to the feed as "77".
abbrev derby : Fixture
derby = record {
  id = 7;
  home_team_id = 1;
  away_team_id = 2;
  kickoff = kickoff;
  status = MatchStatus.finished;
  score = none;
  external_id = some "77";
  external_source = some "api-football";
}

abbrev postponed_game : Fixture
postponed_game = record derby { id = 8; external_id = some "88" }

abbrev full_time : ProviderFixture
full_time = record {
  provider_id = "77";
  status = " ft ";
  home_score = some (pos 2);
  away_score = some (pos 1);
  regulation_home_score = none;
  regulation_away_score = none;
}

abbrev postponed_report : ProviderFixture
postponed_report = record full_time { provider_id = "88"; status = "PST" }

abbrev home_win : ValueBet ℤ ℤ
home_win = record {
  id = 100;
  fixture_id = 7;
  selection = record { market = MarketType.match_result; code = "home"; line = none };
  odds = pos 3;
  bookmaker_id = some 5;
  stake = some (pos 10);
}

abbrev under_two : ValueBet ℤ ℤ
under_two = record home_win {
  id = 101;
  selection = record { market = MarketType.over_under; code = "under"; line = some (pos 2) };
}

abbrev on_postponed : ValueBet ℤ ℤ
on_postponed = record home_win { id = 102; fixture_id = 8 }

abbrev raw_void : AuthoritativeVoidEvidence
raw_void = record {
  value_bet_id = 102;
  fixture_id = 8;
  reason_code = " postponed ";
  source = "bookmaker";
  evidence_reference = "ticket 1";
  bookmaker_id = some 5;
}

abbrev void_of : AuthoritativeVoidEvidence
void_of = record raw_void { reason_code = "postponed" }

-- The evidence that the provider gives on bet 102.
abbrev void_for : ValueBet ℤ ℤ → AuthoritativeVoidEvidence
void_for bet = record void_of { bookmaker_id = bet.bookmaker_id }

abbrev evidence_provider :
    ValueBet ℤ ℤ → Fixture → FixtureLifecycle → Outcome (Option AuthoritativeVoidEvidence)
evidence_provider bet fixture l =
    ok (if bet.id == 102 && fixture.id == 8 then some (void_for bet) else none)

void_made :
    (bet : ValueBet ℤ ℤ)
    → make_evidence (record raw_void { bookmaker_id = bet.bookmaker_id }) ≡ ok (void_for bet)
unfolding make_evidence strip
void_made bet = refl

opt_id_eq_self : (o : Option ℕ) → opt_id_eq o o ≡ true
opt_id_eq_self none = refl
opt_id_eq_self (some n) = ground arith

void_fits :
    (bet : ValueBet ℤ ℤ) (fixture : Fixture)
    → (bet.id == 102 && fixture.id == 8) ≡ true
    → validate_void_evidence (void_for bet) bet fixture ≡ ok tt
unfolding validate_void_evidence
void_fits bet fixture h = ground (arith, opt_id_eq_self bet.bookmaker_id)

fits :
    (bet : ValueBet ℤ ℤ) (fixture : Fixture) (l : FixtureLifecycle)
    → IsFitting bet fixture (evidence_provider bet fixture l)
fits bet fixture l = by_test (bet.id == 102 && fixture.id == 8) refl
  where
    by_test :
        (b : Bool)
        → (bet.id == 102 && fixture.id == 8) ≡ b
        → IsFitting bet fixture (ok (if b then some (void_for bet) else none))
    by_test true e = (
      (record raw_void { bookmaker_id = bet.bookmaker_id }, void_made bet),
      void_fits bet fixture e,
    )
    by_test false e = tt

abbrev bet_by_id : ℕ → Option (ValueBet ℤ ℤ)
bet_by_id i =
    if i == 100
    then some home_win
    else if i == 101
    then some under_two
    else if i == 102
    then some on_postponed
    else none

abbrev ports : Ports ℤ ℤ
ports = record {
  initial_unsettled = 100 ∷ 101 ∷ 102 ∷ 103 ∷ [];
  still_unsettled = 100 ∷ 101 ∷ 102 ∷ [];
  get_value_bet = bet_by_id;
  get_fixture = λ i. if i == 7 then some derby else if i == 8 then some postponed_game else none;
  provider_fixture = λ x. ok (if str_eq x "77" then some full_time else some postponed_report);
  void_evidence = some evidence_provider;
  initial_bankroll = some (pos 500);
  latest_balance = λ b. b;
}

answers : IsAnswering ports
answers = record {
  feed = λ x. tt;
  fits = λ ask e bet fixture l.
      subst (λ a. IsFitting bet fixture (a bet fixture l)) (some-injective _ _ e)
        (fits bet fixture l);
}

-- The total, the bets eligible and settled, and the provider requests.
abbrev summary : Outcome (SettlementReport ℤ) → ℤ × ℕ × ℕ × ℕ
summary (raised e) = (pos 0, 0, 0, 0)
summary (ok r) = (r.total_pl, r.bets_eligible, r.bets_settled, r.provider_requests)

-- The run settles a win, a loss and a VOID bet; the fourth listed bet is missing and is passed
-- over.
run_results : summary (settle_all ports).0 ≡ (pos 10, 3, 3, 2)
unfolding settle_all gather refresh_states fixture_state authoritative_state refreshed_state
    lifecycle_of score_pair make_score strip upper void_evidence_of collect_evidence
    validate_void_evidence settle_planned settle_loop settle_one record_result resolve verdict_in
    match_result_verdict over_under_verdict result_of make_settlement check_void check_played
    total_pl_from deferred_of ◌+ℤ◌ ◌-ℤ◌ ◌*ℤ◌
run_results = refl

lifecycle_of-final_example :
    is_final (lifecycle_of " ft ") ≡ code_in (upper (strip " ft ")) ("FT" ∷ "AET" ∷ "PEN" ∷ [])
lifecycle_of-final_example = lifecycle_of-final " ft "

regulation_score_iff_example :
    ((authoritative_state derby (some full_time)).regulation_score ≡ some (score_of 2 1))
    ↔ StateOf derby (some full_time) (score_of 2 1)
regulation_score_iff_example = regulation_score_iff derby (some full_time) (score_of 2 1)

authoritative_state-IsCoherent_example : IsCoherent (authoritative_state derby (some full_time))
authoritative_state-IsCoherent_example = authoritative_state-IsCoherent derby (some full_time)

match_result_pays_one_example :
    let v = match_result_verdict "draw" 2 1 in
    ((result (score_of 2 1) ≡ MatchResult.draw) × Wins v)
    ⊎ ((result (score_of 2 1) ≢ MatchResult.draw) × Loses v)
match_result_pays_one_example = match_result_pays_one (score_of 2 1) MatchResult.draw

over_under-Sides_example : Sides int-IsOrdered (pos 2) 3
over_under-Sides_example = over_under-Sides int-IsOrdered (pos 2) 3

resolve-Pays_example :
    let r = resolve home_win derby (score_of 2 1) in
    ((r.settled ≡ true) × Pays home_win (score_of 2 1) r)
    ⊎ ((r.settled ≡ false) × (r.profit_loss ≡ pos 0) × Unpaid home_win)
resolve-Pays_example = resolve-Pays home_win derby (score_of 2 1)

settle_all-Accounts_example : Accounts (opening ports) (settle_all ports)
settle_all-Accounts_example = settle_all-Accounts int-IsExact ports

settle_all-Returns_example : Returns (settle_all ports)
settle_all-Returns_example = settle_all-Returns int-IsOrdered ports answers

settle_all-AllGrounded_example : AllGrounded ports (settle_all ports)
settle_all-AllGrounded_example = settle_all-AllGrounded ports

named : (i : ℕ) (bet : ValueBet ℤ ℤ) → bet_by_id i ≡ some bet → bet.id ≡ i
named i bet h = ground arith

settle_all-AtMostListed_example : AtMostListed ports named 100 (settle_all ports)
settle_all-AtMostListed_example = settle_all-AtMostListed ports named 100
