-- ===== src/Settlement/Performance.antt =====
-- app/services/performance_tracker.py: the figures over all settlements. Money is `Decimal`, the
-- other figures are `float`; `float(x)` is a parameter.
pub mod Drawdown
pub mod Report
mod Tests
use football_agent.Prelude.{
  ℕ, Bool, true, false, Option, none, some, List, [], ◌∷◌, ◌++◌, map, length, count, if◌then◌else◌,
}
use football_agent.Prelude.Number.{Number, nought}
use football_agent.Domain.Entities.{Instant, SettlementResult}

-- What is read of a settlement.
pub record SettledBet (D F : Type 0) : Type 0 where
  pub value_bet_id : ℕ
  pub result : SettlementResult
  pub profit_loss : D
  pub clv : Option F

-- What is read of its value bet: the expected value of its edge, the amount of its stake.
pub record BetFigures (D F : Type 0) : Type 0 where
  pub expected_value : Option F
  pub stake : Option D

-- `period_start`, a constant, is left out.
pub record PerformanceSnapshot (D F : Type 0) : Type 0 where
  pub period_end : Instant
  pub total_bets : ℕ
  pub win_count : ℕ
  pub push_count : ℕ
  pub loss_count : ℕ
  pub win_rate : Option F
  pub total_pl : D
  pub roi : Option F
  pub avg_ev : Option F
  pub avg_clv : Option F
  pub max_drawdown : Option F

-- `period_start` is left out here too.
pub record PerformanceReport (D F : Type 0) : Type 0 where
  pub period_end : Instant
  pub total_bets : ℕ
  pub win_count : ℕ
  pub push_count : ℕ
  pub loss_count : ℕ
  pub win_rate : Option F
  pub total_pl : D
  pub roi : Option F
  pub avg_ev : Option F
  pub avg_clv : Option F
  pub max_drawdown : Option F
  pub snapshot_id : Option ℕ

abbrev pub is_win : SettlementResult → Bool
is_win SettlementResult.win = true
is_win _ = false

abbrev pub is_push : SettlementResult → Bool
is_push SettlementResult.push = true
is_push _ = false

abbrev pub is_loss : SettlementResult → Bool
is_loss SettlementResult.loss = true
is_loss _ = false

-- `sum(xs, start)`
abbrev pub sum_from : {R : Type 0} ⦃n : Number R⦄ → R → List R → R
sum_from acc [] = acc
sum_from ⦃n⦄ acc (x ∷ xs) = sum_from (n.add acc x) xs

module _ {F : Type 0} ⦃f : Number F⦄ where
  -- The loop, from a peak, a running total and the largest fall so far.
  abbrev pub drawdown_loop : F → F → F → List F → F
  drawdown_loop peak cumulative max_dd [] = max_dd
  drawdown_loop peak cumulative max_dd (pl ∷ pls) =
      let total = f.add cumulative pl in
      let top = if f.lt peak total then total else peak in
      let dd = f.sub top total in
      drawdown_loop top total (if f.lt max_dd dd then dd else max_dd) pls

  unfoldable pub calc_max_drawdown : List F → Option F
  calc_max_drawdown [] = none
  calc_max_drawdown (pl ∷ pls) =
      let max_dd = drawdown_loop nought nought nought (pl ∷ pls) in
      some (if f.lt nought max_dd then max_dd else nought)

  -- `sum(xs) / len(xs) if xs else None`
  abbrev pub average : List F → Option F
  average [] = none
  average (x ∷ xs) = some (f.div (sum_from nought (x ∷ xs)) (f.of_nat (length (x ∷ xs))))

abbrev pub cons_some : {A : Type 0} → Option A → List A → List A
cons_some none xs = xs
cons_some (some x) xs = x ∷ xs

module _ {D F : Type 0} ⦃d : Number D⦄ ⦃f : Number F⦄ (to_float : D → F)
    (get : ℕ → Option (BetFigures D F)) where
  abbrev ev_of : Option (BetFigures D F) → Option F
  ev_of none = none
  ev_of (some b) = b.expected_value

  -- The value of a settlement's own line counts where its bet is found.
  abbrev clv_of : Option (BetFigures D F) → SettledBet D F → Option F
  clv_of none s = none
  clv_of (some b) s = s.clv

  abbrev stake_of : Option (BetFigures D F) → Option D
  stake_of none = none
  stake_of (some b) = b.stake

  abbrev evs : List (SettledBet D F) → List F
  evs [] = []
  evs (s ∷ ss) = cons_some (ev_of (get s.value_bet_id)) (evs ss)

  abbrev clvs : List (SettledBet D F) → List F
  clvs [] = []
  clvs (s ∷ ss) = cons_some (clv_of (get s.value_bet_id) s) (clvs ss)

  abbrev stakes : List (SettledBet D F) → List D
  stakes [] = []
  stakes (s ∷ ss) = cons_some (stake_of (get s.value_bet_id)) (stakes ss)

  abbrev return_on : D → D → Option F
  return_on total_pl total_stakes =
      if d.lt nought total_stakes then some (to_float (d.div total_pl total_stakes)) else none

  -- The snapshot that is stored and the report that is returned, each from the same figures.
  unfoldable pub snapshot_and_report :
      Instant → ℕ → List (SettledBet D F) → PerformanceSnapshot D F × PerformanceReport D F
  snapshot_and_report now new_id settled =
      let total = length settled in
      let wins = count (λ s. is_win s.result) settled in
      let pushes = count (λ s. is_push s.result) settled in
      let losses = count (λ s. is_loss s.result) settled in
      let win_rate = some (f.div (f.of_nat wins) (f.of_nat total)) in
      let pl_list = map (λ s. s.profit_loss) settled in
      let total_pl = sum_from nought pl_list in
      let avg_ev = average (evs settled) in
      let avg_clv = average (clvs settled) in
      let max_dd = calc_max_drawdown (map to_float pl_list) in
      let roi = return_on total_pl (sum_from nought (stakes settled)) in
      (
        record {
          period_end = now;
          total_bets = total;
          win_count = wins;
          push_count = pushes;
          loss_count = losses;
          win_rate = win_rate;
          total_pl = total_pl;
          roi = roi;
          avg_ev = avg_ev;
          avg_clv = avg_clv;
          max_drawdown = max_dd;
        },
        record {
          period_end = now;
          total_bets = total;
          win_count = wins;
          push_count = pushes;
          loss_count = losses;
          win_rate = win_rate;
          total_pl = total_pl;
          roi = roi;
          avg_ev = avg_ev;
          avg_clv = avg_clv;
          max_drawdown = max_dd;
          snapshot_id = some new_id;
        },
      )

  abbrev report_of_none : Instant → PerformanceReport D F
  report_of_none now = record {
    period_end = now;
    total_bets = 0;
    win_count = 0;
    push_count = 0;
    loss_count = 0;
    win_rate = none;
    total_pl = nought;
    roi = none;
    avg_ev = none;
    avg_clv = none;
    max_drawdown = none;
    snapshot_id = none;
  }

  -- With the snapshots that are stored; `new_id` is the id that the repository gives.
  unfoldable pub update :
      Instant
      → ℕ
      → List (SettledBet D F)
      → List (PerformanceSnapshot D F)
      → PerformanceReport D F × List (PerformanceSnapshot D F)
  update now new_id [] stored = (report_of_none now, stored)
  update now new_id (s ∷ ss) stored =
      let (snapshot, report) = snapshot_and_report now new_id (s ∷ ss) in
      (report, stored ++ (snapshot ∷ []))
