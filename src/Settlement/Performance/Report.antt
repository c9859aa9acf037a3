-- ===== src/Settlement/Performance/Report.antt =====
-- What an update of the performance figures reports and stores.
use football_agent.Prelude.{
  ℕ, suc, Bool, true, false, Option, none, some, List, [], ◌∷◌, ◌++◌, ◌≡◌, refl, map, length, count,
}
use football_agent.Prelude.Number.{Number, IsOrdered}
use football_agent.Domain.Entities.{Instant, SettlementResult, win, loss, push, void}
use football_agent.Settlement.Performance.{
  SettledBet, BetFigures, PerformanceSnapshot, PerformanceReport, is_win, is_push, is_loss,
  snapshot_and_report, update,
}
use football_agent.Settlement.Performance.Drawdown.{
  IsDifference, IsDrawdown, calc_max_drawdown-IsDrawdown,
}

-- Of the settlements these are wins, these pushes, these losses and these void.
pub data IsTally {D F : Type 0} : List (SettledBet D F) → ℕ → ℕ → ℕ → ℕ → Type 0 where
  no_bets : IsTally [] 0 0 0 0
  one_win :
      (s : SettledBet D F) (ss : List (SettledBet D F)) (w p l v : ℕ)
      → s.result ≡ SettlementResult.win
      → IsTally ss w p l v
      → IsTally (s ∷ ss) (suc w) p l v
  one_push :
      (s : SettledBet D F) (ss : List (SettledBet D F)) (w p l v : ℕ)
      → s.result ≡ SettlementResult.push
      → IsTally ss w p l v
      → IsTally (s ∷ ss) w (suc p) l v
  one_loss :
      (s : SettledBet D F) (ss : List (SettledBet D F)) (w p l v : ℕ)
      → s.result ≡ SettlementResult.loss
      → IsTally ss w p l v
      → IsTally (s ∷ ss) w p (suc l) v
  one_void :
      (s : SettledBet D F) (ss : List (SettledBet D F)) (w p l v : ℕ)
      → s.result ≡ SettlementResult.void
      → IsTally ss w p l v
      → IsTally (s ∷ ss) w p l (suc v)

abbrev is_void : SettlementResult → Bool
is_void SettlementResult.void = true
is_void _ = false

module _ {D F : Type 0} ⦃f : Number F⦄ where
  -- The figures of a report on some settlements, in the order that they are listed.
  pub record IsReport (to_float : D → F) (settled : List (SettledBet D F))
      (p : PerformanceReport D F) : Type 0 where
    pub voids : ℕ
    pub counted : IsTally settled p.win_count p.push_count p.loss_count voids
    pub all_listed : p.total_bets ≡ length settled
    pub drawdown :
        (d : F) × (p.max_drawdown ≡ some d)
        × IsDrawdown d (map to_float (map (λ s. s.profit_loss) settled))

  -- A snapshot has each figure of a report.
  pub record IsCopy (r : PerformanceReport D F) (p : PerformanceSnapshot D F) : Type 0 where
    pub same_end : p.period_end ≡ r.period_end
    pub same_total : p.total_bets ≡ r.total_bets
    pub same_wins : p.win_count ≡ r.win_count
    pub same_pushes : p.push_count ≡ r.push_count
    pub same_losses : p.loss_count ≡ r.loss_count
    pub same_rate : p.win_rate ≡ r.win_rate
    pub same_pl : p.total_pl ≡ r.total_pl
    pub same_roi : p.roi ≡ r.roi
    pub same_ev : p.avg_ev ≡ r.avg_ev
    pub same_clv : p.avg_clv ≡ r.avg_clv
    pub same_drawdown : p.max_drawdown ≡ r.max_drawdown

  counts-IsTally :
      (ss : List (SettledBet D F))
      → IsTally ss
          (count (λ s. is_win s.result) ss)
          (count (λ s. is_push s.result) ss)
          (count (λ s. is_loss s.result) ss)
          (count (λ s. is_void s.result) ss)
  counts-IsTally [] = IsTally.no_bets
  counts-IsTally (s ∷ ss) = by_result s.result refl (counts-IsTally ss)
    where
      by_result :
          (r : SettlementResult)
          → s.result ≡ r
          → IsTally ss
              (count (λ s. is_win s.result) ss)
              (count (λ s. is_push s.result) ss)
              (count (λ s. is_loss s.result) ss)
              (count (λ s. is_void s.result) ss)
          → IsTally
              (s ∷ ss)
              (count (λ s. is_win s.result) (s ∷ ss))
              (count (λ s. is_push s.result) (s ∷ ss))
              (count (λ s. is_loss s.result) (s ∷ ss))
              (count (λ s. is_void s.result) (s ∷ ss))
      by_result win e h = simp e (IsTally.one_win s ss _ _ _ _ e h)
      by_result loss e h = simp e (IsTally.one_loss s ss _ _ _ _ e h)
      by_result push e h = simp e (IsTally.one_push s ss _ _ _ _ e h)
      by_result void e h = simp e (IsTally.one_void s ss _ _ _ _ e h)

  abbrev pub IsUpdate :
      (D → F)
      → ℕ
      → List (PerformanceSnapshot D F)
      → List (SettledBet D F)
      → PerformanceReport D F × List (PerformanceSnapshot D F)
      → Type 0
  IsUpdate to_float new_id stored [] (report, snapshots) =
      (report.total_bets ≡ 0)
      × (report.max_drawdown ≡ none)
      × (report.snapshot_id ≡ none)
      × (snapshots ≡ stored)
  IsUpdate to_float new_id stored (s ∷ ss) (report, snapshots) =
      IsReport to_float (s ∷ ss) report
      × ((p : PerformanceSnapshot D F) × (snapshots ≡ stored ++ (p ∷ [])) × IsCopy report p)
      × (report.snapshot_id ≡ some new_id)

module _ {D F : Type 0} ⦃d : Number D⦄ ⦃f : Number F⦄ where
  -- Of floats that are ordered and subtracted as usual, an update over settlements reports as
  -- many wins, pushes and losses as there are, leaving out the void ones, the number of all, and
  -- as the drawdown the largest fall of the running total of their profits and losses, 0 if it
  -- never falls. It stores one snapshot, which has each figure reported. Without settlements it
  -- reports none and stores nothing.
  pub update-IsUpdate :
      IsOrdered f
      → IsDifference f
      → (to_float : D → F) (get : ℕ → Option (BetFigures D F)) (now : Instant) (new_id : ℕ)
        (settled : List (SettledBet D F)) (stored : List (PerformanceSnapshot D F))
      → IsUpdate to_float new_id stored settled (update to_float get now new_id settled stored)
  unfolding update snapshot_and_report
  update-IsUpdate laws diff to_float get now new_id [] stored = (refl, refl, refl, refl)
  update-IsUpdate laws diff to_float get now new_id (s ∷ ss) stored = (
    record {
      voids = count (λ t. is_void t.result) (s ∷ ss);
      counted = counts-IsTally (s ∷ ss);
      all_listed = refl;
      drawdown =
          calc_max_drawdown-IsDrawdown laws diff (to_float s.profit_loss)
            (map to_float (map (λ t. t.profit_loss) ss));
    },
    (
      _,
      refl,
      record {
        same_end = refl;
        same_total = refl;
        same_wins = refl;
        same_pushes = refl;
        same_losses = refl;
        same_rate = refl;
        same_pl = refl;
        same_roi = refl;
        same_ev = refl;
        same_clv = refl;
        same_drawdown = refl;
      },
    ),
    refl,
  )
