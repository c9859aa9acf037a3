-- ===== src/Settlement/Performance/Tests.antt =====
-- The figures over four settlements, in whole units.
use football_agent.Prelude.{ℕ, true, Option, none, some, List, [], ◌∷◌, ◌≡◌, refl, arith}
use football_agent.Prelude.Int.{ℤ, pos, negsuc, int_laws, ◌+ℤ◌, ◌-ℤ◌, leb_ℤ, -ℤ_parts}
use football_agent.Prelude.Number.{int_number, int-IsOrdered}
use football_agent.Domain.Entities.{Instant, SettlementResult}
use football_agent.Settlement.Performance.{SettledBet, BetFigures, calc_max_drawdown, update}
use football_agent.Settlement.Performance.Drawdown.{IsDifference}
use football_agent.Settlement.Performance.Report.{IsUpdate, update-IsUpdate}

sub_mono : (a b c : ℤ) → leb_ℤ a b ≡ true → leb_ℤ (a -ℤ c) (b -ℤ c) ≡ true
sub_mono a b c h = ground (arith, -ℤ_parts a c, -ℤ_parts b c)

int-IsDifference : IsDifference int_number
int-IsDifference = record { sub_self = λ a. omega int_laws; sub_mono = λ a b c h. sub_mono a b c h }

abbrev settled : SettlementResult → ℤ → SettledBet ℤ ℤ
settled r pl = record { value_bet_id = 1; result = r; profit_loss = pl; clv = none }

abbrev first_bet : SettledBet ℤ ℤ
first_bet = settled SettlementResult.win (pos 5)

abbrev other_bets : List (SettledBet ℤ ℤ)
other_bets =
    settled SettlementResult.loss (negsuc 2)
    ∷ settled SettlementResult.void (pos 0)
    ∷ settled SettlementResult.loss (negsuc 3)
    ∷ []

abbrev bets : ℕ → Option (BetFigures ℤ ℤ)
bets _ = some (record { expected_value = some (pos 1); stake = some (pos 2) })

abbrev noon : Instant
noon = record { tick = 1000; aware = true }

-- 5, 2, 2, -2: a fall of 7, and a void settlement lowers the share of the wins.
drawdown_of_four : calc_max_drawdown (pos 5 ∷ negsuc 2 ∷ pos 0 ∷ negsuc 3 ∷ []) ≡ some (pos 7)
unfolding calc_max_drawdown ◌+ℤ◌ ◌-ℤ◌
drawdown_of_four = refl

update-IsUpdate_example :
    IsUpdate
      (λ x. x)
      9
      []
      (first_bet ∷ other_bets)
      (update (λ x. x) bets noon 9 (first_bet ∷ other_bets) [])
update-IsUpdate_example =
    update-IsUpdate int-IsOrdered int-IsDifference (λ x. x) bets noon 9 (first_bet ∷ other_bets) []
