-- ===== src/Settlement/Resolve/Outcomes.antt =====
-- What the markets pay, and that their selections exclude each other.
use football_agent.Prelude.{
  ℕ, String, true, false, ◌≡◌, ◌≢◌, refl, Option, none, some, arith, ◌⊎◌, inl, inr, Bool-cases,
}
use football_agent.Prelude.Number.{Number, nought, neg, IsOrdered}
use football_agent.Domain.Score.{Score, result, MatchResult}
use football_agent.Domain.Entities.{Fixture, ValueBet, SettlementResult}
use football_agent.Settlement.Resolve.{
  SettlementDetail, Verdict, match_result_verdict, btts_verdict, over_under_verdict, resolve,
  result_of, verdict, conclude, staked_result, profit_of,
}
use football_agent.Settlement.Resolve.Earned.{Earned, Unsettled, Told, verdict_in-Told}

-- The selection that a 1X2 result pays.
abbrev pub winning_code : MatchResult → String
winning_code MatchResult.home = "home"
winning_code MatchResult.draw = "draw"
winning_code MatchResult.away = "away"

abbrev pub Wins : Verdict → Type 0
Wins v = v ≡ Verdict.outcome SettlementResult.win

abbrev pub Loses : Verdict → Type 0
Loses v = v ≡ Verdict.outcome SettlementResult.loss

-- Of the three 1X2 selections the one that names the score's result wins, and each other loses.
pub match_result_pays_one :
    (score : Score) (m : MatchResult)
    → let v = match_result_verdict (winning_code m) score.home score.away in
      ((result score ≡ m) × Wins v) ⊎ ((result score ≢ m) × Loses v)
unfolding match_result_verdict result
match_result_pays_one score MatchResult.home = ground arith
match_result_pays_one score MatchResult.draw = ground arith
match_result_pays_one score MatchResult.away = ground arith

-- Exactly one of the two both-teams-to-score selections wins, and the other loses.
btts_complement :
    (home away : ℕ)
    → (Wins (btts_verdict "yes" home away) × Loses (btts_verdict "no" home away))
      ⊎ (Loses (btts_verdict "yes" home away) × Wins (btts_verdict "no" home away))
unfolding btts_verdict
btts_complement home away = ground arith

module _ {F : Type 0} ⦃f : Number F⦄ (laws : IsOrdered f) where
  -- How a total compares with a line, and what its two selections get.
  pub data Sides (line : F) (total : ℕ) : Type 0 where
    above :
        f.lt line (f.of_nat total) ≡ true
        → Wins (over_under_verdict "over" (some line) total)
        → Loses (over_under_verdict "under" (some line) total)
        → Sides line total
    below :
        f.lt (f.of_nat total) line ≡ true
        → Loses (over_under_verdict "over" (some line) total)
        → Wins (over_under_verdict "under" (some line) total)
        → Sides line total
    level :
        f.eq (f.of_nat total) line ≡ true
        → over_under_verdict "over" (some line) total ≡ Verdict.outcome SettlementResult.push
        → over_under_verdict "under" (some line) total ≡ Verdict.outcome SettlementResult.push
        → Sides line total

  -- For a line that is a number, over wins and under loses, or the other way round, or both are
  -- pushes, as the total is above, below or at the line.
  pub over_under-Sides : (line : F) (total : ℕ) → Sides line total
  unfolding over_under_verdict
  over_under-Sides line total =
      let t = f.of_nat total in
      let gt = laws.lt-eq-not-le line t in
      let lt = laws.lt-eq-not-le t line in
      let eq = laws.eq-eq-le t line in
      let total_order = laws.le_total t line in
      elim (Bool-cases (f.le t line)) [
        | inl low ↦ elim (Bool-cases (f.le line t)) [
          | inl high ↦ Sides.level (ground arith) (ground arith) (ground arith)
          | inr nothigh ↦ Sides.below (ground arith) (ground arith) (ground arith)
        ]
        | inr notlow ↦ Sides.above (ground arith) (ground arith) (ground arith)
      ]

-- What a settled bet of one market selection pays; nothing else is settled.
module _ {D F : Type 0} ⦃d : Number D⦄ ⦃f : Number F⦄ where
  -- The result is the one that the score means for the selection, with the score and the profit
  -- that belong to it.
  pub record Pays (bet : ValueBet D F) (score : Score) (r : SettlementDetail D) : Type 0 where
    pub amount : D
    pub staked : bet.stake ≡ some amount
    pub earned : Earned bet.selection.market bet.selection.code bet.selection.line score r.result
    pub home_given : r.score_home ≡ some score.home
    pub away_given : r.score_away ≡ some score.away
    pub paid :
        ((r.result ≡ SettlementResult.win)
          × (r.profit_loss ≡ d.mul amount (d.sub bet.odds (d.of_nat 1))))
        ⊎ ((r.result ≡ SettlementResult.push) × (r.profit_loss ≡ nought))
        ⊎ ((r.result ≡ SettlementResult.loss) × (r.profit_loss ≡ neg amount))

  -- Why a bet is left unsettled: it has no stake, or its market has no such selection.
  abbrev pub Unpaid : ValueBet D F → Type 0
  Unpaid bet =
      (bet.stake ≡ none) ⊎ Unsettled bet.selection.market bet.selection.code bet.selection.line

  abbrev Resolved : ValueBet D F → Score → SettlementDetail D → Type 0
  Resolved bet score r =
      ((r.settled ≡ true) × Pays bet score r)
      ⊎ ((r.settled ≡ false) × (r.profit_loss ≡ nought) × Unpaid bet)

  staked-Resolved :
      (bet : ValueBet D F) (fixture : Fixture) (score : Score) (r : SettlementResult)
      (stake : Option D)
      → Earned bet.selection.market bet.selection.code bet.selection.line score r
      → bet.stake ≡ stake
      → Resolved bet score (staked_result bet fixture score r stake)
  staked-Resolved bet fixture score r none e st = inr (refl, refl, inl st)
  staked-Resolved bet fixture score r (some a) e st = inl (
    refl,
    record {
      amount = a;
      staked = st;
      earned = e;
      home_given = refl;
      away_given = refl;
      paid = by_result r e;
    },
  )
    where
      by_result :
          (r : SettlementResult)
          → Earned bet.selection.market bet.selection.code bet.selection.line score r
          → ((r ≡ SettlementResult.win)
              × (profit_of r a bet.odds ≡ d.mul a (d.sub bet.odds (d.of_nat 1))))
            ⊎ ((r ≡ SettlementResult.push) × (profit_of r a bet.odds ≡ nought))
            ⊎ ((r ≡ SettlementResult.loss) × (profit_of r a bet.odds ≡ neg a))
      by_result SettlementResult.win e = inl (refl, refl)
      by_result SettlementResult.push e = inr (inl (refl, refl))
      by_result SettlementResult.loss e = inr (inr (refl, refl))
      by_result SettlementResult.void e = absurd e

  concluded-Resolved :
      (bet : ValueBet D F) (fixture : Fixture) (score : Score) (v : Verdict)
      → Told bet.selection.market bet.selection.code bet.selection.line score v
      → Resolved bet score (conclude bet fixture score v)
  unfolding result_of
  concluded-Resolved bet fixture score (Verdict.skipped why) e = inr (refl, refl, inr e)
  concluded-Resolved bet fixture score (Verdict.outcome r) e =
      staked-Resolved bet fixture score r bet.stake e refl

  -- A bet is marked as settled just when it has a stake and its selection is one that its market
  -- settles. It then has the result that the score means for the selection, and the score, and
  -- pays the stake times the odds less one, nothing, or minus the stake, as it wins, is a push, or
  -- loses.
  pub resolve-Pays :
      (bet : ValueBet D F) (fixture : Fixture) (score : Score)
      → let r = resolve bet fixture score in
        ((r.settled ≡ true) × Pays bet score r)
        ⊎ ((r.settled ≡ false) × (r.profit_loss ≡ nought) × Unpaid bet)
  unfolding resolve
  resolve-Pays bet fixture score =
      let s = bet.selection in
      concluded-Resolved bet fixture score (verdict s score)
        (verdict_in-Told s.market s.code s.line score)
