-- ===== src/Settlement/Resolve/Earned.antt =====
-- app/services/settlement.py: what a score means for a selection, said without the code's tests.
use football_agent.Prelude.{
  ◌+◌, String, true, false, Option, none, some, ◌≡◌, ◌≢◌, ◌<◌, ◌≤◌, ◌⊎◌, inl, inr, refl, arith,
  Bool-cases, str_eq,
}
use football_agent.Prelude.Text.{eq_iff}
use football_agent.Prelude.Number.{Number}
use football_agent.Domain.Score.{Score}
use football_agent.Domain.Markets.{MarketType}
use football_agent.Domain.Entities.{SettlementResult}
use football_agent.Settlement.Resolve.{
  Verdict, match_result_verdict, btts_verdict, over_under_verdict, verdict_in,
}

module _ {F : Type 0} ⦃f : Number F⦄ where
  -- The selection wins at this score.
  abbrev pub Won : MarketType → String → Option F → Score → Type 0
  Won MarketType.match_result code line s =
      ((code ≡ "home") × (s.away < s.home))
      ⊎ ((code ≡ "draw") × (s.home ≡ s.away))
      ⊎ ((code ≡ "away") × (s.home < s.away))
  Won MarketType.over_under code line s =
      (x : F) × (line ≡ some x)
      × (((code ≡ "over") × (f.lt x (f.of_nat (s.home + s.away)) ≡ true))
          ⊎ ((code ≡ "under") × (f.lt (f.of_nat (s.home + s.away)) x ≡ true)))
  Won MarketType.both_teams_to_score code line s =
      ((code ≡ "yes") × (0 < s.home) × (0 < s.away))
      ⊎ ((code ≡ "no") × ((s.home ≡ 0) ⊎ (s.away ≡ 0)))
  Won MarketType.double_chance code line s = ⊥
  Won MarketType.asian_handicap code line s = ⊥
  Won MarketType.correct_score code line s = ⊥
  Won MarketType.draw_no_bet code line s = ⊥

  -- The total of goals is at the line.
  abbrev pub Pushed : MarketType → String → Option F → Score → Type 0
  Pushed MarketType.over_under code line s =
      (x : F) × (line ≡ some x)
      × ((code ≡ "over") ⊎ (code ≡ "under"))
      × (f.eq (f.of_nat (s.home + s.away)) x ≡ true)
  Pushed MarketType.match_result code line s = ⊥
  Pushed MarketType.both_teams_to_score code line s = ⊥
  Pushed MarketType.double_chance code line s = ⊥
  Pushed MarketType.asian_handicap code line s = ⊥
  Pushed MarketType.correct_score code line s = ⊥
  Pushed MarketType.draw_no_bet code line s = ⊥

  -- The selection loses at this score.
  abbrev pub Lost : MarketType → String → Option F → Score → Type 0
  Lost MarketType.match_result code line s =
      ((code ≡ "home") × (s.home ≤ s.away))
      ⊎ ((code ≡ "draw") × (s.home ≢ s.away))
      ⊎ ((code ≡ "away") × (s.away ≤ s.home))
  Lost MarketType.over_under code line s =
      (x : F) × (line ≡ some x)
      × (f.eq (f.of_nat (s.home + s.away)) x ≡ false)
      × (((code ≡ "over") × (f.lt x (f.of_nat (s.home + s.away)) ≡ false))
          ⊎ ((code ≡ "under") × (f.lt (f.of_nat (s.home + s.away)) x ≡ false)))
  Lost MarketType.both_teams_to_score code line s =
      ((code ≡ "yes") × ((s.home ≡ 0) ⊎ (s.away ≡ 0)))
      ⊎ ((code ≡ "no") × (0 < s.home) × (0 < s.away))
  Lost MarketType.double_chance code line s = ⊥
  Lost MarketType.asian_handicap code line s = ⊥
  Lost MarketType.correct_score code line s = ⊥
  Lost MarketType.draw_no_bet code line s = ⊥

  -- There is no such selection, or none that is settled.
  abbrev pub Unsettled : MarketType → String → Option F → Type 0
  Unsettled MarketType.match_result code line = (code ≢ "home") × (code ≢ "draw") × (code ≢ "away")
  Unsettled MarketType.over_under code line = (line ≡ none) ⊎ ((code ≢ "over") × (code ≢ "under"))
  Unsettled MarketType.both_teams_to_score code line = (code ≢ "yes") × (code ≢ "no")
  Unsettled MarketType.double_chance code line = Unit
  Unsettled MarketType.asian_handicap code line = Unit
  Unsettled MarketType.correct_score code line = Unit
  Unsettled MarketType.draw_no_bet code line = Unit

  -- The result of a selection, or that it has none.
  abbrev pub Earned : MarketType → String → Option F → Score → SettlementResult → Type 0
  Earned m code line s SettlementResult.win = Won m code line s
  Earned m code line s SettlementResult.push = Pushed m code line s
  Earned m code line s SettlementResult.loss = Lost m code line s
  Earned m code line s SettlementResult.void = ⊥

  abbrev pub Told : MarketType → String → Option F → Score → Verdict → Type 0
  Told m code line s (Verdict.outcome r) = Earned m code line s r
  Told m code line s (Verdict.skipped why) = Unsettled m code line

  match_result_verdict-Told :
      (code : String) (line : Option F) (s : Score)
      → Told MarketType.match_result code line s (match_result_verdict code s.home s.away)
  unfolding match_result_verdict
  match_result_verdict-Told code line s =
      let h = eq_iff code "home" in
      let d = eq_iff code "draw" in let a = eq_iff code "away" in ground arith

  btts_verdict-Told :
      (code : String) (line : Option F) (s : Score)
      → Told MarketType.both_teams_to_score code line s (btts_verdict code s.home s.away)
  unfolding btts_verdict
  btts_verdict-Told code line s =
      let y = eq_iff code "yes" in let n = eq_iff code "no" in ground arith

  over_under_verdict-Told :
      (code : String) (line : Option F) (s : Score)
      → Told MarketType.over_under code line s (over_under_verdict code line (s.home + s.away))
  unfolding over_under_verdict
  over_under_verdict-Told code none s = inl refl
  over_under_verdict-Told code (some x) s =
      let o = eq_iff code "over" in
      let u = eq_iff code "under" in
      elim (Bool-cases (str_eq code "over")) [
        | inl e ↦ elim (Bool-cases (f.lt x (f.of_nat (s.home + s.away)))) [
          | inl k ↦ rw (e, k) (x, refl, inl (o.0 e, k))
          | inr k ↦ elim (Bool-cases (f.eq (f.of_nat (s.home + s.away)) x)) [
            | inl q ↦ rw (e, k, q) (x, refl, inl (o.0 e), q)
            | inr q ↦ rw (e, k, q) (x, refl, q, inl (o.0 e, k))
          ]
        ]
        | inr e ↦ elim (Bool-cases (str_eq code "under")) [
          | inl e' ↦ elim (Bool-cases (f.lt (f.of_nat (s.home + s.away)) x)) [
            | inl k ↦ rw (e, e', k) (x, refl, inr (u.0 e', k))
            | inr k ↦ elim (Bool-cases (f.eq (f.of_nat (s.home + s.away)) x)) [
              | inl q ↦ rw (e, e', k, q) (x, refl, inr (u.0 e'), q)
              | inr q ↦ rw (e, e', k, q) (x, refl, q, inr (u.0 e', k))
            ]
          ]
          | inr e' ↦ rw (e, e') (inr (ground arith))
        ]
      ]

  pub verdict_in-Told :
      (m : MarketType) (code : String) (line : Option F) (s : Score)
      → Told m code line s (verdict_in m code line s)
  unfolding verdict_in
  verdict_in-Told MarketType.match_result code line s = match_result_verdict-Told code line s
  verdict_in-Told MarketType.over_under code line s = over_under_verdict-Told code line s
  verdict_in-Told MarketType.both_teams_to_score code line s = btts_verdict-Told code line s
  verdict_in-Told MarketType.double_chance code line s = tt
  verdict_in-Told MarketType.asian_handicap code line s = tt
  verdict_in-Told MarketType.correct_score code line s = tt
  verdict_in-Told MarketType.draw_no_bet code line s = tt
