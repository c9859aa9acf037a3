-- ===== src/Gates/MarketQuote/Results.antt =====
-- What a verified result comes of.
use football_agent.Prelude.{
  ℕ, Bool, true, false, not, ◌||◌, List, [], ◌≡◌, ◌==◌, refl, length, ltb, Bool-cases, inl, inr,
}
use mathlib.Core.Path.{subst, sym, ap}
use football_agent.Prelude.Number.{Number}
use football_agent.Domain.Entities.{Instant}
use football_agent.Settlement.Evidence.{Outcome, ok, raised}
use football_agent.Gates.MarketQuote.{
  MarketQuoteVerificationStatus, VerifiedMarketQuotePolicy, VerifiedMarketQuoteResult, is_verified,
  match_result_codes, MarketQuoteIssue, make_result, codes_eq, quote_codes, is_empty, failure,
}
use football_agent.Gates.MarketQuote.Latest.{Latest}
use football_agent.Gates.MarketQuote.Service.{
  Evaluation, evaluate_latest, rejected_market, all_stale, after_older, after_evaluation,
}
use football_agent.Gates.MarketQuote.Market.{guard-ok}

module _ {D F : Type 0} ⦃d : Number D⦄ where
  make_result_lem : (r t : VerifiedMarketQuoteResult D F) → make_result r ≡ Outcome.ok t → r ≡ t
  unfolding make_result
  make_result_lem r t h =
      let aware = guard-ok (not r.as_of.aware) _ _ t h in
      let counts =
        guard-ok (ltb r.observed_snapshot_count r.eligible_snapshot_count) _ _ t aware.1 in
      elim (Bool-cases (is_verified r.status)) [
        | inl on ↦
            let three =
              guard-ok (not (length r.quotes == 3) || not (is_empty r.issues)) _ _ t
                (rw on at counts.1) in
            let codes =
              guard-ok (not (codes_eq (quote_codes r.quotes) match_result_codes)) _ _ t three.1 in
            cc codes.1
        | inr off ↦
            let other =
              guard-ok (not (is_empty r.quotes) || is_empty r.issues) _ _ t (rw off at counts.1) in
            cc other.1
      ]

  -- A failure is not a verified market.
  pub failure-not-verified :
      (status : MarketQuoteVerificationStatus) (as_of : Instant) (issues : List MarketQuoteIssue)
      (m n : ℕ) (t : VerifiedMarketQuoteResult D F)
      → is_verified status ≡ false
      → failure status as_of issues m n ≡ Outcome.ok t
      → is_verified t.status ≡ false
  failure-not-verified status as_of issues m n t h e =
      subst (λ r. is_verified r.status ≡ false) (make_result_lem _ t e) h

module _ {D F : Type 0} ⦃d : Number D⦄ (le_float : D → F → Bool)
    (p : VerifiedMarketQuotePolicy F) where
  rejected_market-not-verified :
      (as_of : Instant) (n : ℕ) (latest : Latest D F) (e older : Evaluation D F)
      (r : VerifiedMarketQuoteResult D F)
      → rejected_market le_float p as_of n latest e older ≡ Outcome.ok r
      → is_verified r.status ≡ false
  rejected_market-not-verified as_of n latest e older r h =
      elim (Bool-cases (is_empty older.issues)) [
        | inl on ↦ failure-not-verified _ as_of _ n _ r refl (rw on at h)
        | inr off ↦ elim (Bool-cases (all_stale le_float p as_of.tick latest)) [
          | inl stale ↦ failure-not-verified _ as_of _ n _ r refl (rw (off, stale) at h)
          | inr some_fresh ↦ failure-not-verified _ as_of _ n _ r refl (rw (off, some_fresh) at h)
        ]
      ]

  after_older-not-verified :
      (as_of : Instant) (n : ℕ) (latest : Latest D F) (e : Evaluation D F)
      (o : Outcome (Evaluation D F)) (r : VerifiedMarketQuoteResult D F)
      → after_older le_float p as_of n latest e o ≡ Outcome.ok r
      → is_verified r.status ≡ false
  after_older-not-verified as_of n latest e (raised text) r h = absurd (cc h)
  after_older-not-verified as_of n latest e (ok older) r h =
      rejected_market-not-verified as_of n latest e older r h

  -- A verified result comes of an evaluation without issues.
  pub after_evaluation_lem :
      (as_of : Instant) (n : ℕ) (latest : Latest D F) (o : Outcome (Evaluation D F))
      (r : VerifiedMarketQuoteResult D F)
      → after_evaluation le_float p as_of n latest o ≡ Outcome.ok r
      → is_verified r.status ≡ true
      → (e : Evaluation D F) × (o ≡ Outcome.ok e)
        × (is_empty e.issues ≡ true)
        × (e.quotes ≡ r.quotes)
        × (r.issues ≡ [])
  after_evaluation_lem as_of n latest (raised text) r h v = absurd (cc h)
  after_evaluation_lem as_of n latest (ok e) r h v = elim (Bool-cases (is_empty e.issues)) [
    | inl on ↦
        let same = make_result_lem _ r (rw on at h) in
        (e, refl, on, ap (λ t. t.quotes) same, sym (ap (λ t. t.issues) same))
    | inr off ↦
        let wrong =
          after_older-not-verified as_of n latest e
            (evaluate_latest le_float p latest as_of.tick p.preliminary_maximum_age
              match_result_codes)
            r (rw off at h) in
        absurd (cc (wrong, v))
  ]
