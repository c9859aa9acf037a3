-- ===== src/Gates/MarketMovement/Decided.antt =====
-- A market without issues is a verified one.
use football_agent.Prelude.{
  ℕ, Bool, true, not, ◌||◌, List, [], ◌∷◌, ◌==◌, ◌≡◌, sym, ap, ◌∙◌, arith, keep, length, ltb,
  Bool-cases, inl, inr,
}
use football_agent.Prelude.Number.{Number}
use football_agent.Domain.Entities.{Instant}
use football_agent.Settlement.Evidence.{Outcome, ok, raised}
use football_agent.Gates.MarketQuote.{
  OddsSnapshot, VerifiedMarketQuotePolicy, VerifiedMarketQuoteResult, is_verified, is_empty,
  match_result_codes, make_result, codes_eq, quote_codes,
}
use football_agent.Gates.MarketQuote.Latest.{Latest, latest_by_selection_and_bookmaker}
use football_agent.Gates.MarketQuote.Service.{
  Evaluation, is_supported, evaluate_latest, check_times, rejected_market, all_stale, after_older,
  after_evaluation, verify_supported, verify_snapshots, verify_answer, verify,
}
use football_agent.Gates.MarketQuote.Market.{guard-ok}

module _ {D F : Type 0} ⦃d : Number D⦄ where
  -- What came out of the constructor of a result.
  abbrev IsMade : VerifiedMarketQuoteResult D F → Type 0
  IsMade r = (t : VerifiedMarketQuoteResult D F) × (make_result t ≡ Outcome.ok r)

  IsMade-verified :
      (r : VerifiedMarketQuoteResult D F)
      → IsMade r
      → is_empty r.issues ≡ true
      → is_verified r.status ≡ true
  unfolding make_result
  IsMade-verified r (t, e) none_open =
      let aware = guard-ok (not t.as_of.aware) _ _ r e in
      let counts =
        guard-ok (ltb t.observed_snapshot_count t.eligible_snapshot_count) _ _ r aware.1 in
      elim (Bool-cases (is_verified t.status)) [
        | inl on ↦
            let three =
              guard-ok (not (length t.quotes == 3) || not (is_empty t.issues)) _ _ r
                (rw on at counts.1) in
            let codes =
              guard-ok (not (codes_eq (quote_codes t.quotes) match_result_codes)) _ _ r three.1 in
            let same : t ≡ r = cc codes.1 in ap (λ u. is_verified u.status) (sym same) ∙ on
        | inr off ↦
            let other =
              guard-ok (not (is_empty t.quotes) || is_empty t.issues) _ _ r (rw off at counts.1) in
            let same : t ≡ r = cc other.1 in
            let open_issues : is_empty t.issues ≡ true =
              ap (λ u. is_empty u.issues) same ∙ none_open in
            let shut = other.0 in absurd (ground arith)
      ]

module _ {D F : Type 0} ⦃d : Number D⦄ (le_float : D → F → Bool)
    (p : VerifiedMarketQuotePolicy F) where
  rejected_market-IsMade :
      (as_of : Instant) (n : ℕ) (latest : Latest D F) (e older : Evaluation D F)
      (r : VerifiedMarketQuoteResult D F)
      → rejected_market le_float p as_of n latest e older ≡ Outcome.ok r
      → IsMade r
  rejected_market-IsMade as_of n latest e older r h = elim (Bool-cases (is_empty older.issues)) [
    | inl on ↦ (_, rw on at h)
    | inr off ↦ elim (Bool-cases (all_stale le_float p as_of.tick latest)) [
      | inl stale ↦ (_, rw (off, stale) at h)
      | inr some_fresh ↦ (_, rw (off, some_fresh) at h)
    ]
  ]

  after_older-IsMade :
      (as_of : Instant) (n : ℕ) (latest : Latest D F) (e : Evaluation D F)
      (o : Outcome (Evaluation D F)) (r : VerifiedMarketQuoteResult D F)
      → after_older le_float p as_of n latest e o ≡ Outcome.ok r
      → IsMade r
  after_older-IsMade as_of n latest e (raised text) r h = absurd (cc h)
  after_older-IsMade as_of n latest e (ok older) r h =
      rejected_market-IsMade as_of n latest e older r h

  after_evaluation-IsMade :
      (as_of : Instant) (n : ℕ) (latest : Latest D F) (o : Outcome (Evaluation D F))
      (r : VerifiedMarketQuoteResult D F)
      → after_evaluation le_float p as_of n latest o ≡ Outcome.ok r
      → IsMade r
  after_evaluation-IsMade as_of n latest (raised text) r h = absurd (cc h)
  after_evaluation-IsMade as_of n latest (ok e) r h = elim (Bool-cases (is_empty e.issues)) [
    | inl on ↦ (_, rw on at h)
    | inr off ↦ after_older-IsMade as_of n latest e _ r (rw off at h)
  ]

  verify_supported-IsMade :
      (as_of : Instant) (n : ℕ) (ss : List (OddsSnapshot D F)) (r : VerifiedMarketQuoteResult D F)
      → verify_supported le_float p as_of n ss ≡ Outcome.ok r
      → IsMade r
  verify_supported-IsMade as_of n [] r h = (_, h)
  verify_supported-IsMade as_of n (s ∷ ss) r h =
      let latest = latest_by_selection_and_bookmaker (s ∷ ss) in
      after_evaluation-IsMade as_of n latest
        (evaluate_latest le_float p latest as_of.tick p.maximum_age match_result_codes) r h

  verify_snapshots-IsMade :
      (as_of : Instant) (ss : List (OddsSnapshot D F)) (o : Outcome {0} Unit)
      (r : VerifiedMarketQuoteResult D F)
      → verify_snapshots le_float p as_of ss o ≡ Outcome.ok r
      → IsMade r
  verify_snapshots-IsMade as_of ss (raised text) r h = absurd (cc h)
  verify_snapshots-IsMade as_of [] (ok _) r h = (_, h)
  verify_snapshots-IsMade as_of (s ∷ ss) (ok _) r h =
      verify_supported-IsMade as_of (length (s ∷ ss)) (keep (is_supported le_float p) (s ∷ ss)) r h

  verify_answer-IsMade :
      (as_of : Instant) (o : Outcome (List (OddsSnapshot D F))) (r : VerifiedMarketQuoteResult D F)
      → verify_answer le_float p as_of o ≡ Outcome.ok r
      → IsMade r
  verify_answer-IsMade as_of (raised text) r h = absurd (cc h)
  verify_answer-IsMade as_of (ok ss) r h =
      verify_snapshots-IsMade as_of ss (check_times le_float p as_of.tick ss) r h

  pub verify-decided :
      (list_by_fixture : ℕ → Instant → Outcome (List (OddsSnapshot D F))) (fixture_id : ℕ)
      (as_of : Instant) (r : VerifiedMarketQuoteResult D F)
      → verify le_float p list_by_fixture fixture_id as_of ≡ Outcome.ok r
      → is_empty r.issues ≡ true
      → is_verified r.status ≡ true
  unfolding verify
  verify-decided list_by_fixture fixture_id as_of r e =
      let aware = guard-ok (not as_of.aware) _ _ r e in
      IsMade-verified r (verify_answer-IsMade as_of (list_by_fixture fixture_id as_of) r aware.1)
