-- ===== src/Gates/MarketQuote/Admitted.antt =====
-- A market that is admitted has three quotes, and what stands behind them.
use football_agent.Prelude.{
  ℕ, String, Bool, true, not, List, [], ◌∷◌, ◌≤◌, ◌≡◌, arith, refl, All, All-map, keep, length, ltb,
  inl, inr,
}
use mathlib.Core.Path.{subst}
use football_agent.Prelude.Number.{Number}
use football_agent.Domain.Markets.{MarketType}
use football_agent.Domain.Entities.{Instant}
use football_agent.Settlement.Evidence.{Outcome, ok, raised}
use football_agent.Gates.MarketQuote.{
  OddsSnapshot, VerifiedMarketQuotePolicy, VerifiedMarketQuoteResult, is_match_result, is_verified,
  accepted, match_result_codes,
}
use football_agent.Gates.MarketQuote.Latest.{put_all, is_fresh, latest_by_selection_and_bookmaker}
use football_agent.Gates.MarketQuote.Service.{
  is_supported, evaluate_latest, check_times, evaluate_market, verify_supported, verify_snapshots,
  verify_answer, verify,
}
use football_agent.Gates.MarketQuote.Kept.{All-keep, put_all-All}
use football_agent.Gates.MarketQuote.Market.{guard-ok, Listed, Contributor}
use football_agent.Gates.MarketQuote.Verified.{Matched, evaluate_latest-Matched}
use football_agent.Gates.MarketQuote.Results.{failure-not-verified, after_evaluation_lem}

module _ {D F : Type 0} where
  Listed-cons :
      (t : OddsSnapshot D F) (ts ss : List (OddsSnapshot D F))
      → All (λ s. Listed s ts) ss
      → All (λ s. Listed s (t ∷ ts)) ss
  Listed-cons t ts ss h = All-map (λ s k. inr k) ss h

  All-both :
      (P Q : OddsSnapshot D F → Type 0) (ss : List (OddsSnapshot D F))
      → All P ss
      → All Q ss
      → All (λ s. P s × Q s) ss
  All-both P Q [] h k = tt
  All-both P Q (s ∷ ss) h k = ((h.0, k.0), All-both P Q ss h.1 k.1)

  All-Listed : (ss : List (OddsSnapshot D F)) → All (λ s. Listed s ss) ss
  All-Listed [] = tt
  All-Listed (s ∷ ss) = (inl refl, Listed-cons s ss ss (All-Listed ss))

is_match_result_lem : (m : MarketType) → is_match_result m ≡ true → m ≡ MarketType.match_result
is_match_result_lem MarketType.match_result h = refl
is_match_result_lem MarketType.double_chance h = absurd (cc h)
is_match_result_lem MarketType.over_under h = absurd (cc h)
is_match_result_lem MarketType.both_teams_to_score h = absurd (cc h)
is_match_result_lem MarketType.asian_handicap h = absurd (cc h)
is_match_result_lem MarketType.correct_score h = absurd (cc h)
is_match_result_lem MarketType.draw_no_bet h = absurd (cc h)

module _ {D F : Type 0} ⦃d : Number D⦄ (le_float : D → F → Bool)
    (p : VerifiedMarketQuotePolicy F) where
  check_times_lem :
      (as_of : ℕ) (ss : List (OddsSnapshot D F))
      → check_times le_float p as_of ss ≡ Outcome.ok tt
      → All (λ s. s.captured_at.tick ≤ as_of) ss
  check_times_lem as_of [] h = tt
  check_times_lem as_of (s ∷ ss) h =
      let aware = guard-ok (not s.captured_at.aware) _ _ tt h in
      let known = guard-ok (ltb as_of s.captured_at.tick) _ _ tt aware.1 in
      (ground (arith, known.0), check_times_lem as_of ss known.1)

  module _ (listing : List (OddsSnapshot D F)) (as_of : Instant) where
    abbrev Known : OddsSnapshot D F → Type 0
    Known s =
        Listed s listing
        × (s.captured_at.tick ≤ as_of.tick)
        × (s.selection.market ≡ MarketType.match_result)

    abbrev pub IsMarket : VerifiedMarketQuoteResult D F → Type 0
    IsMarket r =
        Matched le_float p (Contributor listing as_of.tick p.maximum_age) match_result_codes
          r.quotes
        × (r.issues ≡ [])

    Known-Contributor :
        (code : String) (s : OddsSnapshot D F)
        → Known s
        → s.selection.code ≡ code
        → is_fresh as_of.tick p.maximum_age s ≡ true
        → Contributor listing as_of.tick p.maximum_age code s
    Known-Contributor code s (listed, known, market) named fresh = record {
      listed = listed;
      market = market;
      named = named;
      known = known;
      fresh = ground (arith, fresh);
    }

    evaluate_market-IsMarket :
        (n : ℕ) (ss : List (OddsSnapshot D F)) (r : VerifiedMarketQuoteResult D F)
        → All Known ss
        → evaluate_market le_float p as_of n (latest_by_selection_and_bookmaker ss) ≡ Outcome.ok r
        → is_verified r.status ≡ true
        → IsMarket r
    unfolding latest_by_selection_and_bookmaker
    evaluate_market-IsMarket n ss r h e v =
        let latest = put_all ss [] in
        let found =
          after_evaluation_lem le_float p as_of n latest
            (evaluate_latest le_float p latest as_of.tick p.maximum_age match_result_codes) r e v in
        let quotes =
          evaluate_latest-Matched le_float p (Contributor listing as_of.tick p.maximum_age) Known
            latest as_of.tick p.maximum_age match_result_codes found.0 Known-Contributor
            (put_all-All Known ss [] h tt) found.1 found.2 in
        (
          subst
              (Matched le_float p (Contributor listing as_of.tick p.maximum_age) match_result_codes)
              found.3 quotes,
          found.4,
        )

    verify_supported-IsMarket :
        (n : ℕ) (ss : List (OddsSnapshot D F)) (r : VerifiedMarketQuoteResult D F)
        → All Known ss
        → verify_supported le_float p as_of n ss ≡ Outcome.ok r
        → is_verified r.status ≡ true
        → IsMarket r
    verify_supported-IsMarket n [] r h e v =
        let wrong = failure-not-verified _ as_of _ n 0 r refl e in absurd (cc (wrong, v))
    verify_supported-IsMarket n (s ∷ ss) r h e v = evaluate_market-IsMarket n (s ∷ ss) r h e v

  supported-Known :
      (as_of : Instant) (listing : List (OddsSnapshot D F))
      → All (λ s. s.captured_at.tick ≤ as_of.tick) listing
      → All (Known listing as_of) (keep (is_supported le_float p) listing)
  supported-Known as_of listing h =
      let supported = is_supported le_float p in
      All-map (λ s k. (k.0.0, k.0.1, is_match_result_lem s.selection.market (ground (arith, k.1))))
        (keep supported listing)
        (All-keep (λ s. Listed s listing × (s.captured_at.tick ≤ as_of.tick)) supported listing
          (All-both (λ s. Listed s listing) (λ s. s.captured_at.tick ≤ as_of.tick) listing
            (All-Listed listing) h))

  verify_snapshots-IsMarket :
      (as_of : Instant) (listing : List (OddsSnapshot D F)) (o : Outcome {0} Unit)
      (r : VerifiedMarketQuoteResult D F)
      → check_times le_float p as_of.tick listing ≡ o
      → verify_snapshots le_float p as_of listing o ≡ Outcome.ok r
      → is_verified r.status ≡ true
      → IsMarket listing as_of r
  verify_snapshots-IsMarket as_of listing (raised text) r c e v = absurd (cc e)
  verify_snapshots-IsMarket as_of [] (ok t) r c e v =
      let wrong = failure-not-verified _ as_of _ 0 0 r refl e in absurd (cc (wrong, v))
  verify_snapshots-IsMarket as_of (s ∷ ss) (ok t) r c e v =
      verify_supported-IsMarket (s ∷ ss) as_of (length (s ∷ ss))
        (keep (is_supported le_float p) (s ∷ ss)) r
        (supported-Known as_of (s ∷ ss) (check_times_lem as_of.tick (s ∷ ss) c)) e v

  verify_answer-IsMarket :
      (as_of : Instant) (o : Outcome (List (OddsSnapshot D F))) (r : VerifiedMarketQuoteResult D F)
      → verify_answer le_float p as_of o ≡ Outcome.ok r
      → is_verified r.status ≡ true
      → (listing : List (OddsSnapshot D F)) × (o ≡ Outcome.ok listing) × IsMarket listing as_of r
  verify_answer-IsMarket as_of (raised text) r e v = absurd (cc e)
  verify_answer-IsMarket as_of (ok listing) r e v = (
    listing,
    refl,
    verify_snapshots-IsMarket as_of listing (check_times le_float p as_of.tick listing) r refl e v,
  )

  -- A market that is verified has no issues and three quotes, for home, draw and away in this
  -- order; each repeats the price of a snapshot that the repository listed, and is backed by
  -- snapshots of its selection, as many as the policy asks for and of different bookmakers, that
  -- the repository listed, none later than the instant or older than the maximal age at it.
  pub verify-IsMarket :
      (list_by_fixture : ℕ → Instant → Outcome (List (OddsSnapshot D F))) (fixture_id : ℕ)
      (as_of : Instant) (r : VerifiedMarketQuoteResult D F)
      → verify le_float p list_by_fixture fixture_id as_of ≡ Outcome.ok r
      → accepted r ≡ true
      → (listing : List (OddsSnapshot D F)) × (list_by_fixture fixture_id as_of
          ≡ Outcome.ok listing)
        × IsMarket listing as_of r
  unfolding verify
  verify-IsMarket list_by_fixture fixture_id as_of r e v =
      let aware = guard-ok (not as_of.aware) _ _ r e in
      verify_answer-IsMarket as_of (list_by_fixture fixture_id as_of) r aware.1 v
