-- ===== src/Gates/MarketQuote/Service.antt =====
-- app/services/verified_market_quote.py: `VerifiedMarketQuoteService.verify`.
use football_agent.Prelude.{
  ℕ, String, Bool, ◌&&◌, not, Option, none, some, List, [], ◌∷◌, ◌+◌, ltb, any, keep, length, map,
  if◌then◌else◌,
}
use football_agent.Prelude.Number.{Number}
use football_agent.Domain.Entities.{Instant}
use football_agent.Settlement.Evidence.{Outcome, ok, raised}
use football_agent.Gates.MarketQuote.{
  OddsSnapshot, MarketQuoteVerificationStatus, MarketQuoteRejectionReason, MarketQuoteIssue,
  VerifiedMarketQuotePolicy, VerifiedSelectionQuote, VerifiedMarketQuoteResult, match_result_codes,
  is_match_result, code_in_codes, is_empty, make_result, failure,
}
use football_agent.Gates.MarketQuote.Latest.{
  Latest, of_code, is_fresh, latest_by_selection_and_bookmaker,
}
use football_agent.Gates.MarketQuote.Quote.{abs_of, median, build_quote}

-- What one selection comes to, with the number of its eligible snapshots.
pub data Judged (D F : Type 0) : Type 0 where
  refused : MarketQuoteIssue → ℕ → Judged D F
  quoted : VerifiedSelectionQuote D F → ℕ → Judged D F

pub record Evaluation (D F : Type 0) : Type 0 where
  pub quotes : List (VerifiedSelectionQuote D F)
  pub issues : List MarketQuoteIssue
  pub eligible_count : ℕ

abbrev issue : MarketQuoteRejectionReason → Option String → MarketQuoteIssue
issue reason code = record { reason = reason; selection_code = code }

module _ {D F : Type 0} ⦃d : Number D⦄ (le_float : D → F → Bool)
    (p : VerifiedMarketQuotePolicy F) where
  abbrev pub is_near : D → OddsSnapshot D F → Bool
  is_near consensus s =
      le_float (d.div (abs_of (d.sub s.odds consensus)) consensus) p.maximum_relative_deviation

  abbrev pub judged_quote : ℕ → Outcome (VerifiedSelectionQuote D F) → Outcome (Judged D F)
  judged_quote n (raised text) = Outcome.raised text
  judged_quote n (ok q) = Outcome.ok (Judged.quoted q n)

  abbrev refuse : MarketQuoteRejectionReason → String → ℕ → Outcome (Judged D F)
  refuse reason code n = Outcome.ok (Judged.refused (issue reason (some code)) n)

  abbrev pub judge_kept : String → List (OddsSnapshot D F) → Outcome (Judged D F)
  judge_kept code [] = refuse MarketQuoteRejectionReason.outlier_filter_empty code 0
  judge_kept code (s ∷ ss) =
      let n = length (s ∷ ss) in
      if ltb n p.minimum_bookmakers
      then refuse MarketQuoteRejectionReason.insufficient_bookmakers code n
      else judged_quote n (build_quote (s ∷ ss))

  abbrev pub judge_fresh : String → List (OddsSnapshot D F) → Outcome (Judged D F)
  judge_fresh code [] = refuse MarketQuoteRejectionReason.stale_selection code 0
  judge_fresh code (s ∷ ss) =
      judge_kept code (keep (is_near (median s.odds (map (λ t. t.odds) ss))) (s ∷ ss))

  abbrev pub judge_selection : String → ℕ → ℕ → List (OddsSnapshot D F) → Outcome (Judged D F)
  judge_selection code as_of age [] = refuse MarketQuoteRejectionReason.missing_selection code 0
  judge_selection code as_of age (s ∷ ss) = judge_fresh code (keep (is_fresh as_of age) (s ∷ ss))

  abbrev pub add_judged : Outcome (Judged D F) → Outcome (Evaluation D F) → Outcome (Evaluation D F)
  add_judged (raised text) rest = Outcome.raised text
  add_judged (ok j) (raised text) = Outcome.raised text
  add_judged (ok (Judged.refused i n)) (ok e) =
      Outcome.ok (record e { issues = i ∷ e.issues; eligible_count = n + e.eligible_count })
  add_judged (ok (Judged.quoted q n)) (ok e) =
      Outcome.ok (record e { quotes = q ∷ e.quotes; eligible_count = n + e.eligible_count })

  -- The loop over the codes.
  unfoldable pub evaluate_latest : Latest D F → ℕ → ℕ → List String → Outcome (Evaluation D F)
  evaluate_latest latest as_of age [] =
      Outcome.ok (record { quotes = []; issues = []; eligible_count = 0 })
  evaluate_latest latest as_of age (code ∷ codes) =
      add_judged (judge_selection code as_of age (of_code code latest))
        (evaluate_latest latest as_of age codes)

  abbrev pub is_supported : OddsSnapshot D F → Bool
  is_supported s =
      is_match_result s.selection.market && code_in_codes s.selection.code match_result_codes

  -- `any(snapshot.captured_at > as_of ...)`: an instant without a time zone cannot be compared.
  abbrev pub check_times : ℕ → List (OddsSnapshot D F) → Outcome {0} Unit
  check_times as_of [] = Outcome.ok tt
  check_times as_of (s ∷ ss) =
      if not s.captured_at.aware
      then Outcome.raised "can't compare offset-naive and offset-aware datetimes"
      else if ltb as_of s.captured_at.tick
      then Outcome.raised "repository returned a snapshot later than as_of"
      else check_times as_of ss

  abbrev pub all_stale : ℕ → Latest D F → Bool
  all_stale as_of latest = not (any (λ e. is_fresh as_of p.preliminary_maximum_age e.1) latest)

  abbrev one_issue : MarketQuoteRejectionReason → List MarketQuoteIssue
  one_issue reason = issue reason none ∷ []

  -- What a market that is not admitted comes to, from its look with the longer age.
  abbrev pub rejected_market :
      Instant
      → ℕ
      → Latest D F
      → Evaluation D F
      → Evaluation D F
      → Outcome (VerifiedMarketQuoteResult D F)
  rejected_market as_of observed latest e older =
      if is_empty older.issues
      then failure MarketQuoteVerificationStatus.preliminary as_of
          (one_issue MarketQuoteRejectionReason.preliminary_only) observed e.eligible_count
      else if all_stale as_of.tick latest
      then failure MarketQuoteVerificationStatus.too_stale as_of
          (one_issue MarketQuoteRejectionReason.odds_too_stale) observed e.eligible_count
      else failure MarketQuoteVerificationStatus.rejected as_of e.issues observed e.eligible_count

  abbrev pub after_older :
      Instant
      → ℕ
      → Latest D F
      → Evaluation D F
      → Outcome (Evaluation D F)
      → Outcome (VerifiedMarketQuoteResult D F)
  after_older as_of observed latest e (raised text) = Outcome.raised text
  after_older as_of observed latest e (ok older) = rejected_market as_of observed latest e older

  abbrev verified_result : Instant → ℕ → Evaluation D F → Outcome (VerifiedMarketQuoteResult D F)
  verified_result as_of observed e = make_result (record {
    status = MarketQuoteVerificationStatus.verified;
    as_of = as_of;
    quotes = e.quotes;
    issues = [];
    observed_snapshot_count = observed;
    eligible_snapshot_count = e.eligible_count;
  })

  abbrev pub after_evaluation :
      Instant → ℕ → Latest D F → Outcome (Evaluation D F) → Outcome (VerifiedMarketQuoteResult D F)
  after_evaluation as_of observed latest (raised text) = Outcome.raised text
  after_evaluation as_of observed latest (ok e) =
      if is_empty e.issues
      then verified_result as_of observed e
      else after_older as_of observed latest e
          (evaluate_latest latest as_of.tick p.preliminary_maximum_age match_result_codes)

  abbrev pub evaluate_market : Instant → ℕ → Latest D F → Outcome (VerifiedMarketQuoteResult D F)
  evaluate_market as_of observed latest =
      after_evaluation as_of observed latest
        (evaluate_latest latest as_of.tick p.maximum_age match_result_codes)

  abbrev pub verify_supported :
      Instant → ℕ → List (OddsSnapshot D F) → Outcome (VerifiedMarketQuoteResult D F)
  verify_supported as_of observed [] =
      failure MarketQuoteVerificationStatus.not_found as_of
        (one_issue MarketQuoteRejectionReason.no_supported_market) observed 0
  verify_supported as_of observed (s ∷ ss) =
      evaluate_market as_of observed (latest_by_selection_and_bookmaker (s ∷ ss))

  abbrev pub verify_snapshots :
      Instant → List (OddsSnapshot D F) → Outcome {0} Unit → Outcome (VerifiedMarketQuoteResult D F)
  verify_snapshots as_of snapshots (raised text) = Outcome.raised text
  verify_snapshots as_of [] (ok _) =
      failure MarketQuoteVerificationStatus.not_found as_of
        (one_issue MarketQuoteRejectionReason.no_snapshots) 0 0
  verify_snapshots as_of (s ∷ ss) (ok _) =
      verify_supported as_of (length (s ∷ ss)) (keep is_supported (s ∷ ss))

  abbrev pub verify_answer :
      Instant → Outcome (List (OddsSnapshot D F)) → Outcome (VerifiedMarketQuoteResult D F)
  verify_answer as_of (raised text) = Outcome.raised text
  verify_answer as_of (ok snapshots) =
      verify_snapshots as_of snapshots (check_times as_of.tick snapshots)

  -- The repository's `list_by_fixture` is a parameter.
  unfoldable pub verify :
      (ℕ → Instant → Outcome (List (OddsSnapshot D F)))
      → ℕ
      → Instant
      → Outcome (VerifiedMarketQuoteResult D F)
  verify list_by_fixture fixture_id as_of =
      if not as_of.aware
      then Outcome.raised "as_of must be timezone-aware"
      else verify_answer as_of (list_by_fixture fixture_id as_of)
