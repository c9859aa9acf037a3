-- ===== src/Gates/MarketQuote.antt =====
-- app/services/verified_market_quote.py: `VerifiedMarketQuoteService`, which admits a 1X2 market
-- from the snapshots of its odds. Prices are `Decimal`; the deviation that a policy allows is a
-- `float`, and a parameter compares the two. Identifiers are their integers.
pub mod Latest
pub mod Quote
pub mod Service
pub mod Kept
pub mod Market
pub mod Verified
pub mod Results
pub mod Admitted
pub mod Newest
mod Tests
use football_agent.Prelude.{
  ℕ, String, Bool, true, false, ◌&&◌, ◌||◌, not, Option, none, some, List, [], ◌∷◌, ◌+◌, ◌/◌, ◌%◌,
  ◌==◌, ltb, leb, any, keep, length, contains, map, is_some, if◌then◌else◌, str_eq,
}
use football_agent.Prelude.Number.{Number, neg}
use football_agent.Domain.Markets.{MarketType, Selection}
use football_agent.Domain.Entities.{Instant}
use football_agent.Settlement.Evidence.{Outcome, ok, raised}

pub record OddsSnapshot (D F : Type 0) : Type 0 where
  pub id : ℕ
  pub bookmaker_id : ℕ
  pub selection : Selection F
  pub odds : D
  pub captured_at : Instant

pub data MarketQuoteVerificationStatus : Type 0 where
  verified preliminary too_stale rejected not_found : MarketQuoteVerificationStatus

pub data MarketQuoteRejectionReason : Type 0 where
  no_snapshots no_supported_market missing_selection stale_selection : MarketQuoteRejectionReason
  preliminary_only odds_too_stale outlier_filter_empty : MarketQuoteRejectionReason
  insufficient_bookmakers : MarketQuoteRejectionReason

pub record MarketQuoteIssue : Type 0 where
  pub reason : MarketQuoteRejectionReason
  pub selection_code : Option String

-- Ages in microseconds.
pub record VerifiedMarketQuotePolicy (F : Type 0) : Type 0 where
  pub maximum_age : ℕ
  pub preliminary_maximum_age : ℕ
  pub minimum_bookmakers : ℕ
  pub maximum_relative_deviation : F

pub record MarketQuote (D F : Type 0) : Type 0 where
  pub selection : Selection F
  pub odds : D
  pub bookmaker_id : Option ℕ

pub record VerifiedSelectionQuote (D F : Type 0) : Type 0 where
  pub quote : MarketQuote D F
  pub captured_at : Instant
  pub consensus_decimal_odds : D
  pub contributing_snapshot_ids : List ℕ
  pub contributing_bookmaker_ids : List ℕ

pub record VerifiedMarketQuoteResult (D F : Type 0) : Type 0 where
  pub status : MarketQuoteVerificationStatus
  pub as_of : Instant
  pub quotes : List (VerifiedSelectionQuote D F)
  pub issues : List MarketQuoteIssue
  pub observed_snapshot_count : ℕ
  pub eligible_snapshot_count : ℕ

abbrev pub match_result_codes : List String
match_result_codes = "home" ∷ "draw" ∷ "away" ∷ []

-- `len(set(xs)) == len(xs)`
abbrev pub all_different : List ℕ → Bool
all_different [] = true
all_different (x ∷ xs) = not (contains x xs) && all_different xs

abbrev pub is_empty : {A : Type 0} → List A → Bool
is_empty [] = true
is_empty (x ∷ xs) = false

abbrev pub contains_some : Option ℕ → List ℕ → Bool
contains_some none ks = false
contains_some (some k) ks = contains k ks

abbrev pub code_in_codes : String → List String → Bool
code_in_codes c cs = any (str_eq c) cs

abbrev pub codes_eq : List String → List String → Bool
codes_eq [] [] = true
codes_eq [] (d ∷ ds) = false
codes_eq (c ∷ cs) [] = false
codes_eq (c ∷ cs) (d ∷ ds) = str_eq c d && codes_eq cs ds

abbrev pub is_verified : MarketQuoteVerificationStatus → Bool
is_verified MarketQuoteVerificationStatus.verified = true
is_verified _ = false

abbrev pub is_match_result : MarketType → Bool
is_match_result MarketType.match_result = true
is_match_result _ = false

-- `__post_init__` of a policy; `math.isfinite` is a parameter.
unfoldable pub make_policy :
    {F : Type 0} ⦃f : Number F⦄
    → (F → Bool)
    → VerifiedMarketQuotePolicy F
    → Outcome (VerifiedMarketQuotePolicy F)
make_policy ⦃f⦄ is_finite p =
    if p.maximum_age == 0
    then Outcome.raised "maximum_age must be positive"
    else if p.preliminary_maximum_age == 0
    then Outcome.raised "preliminary_maximum_age must be positive"
    else if leb p.preliminary_maximum_age p.maximum_age
    then Outcome.raised "preliminary_maximum_age must exceed maximum_age"
    else if ltb p.minimum_bookmakers 2
    then Outcome.raised "minimum_bookmakers must be an integer of at least 2"
    else if not (is_finite p.maximum_relative_deviation)
        || not (
            f.lt (f.of_nat 0) p.maximum_relative_deviation
            && f.lt p.maximum_relative_deviation (f.of_nat 1))
    then Outcome.raised "maximum_relative_deviation must be between 0 and 1"
    else Outcome.ok p

module _ {D F : Type 0} ⦃d : Number D⦄ where
  -- `__post_init__` of a quote and of a result
  unfoldable pub make_quote : VerifiedSelectionQuote D F → Outcome (VerifiedSelectionQuote D F)
  make_quote q =
      if not (is_some q.quote.bookmaker_id)
      then Outcome.raised "verified quote requires a bookmaker"
      else if not q.captured_at.aware
      then Outcome.raised "captured_at must be timezone-aware"
      else if d.le q.consensus_decimal_odds (d.of_nat 1)
      then Outcome.raised "consensus_decimal_odds must be greater than 1"
      else if is_empty q.contributing_snapshot_ids
      then Outcome.raised "verified quote requires contributing snapshots"
      else if not (length q.contributing_snapshot_ids == length q.contributing_bookmaker_ids)
      then Outcome.raised "snapshot and bookmaker provenance counts must match"
      else if not (all_different q.contributing_snapshot_ids)
      then Outcome.raised "contributing snapshots must be unique"
      else if not (all_different q.contributing_bookmaker_ids)
      then Outcome.raised "contributing bookmakers must be unique"
      else if not (contains_some q.quote.bookmaker_id q.contributing_bookmaker_ids)
      then Outcome.raised "quote bookmaker must be part of the contributing market"
      else Outcome.ok q

  abbrev pub quote_codes : List (VerifiedSelectionQuote D F) → List String
  quote_codes qs = map (λ q. q.quote.selection.code) qs

  unfoldable pub make_result :
      VerifiedMarketQuoteResult D F → Outcome (VerifiedMarketQuoteResult D F)
  make_result r =
      if not r.as_of.aware
      then Outcome.raised "as_of must be timezone-aware"
      else if ltb r.observed_snapshot_count r.eligible_snapshot_count
      then Outcome.raised "eligible snapshots cannot exceed observed snapshots"
      else if is_verified r.status
      then if not (length r.quotes == 3) || not (is_empty r.issues)
        then Outcome.raised "verified market requires three quotes and no issues"
        else if not (codes_eq (quote_codes r.quotes) match_result_codes)
        then Outcome.raised "verified quotes must use deterministic 1X2 order"
        else Outcome.ok r
      else if not (is_empty r.quotes) || is_empty r.issues
      then Outcome.raised "rejected or missing market requires issues and no quotes"
      else Outcome.ok r

  abbrev pub accepted : VerifiedMarketQuoteResult D F → Bool
  accepted r = is_verified r.status

  abbrev pub market_quotes : VerifiedMarketQuoteResult D F → List (MarketQuote D F)
  market_quotes r = map (λ q. q.quote) r.quotes

  abbrev pub failure :
      MarketQuoteVerificationStatus
      → Instant
      → List MarketQuoteIssue
      → ℕ
      → ℕ
      → Outcome (VerifiedMarketQuoteResult D F)
  failure status as_of issues observed eligible = make_result (record {
    status = status;
    as_of = as_of;
    quotes = [];
    issues = issues;
    observed_snapshot_count = observed;
    eligible_snapshot_count = eligible;
  })
