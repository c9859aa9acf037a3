-- ===== src/Gates/MarketMovement.antt =====
-- app/services/verified_market_movement.py: `VerifiedMarketMovementService.compare`, the change of a
-- 1X2 market between two instants at each of which it is verified.
pub mod Paired
pub mod Decided
pub mod Compared
mod Tests
use football_agent.Prelude.{
  ℕ, String, Bool, true, false, ◌&&◌, ◌||◌, not, Option, none, some, List, [], ◌∷◌, ◌++◌, leb,
  length, map, ◌==◌, if◌then◌else◌, str_eq,
}
use football_agent.Prelude.Number.{Number}
use football_agent.Prelude.TextDict.{TextDict, lookup, insert}
use football_agent.Domain.Markets.{Selection, market_value}
use football_agent.Domain.Entities.{Instant}
use football_agent.Settlement.Evidence.{Outcome, ok, raised, bind_outcome}
use football_agent.Gates.MarketQuote.{
  MarketQuoteRejectionReason, MarketQuoteIssue, VerifiedMarketQuotePolicy, VerifiedSelectionQuote,
  VerifiedMarketQuoteResult, OddsSnapshot, match_result_codes, codes_eq, is_empty,
}
use football_agent.Gates.MarketQuote.Service.{verify}

pub data MarketMovementStage : Type 0 where
  opening current : MarketMovementStage

pub record MarketMovementIssue : Type 0 where
  pub stage : MarketMovementStage
  pub reason : MarketQuoteRejectionReason
  pub selection_code : Option String

-- The two odds.
pub record MarketMovement (D : Type 0) : Type 0 where
  pub opening_odds : D
  pub current_odds : D

pub record VerifiedSelectionMovement (D F : Type 0) : Type 0 where
  pub selection : Selection F
  pub opening_quote : VerifiedSelectionQuote D F
  pub current_quote : VerifiedSelectionQuote D F
  pub movement : MarketMovement D

-- `accepted` tells the two statuses apart.
pub record MovementResult (D F : Type 0) : Type 0 where
  pub accepted : Bool
  pub opening_as_of : Instant
  pub current_as_of : Instant
  pub movements : List (VerifiedSelectionMovement D F)
  pub issues : List MarketMovementIssue

-- `_validate_time_range`
abbrev validate_time_range : Instant → Instant → Outcome {0} Unit
validate_time_range a b =
    if not a.aware
    then Outcome.raised "opening_as_of must be timezone-aware"
    else if not b.aware
    then Outcome.raised "current_as_of must be timezone-aware"
    else if leb b.tick a.tick
    then Outcome.raised "opening_as_of must be earlier than current_as_of"
    else Outcome.ok tt

module _ {D : Type 0} ⦃d : Number D⦄ where
  -- `Odds(...)` refuses odds of 1 and less.
  abbrev check_odds : D → Outcome D
  check_odds x =
      if d.le x (d.of_nat 1) then Outcome.raised "decimal odds must be > 1.0" else Outcome.ok x

module _ {F : Type 0} ⦃f : Number F⦄ where
  abbrev same_line : Option F → Option F → Bool
  same_line none none = true
  same_line none (some b) = false
  same_line (some a) none = false
  same_line (some a) (some b) = f.eq a b

  abbrev equal_selections : Selection F → Selection F → Bool
  equal_selections a b =
      str_eq (market_value a.market) (market_value b.market)
      && str_eq a.code b.code
      && same_line a.line b.line

module _ {D F : Type 0} ⦃d : Number D⦄ ⦃f : Number F⦄ where
  -- `__post_init__` of a selection's movement and of a result
  unfoldable pub make_movement :
      VerifiedSelectionMovement D F → Outcome (VerifiedSelectionMovement D F)
  make_movement m =
      if not (equal_selections m.selection m.opening_quote.quote.selection)
        || not (equal_selections m.selection m.current_quote.quote.selection)
      then Outcome.raised "movement selections must match"
      else if not (d.eq m.movement.opening_odds m.opening_quote.consensus_decimal_odds)
      then Outcome.raised "opening movement odds must use opening consensus"
      else if not (d.eq m.movement.current_odds m.current_quote.consensus_decimal_odds)
      then Outcome.raised "current movement odds must use current consensus"
      else Outcome.ok m

  unfoldable pub make_movement_result : MovementResult D F → Outcome (MovementResult D F)
  make_movement_result r = bind_outcome (validate_time_range r.opening_as_of r.current_as_of) (λ _.
      if r.accepted
      then if not (length r.movements == 3) || not (is_empty r.issues)
        then Outcome.raised "verified movement requires three movements and no issues"
        else if not (codes_eq (map (λ m. m.selection.code) r.movements) match_result_codes)
        then Outcome.raised "verified movements must use deterministic 1X2 order"
        else Outcome.ok r
      else if not (is_empty r.movements) || is_empty r.issues
      then Outcome.raised "rejected movement requires issues and no movements"
      else Outcome.ok r)

  abbrev pub code_of : VerifiedSelectionQuote D F → String
  code_of q = q.quote.selection.code

  -- `{item.quote.selection.code: item for item in quotes}`
  abbrev pub by_code :
      TextDict (VerifiedSelectionQuote D F)
      → List (VerifiedSelectionQuote D F)
      → TextDict (VerifiedSelectionQuote D F)
  by_code t [] = t
  by_code t (q ∷ qs) = by_code (insert (code_of q) q t) qs

  unfoldable pub build_movement :
      VerifiedSelectionQuote D F
      → VerifiedSelectionQuote D F
      → Outcome (VerifiedSelectionMovement D F)
  build_movement o c =
      if not (equal_selections c.quote.selection o.quote.selection)
      then Outcome.raised "opening and current selections must match"
      else bind_outcome (check_odds o.consensus_decimal_odds) (λ a.
        bind_outcome (check_odds c.consensus_decimal_odds) (λ b. make_movement (record {
          selection = o.quote.selection;
          opening_quote = o;
          current_quote = c;
          movement = record { opening_odds = a; current_odds = b };
        })))

  abbrev pub build_with :
      VerifiedSelectionQuote D F
      → Option (VerifiedSelectionQuote D F)
      → Outcome (VerifiedSelectionMovement D F)
  build_with o none = Outcome.raised "KeyError"
  build_with o (some c) = build_movement o c

  unfoldable pub build_movements :
      TextDict (VerifiedSelectionQuote D F)
      → List (VerifiedSelectionQuote D F)
      → Outcome (List (VerifiedSelectionMovement D F))
  build_movements t [] = Outcome.ok []
  build_movements t (q ∷ qs) =
      bind_outcome (build_with q (lookup (code_of q) t))
        (λ m. bind_outcome (build_movements t qs) (λ ms. Outcome.ok (m ∷ ms)))

  -- `_stage_issues`
  abbrev pub stage_issues :
      MarketMovementStage → VerifiedMarketQuoteResult D F → List MarketMovementIssue
  stage_issues stage r =
      map (λ i. record { stage = stage; reason = i.reason; selection_code = i.selection_code })
        r.issues

  abbrev pub both_issues :
      VerifiedMarketQuoteResult D F → VerifiedMarketQuoteResult D F → List MarketMovementIssue
  both_issues o c =
      stage_issues MarketMovementStage.opening o ++ stage_issues MarketMovementStage.current c

  abbrev pub compare_markets :
      Instant
      → Instant
      → VerifiedMarketQuoteResult D F
      → VerifiedMarketQuoteResult D F
      → Outcome (MovementResult D F)
  compare_markets a b o c =
      if is_empty (both_issues o c)
      then bind_outcome (build_movements (by_code [] c.quotes) o.quotes) (λ ms.
        make_movement_result (record {
          accepted = true;
          opening_as_of = a;
          current_as_of = b;
          movements = ms;
          issues = [];
        }))
      else make_movement_result (record {
        accepted = false;
        opening_as_of = a;
        current_as_of = b;
        movements = [];
        issues = both_issues o c;
      })

  unfoldable pub compare :
      (D → F → Bool)
      → VerifiedMarketQuotePolicy F
      → (ℕ → Instant → Outcome (List (OddsSnapshot D F)))
      → ℕ
      → Instant
      → Instant
      → Outcome (MovementResult D F)
  compare le_float p list_by_fixture fixture_id a b = bind_outcome (validate_time_range a b) (λ _.
      bind_outcome (verify le_float p list_by_fixture fixture_id a) (λ o.
        bind_outcome (verify le_float p list_by_fixture fixture_id b)
          (λ c. compare_markets a b o c)))
