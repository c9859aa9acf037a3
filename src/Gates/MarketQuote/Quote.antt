-- ===== src/Gates/MarketQuote/Quote.antt =====
-- app/services/verified_market_quote.py: `_build_quote`. `statistics.median` and `sorted` are by
-- insertion.
use football_agent.Prelude.{
  ℕ, zero, suc, Bool, some, List, [], ◌∷◌, ◌-◌, ◌/◌, ◌%◌, ◌==◌, ltb, length, map, if◌then◌else◌,
}
use football_agent.Prelude.Number.{Number, neg}
use football_agent.Settlement.Evidence.{Outcome}
use football_agent.Gates.MarketQuote.{OddsSnapshot, VerifiedSelectionQuote, make_quote}

module _ {D : Type 0} ⦃d : Number D⦄ where
  abbrev pub abs_of : D → D
  abs_of x = if d.lt x (d.of_nat 0) then neg x else x

  abbrev insert_price : D → List D → List D
  insert_price x [] = x ∷ []
  insert_price x (y ∷ ys) =
      let rest = insert_price x ys in if d.lt y x then y ∷ rest else x ∷ y ∷ ys

  abbrev sort_prices : List D → List D
  sort_prices [] = []
  sort_prices (x ∷ xs) = insert_price x (sort_prices xs)

  abbrev nth : D → ℕ → List D → D
  nth x n [] = x
  nth x zero (y ∷ ys) = y
  nth x (suc n) (y ∷ ys) = nth x n ys

  -- Of a list that is not empty: its first price and the others.
  abbrev pub median : D → List D → D
  median x xs =
      let n = length (x ∷ xs) in
      let order = sort_prices (x ∷ xs) in
      if n % 2 == 1
      then nth x (n / 2) order
      else d.div (d.add (nth x (n / 2 - 1) order) (nth x (n / 2) order)) (d.of_nat 2)

module _ {D F : Type 0} where
  -- the key `(bookmaker_id, id)`
  abbrev pub comes_before : OddsSnapshot D F → OddsSnapshot D F → Bool
  comes_before s t =
      if s.bookmaker_id == t.bookmaker_id then ltb s.id t.id else ltb s.bookmaker_id t.bookmaker_id

  abbrev pub insert_ordered : OddsSnapshot D F → List (OddsSnapshot D F) → List (OddsSnapshot D F)
  insert_ordered s [] = s ∷ []
  insert_ordered s (t ∷ ts) =
      let rest = insert_ordered s ts in if comes_before t s then t ∷ rest else s ∷ t ∷ ts

  abbrev pub ordered : List (OddsSnapshot D F) → List (OddsSnapshot D F)
  ordered [] = []
  ordered (s ∷ ss) = insert_ordered s (ordered ss)

module _ {D F : Type 0} ⦃d : Number D⦄ where
  -- `min(...)`: the first of the nearest to the consensus.
  abbrev pub nearest : D → OddsSnapshot D F → List (OddsSnapshot D F) → OddsSnapshot D F
  nearest consensus s [] = s
  nearest consensus s (t ∷ ts) =
      nearest consensus
        (if d.lt (abs_of (d.sub t.odds consensus)) (abs_of (d.sub s.odds consensus)) then t else s)
        ts

  abbrev quote_of :
      D → List (OddsSnapshot D F) → OddsSnapshot D F → Outcome (VerifiedSelectionQuote D F)
  quote_of consensus order s = make_quote (record {
    quote = record { selection = s.selection; odds = s.odds; bookmaker_id = some s.bookmaker_id };
    captured_at = s.captured_at;
    consensus_decimal_odds = consensus;
    contributing_snapshot_ids = map (λ t. t.id) order;
    contributing_bookmaker_ids = map (λ t. t.bookmaker_id) order;
  })

  abbrev pub quote_from : D → List (OddsSnapshot D F) → Outcome (VerifiedSelectionQuote D F)
  quote_from consensus [] = Outcome.raised "min() iterable argument is empty"
  quote_from consensus (t ∷ ts) = quote_of consensus (t ∷ ts) (nearest consensus t ts)

  unfoldable pub build_quote : List (OddsSnapshot D F) → Outcome (VerifiedSelectionQuote D F)
  build_quote [] = Outcome.raised "no median for empty data"
  build_quote (s ∷ ss) = quote_from (median s.odds (map (λ t. t.odds) ss)) (ordered (s ∷ ss))
