-- ===== src/Gates/MarketQuote/Latest.antt =====
-- app/services/verified_market_quote.py: `_latest_by_selection_and_bookmaker`. The dict is an
-- association list in insertion order.
use football_agent.Prelude.{
  ℕ, String, Bool, ◌&&◌, List, [], ◌∷◌, ◌==◌, ltb, leb, ◌+◌, if◌then◌else◌, str_eq,
}
use football_agent.Gates.MarketQuote.{OddsSnapshot}

abbrev pub Key : Type 0
Key = String × ℕ

abbrev pub key_eq : Key → Key → Bool
key_eq j k = str_eq j.0 k.0 && j.1 == k.1

abbrev pub Latest : Type 0 → Type 0 → Type 0
Latest D F = List (Key × OddsSnapshot D F)

module _ {D F : Type 0} where
  abbrev pub key_of : OddsSnapshot D F → Key
  key_of s = (s.selection.code, s.bookmaker_id)

  -- `(captured_at, id)` of the one is greater than that of the other.
  abbrev pub is_later : OddsSnapshot D F → OddsSnapshot D F → Bool
  is_later s t =
      if s.captured_at.tick == t.captured_at.tick
      then ltb t.id s.id
      else ltb t.captured_at.tick s.captured_at.tick

  -- `current = latest.get(key)`, and the assignment where the snapshot is the later one
  abbrev pub put_later : OddsSnapshot D F → Latest D F → Latest D F
  put_later s [] = (key_of s, s) ∷ []
  put_later s ((k, t) ∷ latest) =
      let rest = put_later s latest in
      if key_eq (key_of s) k then (k, if is_later s t then s else t) ∷ latest else (k, t) ∷ rest

  abbrev pub put_all : List (OddsSnapshot D F) → Latest D F → Latest D F
  put_all [] latest = latest
  put_all (s ∷ ss) latest = put_all ss (put_later s latest)

  unfoldable pub latest_by_selection_and_bookmaker : List (OddsSnapshot D F) → Latest D F
  latest_by_selection_and_bookmaker ss = put_all ss []

  abbrev pub of_code : String → Latest D F → List (OddsSnapshot D F)
  of_code code [] = []
  of_code code ((k, s) ∷ latest) =
      let rest = of_code code latest in if str_eq k.0 code then s ∷ rest else rest

  abbrev pub is_fresh : ℕ → ℕ → OddsSnapshot D F → Bool
  is_fresh as_of age s = leb as_of (s.captured_at.tick + age)
