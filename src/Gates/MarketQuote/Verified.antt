-- ===== src/Gates/MarketQuote/Verified.antt =====
-- A market that is verified has a quote for each of its three selections, each with snapshots behind it.
use football_agent.Prelude.{
  ℕ, String, Bool, true, List, [], ◌∷◌, ◌≤◌, ◌≡◌, arith, refl, All, All-map, keep, length, map, ltb,
  Bool-cases, inl, inr,
}
use mathlib.Core.Path.{subst, sym}
use football_agent.Prelude.Number.{Number}
use football_agent.Settlement.Evidence.{Outcome, ok, raised}
use football_agent.Gates.MarketQuote.{
  OddsSnapshot, VerifiedMarketQuotePolicy, VerifiedSelectionQuote, MarketQuoteIssue, is_empty,
}
use football_agent.Gates.MarketQuote.Latest.{Latest, of_code, is_fresh}
use football_agent.Gates.MarketQuote.Quote.{ordered, build_quote, median}
use football_agent.Gates.MarketQuote.Service.{
  Judged, refused, quoted, Evaluation, is_near, judged_quote, judge_kept, judge_fresh,
  judge_selection, add_judged, evaluate_latest,
}
use football_agent.Gates.MarketQuote.Kept.{
  All-keep, ordered-All, of_code-All, Entry, length-ordered,
}
use football_agent.Gates.MarketQuote.Market.{Backed, quote_from-Backed}

module _ {D F : Type 0} ⦃d : Number D⦄ (le_float : D → F → Bool) (p : VerifiedMarketQuotePolicy F)
    (P : OddsSnapshot D F → Type 0) where
  abbrev IsBacked : VerifiedSelectionQuote D F → Type 0
  IsBacked = Backed P p.minimum_bookmakers

  -- Nothing is claimed of a selection that is refused.
  abbrev JudgedWell : Judged D F → Type 0
  JudgedWell (refused i n) = Unit
  JudgedWell (quoted q n) = IsBacked q

  refused-Well :
      (i : MarketQuoteIssue) (n : ℕ) (j : Judged D F)
      → Outcome.ok (Judged.refused i n) ≡ Outcome.ok j
      → JudgedWell j
  refused-Well i n j e = let same : Judged.refused i n ≡ j = cc e in subst JudgedWell same tt

  judged_quote-Well :
      (n : ℕ) (o : Outcome (VerifiedSelectionQuote D F)) (j : Judged D F)
      → ((q : VerifiedSelectionQuote D F) → o ≡ Outcome.ok q → IsBacked q)
      → judged_quote le_float p n o ≡ Outcome.ok j
      → JudgedWell j
  judged_quote-Well n (raised text) j h e = absurd (cc e)
  judged_quote-Well n (ok q) j h e =
      let same : Judged.quoted q n ≡ j = cc e in subst JudgedWell same (h q refl)

  build_quote-Backed :
      (s : OddsSnapshot D F) (ss : List (OddsSnapshot D F)) (q : VerifiedSelectionQuote D F)
      → All P (s ∷ ss)
      → p.minimum_bookmakers ≤ length (s ∷ ss)
      → build_quote (s ∷ ss) ≡ Outcome.ok q
      → IsBacked q
  unfolding build_quote
  build_quote-Backed s ss q h m e =
      quote_from-Backed P p.minimum_bookmakers (median s.odds (map (λ t. t.odds) ss))
        (ordered (s ∷ ss)) q (ordered-All P (s ∷ ss) h) (omega (arith, length-ordered (s ∷ ss))) e

  judge_kept-Well :
      (code : String) (ss : List (OddsSnapshot D F)) (j : Judged D F)
      → All P ss
      → judge_kept le_float p code ss ≡ Outcome.ok j
      → JudgedWell j
  judge_kept-Well code [] j h e = refused-Well _ _ j e
  judge_kept-Well code (s ∷ ss) j h e =
      elim (Bool-cases (ltb (length (s ∷ ss)) p.minimum_bookmakers)) [
        | inl few ↦ refused-Well _ _ j (rw few at e)
        | inr many ↦
            judged_quote-Well (length (s ∷ ss)) (build_quote (s ∷ ss)) j
              (λ q k. build_quote-Backed s ss q h (ground arith) k) (rw many at e)
      ]

  judge_fresh-Well :
      (code : String) (ss : List (OddsSnapshot D F)) (j : Judged D F)
      → All P ss
      → judge_fresh le_float p code ss ≡ Outcome.ok j
      → JudgedWell j
  judge_fresh-Well code [] j h e = refused-Well _ _ j e
  judge_fresh-Well code (s ∷ ss) j h e =
      let near = is_near le_float p (median s.odds (map (λ t. t.odds) ss)) in
      judge_kept-Well code (keep near (s ∷ ss)) j
        (All-map (λ t k. k.0) (keep near (s ∷ ss)) (All-keep P near (s ∷ ss) h)) e

  judge_selection-Well :
      (P0 : OddsSnapshot D F → Type 0) (code : String) (as_of age : ℕ)
      (ss : List (OddsSnapshot D F)) (j : Judged D F)
      → ((s : OddsSnapshot D F) → P0 s → is_fresh as_of age s ≡ true → P s)
      → All P0 ss
      → judge_selection le_float p code as_of age ss ≡ Outcome.ok j
      → JudgedWell j
  judge_selection-Well P0 code as_of age [] j f h e = refused-Well _ _ j e
  judge_selection-Well P0 code as_of age (s ∷ ss) j f h e =
      let fresh = is_fresh as_of age in
      judge_fresh-Well code (keep fresh (s ∷ ss)) j
        (All-map (λ t k. f t k.0 k.1) (keep fresh (s ∷ ss)) (All-keep P0 fresh (s ∷ ss) h)) e

module _ {D F : Type 0} ⦃d : Number D⦄ (le_float : D → F → Bool) (p : VerifiedMarketQuotePolicy F)
    (P : String → OddsSnapshot D F → Type 0) where
  -- One quote for each code, in their order.
  abbrev pub Matched : List String → List (VerifiedSelectionQuote D F) → Type 0
  Matched [] [] = Unit
  Matched [] (q ∷ qs) = ⊥
  Matched (c ∷ cs) [] = ⊥
  Matched (c ∷ cs) (q ∷ qs) = Backed (P c) p.minimum_bookmakers q × Matched cs qs

  add_judged-Matched :
      (c : String) (cs : List String) (oj : Outcome (Judged D F)) (oe : Outcome (Evaluation D F))
      (e : Evaluation D F)
      → ((j : Judged D F) → oj ≡ Outcome.ok j → JudgedWell le_float p (P c) j)
      → ((f : Evaluation D F) → oe ≡ Outcome.ok f → is_empty f.issues ≡ true → Matched cs f.quotes)
      → add_judged le_float p oj oe ≡ Outcome.ok e
      → is_empty e.issues ≡ true
      → Matched (c ∷ cs) e.quotes
  add_judged-Matched c cs (raised text) oe e h k m none_open = absurd (cc m)
  add_judged-Matched c cs (ok j) (raised text) e h k m none_open = absurd (cc m)
  add_judged-Matched c cs (ok (Judged.refused i n)) (ok f) e h k m none_open =
      let issues : i ∷ f.issues ≡ e.issues = cc m in
      let false_is : is_empty (i ∷ f.issues) ≡ true =
        subst (λ is. is_empty is ≡ true) (sym issues) none_open in
      absurd (cc false_is)
  add_judged-Matched c cs (ok (Judged.quoted q n)) (ok f) e h k m none_open =
      let issues : f.issues ≡ e.issues = cc m in
      let quotes : q ∷ f.quotes ≡ e.quotes = cc m in
      subst (Matched (c ∷ cs)) quotes (h (Judged.quoted q n) refl, k f refl (rw issues none_open))

  pub evaluate_latest-Matched :
      (P0 : OddsSnapshot D F → Type 0) (latest : Latest D F) (as_of age : ℕ) (codes : List String)
      (e : Evaluation D F)
      → ((code : String) (s : OddsSnapshot D F)
          → P0 s
          → s.selection.code ≡ code
          → is_fresh as_of age s ≡ true
          → P code s)
      → All (Entry P0) latest
      → evaluate_latest le_float p latest as_of age codes ≡ Outcome.ok e
      → is_empty e.issues ≡ true
      → Matched codes e.quotes
  unfolding evaluate_latest
  evaluate_latest-Matched P0 latest as_of age [] e f h m none_open =
      let quotes : [] ≡ e.quotes = cc m in subst (Matched []) quotes tt
  evaluate_latest-Matched P0 latest as_of age (c ∷ cs) e f h m none_open =
      add_judged-Matched c cs (judge_selection le_float p c as_of age (of_code c latest))
        (evaluate_latest le_float p latest as_of age cs) e
        (λ j k.
          judge_selection-Well le_float p (P c) (λ s. P0 s × (s.selection.code ≡ c)) c as_of age
            (of_code c latest) j (λ s a b. f c s a.0 a.1 b) (of_code-All P0 c latest h) k)
        (λ g k l. evaluate_latest-Matched P0 latest as_of age cs g f h k l) m none_open
