-- ===== src/Gates/MarketQuote/Market.antt =====
-- What stands behind a market that is verified.
use football_agent.Prelude.{
  ℕ, String, Bool, true, false, not, some, List, [], ◌∷◌, ◌+◌, ◌≤◌, ◌≡◌, ◌==◌, arith, refl, All,
  ◌⊎◌, length, map, if◌then◌else◌, is_some, inl, inr,
}
use mathlib.Core.Path.{subst, sym}
use football_agent.Prelude.Number.{Number}
use football_agent.Domain.Markets.{MarketType}
use football_agent.Settlement.Evidence.{Outcome}
use football_agent.Gates.MarketQuote.{
  OddsSnapshot, VerifiedSelectionQuote, all_different, make_quote, is_empty, contains_some,
}
use football_agent.Gates.MarketQuote.Quote.{abs_of, nearest, quote_from}

-- What passes a guard that raises.
pub guard-ok {ℓ} :
    {A : Type ℓ} (b : Bool) (text : String) (o : Outcome A) (x : A)
    → (if b then Outcome.raised text else o) ≡ Outcome.ok x
    → (b ≡ false) × (o ≡ Outcome.ok x)
guard-ok true text o x h = absurd (cc h)
guard-ok false text o x h = (refl, h)

module _ {D F : Type 0} where
  abbrev pub Listed : OddsSnapshot D F → List (OddsSnapshot D F) → Type 0
  Listed s [] = ⊥
  Listed s (t ∷ ts) = (s ≡ t) ⊎ Listed s ts

  -- A snapshot of the listing, of the 1X2 market and the code, known and fresh at the instant.
  pub record Contributor (listing : List (OddsSnapshot D F)) (as_of age : ℕ) (code : String)
      (s : OddsSnapshot D F) : Type 0 where
    pub listed : Listed s listing
    pub market : s.selection.market ≡ MarketType.match_result
    pub named : s.selection.code ≡ code
    pub known : s.captured_at.tick ≤ as_of
    pub fresh : as_of ≤ s.captured_at.tick + age

  -- The snapshots behind a quote, and the one that it repeats.
  pub record Backed (P : OddsSnapshot D F → Type 0) (minimum : ℕ) (q : VerifiedSelectionQuote D F)
      : Type 0 where
    pub contributors : List (OddsSnapshot D F)
    pub each : All P contributors
    pub ids : map (λ s. s.id) contributors ≡ q.contributing_snapshot_ids
    pub bookmakers : map (λ s. s.bookmaker_id) contributors ≡ q.contributing_bookmaker_ids
    pub different : all_different q.contributing_bookmaker_ids ≡ true
    pub enough : minimum ≤ length contributors
    pub chosen : OddsSnapshot D F
    pub is_contributor : Listed chosen contributors
    pub same_selection : q.quote.selection ≡ chosen.selection
    pub same_odds : q.quote.odds ≡ chosen.odds
    pub same_bookmaker : q.quote.bookmaker_id ≡ some chosen.bookmaker_id
    pub same_time : q.captured_at ≡ chosen.captured_at

  pub Listed-All :
      (P : OddsSnapshot D F → Type 0) (s : OddsSnapshot D F) (ss : List (OddsSnapshot D F))
      → Listed s ss
      → All P ss
      → P s
  Listed-All P s [] k h = elim k [ ]
  Listed-All P s (t ∷ ts) (inl e) h = subst P (sym e) h.0
  Listed-All P s (t ∷ ts) (inr k) h = Listed-All P s ts k h.1

module _ {D F : Type 0} ⦃d : Number D⦄ where
  nearest-Listed :
      (c : D) (s : OddsSnapshot D F) (ts : List (OddsSnapshot D F))
      → Listed (nearest c s ts) (s ∷ ts)
  nearest-Listed c s [] = inl refl
  nearest-Listed c s (t ∷ ts) =
      go (λ r. nearest-Listed c r ts) (d.lt (abs_of (d.sub t.odds c)) (abs_of (d.sub s.odds c)))
    where
      later : (r : OddsSnapshot D F) → Listed r (s ∷ ts) → Listed r (s ∷ t ∷ ts)
      later r (inl e) = inl e
      later r (inr k) = inr (inr k)

      go :
          ((r : OddsSnapshot D F) → Listed (nearest c r ts) (r ∷ ts))
          → (b : Bool) → Listed (nearest c (if b then t else s) ts) (s ∷ t ∷ ts)
      go h true = inr (h t)
      go h false = later (nearest c s ts) (h s)

  make_quote_lem :
      (q r : VerifiedSelectionQuote D F)
      → make_quote q ≡ Outcome.ok r
      → (q ≡ r) × (all_different q.contributing_bookmaker_ids ≡ true)
  unfolding make_quote
  make_quote_lem q r h =
      let bookmaker = guard-ok (not (is_some q.quote.bookmaker_id)) _ _ r h in
      let aware = guard-ok (not q.captured_at.aware) _ _ r bookmaker.1 in
      let priced = guard-ok (d.le q.consensus_decimal_odds (d.of_nat 1)) _ _ r aware.1 in
      let some_ids = guard-ok (is_empty q.contributing_snapshot_ids) _ _ r priced.1 in
      let lengths =
        guard-ok (not (length q.contributing_snapshot_ids == length q.contributing_bookmaker_ids)) _
          _ r some_ids.1 in
      let ids = guard-ok (not (all_different q.contributing_snapshot_ids)) _ _ r lengths.1 in
      let bookmakers = guard-ok (not (all_different q.contributing_bookmaker_ids)) _ _ r ids.1 in
      let member =
        guard-ok (not (contains_some q.quote.bookmaker_id q.contributing_bookmaker_ids)) _ _ r
          bookmakers.1 in
      (cc member.1, ground (arith, bookmakers.0))

  pub quote_from-Backed :
      (P : OddsSnapshot D F → Type 0) (minimum : ℕ) (c : D) (ss : List (OddsSnapshot D F))
      (q : VerifiedSelectionQuote D F)
      → All P ss
      → minimum ≤ length ss
      → quote_from c ss ≡ Outcome.ok q
      → Backed P minimum q
  quote_from-Backed P minimum c [] q h m e = absurd (cc e)
  quote_from-Backed P minimum c (t ∷ ts) q h m e =
      let (same, different) = make_quote_lem _ q e in
      subst (Backed P minimum) same (record {
        contributors = t ∷ ts;
        each = h;
        ids = refl;
        bookmakers = refl;
        different = different;
        enough = m;
        chosen = nearest c t ts;
        is_contributor = nearest-Listed c t ts;
        same_selection = refl;
        same_odds = refl;
        same_bookmaker = refl;
        same_time = refl;
      })
