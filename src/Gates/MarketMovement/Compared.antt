-- ===== src/Gates/MarketMovement/Compared.antt =====
-- What a comparison of two markets comes to.
use football_agent.Prelude.{
  ℕ, Bool, true, false, not, ◌||◌, List, [], ◌∷◌, ◌++◌, ◌<◌, ◌≡◌, refl, arith, All, map, length,
  leb, ◌==◌, Bool-cases, inl, inr,
}
use mathlib.Core.Path.{subst}
use football_agent.Prelude.Number.{Number}
use football_agent.Domain.Entities.{Instant}
use football_agent.Settlement.Evidence.{Outcome}
use football_agent.Gates.MarketQuote.{
  OddsSnapshot, VerifiedMarketQuotePolicy, VerifiedMarketQuoteResult, MarketQuoteIssue, is_empty,
  codes_eq, match_result_codes,
}
use football_agent.Gates.MarketQuote.Service.{verify}
use football_agent.Gates.MarketQuote.Market.{guard-ok}
use football_agent.Gates.MarketQuote.Admitted.{IsMarket, verify-IsMarket}
use football_agent.Gates.MarketMovement.{
  MarketMovementStage, MarketMovementIssue, MovementResult, validate_time_range,
  make_movement_result, by_code, build_movements, stage_issues, both_issues, compare_markets,
  compare,
}
use football_agent.Gates.MarketMovement.Paired.{bind_outcome-ok, Paired, build_movements-Paired}
use football_agent.Gates.MarketMovement.Decided.{verify-decided}

module _ {D F : Type 0} ⦃d : Number D⦄ ⦃f : Number F⦄ where
  make_movement_result-same :
      (t r : MovementResult D F) → make_movement_result t ≡ Outcome.ok r → t ≡ r
  unfolding make_movement_result
  make_movement_result-same t r e =
      let (_, timed, k) =
        bind_outcome-ok (validate_time_range t.opening_as_of t.current_as_of) _ r e in
      elim (Bool-cases t.accepted) [
        | inl on ↦
            let three =
              guard-ok (not (length t.movements == 3) || not (is_empty t.issues)) _ _ r
                (rw on at k) in
            let codes =
              guard-ok (not (codes_eq (map (λ m. m.selection.code) t.movements) match_result_codes))
                _ _ r three.1 in
            cc codes.1
        | inr off ↦
            let other =
              guard-ok (not (is_empty t.movements) || is_empty t.issues) _ _ r (rw off at k) in
            cc other.1
      ]

is_empty-map :
    {A B : Type 0} (g : A → B) (xs : List A) → is_empty (map g xs) ≡ true → is_empty xs ≡ true
is_empty-map g [] e = refl
is_empty-map g (x ∷ xs) e = absurd (cc e)

is_empty-append :
    {A : Type 0} (xs ys : List A)
    → is_empty (xs ++ ys) ≡ true
    → (is_empty xs ≡ true) × (is_empty ys ≡ true)
is_empty-append [] ys h = (refl, h)
is_empty-append (x ∷ xs) ys h = absurd (cc h)

ordered-instants : (a b : Instant) → validate_time_range a b ≡ Outcome.ok tt → a.tick < b.tick
ordered-instants a b e =
    let first = guard-ok (not a.aware) _ _ tt e in
    let second = guard-ok (not b.aware) _ _ tt first.1 in
    let order = guard-ok (leb b.tick a.tick) _ _ tt second.1 in ground (arith, order.0)

module _ {D F : Type 0} ⦃d : Number D⦄ ⦃f : Number F⦄ (le_float : D → F → Bool)
    (p : VerifiedMarketQuotePolicy F)
    (list_by_fixture : ℕ → Instant → Outcome (List (OddsSnapshot D F))) where
  -- At an instant, a market that is verified and backed by what the repository listed.
  abbrev pub BackedAt : ℕ → Instant → VerifiedMarketQuoteResult D F → Type 0
  BackedAt fixture_id at r =
      (listing : List (OddsSnapshot D F)) × (list_by_fixture fixture_id at ≡ Outcome.ok listing)
      × IsMarket le_float p listing at r

  -- The issues of one market as those of a comparison: each in its place, with this stage.
  abbrev pub Tagged :
      MarketMovementStage → List MarketQuoteIssue → List MarketMovementIssue → Type 0
  Tagged stage [] [] = Unit
  Tagged stage [] (y ∷ ys) = ⊥
  Tagged stage (x ∷ xs) [] = ⊥
  Tagged stage (x ∷ xs) (y ∷ ys) =
      (y.stage ≡ stage)
      × (y.reason ≡ x.reason)
      × (y.selection_code ≡ x.selection_code)
      × Tagged stage xs ys

  map-Tagged :
      (stage : MarketMovementStage) (xs : List MarketQuoteIssue)
      → Tagged stage xs (
          map
            (λ i. record { stage = stage; reason = i.reason; selection_code = i.selection_code })
            xs)
  map-Tagged stage [] = tt
  map-Tagged stage (x ∷ xs) = (refl, refl, refl, map-Tagged stage xs)

  -- A verified movement, and a rejected one.
  abbrev pub Compared :
      VerifiedMarketQuoteResult D F
      → VerifiedMarketQuoteResult D F
      → ℕ
      → Instant
      → Instant
      → MovementResult D F
      → Bool
      → Type 0
  Compared o c fixture_id a b r true =
      BackedAt fixture_id a o
      × BackedAt fixture_id b c
      × (map (λ m. m.opening_quote) r.movements ≡ o.quotes)
      × All (Paired c.quotes) r.movements
      × (r.issues ≡ [])
  Compared o c fixture_id a b r false =
      (r.movements ≡ [])
      × (is_empty r.issues ≡ false)
      × ((xs : List MarketMovementIssue) × (ys : List MarketMovementIssue) × (r.issues ≡ xs ++ ys)
          × Tagged MarketMovementStage.opening o.issues xs
          × Tagged MarketMovementStage.current c.issues ys)

  compare_markets-Compared :
      (fixture_id : ℕ) (a b : Instant) (o c : VerifiedMarketQuoteResult D F)
      (r : MovementResult D F)
      → verify le_float p list_by_fixture fixture_id a ≡ Outcome.ok o
      → verify le_float p list_by_fixture fixture_id b ≡ Outcome.ok c
      → compare_markets a b o c ≡ Outcome.ok r
      → Compared o c fixture_id a b r r.accepted
  compare_markets-Compared fixture_id a b o c r eo ec e =
      elim (Bool-cases (is_empty (both_issues o c))) [
        | inl none_open ↦
            let built : _ = rw none_open at e in
            let (ms, made, k) =
              bind_outcome-ok (build_movements (by_code [] c.quotes) o.quotes) _ r built in
            let same = make_movement_result-same _ r k in
            let (no_o, no_c) =
              is_empty-append (stage_issues MarketMovementStage.opening o)
                (stage_issues MarketMovementStage.current c) none_open in
            let on_o =
              verify-decided le_float p list_by_fixture fixture_id a o eo
                (is_empty-map _ o.issues no_o) in
            let on_c =
              verify-decided le_float p list_by_fixture fixture_id b c ec
                (is_empty-map _ c.issues no_c) in
            let (opened, paired) = build_movements-Paired c.quotes o.quotes ms made in
            subst (λ t. Compared o c fixture_id a b t t.accepted) same
              (
                verify-IsMarket le_float p list_by_fixture fixture_id a o eo on_o,
                verify-IsMarket le_float p list_by_fixture fixture_id b c ec on_c,
                opened,
                paired,
                refl,
              )
        | inr found ↦
            let same = make_movement_result-same _ r (rw found at e) in
            subst (λ t. Compared o c fixture_id a b t t.accepted) same
              (
                refl,
                found,
                (
                  stage_issues MarketMovementStage.opening o,
                  stage_issues MarketMovementStage.current c,
                  refl,
                  map-Tagged MarketMovementStage.opening o.issues,
                  map-Tagged MarketMovementStage.current c.issues,
                ),
              )
      ]

  -- A comparison that ends well has verified the market at two instants, the first before the
  -- second. It is accepted only if both markets are backed by the snapshots listed at their
  -- instants; then its movements are of home, draw and away as in the opening market, each with
  -- the current quote of the same selection and the consensus odds of both, and there are no
  -- issues. If not, it has no movements and has issues: those of the opening market and then those
  -- of the current one, in order, each with its reason, its selection and its market's stage.
  pub compare-Compared :
      (fixture_id : ℕ) (a b : Instant) (r : MovementResult D F)
      → compare le_float p list_by_fixture fixture_id a b ≡ Outcome.ok r
      → (o : VerifiedMarketQuoteResult D F) × (c : VerifiedMarketQuoteResult D F) × (verify le_float
            p list_by_fixture fixture_id a
          ≡ Outcome.ok o)
        × (verify le_float p list_by_fixture fixture_id b ≡ Outcome.ok c)
        × (a.tick < b.tick)
        × Compared o c fixture_id a b r r.accepted
  unfolding compare
  compare-Compared fixture_id a b r e =
      let (_, timed, k) = bind_outcome-ok (validate_time_range a b) _ r e in
      let (o, eo, ko) = bind_outcome-ok (verify le_float p list_by_fixture fixture_id a) _ r k in
      let (c, ec, kc) = bind_outcome-ok (verify le_float p list_by_fixture fixture_id b) _ r ko in
      (
        o,
        c,
        eo,
        ec,
        ordered-instants a b timed,
        compare_markets-Compared fixture_id a b o c r eo ec kc,
      )
