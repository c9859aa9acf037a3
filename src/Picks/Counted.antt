-- ===== src/Picks/Counted.antt =====
-- Which fixtures qualify.
use mathlib.Core.List.{append_assoc, append-nil}
use football_agent.Prelude.{
  true, not, Option, none, some, List, [], ◌∷◌, ◌++◌, ◌+◌, ℕ, sym, ◌≡◌, inl, inr, refl, ap, ◌∙◌,
  arith, Bool-cases, if◌then◌else◌, count,
}
use football_agent.Prelude.Number.{Number}
use football_agent.Settlement.Evidence.{Outcome, ok, raised, bind_outcome}
use football_agent.Picks.Whitelist.{CompetitionWhitelist}
use football_agent.Picks.{
  DayFixture, DetailedAnalysis, PickLimits, PickServices, Scan, is_on_whitelist, best_ev,
  add_scored, add_detailed, scan_fixture, scan,
}

module _ {F S : Type 0} ⦃f : Number F⦄ (env : PickServices F S) (limits : PickLimits F)
    (whitelist : CompetitionWhitelist) where
  abbrev with_best : DayFixture → Option F → List (ℕ × F)
  with_best x none = []
  with_best x (some ev) = (x.id, ev) ∷ []

  abbrev best_in : DayFixture → Outcome (DetailedAnalysis F) → List (ℕ × F)
  best_in x (raised text) = []
  best_in x (ok d) = with_best x (best_ev env limits whitelist d)

  -- The fixtures of the whitelist, some selection of which qualifies, with the best value of these.
  abbrev pub candidates : List DayFixture → List (ℕ × F)
  candidates [] = []
  candidates (x ∷ xs) =
      (if is_on_whitelist env limits whitelist x then best_in x (env.analyze_detailed x) else [])
      ++ candidates xs

  abbrev pub CountsAfter : Scan F S → List DayFixture → Scan F S → Type 0
  CountsAfter c xs c' =
      (c'.scored ≡ c.scored ++ candidates xs)
      × (c'.skipped_unsupported
          ≡ c.skipped_unsupported + count (λ x. not (is_on_whitelist env limits whitelist x)) xs)

  -- Nothing is claimed where an exception ends the loop.
  abbrev pub CountEnds : Scan F S → List DayFixture → Outcome (Scan F S) → Type 0
  CountEnds c xs (raised text) = Unit
  CountEnds c xs (ok c') = CountsAfter c xs c'

  scored-add_scored :
      (x : DayFixture) (d : DetailedAnalysis F) (o : Option F) (c : Scan F S)
      → (add_scored env limits whitelist x d o c).scored ≡ c.scored ++ with_best x o
  scored-add_scored x d none c = sym (append-nil c.scored)
  scored-add_scored x d (some ev) c = refl

  skipped-add_scored :
      (x : DayFixture) (d : DetailedAnalysis F) (o : Option F) (c : Scan F S)
      → (add_scored env limits whitelist x d o c).skipped_unsupported ≡ c.skipped_unsupported
  skipped-add_scored x d none c = refl
  skipped-add_scored x d (some ev) c = refl

  analyzed-CountEnds :
      (c : Scan F S) (x : DayFixture) (o : Outcome (DetailedAnalysis F))
      → env.analyze_detailed x ≡ o
      → is_on_whitelist env limits whitelist x ≡ true
      → CountEnds c
          (x ∷ [])
          (bind_outcome o (λ d. Outcome.ok (add_detailed env limits whitelist x c d)))
  analyzed-CountEnds c x (raised text) e on = tt
  analyzed-CountEnds c x (ok d) e on = (
    scored-add_scored x d (best_ev env limits whitelist d) _
        ∙ rw (on, e) (ap (λ r. c.scored ++ r) (sym (append-nil _))),
    skipped-add_scored x d (best_ev env limits whitelist d) _ ∙ rw on (omega arith),
  )

  scan_fixture-CountEnds :
      (c : Scan F S) (x : DayFixture) → CountEnds c (x ∷ []) (scan_fixture env limits whitelist c x)
  scan_fixture-CountEnds c x = elim (Bool-cases (is_on_whitelist env limits whitelist x)) [
    | inl on ↦ rw on (analyzed-CountEnds c x (env.analyze_detailed x) refl on)
    | inr off ↦
        let none_more : candidates (x ∷ []) ≡ [] = rw off refl in
        let one : count (λ y. not (is_on_whitelist env limits whitelist y)) (x ∷ []) ≡ 1 =
          rw off refl in
        rw off
          (sym (append-nil c.scored) ∙ ap (λ r. c.scored ++ r) (sym none_more), omega (arith, one))
  ]

  CountsAfter-cons :
      (c c' c'' : Scan F S) (x : DayFixture) (xs : List DayFixture)
      → CountsAfter c (x ∷ []) c'
      → CountsAfter c' xs c''
      → CountsAfter c (x ∷ xs) c''
  CountsAfter-cons c c' c'' x xs (h, k) (h', k') = (
    h'
        ∙ ap (λ r. r ++ candidates xs) h
        ∙ append_assoc c.scored _ (candidates xs)
        ∙ ap (λ r. c.scored ++ r) (append_assoc _ [] (candidates xs)),
    ground arith,
  )

  then_count :
      (c : Scan F S) (x : DayFixture) (xs : List DayFixture) (o : Outcome (Scan F S))
      → CountEnds c (x ∷ []) o
      → ((c' : Scan F S) → CountEnds c' xs (scan env limits whitelist c' xs))
      → CountEnds c (x ∷ xs) (bind_outcome o (λ c'. scan env limits whitelist c' xs))
  then_count c x xs (raised text) h k = tt
  then_count c x xs (ok c') h k = last (scan env limits whitelist c' xs) (k c')
    where
      last : (o : Outcome (Scan F S)) → CountEnds c' xs o → CountEnds c (x ∷ xs) o
      last (raised text) k = tt
      last (ok c'') k = CountsAfter-cons c c' c'' x xs h k

  pub scan-CountEnds :
      (c : Scan F S) (xs : List DayFixture) → CountEnds c xs (scan env limits whitelist c xs)
  unfolding scan
  scan-CountEnds c [] = (sym (append-nil c.scored), omega arith)
  scan-CountEnds c (x ∷ xs) =
      then_count c x xs (scan_fixture env limits whitelist c x) (scan_fixture-CountEnds c x)
        (λ c'. scan-CountEnds c' xs)
