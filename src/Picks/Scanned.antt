-- ===== src/Picks/Scanned.antt =====
-- What the loop over a day's fixtures collects.
use football_agent.Prelude.{
  Bool, ltb, length, keep, ℕ, true, ◌||◌, Option, none, some, List, [], ◌∷◌, ◌≡◌, inl, inr, refl,
  sym, ◌∙◌, arith, All, Some, All-map, All-append, Bool-cases, ◌==◌,
}
use football_agent.Prelude.Dict.{Dict, lookup, insert, lookup-insert}
use football_agent.Prelude.Number.{Number}
use football_agent.Settlement.Evidence.{Outcome, ok, raised, bind_outcome}
use football_agent.Picks.Whitelist.{CompetitionWhitelist}
use football_agent.Picks.{
  SelectionAnalysis, best_of, qualifies, DayFixture, DetailedAnalysis, PickLimits, PickServices,
  Scan, is_on_whitelist, best_ev, add_scored, add_detailed, scan_fixture, scan, first_scan,
}

abbrev pub has_selections : {F : Type 0} → DetailedAnalysis F → Bool
has_selections d = ltb 0 (length d.selections)

-- An analysis of a fixture, with something to review.
abbrev pub IsOf : {F : Type 0} → DetailedAnalysis F → ℕ → Type 0
IsOf d i = (d.fixture_id ≡ i) × (has_selections d ≡ true)

-- What the run relies on: the listing of decision logs tells whether there are any; an analysis is of the fixture given; the log of predictions is none of
-- decisions; a review of an analysis with selections leaves a decision log of its fixture and
-- takes none away.
pub record IsServices {F S : Type 0} (env : PickServices F S) : Type 0 where
  pub analysis_of :
      (fixture : DayFixture) (d : DetailedAnalysis F)
      → env.analyze_detailed fixture ≡ Outcome.ok d
      → d.fixture_id ≡ fixture.id
  pub lists_logs :
      (s : S) (j : ℕ) (b : Bool) → env.list_by_fixture s j ≡ Outcome.ok b → b ≡ env.has_log s j
  pub log_keeps :
      (s : S) (fixture : DayFixture) (d : DetailedAnalysis F) (j : ℕ)
      → env.has_log (env.log_predictions s fixture d).1 j ≡ env.has_log s j
  pub review_logs :
      (s t : S) (d : DetailedAnalysis F) (n j : ℕ)
      → has_selections d ≡ true
      → env.review_detailed s d ≡ Outcome.ok (n, t)
      → env.has_log t j ≡ (j == d.fixture_id || env.has_log s j)

module _ {F S : Type 0} ⦃f : Number F⦄ (env : PickServices F S) (limits : PickLimits F)
    (whitelist : CompetitionWhitelist) where
  -- A pair of a fixture that is whitelisted and the best value of its selections that qualify.
  abbrev pub Qualified : List DayFixture → ℕ × F → Type 0
  Qualified fixtures e =
      Some
        (λ x.
          (x.id ≡ e.0)
          × (is_on_whitelist env limits whitelist x ≡ true)
          × ((d : DetailedAnalysis F) × (env.analyze_detailed x ≡ Outcome.ok d)
              × (best_ev env limits whitelist d ≡ some e.1)))
        fixtures

  abbrev pub Found : Dict (DetailedAnalysis F) → ℕ × F → Type 0
  Found details e = (d : DetailedAnalysis F) × (lookup e.0 details ≡ some d) × IsOf d e.0

  pub record Scanned (s : S) (fixtures : List DayFixture) (c : Scan F S) : Type 0 where
    pub same_logs : (j : ℕ) → env.has_log c.store j ≡ env.has_log s j
    pub qualified : All (Qualified fixtures) c.scored
    pub found : All (Found c.detailed_by_id) c.scored

  Found-insert :
      (i : ℕ) (d : DetailedAnalysis F) (ds : Dict (DetailedAnalysis F)) (e : ℕ × F)
      → IsOf d i
      → Found ds e
      → Found (insert i d ds) e
  Found-insert i d ds e same (b, at, is) = elim (Bool-cases (e.0 == i)) [
    | inl on ↦
        let who : e.0 ≡ i = ground arith in
        (d, lookup-insert e.0 i d ds ∙ rw on refl, (same.0 ∙ sym who, same.1))
    | inr off ↦ (b, lookup-insert e.0 i d ds ∙ rw off at, is)
  ]

  add_scored-Scanned :
      (s : S) (all : List DayFixture) (x : DayFixture) (d : DetailedAnalysis F) (o : Option F)
      (c : Scan F S)
      → ((ev : F) → o ≡ some ev → Qualified all (x.id, ev))
      → ((ev : F) → o ≡ some ev → IsOf d x.id)
      → Scanned s all c
      → Scanned s all (add_scored env limits whitelist x d o c)
  add_scored-Scanned s all x d none c q same h = h
  add_scored-Scanned s all x d (some ev) c q same h = record {
    same_logs = h.same_logs;
    qualified = All-append (Qualified all) c.scored ((x.id, ev) ∷ []) h.qualified (q ev refl, tt);
    found =
        All-append (Found (insert x.id d c.detailed_by_id)) c.scored ((x.id, ev) ∷ [])
          (All-map (λ e k. Found-insert x.id d c.detailed_by_id e (same ev refl) k) c.scored
            h.found)
          ((d, lookup-insert x.id x.id d c.detailed_by_id ∙ ground arith, same ev refl), tt);
  }

  -- Only an analysis with selections has a best value.
  best_ev-some :
      (d : DetailedAnalysis F) (ev : F)
      → best_ev env limits whitelist d ≡ some ev
      → has_selections d ≡ true
  best_ev-some d ev e = of_list d.selections e
    where
      of_list :
          (ss : List (SelectionAnalysis F))
          → best_of env limits whitelist (keep (qualifies env limits whitelist) ss) ≡ some ev
          → ltb 0 (length ss) ≡ true
      of_list [] h = absurd (cc h)
      of_list (x ∷ xs) h = ground arith

  -- What the loop ends with: what it has scanned, or the exception of an analysis.
  abbrev pub ScanEnds : S → List DayFixture → Outcome (Scan F S) → Type 0
  ScanEnds s fixtures (ok c) = Scanned s fixtures c
  ScanEnds s fixtures (raised text) =
      Some (λ x. env.analyze_detailed x ≡ Outcome.raised text) fixtures

  abbrev Within : List DayFixture → List DayFixture → Type 1
  Within xs ys = (P : DayFixture → Type 0) → Some P xs → Some P ys

  module _ (laws : IsServices env) where
    logged-Scanned :
        (s : S) (all : List DayFixture) (x : DayFixture) (d : DetailedAnalysis F) (c : Scan F S)
        → d.fixture_id ≡ x.id
        → ((ev : F) → best_ev env limits whitelist d ≡ some ev → Qualified all (x.id, ev))
        → Scanned s all c
        → Scanned s all (add_detailed env limits whitelist x c d)
    logged-Scanned s all x d c same q h =
        add_scored-Scanned s all x d (best_ev env limits whitelist d) _ q
          (λ ev b. (same, best_ev-some d ev b))
          (record {
            same_logs = λ j. laws.log_keeps c.store x d j ∙ h.same_logs j;
            qualified = h.qualified;
            found = h.found;
          })

    analyzed-ScanEnds :
        (s : S) (x : DayFixture) (all : List DayFixture) (c : Scan F S)
        (o : Outcome (DetailedAnalysis F))
        → env.analyze_detailed x ≡ o
        → is_on_whitelist env limits whitelist x ≡ true
        → ((P : DayFixture → Type 0) → P x → Some P all)
        → Scanned s all c
        → ScanEnds s all
            (bind_outcome o (λ d. Outcome.ok (add_detailed env limits whitelist x c d)))
    analyzed-ScanEnds s x all c (raised text) e on mem h = mem _ e
    analyzed-ScanEnds s x all c (ok d) e on mem h =
        logged-Scanned s all x d c (laws.analysis_of x d e) (λ ev b. mem _ (refl, on, (d, e, b))) h

    scan_fixture-ScanEnds :
        (s : S) (x : DayFixture) (all : List DayFixture) (c : Scan F S)
        → ((P : DayFixture → Type 0) → P x → Some P all)
        → Scanned s all c
        → ScanEnds s all (scan_fixture env limits whitelist c x)
    scan_fixture-ScanEnds s x all c mem h =
        elim (Bool-cases (is_on_whitelist env limits whitelist x)) [
          | inl on ↦ rw on (analyzed-ScanEnds s x all c (env.analyze_detailed x) refl on mem h)
          | inr off ↦
              rw off (record { same_logs = h.same_logs; qualified = h.qualified; found = h.found })
        ]

    then_scan :
        {s : S} {all : List DayFixture} (o : Outcome (Scan F S))
        (rest : Scan F S → Outcome (Scan F S))
        → ScanEnds s all o
        → ((c : Scan F S) → Scanned s all c → ScanEnds s all (rest c))
        → ScanEnds s all (bind_outcome o rest)
    then_scan (raised text) rest h k = h
    then_scan (ok c) rest h k = k c h

    scan_rest :
        (s : S) (all xs : List DayFixture) (c : Scan F S)
        → Within xs all
        → Scanned s all c
        → ScanEnds s all (scan env limits whitelist c xs)
    unfolding scan
    scan_rest s all [] c mem h = h
    scan_rest s all (x ∷ xs) c mem h =
        then_scan (scan_fixture env limits whitelist c x) (λ c'. scan env limits whitelist c' xs)
          (scan_fixture-ScanEnds s x all c (λ P p. mem P (inl p)) h)
          (λ c' k. scan_rest s all xs c' (λ P p. mem P (inr p)) k)

    pub scan-ScanEnds :
        (s : S) (xs : List DayFixture)
        → ScanEnds s xs (scan env limits whitelist (first_scan env limits whitelist s) xs)
    scan-ScanEnds s xs =
        scan_rest s xs xs _ (λ P p. p)
          (record { same_logs = λ j. refl; qualified = tt; found = tt })
