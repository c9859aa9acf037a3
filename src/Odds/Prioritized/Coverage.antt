-- ===== src/Odds/Prioritized/Coverage.antt =====
-- The coverage that is reported for targeted odds adds up.
use football_agent.Prelude.{
  ℕ, Bool, true, false, ◌||◌, Option, none, some, List, [], ◌∷◌, ◌++◌, ◌+◌, ◌≡◌, ◌==◌, keep, length,
  map, contains, length-append, arith, refl, Bool-cases, inl, inr, sym, ap, ==_iff,
}
use mathlib.Core.Path.{subst}
use football_agent.Prelude.Number.{Number}
use football_agent.Odds.Matching.{MatchCandidate, result_of, match_event}
use football_agent.Odds.Schema.{ProviderFixtureOdds, ProviderOddsTarget}
use football_agent.Odds.Prioritized.Targeted.{
  candidate_of, candidates_of, event_has_usable_h2h, covers, add_id, matched_from,
  matched_fixture_ids, uncovered,
}

abbrev ids : List ProviderOddsTarget → List ℕ
ids ts = map (λ t. t.fixture_id) ts

-- The targets are of different fixtures.
abbrev pub DifferentFixtures : List ProviderOddsTarget → Type 0
DifferentFixtures [] = Unit
DifferentFixtures (t ∷ ts) = (contains t.fixture_id (ids ts) ≡ false) × DifferentFixtures ts

contains-more : (k i : ℕ) (cov : List ℕ) → contains k (cov ++ i ∷ []) ≡ (contains k cov || (k == i))
contains-more k i [] = ground arith
contains-more k i (c ∷ cov) = ground (arith, contains-more k i cov)

-- A fixture that is no target's changes nothing.
uncovered-absent :
    (i : ℕ) (cov : List ℕ) (ts : List ProviderOddsTarget)
    → contains i (ids ts) ≡ false
    → length (uncovered (cov ++ i ∷ []) ts) ≡ length (uncovered cov ts)
uncovered-absent i cov [] h = refl
uncovered-absent i cov (t ∷ ts) h =
    ground (arith, contains-more t.fixture_id i cov, uncovered-absent i cov ts)

-- A target's fixture that is new covers one target.
uncovered-more :
    (i : ℕ) (cov : List ℕ) (ts : List ProviderOddsTarget)
    → DifferentFixtures ts
    → contains i (ids ts) ≡ true
    → contains i cov ≡ false
    → length (uncovered (cov ++ i ∷ []) ts) + 1 ≡ length (uncovered cov ts)
uncovered-more i cov [] d h k = absurd (cc h)
uncovered-more i cov (t ∷ ts) d h k = elim (Bool-cases (i == t.fixture_id)) [
  | inl e ↦
      let same : i ≡ t.fixture_id = (==_iff i t.fixture_id).0 e in
      let absent : contains i (ids ts) ≡ false =
        subst (λ x. contains x (ids ts) ≡ false) (sym same) d.0 in
      let new : contains t.fixture_id cov ≡ false = subst (λ x. contains x cov ≡ false) same k in
      let covered : contains t.fixture_id (cov ++ i ∷ []) ≡ true =
        ground (arith, contains-more t.fixture_id i cov) in
      rw (covered, new) (omega (arith, uncovered-absent i cov ts absent))
  | inr e ↦ ground (arith, contains-more t.fixture_id i cov, uncovered-more i cov ts d.1)
]

kept-contains :
    (p : MatchCandidate → Bool) (ts : List ProviderOddsTarget) (c : MatchCandidate)
    (rest : List MatchCandidate)
    → keep p (candidates_of ts) ≡ c ∷ rest
    → contains c.fixture_id (ids ts) ≡ true
kept-contains p [] c rest h = absurd (cc h)
kept-contains p (t ∷ ts) c rest h =
    let d : MatchCandidate = candidate_of t in
    elim (Bool-cases (p d)) [
      | inl e ↦
          let same : d ≡ c = cc (rw e at h) in
          let id : t.fixture_id ≡ c.fixture_id = ap (λ x. x.fixture_id) same in ground arith
      | inr e ↦ ground (arith, kept-contains p ts c rest (rw e at h))
    ]

sole-contains :
    (p : MatchCandidate → Bool) (ts : List ProviderOddsTarget) (i : ℕ) (hits : List MatchCandidate)
    → keep p (candidates_of ts) ≡ hits
    → (result_of hits).fixture_id ≡ some i
    → contains i (ids ts) ≡ true
sole-contains p ts i [] e h = absurd (cc h)
sole-contains p ts i (c ∷ []) e h =
    subst (λ x. contains x (ids ts) ≡ true) (cc h) (kept-contains p ts c [] e)
sole-contains p ts i (c ∷ d ∷ cs) e h = absurd (cc h)

-- One more fixture is counted.
splits_add :
    (ts : List ProviderOddsTarget) (cov : List ℕ) (o : Option ℕ)
    → DifferentFixtures ts
    → ((i : ℕ) → o ≡ some i → contains i (ids ts) ≡ true)
    → length (uncovered cov ts) + length cov ≡ length ts
    → length (uncovered (add_id o cov) ts) + length (add_id o cov) ≡ length ts
splits_add ts cov none d k h = h
splits_add ts cov (some i) d k h = elim (Bool-cases (contains i cov)) [
  | inl old ↦
      let same : cov ≡ add_id (some i) cov = rw old refl in
      subst (λ c. length (uncovered c ts) + length c ≡ length ts) same h
  | inr new ↦
      let more : cov ++ i ∷ [] ≡ add_id (some i) cov = rw new refl in
      subst (λ c. length (uncovered c ts) + length c ≡ length ts) more
        (omega (arith, h, uncovered-more i cov ts d (k i refl) new, length-append cov (i ∷ [])))
]

uncovered-nil : (ts : List ProviderOddsTarget) → uncovered [] ts ≡ ts
uncovered-nil [] = refl
uncovered-nil (t ∷ ts) = ap (λ r. t ∷ r) (uncovered-nil ts)

contains-uncovered :
    (i : ℕ) (cov : List ℕ) (ts : List ProviderOddsTarget)
    → contains i (ids ts) ≡ false
    → contains i (ids (uncovered cov ts)) ≡ false
contains-uncovered i cov [] h = refl
contains-uncovered i cov (t ∷ ts) h = ground (arith, contains-uncovered i cov ts)

pub uncovered-DifferentFixtures :
    (cov : List ℕ) (ts : List ProviderOddsTarget)
    → DifferentFixtures ts
    → DifferentFixtures (uncovered cov ts)
uncovered-DifferentFixtures cov [] d = tt
uncovered-DifferentFixtures cov (t ∷ ts) d = elim (Bool-cases (contains t.fixture_id cov)) [
  | inl e ↦ rw e (uncovered-DifferentFixtures cov ts d.1)
  | inr e ↦
      rw e (contains-uncovered t.fixture_id cov ts d.0, uncovered-DifferentFixtures cov ts d.1)
]

module _ {F : Type 0} ⦃f : Number F⦄ where
  -- An event covers targets only.
  covers-contains :
      (ts : List ProviderOddsTarget) (e : ProviderFixtureOdds F) (i : ℕ)
      → covers ts e ≡ some i
      → contains i (ids ts) ≡ true
  unfolding covers match_event
  covers-contains ts e i h = elim (Bool-cases (event_has_usable_h2h e)) [
    | inl u ↦ sole-contains _ ts i _ refl (rw u at h)
    | inr u ↦ absurd (cc (rw u at h))
  ]

  -- The covered targets and the others are all.
  matched_from-splits :
      (ts : List ProviderOddsTarget) (cov : List ℕ) (es : List (ProviderFixtureOdds F))
      → DifferentFixtures ts
      → length (uncovered cov ts) + length cov ≡ length ts
      → length (uncovered (matched_from ts cov es) ts) + length (matched_from ts cov es) ≡ length ts
  matched_from-splits ts cov [] d h = h
  matched_from-splits ts cov (e ∷ es) d h =
      matched_from-splits ts (add_id (covers ts e) cov) es d
        (splits_add ts cov (covers ts e) d (covers-contains ts e) h)

  pub matched-splits :
      (ts : List ProviderOddsTarget) (es : List (ProviderFixtureOdds F))
      → DifferentFixtures ts
      → length (uncovered (matched_fixture_ids es ts) ts) + length (matched_fixture_ids es ts)
        ≡ length ts
  unfolding matched_fixture_ids
  matched-splits ts es d =
      matched_from-splits ts [] es d (omega (arith, ap length (uncovered-nil ts)))
