-- ===== src/Odds/Ingestion/Sampled.antt =====
-- app/services/odds_ingestion.py: the samples of events that were left unmatched or ambiguous.
use football_agent.Prelude.{
  ℕ, ◌+◌, zero, suc, Option, none, some, List, [], ◌∷◌, ◌++◌, ◌≡◌, ◌≤◌, ◌∙◌, sym, ap, arith, refl,
  take, length, length-append, Bool-cases, inl, inr, ltb,
}
use football_agent.Prelude.Number.{Number}
use football_agent.Odds.TeamNames.{Name}
use football_agent.Odds.Schema.{ProviderFixtureOdds}
use football_agent.Odds.Matching.{MatchOutcome, MatchCandidate, matched, unmatched, ambiguous}
use football_agent.Odds.Ingestion.{
  IngestState, Label, append_sample, count_fetched, count_matched, label_of, ingest_event_odds,
  match_of, process_result, process_events, and_then,
}
use football_agent.Odds.Ingestion.Counted.{ingest_markets-Ingested}

abbrev pub fill : {A : Type 0} → List A → List A → List A
fill xs [] = xs
fill xs (y ∷ ys) = fill (append_sample y xs) ys

append_assoc :
    {A : Type 0} (xs : List A) (y : A) (ys : List A) → (xs ++ y ∷ []) ++ ys ≡ xs ++ y ∷ ys
append_assoc [] y ys = refl
append_assoc (x ∷ xs) y ys = ap (λ r. x ∷ r) (append_assoc xs y ys)

take-append : {A : Type 0} (n : ℕ) (xs ys : List A) → length xs ≡ n → take n (xs ++ ys) ≡ xs
take-append zero [] ys h = refl
take-append zero (x ∷ xs) ys h = absurd (cc h)
take-append (suc n) [] ys h = absurd (cc h)
take-append (suc n) (x ∷ xs) ys h = ap (λ r. x ∷ r) (take-append n xs ys (omega arith))

take_all : {A : Type 0} (n : ℕ) (xs : List A) → length xs ≤ n → take n xs ≡ xs
take_all zero [] h = refl
take_all zero (x ∷ xs) h = absurd (omega arith)
take_all (suc n) [] h = refl
take_all (suc n) (x ∷ xs) h = ap (λ r. x ∷ r) (take_all n xs (omega arith))

append_none : {A : Type 0} (xs : List A) → xs ++ [] ≡ xs
append_none [] = refl
append_none (x ∷ xs) = ap (λ r. x ∷ r) (append_none xs)

pub fill-take : {A : Type 0} (xs ys : List A) → length xs ≤ 20 → fill xs ys ≡ take 20 (xs ++ ys)
fill-take xs [] h = sym (ap (take 20) (append_none xs) ∙ take_all 20 xs h)
fill-take xs (y ∷ ys) h = elim (Bool-cases (ltb (length xs) 20)) [
  | inl e ↦
      let one = length-append xs (y ∷ []) in
      rw e (fill-take (xs ++ y ∷ []) ys (ground arith) ∙ ap (take 20) (append_assoc xs y ys))
  | inr e ↦
      let all : length xs ≡ 20 = ground arith in
      rw e (fill-take xs ys h ∙ take-append 20 xs ys all ∙ sym (take-append 20 xs (y ∷ ys) all))
]

module _ {F : Type 0} ⦃f : Number F⦄ (candidates : List MatchCandidate) (tolerance : ℕ)
    (alias_names : Option (Name → List Name)) where
  abbrev unmatched_label : ProviderFixtureOdds F → MatchOutcome → List Label → List Label
  unmatched_label e unmatched rest = label_of e ∷ rest
  unmatched_label e matched rest = rest
  unmatched_label e ambiguous rest = rest

  abbrev ambiguous_label :
      ProviderFixtureOdds F → ℕ → MatchOutcome → List (Label × ℕ) → List (Label × ℕ)
  ambiguous_label e n ambiguous rest = (label_of e, n) ∷ rest
  ambiguous_label e n matched rest = rest
  ambiguous_label e n unmatched rest = rest

  -- The labels of the events that fit no fixture, in order.
  abbrev pub unmatched_labels : List (ProviderFixtureOdds F) → List Label
  unmatched_labels [] = []
  unmatched_labels (e ∷ events) =
      unmatched_label e (match_of candidates tolerance alias_names e).outcome
        (unmatched_labels events)

  -- The labels of the events that fit several fixtures, and how many, in order.
  abbrev pub ambiguous_labels : List (ProviderFixtureOdds F) → List (Label × ℕ)
  ambiguous_labels [] = []
  ambiguous_labels (e ∷ events) =
      let r = match_of candidates tolerance alias_names e in
      ambiguous_label e r.candidate_count r.outcome (ambiguous_labels events)

  -- The samples after a run over some events, from those before it.
  abbrev pub Sampled :
      List (ProviderFixtureOdds F) → IngestState F → Option (IngestState F) → Type 0
  Sampled events s none = Unit
  Sampled events s (some t) =
      (t.unmatched_samples ≡ fill s.unmatched_samples (unmatched_labels events))
      × (t.ambiguous_samples ≡ fill s.ambiguous_samples (ambiguous_labels events))
      × (t.counters.unmatched_count ≡ s.counters.unmatched_count + length (unmatched_labels events))
      × (t.counters.ambiguous_count ≡ s.counters.ambiguous_count + length (ambiguous_labels events))

  process_result-Sampled :
      (e : ProviderFixtureOdds F) (o : MatchOutcome) (id : Option ℕ) (s : IngestState F)
      → (match_of candidates tolerance alias_names e).outcome ≡ o
      → Sampled (e ∷ []) s (
          process_result e o id
            (match_of candidates tolerance alias_names e).candidate_count
            (count_fetched s))
  unfolding ingest_event_odds
  process_result-Sampled e unmatched id s h = rw h (refl, refl, refl, omega arith)
  process_result-Sampled e ambiguous id s h = rw h (refl, refl, omega arith, refl)
  process_result-Sampled e matched none s h = tt
  process_result-Sampled e matched (some id) s h =
      let i = ingest_markets-Ingested e id e.bookmakers (count_matched (count_fetched s)) in
      rw h (
        i.unmatched_kept,
        i.ambiguous_kept,
        omega (arith, i.unmatched_same),
        omega (arith, i.ambiguous_same),
      )

  Sampled-cons :
      (e : ProviderFixtureOdds F) (events : List (ProviderFixtureOdds F)) (s t : IngestState F)
      (o : Option (IngestState F))
      → Sampled (e ∷ []) s (some t)
      → Sampled events t o
      → Sampled (e ∷ events) s o
  Sampled-cons e events s t none h k = tt
  Sampled-cons e events s t (some u) h k =
      by_outcome (match_of candidates tolerance alias_names e).outcome refl
    where
      by_outcome :
          (m : MatchOutcome)
          → (match_of candidates tolerance alias_names e).outcome ≡ m
          → Sampled (e ∷ events) s (some u)
      by_outcome matched m =
          let (a, b, c, d) = rw m at h in
          rw m (rw a at k.0, rw b at k.1, omega (arith, c, k.2), omega (arith, d, k.3))
      by_outcome unmatched m =
          let (a, b, c, d) = rw m at h in
          rw m (rw a at k.0, rw b at k.1, omega (arith, c, k.2), omega (arith, d, k.3))
      by_outcome ambiguous m =
          let (a, b, c, d) = rw m at h in
          rw m (rw a at k.0, rw b at k.1, omega (arith, c, k.2), omega (arith, d, k.3))

  pub process_events-Sampled :
      (events : List (ProviderFixtureOdds F)) (s : IngestState F)
      → Sampled events s (process_events candidates tolerance alias_names events s)
  unfolding process_events
  process_events-Sampled [] s = (refl, refl, omega arith, omega arith)
  process_events-Sampled (e ∷ events) s =
      let r = match_of candidates tolerance alias_names e in
      next_event (process_result e r.outcome r.fixture_id r.candidate_count (count_fetched s))
        (process_result-Sampled e r.outcome r.fixture_id s refl)
        (λ t. process_events-Sampled events t)
    where
      next_event :
          (o : Option (IngestState F))
          → Sampled (e ∷ []) s o
          → ((t : IngestState F)
              → Sampled events t (process_events candidates tolerance alias_names events t))
          → Sampled (e ∷ events) s (
              and_then candidates tolerance alias_names
                (process_events candidates tolerance alias_names events)
                o)
      next_event none h k = tt
      next_event (some t) h k = Sampled-cons e events s t _ h (k t)
