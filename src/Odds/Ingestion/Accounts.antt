-- ===== src/Odds/Ingestion/Accounts.antt =====
-- What the counters of an ingestion count.
use football_agent.Prelude.{
  ℕ, Bool, true, false, Option, none, some, List, [], ◌∷◌, ◌+◌, suc, ◌≡◌, ◌∙◌, arith, refl, take,
  length, if◌then◌else◌,
}
use mathlib.Core.Path.{subst}
use football_agent.Prelude.Number.{Number}
use football_agent.Odds.TeamNames.{Name}
use football_agent.Odds.Schema.{ProviderFixtureOdds}
use football_agent.Odds.Matching.{
  MatchOutcome, MatchCandidate, MatchResult, matched, unmatched, ambiguous, match_event, result_of,
}
use football_agent.Odds.Ingestion.Tables.{OddsTables}
use football_agent.Odds.Ingestion.{
  IngestState, Label, start_of, count_fetched, count_matched, leave_unmatched, leave_ambiguous,
  ingest_event_odds, match_of, process_event, process_events,
}
use football_agent.Odds.Ingestion.Sampled.{
  Sampled, fill-take, unmatched_labels, ambiguous_labels, process_events-Sampled,
}
use football_agent.Odds.Ingestion.Counted.{usable, offered, ingest_markets-Ingested}

abbrev is_matched : MatchOutcome → Bool
is_matched matched = true
is_matched _ = false

abbrev is_unmatched : MatchOutcome → Bool
is_unmatched unmatched = true
is_unmatched _ = false

abbrev is_ambiguous : MatchOutcome → Bool
is_ambiguous ambiguous = true
is_ambiguous _ = false

-- What the events of a list come to: how many of an outcome, and a sum over the matched ones.
module _ {F : Type 0} (match : ProviderFixtureOdds F → MatchOutcome) where
  abbrev pub of_outcome : (MatchOutcome → Bool) → List (ProviderFixtureOdds F) → ℕ
  of_outcome test [] = 0
  of_outcome test (e ∷ events) = (if test (match e) then 1 else 0) + of_outcome test events

  abbrev pub over_matched : (ProviderFixtureOdds F → ℕ) → List (ProviderFixtureOdds F) → ℕ
  over_matched value [] = 0
  over_matched value (e ∷ events) =
      (if is_matched (match e) then value e else 0) + over_matched value events

-- The numbers by which a run over some events changes a state.
record Processed {F : Type 0} (s t : IngestState F)
    (fetched matches unmatches ambiguities used all : ℕ) : Type 0 where
  at_fetched : t.counters.fetched ≡ s.counters.fetched + fetched
  at_matched : t.counters.matched_count ≡ s.counters.matched_count + matches
  at_unmatched : t.counters.unmatched_count ≡ s.counters.unmatched_count + unmatches
  at_ambiguous : t.counters.ambiguous_count ≡ s.counters.ambiguous_count + ambiguities
  at_added :
      t.counters.created + t.counters.existing ≡ s.counters.created + s.counters.existing + used
  at_skipped : t.counters.outcomes_skipped + used ≡ s.counters.outcomes_skipped + all
  at_rows :
      length t.tables.snapshots + s.counters.created
      ≡ length s.tables.snapshots + t.counters.created

module _ {F : Type 0} where
  Processed-trans :
      (s t u : IngestState F) (a b c d e g a' b' c' d' e' g' : ℕ)
      → Processed s t a b c d e g
      → Processed t u a' b' c' d' e' g'
      → Processed s u (a + a') (b + b') (c + c') (d + d') (e + e') (g + g')
  Processed-trans s t u a b c d e g a' b' c' d' e' g' h k = record {
    at_fetched = omega (arith, h.at_fetched, k.at_fetched);
    at_matched = omega (arith, h.at_matched, k.at_matched);
    at_unmatched = omega (arith, h.at_unmatched, k.at_unmatched);
    at_ambiguous = omega (arith, h.at_ambiguous, k.at_ambiguous);
    at_added = omega (arith, h.at_added, k.at_added);
    at_skipped = omega (arith, h.at_skipped, k.at_skipped);
    at_rows = omega (arith, h.at_rows, k.at_rows);
  }

-- A matched result has a fixture.
pub data Cases (r : MatchResult) : Type 0 where
  no_fit : r.outcome ≡ MatchOutcome.unmatched → r.fixture_id ≡ none → Cases r
  one_fit : (id : ℕ) → r.outcome ≡ MatchOutcome.matched → r.fixture_id ≡ some id → Cases r
  more_fit : r.outcome ≡ MatchOutcome.ambiguous → r.fixture_id ≡ none → Cases r

result_of-Cases : (hits : List MatchCandidate) → Cases (result_of hits)
result_of-Cases [] = no_fit refl refl
result_of-Cases (c ∷ []) = one_fit c.fixture_id refl refl
result_of-Cases (c ∷ b ∷ cs) = more_fit refl refl

module _ {F : Type 0} ⦃f : Number F⦄ where
  ingest_event_odds-Processed :
      (e : ProviderFixtureOdds F) (id : ℕ) (s : IngestState F)
      → Processed s
          (ingest_event_odds e id (count_matched (count_fetched s)))
          1
          1
          0
          0
          (usable e e.bookmakers)
          (offered e.bookmakers)
  unfolding ingest_event_odds
  ingest_event_odds-Processed e id s =
      let i = ingest_markets-Ingested e id e.bookmakers (count_matched (count_fetched s)) in
      record {
        at_fetched = i.fetched;
        at_matched = i.matched_same;
        at_unmatched = omega (arith, i.unmatched_same);
        at_ambiguous = omega (arith, i.ambiguous_same);
        at_added = i.added;
        at_skipped = i.skipped;
        at_rows = i.grown;
      }

  leave_unmatched-Processed :
      (e : ProviderFixtureOdds F) (s : IngestState F)
      → Processed s (leave_unmatched e (count_fetched s)) 1 0 1 0 0 0
  leave_unmatched-Processed e s = record {
    at_fetched = refl;
    at_matched = omega arith;
    at_unmatched = refl;
    at_ambiguous = omega arith;
    at_added = omega arith;
    at_skipped = omega arith;
    at_rows = omega arith;
  }

  leave_ambiguous-Processed :
      (e : ProviderFixtureOdds F) (n : ℕ) (s : IngestState F)
      → Processed s (leave_ambiguous e n (count_fetched s)) 1 0 0 1 0 0
  leave_ambiguous-Processed e n s = record {
    at_fetched = refl;
    at_matched = omega arith;
    at_unmatched = omega arith;
    at_ambiguous = refl;
    at_added = omega arith;
    at_skipped = omega arith;
    at_rows = omega arith;
  }

  module _ (candidates : List MatchCandidate) (tolerance : ℕ)
      (alias_names : Option (Name → List Name)) where
    abbrev found : ProviderFixtureOdds F → MatchOutcome
    found e = (match_of candidates tolerance alias_names e).outcome

    abbrev matches : List (ProviderFixtureOdds F) → ℕ
    matches events = of_outcome found is_matched events

    abbrev used : List (ProviderFixtureOdds F) → ℕ
    used events = over_matched found (λ e. usable e e.bookmakers) events

    abbrev all_offered : List (ProviderFixtureOdds F) → ℕ
    all_offered events = over_matched found (λ e. offered e.bookmakers) events

    pub match_of-Cases :
        (e : ProviderFixtureOdds F) → Cases (match_of candidates tolerance alias_names e)
    unfolding match_event
    match_of-Cases e = result_of-Cases _

    process_event-Processed :
        (e : ProviderFixtureOdds F) (s : IngestState F)
        → (t : IngestState F) × (process_event candidates tolerance alias_names e s ≡ some t)
          × Processed s t 1
              (if is_matched (found e) then 1 else 0)
              (if is_unmatched (found e) then 1 else 0)
              (if is_ambiguous (found e) then 1 else 0)
              (if is_matched (found e) then usable e e.bookmakers else 0)
              (if is_matched (found e) then offered e.bookmakers else 0)
    process_event-Processed e s = elim (match_of-Cases e) [
      | no_fit o n ↦ rw o (_, refl, leave_unmatched-Processed e s)
      | one_fit id o i ↦ rw (o, i) (_, refl, ingest_event_odds-Processed e id s)
      | more_fit o n ↦ rw o (_, refl, leave_ambiguous-Processed e _ s)
    ]

    process_events-Processed :
        (events : List (ProviderFixtureOdds F)) (s : IngestState F)
        → (t : IngestState F) × (process_events candidates tolerance alias_names events s ≡ some t)
          × Processed s t
              (length events)
              (matches events)
              (of_outcome found is_unmatched events)
              (of_outcome found is_ambiguous events)
              (used events)
              (all_offered events)
    unfolding process_events
    process_events-Processed [] s = (
      s,
      refl,
      record {
        at_fetched = omega arith;
        at_matched = omega arith;
        at_unmatched = omega arith;
        at_ambiguous = omega arith;
        at_added = omega arith;
        at_skipped = omega arith;
        at_rows = omega arith;
      },
    )
    process_events-Processed (e ∷ events) s =
        let (t, one, p) = process_event-Processed e s in
        let (u, rest, q) = process_events-Processed events t in
        let one_more : 1 + length events ≡ suc (length events) = omega arith in
        (
          u,
          rw one rest,
          subst
              (λ n.
                Processed s u n (matches (e ∷ events)) (of_outcome found is_unmatched (e ∷ events))
                  (of_outcome found is_ambiguous (e ∷ events)) (used (e ∷ events))
                  (all_offered (e ∷ events)))
              one_more (Processed-trans s t u _ _ _ _ _ _ _ _ _ _ _ _ p q),
        )

    outcomes_split :
        (events : List (ProviderFixtureOdds F))
        → matches events
            + of_outcome found is_unmatched events
            + of_outcome found is_ambiguous events
          ≡ length events
    outcomes_split [] = omega arith
    outcomes_split (e ∷ events) = elim (match_of-Cases e) [
      | no_fit o n ↦ rw o (omega (arith, outcomes_split events))
      | one_fit id o i ↦ rw o (omega (arith, outcomes_split events))
      | more_fit o n ↦ rw o (omega (arith, outcomes_split events))
    ]

    abbrev pub no_fits : List (ProviderFixtureOdds F) → List Label
    no_fits = unmatched_labels candidates tolerance alias_names

    abbrev pub several_fits : List (ProviderFixtureOdds F) → List (Label × ℕ)
    several_fits = ambiguous_labels candidates tolerance alias_names

    -- What a run has counted, beside what it was given.
    pub record IsAccount (events : List (ProviderFixtureOdds F)) (before : OddsTables F)
        (t : IngestState F) : Type 0 where
      pub all_fetched : t.counters.fetched ≡ length events
      pub each_once :
          t.counters.matched_count + t.counters.unmatched_count + t.counters.ambiguous_count
          ≡ t.counters.fetched
      pub all_matched : t.counters.matched_count ≡ matches events
      pub all_used : t.counters.created + t.counters.existing ≡ used events
      pub all_skipped : t.counters.outcomes_skipped + used events ≡ all_offered events
      pub rows_added : length t.tables.snapshots ≡ length before.snapshots + t.counters.created
      pub all_unmatched : t.counters.unmatched_count ≡ length (no_fits events)
      pub all_ambiguous : t.counters.ambiguous_count ≡ length (several_fits events)
      pub unmatched_sampled : t.unmatched_samples ≡ take 20 (no_fits events)
      pub ambiguous_sampled : t.ambiguous_samples ≡ take 20 (several_fits events)

    pub process_events-IsAccount :
        (events : List (ProviderFixtureOdds F)) (tables : OddsTables F)
        → (t : IngestState F) × (process_events candidates tolerance alias_names events
              (start_of tables)
            ≡ some t)
          × IsAccount events tables t
    process_events-IsAccount events tables =
        let (t, done, p) = process_events-Processed events (start_of tables) in
        let (us, ss, un, an) =
          subst (Sampled candidates tolerance alias_names events (start_of tables)) done
            (process_events-Sampled candidates tolerance alias_names events (start_of tables)) in
        (
          t,
          done,
          record {
            all_fetched = omega (arith, p.at_fetched);
            each_once = omega (
              arith,
              p.at_matched,
              p.at_unmatched,
              p.at_ambiguous,
              p.at_fetched,
              outcomes_split events,
            );
            all_matched = omega (arith, p.at_matched);
            all_used = omega (arith, p.at_added);
            all_skipped = omega (arith, p.at_skipped);
            rows_added = omega (arith, p.at_rows);
            all_unmatched = omega (arith, un);
            all_ambiguous = omega (arith, an);
            unmatched_sampled = us ∙ fill-take [] (no_fits events) (omega arith);
            ambiguous_sampled = ss ∙ fill-take [] (several_fits events) (omega arith);
          },
        )
