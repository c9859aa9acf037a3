-- ===== src/Odds/Ingestion/Idempotent.antt =====
-- A run over events that have been ingested before adds nothing.
use football_agent.Prelude.{ℕ, Option, some, List, [], ◌∷◌, ◌+◌, ◌≡◌, sym, arith, refl, All}
use mathlib.Core.Path.{subst}
use football_agent.Prelude.Number.{Number}
use football_agent.Odds.TeamNames.{Name}
use football_agent.Odds.Schema.{ProviderFixtureOdds}
use football_agent.Odds.Matching.{MatchCandidate}
use football_agent.Odds.Ingestion.Tables.{OddsTables}
use football_agent.Odds.Ingestion.{
  IngestState, start_of, count_fetched, count_matched, leave_unmatched, leave_ambiguous,
  ingest_event_odds, match_of, process_event, process_events,
}
use football_agent.Odds.Ingestion.Accounts.{
  no_fit, one_fit, more_fit, match_of-Cases, process_events-IsAccount,
}
use football_agent.Odds.Ingestion.Growth.{Grows, Grows-refl, Grows-trans, IsCoherent, Keeps}
use football_agent.Odds.Ingestion.Again.{
  Idle, Idle-trans, HasMarkets, HasMarkets-Grows, ingest_markets-Has, ingest_markets-Idle,
}

module _ {F : Type 0} ⦃f : Number F⦄ (candidates : List MatchCandidate) (tolerance : ℕ)
    (alias_names : Option (Name → List Name)) where
  -- The markets of an event are in the tables, for the fixture that it matches.
  abbrev HasEvent : OddsTables F → ProviderFixtureOdds F → Type 0
  HasEvent tables e =
      (id : ℕ)
      → (match_of candidates tolerance alias_names e).fixture_id ≡ some id
      → HasMarkets e id tables e.bookmakers

  HasEvent-Grows :
      (a b : OddsTables F) (e : ProviderFixtureOdds F) → Grows a b → HasEvent a e → HasEvent b e
  HasEvent-Grows a b e g h id m = HasMarkets-Grows e id a b e.bookmakers g (h id m)

  abbrev ran : List (ProviderFixtureOdds F) → IngestState F → Option (IngestState F)
  ran = process_events candidates tolerance alias_names

  process_event-Has :
      (e : ProviderFixtureOdds F) (s : IngestState F)
      → IsCoherent s
      → (t : IngestState F) × (process_event candidates tolerance alias_names e s ≡ some t)
        × Keeps s t
        × HasEvent t.tables e
  unfolding ingest_event_odds
  process_event-Has e s c = elim (match_of-Cases candidates tolerance alias_names e) [
    | no_fit o n ↦ (
      leave_unmatched e (count_fetched s),
      rw o,
      record { grows = Grows-refl s.tables; coherent = c },
      λ id h. absurd (cc (n, h)),
    )
    | one_fit id o i ↦
        let (keeps, has) =
          ingest_markets-Has e id e.bookmakers (count_matched (count_fetched s)) c in
        (
          ingest_event_odds e id (count_matched (count_fetched s)),
          rw (o, i),
          record { grows = keeps.grows; coherent = keeps.coherent },
          λ j h.
              let same : id ≡ j = cc (i, h) in
              subst
                (λ k.
                  HasMarkets e k (ingest_event_odds e id (count_matched (count_fetched s))).tables
                    e.bookmakers)
                same has,
        )
    | more_fit o n ↦ (
      leave_ambiguous e (match_of candidates tolerance alias_names e).candidate_count
          (count_fetched s),
      rw o,
      record { grows = Grows-refl s.tables; coherent = c },
      λ id h. absurd (cc (n, h)),
    )
  ]

  process_events-Has :
      (events : List (ProviderFixtureOdds F)) (s : IngestState F)
      → IsCoherent s
      → (t : IngestState F) × (ran events s ≡ some t) × Keeps s t × All (HasEvent t.tables) events
  unfolding process_events
  process_events-Has [] s c = (s, refl, record { grows = Grows-refl s.tables; coherent = c }, tt)
  process_events-Has (e ∷ events) s c =
      let (t, one, keeps, has) = process_event-Has e s c in
      let (u, rest, kept, all) = process_events-Has events t keeps.coherent in
      (
        u,
        rw one rest,
        record { grows = Grows-trans keeps.grows kept.grows; coherent = kept.coherent },
        (HasEvent-Grows t.tables u.tables e kept.grows has, all),
      )

  process_event-Idle :
      (e : ProviderFixtureOdds F) (s : IngestState F)
      → IsCoherent s
      → HasEvent s.tables e
      → (t : IngestState F) × (process_event candidates tolerance alias_names e s ≡ some t)
        × Idle s t
  unfolding ingest_event_odds
  process_event-Idle e s c h = elim (match_of-Cases candidates tolerance alias_names e) [
    | no_fit o n ↦ (
      leave_unmatched e (count_fetched s),
      rw o,
      record { same_tables = refl; none_created = refl; coherent = c },
    )
    | one_fit id o i ↦
        let idle =
          ingest_markets-Idle e id e.bookmakers (count_matched (count_fetched s)) c (h id i) in
        (
          ingest_event_odds e id (count_matched (count_fetched s)),
          rw (o, i),
          record {
            same_tables = idle.same_tables;
            none_created = idle.none_created;
            coherent = idle.coherent;
          },
        )
    | more_fit o n ↦ (
      leave_ambiguous e (match_of candidates tolerance alias_names e).candidate_count
          (count_fetched s),
      rw o,
      record { same_tables = refl; none_created = refl; coherent = c },
    )
  ]

  process_events-Idle :
      (events : List (ProviderFixtureOdds F)) (s : IngestState F)
      → IsCoherent s
      → All (HasEvent s.tables) events
      → (t : IngestState F) × (ran events s ≡ some t) × Idle s t
  unfolding process_events
  process_events-Idle [] s c h =
      (s, refl, record { same_tables = refl; none_created = refl; coherent = c })
  process_events-Idle (e ∷ events) s c h =
      let (t, one, idle) = process_event-Idle e s c h.0 in
      let (u, rest, idles) =
        process_events-Idle events t idle.coherent
          (subst (λ x. All (HasEvent x) events) (sym idle.same_tables) h.1) in
      (u, rw one rest, Idle-trans idle idles)

  -- A run over events, and then the same run on the tables that it leaves: the second one ends
  -- well too, changes nothing in the tables, counts no snapshot as created, and finds as many as
  -- the first one has created and found.
  pub process_events_again :
      (events : List (ProviderFixtureOdds F)) (tables : OddsTables F)
      → (t u : IngestState F) × (ran events (start_of tables) ≡ some t)
        × (ran events (start_of t.tables) ≡ some u)
        × (u.tables ≡ t.tables)
        × (u.counters.created ≡ 0)
        × (u.counters.existing ≡ t.counters.created + t.counters.existing)
  process_events_again events tables =
      let (t, first, keeps, has) =
        process_events-Has events (start_of tables) (λ k i h. absurd (cc h)) in
      let (u, second, idle) =
        process_events-Idle events (start_of t.tables) (λ k i h. absurd (cc h)) has in
      let (t', first', account) =
        process_events-IsAccount candidates tolerance alias_names events tables in
      let (u', second', accounts) =
        process_events-IsAccount candidates tolerance alias_names events t.tables in
      let same_t : t' ≡ t = cc (first, first') in
      let same_u : u' ≡ u = cc (second, second') in
      let used_t = rw same_t at account.all_used in
      let used_u = rw same_u at accounts.all_used in
      (
        t,
        u,
        first,
        second,
        idle.same_tables,
        idle.none_created,
        omega (arith, used_t, used_u, idle.none_created),
      )
