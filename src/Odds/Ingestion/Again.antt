-- ===== src/Odds/Ingestion/Again.antt =====
-- Events that have been ingested change nothing when they are ingested again.
use football_agent.Prelude.{
  ℕ, String, Bool, true, false, Option, none, some, List, [], ◌∷◌, ◌≡◌, ◌∙◌, refl, All, All-map,
  if◌then◌else◌, str_eq, Bool-cases, inl, inr, sym,
}
use mathlib.Core.Path.{subst}
use football_agent.Prelude.Number.{Number}
use football_agent.Odds.TeamNames.{Name}
use football_agent.Odds.Schema.{OddsOutcome, BookmakerMarket, ProviderFixtureOdds}
use football_agent.Odds.Ingestion.Tables.{SnapshotRow, OddsTables, is_stored, get_by_external_id}
use football_agent.Odds.Ingestion.{
  IngestState, classify_outcome, canonical_bookmaker_identity, find_cached, get_or_create_bookmaker,
  from_cache, add_row, row_of, ingest_outcomes, ingest_dated, ingest_market, ingest_markets,
}
use football_agent.Odds.Ingestion.Growth.{
  Grows, Grows-refl, Grows-trans, IsCoherent, Keeps, same_key_self, key_for, get_or_create-Keeps,
  add_row-Keeps,
}

-- What is in the tables when an event has been ingested.
module _ {F : Type 0} where
  abbrev pub HasRow : OddsTables F → Option (SnapshotRow F) → Type 0
  HasRow tables none = Unit
  HasRow tables (some r) = is_stored r tables.snapshots ≡ true

  -- Nothing but the cache and some counters has changed.
  pub record Idle (s t : IngestState F) : Type 0 where
    pub same_tables : t.tables ≡ s.tables
    pub none_created : t.counters.created ≡ s.counters.created
    pub coherent : IsCoherent t

  pub Idle-trans : {s t u : IngestState F} → Idle s t → Idle t u → Idle s u
  Idle-trans a b = record {
    same_tables = b.same_tables ∙ a.same_tables;
    none_created = b.none_created ∙ a.none_created;
    coherent = b.coherent;
  }

  HasRow-Grows :
      (a b : OddsTables F) (r : Option (SnapshotRow F)) → Grows a b → HasRow a r → HasRow b r
  HasRow-Grows a b none g h = tt
  HasRow-Grows a b (some r) g h = g.still_stored r h

  add_row-HasRow : (r : Option (SnapshotRow F)) (s : IngestState F) → HasRow (add_row r s).tables r
  add_row-HasRow none s = tt
  add_row-HasRow (some r) s = elim (Bool-cases (is_stored r s.tables.snapshots)) [
    | inl old ↦ rw old old
    | inr new ↦ rw new (rw (same_key_self r) refl)
  ]

  add_row-Idle :
      (r : Option (SnapshotRow F)) (s : IngestState F)
      → IsCoherent s
      → HasRow s.tables r
      → Idle s (add_row r s)
  add_row-Idle none s c h = record { same_tables = refl; none_created = refl; coherent = c }
  add_row-Idle (some r) s c h =
      rw h (record { same_tables = refl; none_created = refl; coherent = c })

  from_cache-Idle :
      (key : Name) (name : String) (o : Option ℕ) (id : ℕ) (s : IngestState F)
      → find_cached key s.bookmaker_cache ≡ o
      → IsCoherent s
      → get_by_external_id key s.tables ≡ some id
      → ((from_cache key name o s).0 ≡ id)
        × ((from_cache key name o s).1.tables ≡ s.tables)
        × ((from_cache key name o s).1.counters.created ≡ s.counters.created)
  from_cache-Idle key name (some j) id s e c h =
      let there = c key j e in let same : j ≡ id = cc (there, h) in (same, refl, refl)
  from_cache-Idle key name none id s e c h = rw h (refl, refl, refl)

  get_or_create-Idle :
      (key title : String) (id : ℕ) (s : IngestState F)
      → IsCoherent s
      → get_by_external_id (key_for key title) s.tables ≡ some id
      → ((get_or_create_bookmaker key title s).0 ≡ id)
        × Idle s (get_or_create_bookmaker key title s).1
  unfolding get_or_create_bookmaker
  get_or_create-Idle key title id s c h =
      let identity = canonical_bookmaker_identity key title in
      let k = get_or_create-Keeps key title s c in
      let i =
        from_cache-Idle identity.0 identity.1 (find_cached identity.0 s.bookmaker_cache) id s refl c
          h in
      (i.0, record { same_tables = i.1; none_created = i.2; coherent = k.0.coherent })

module _ {F : Type 0} ⦃f : Number F⦄ (e : ProviderFixtureOdds F) (fixture : ℕ) where
  abbrev row_for : ℕ → ℕ → OddsOutcome F → Option (SnapshotRow F)
  row_for bookmaker at o =
      row_of e fixture bookmaker at o (classify_outcome o.name e.home_team e.away_team)

  abbrev HasRows : OddsTables F → ℕ → ℕ → List (OddsOutcome F) → Type 0
  HasRows tables bookmaker at os = All (λ o. HasRow tables (row_for bookmaker at o)) os

  abbrev HasDated : OddsTables F → BookmakerMarket F → Option ℕ → Type 0
  HasDated tables m none = Unit
  HasDated tables m (some at) =
      (id : ℕ) × (get_by_external_id (key_for m.bookmaker_key m.bookmaker_title) tables ≡ some id)
      × HasRows tables id at m.outcomes

  abbrev HasMarket : OddsTables F → BookmakerMarket F → Type 0
  HasMarket tables m = str_eq m.market "h2h" ≡ true → HasDated tables m m.last_update

  abbrev pub HasMarkets : OddsTables F → List (BookmakerMarket F) → Type 0
  HasMarkets tables ms = All (HasMarket tables) ms

  HasDated-Grows :
      (a b : OddsTables F) (m : BookmakerMarket F) (at : Option ℕ)
      → Grows a b
      → HasDated a m at
      → HasDated b m at
  HasDated-Grows a b m none g h = tt
  HasDated-Grows a b m (some at) g h = (
    h.0,
    g.still_known _ h.0 h.1,
    All-map (λ o k. HasRow-Grows a b (row_for h.0 at o) g k) m.outcomes h.2,
  )

  pub HasMarkets-Grows :
      (a b : OddsTables F) (ms : List (BookmakerMarket F))
      → Grows a b
      → HasMarkets a ms
      → HasMarkets b ms
  HasMarkets-Grows a b ms g h = All-map (λ m k on. HasDated-Grows a b m m.last_update g (k on)) ms h

  -- After an ingestion.
  ingest_outcomes-Has :
      (bookmaker at : ℕ) (os : List (OddsOutcome F)) (s : IngestState F)
      → IsCoherent s
      → Keeps s (ingest_outcomes e fixture bookmaker at os s)
        × HasRows (ingest_outcomes e fixture bookmaker at os s).tables bookmaker at os
  ingest_outcomes-Has bookmaker at [] s c =
      (record { grows = Grows-refl s.tables; coherent = c }, tt)
  ingest_outcomes-Has bookmaker at (o ∷ os) s c =
      let r = row_for bookmaker at o in
      let t = add_row r s in
      let first = add_row-Keeps r s c in
      let (keeps, rows) = ingest_outcomes-Has bookmaker at os t first.coherent in
      (
        record { grows = Grows-trans first.grows keeps.grows; coherent = keeps.coherent },
        (
          HasRow-Grows t.tables (ingest_outcomes e fixture bookmaker at os t).tables r keeps.grows
              (add_row-HasRow r s),
          rows,
        ),
      )

  ingest_dated-Has :
      (m : BookmakerMarket F) (at : Option ℕ) (s : IngestState F)
      → IsCoherent s
      → Keeps s (ingest_dated e fixture m at s)
        × HasDated (ingest_dated e fixture m at s).tables m at
  ingest_dated-Has m none s c = (record { grows = Grows-refl s.tables; coherent = c }, tt)
  ingest_dated-Has m (some at) s c =
      let found = get_or_create_bookmaker m.bookmaker_key m.bookmaker_title s in
      let (first, known) = get_or_create-Keeps m.bookmaker_key m.bookmaker_title s c in
      let (keeps, rows) = ingest_outcomes-Has found.0 at m.outcomes found.1 first.coherent in
      (
        record { grows = Grows-trans first.grows keeps.grows; coherent = keeps.coherent },
        (found.0, keeps.grows.still_known _ found.0 known, rows),
      )

  ingest_if-Has :
      (b : Bool) (m : BookmakerMarket F) (s : IngestState F)
      → IsCoherent s
      → Keeps s (if b then ingest_dated e fixture m m.last_update s else s)
        × (b ≡ true
            → HasDated
                (if b then ingest_dated e fixture m m.last_update s else s).tables
                m
                m.last_update)
  ingest_if-Has true m s c =
      let (keeps, has) = ingest_dated-Has m m.last_update s c in (keeps, λ h. has)
  ingest_if-Has false m s c =
      (record { grows = Grows-refl s.tables; coherent = c }, λ h. absurd (cc h))

  pub ingest_markets-Has :
      (ms : List (BookmakerMarket F)) (s : IngestState F)
      → IsCoherent s
      → Keeps s (ingest_markets e fixture ms s)
        × HasMarkets (ingest_markets e fixture ms s).tables ms
  ingest_markets-Has [] s c = (record { grows = Grows-refl s.tables; coherent = c }, tt)
  ingest_markets-Has (m ∷ ms) s c =
      let t = ingest_market e fixture m s in
      let (first, has) = ingest_if-Has (str_eq m.market "h2h") m s c in
      let (keeps, rest) = ingest_markets-Has ms t first.coherent in
      (
        record { grows = Grows-trans first.grows keeps.grows; coherent = keeps.coherent },
        (
          λ h.
              HasDated-Grows t.tables (ingest_markets e fixture ms t).tables m m.last_update
                keeps.grows (has h),
          rest,
        ),
      )

  -- When it has been done before.
  ingest_outcomes-Idle :
      (bookmaker at : ℕ) (os : List (OddsOutcome F)) (s : IngestState F)
      → IsCoherent s
      → HasRows s.tables bookmaker at os
      → Idle s (ingest_outcomes e fixture bookmaker at os s)
  ingest_outcomes-Idle bookmaker at [] s c h = record {
    same_tables = refl;
    none_created = refl;
    coherent = c;
  }
  ingest_outcomes-Idle bookmaker at (o ∷ os) s c h =
      let t = add_row (row_for bookmaker at o) s in
      let first = add_row-Idle (row_for bookmaker at o) s c h.0 in
      Idle-trans first (
        ingest_outcomes-Idle bookmaker at os t first.coherent
          (subst (λ x. HasRows x bookmaker at os) (sym first.same_tables) h.1))

  ingest_dated-Idle :
      (m : BookmakerMarket F) (at : Option ℕ) (s : IngestState F)
      → IsCoherent s
      → HasDated s.tables m at
      → Idle s (ingest_dated e fixture m at s)
  ingest_dated-Idle m none s c h = record { same_tables = refl; none_created = refl; coherent = c }
  ingest_dated-Idle m (some at) s c h =
      let found = get_or_create_bookmaker m.bookmaker_key m.bookmaker_title s in
      let (same, first) = get_or_create-Idle m.bookmaker_key m.bookmaker_title h.0 s c h.1 in
      Idle-trans first (
        ingest_outcomes-Idle found.0 at m.outcomes found.1 first.coherent (
          subst (λ x. HasRows x found.0 at m.outcomes) (sym first.same_tables)
            (subst (λ i. HasRows s.tables i at m.outcomes) (sym same) h.2)))

  ingest_if-Idle :
      (b : Bool) (m : BookmakerMarket F) (s : IngestState F)
      → IsCoherent s
      → (b ≡ true → HasDated s.tables m m.last_update)
      → Idle s (if b then ingest_dated e fixture m m.last_update s else s)
  ingest_if-Idle true m s c h = ingest_dated-Idle m m.last_update s c (h refl)
  ingest_if-Idle false m s c h = record { same_tables = refl; none_created = refl; coherent = c }

  pub ingest_markets-Idle :
      (ms : List (BookmakerMarket F)) (s : IngestState F)
      → IsCoherent s
      → HasMarkets s.tables ms
      → Idle s (ingest_markets e fixture ms s)
  ingest_markets-Idle [] s c h = record { same_tables = refl; none_created = refl; coherent = c }
  ingest_markets-Idle (m ∷ ms) s c h =
      let first = ingest_if-Idle (str_eq m.market "h2h") m s c h.0 in
      Idle-trans first (
        ingest_markets-Idle ms (ingest_market e fixture m s) first.coherent
          (subst (λ x. HasMarkets x ms) (sym first.same_tables) h.1))
