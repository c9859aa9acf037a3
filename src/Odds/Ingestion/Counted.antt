-- ===== src/Odds/Ingestion/Counted.antt =====
-- What the counters count while one event is ingested.
use football_agent.Prelude.{
  ℕ, String, Bool, Option, none, some, is_some, List, [], ◌∷◌, ◌+◌, ◌≡◌, arith, refl, length, count,
  if◌then◌else◌, str_eq, Bool-cases, inl, inr,
}
use mathlib.Core.Path.{subst, subst₂}
use football_agent.Prelude.Number.{Number}
use football_agent.Odds.TeamNames.{Name}
use football_agent.Odds.Schema.{OddsOutcome, BookmakerMarket, ProviderFixtureOdds}
use football_agent.Odds.Ingestion.Tables.{SnapshotRow, OddsTables, is_stored, get_by_external_id}
use football_agent.Odds.Ingestion.{
  IngestState, classify_outcome, find_cached, get_or_create_bookmaker, from_cache, from_table,
  add_row, row_of, ingest_outcome, ingest_outcomes, ingest_dated, ingest_markets,
  canonical_bookmaker_identity,
}

-- The outcomes of a market that are stored, and all of them.
module _ {F : Type 0} ⦃f : Number F⦄ where
  abbrev pub is_usable : ProviderFixtureOdds F → OddsOutcome F → Bool
  is_usable event o =
      is_some (row_of event 0 0 0 o (classify_outcome o.name event.home_team event.away_team))

  abbrev dated_usable : ProviderFixtureOdds F → List (OddsOutcome F) → Option ℕ → ℕ
  dated_usable event os none = 0
  dated_usable event os (some at) = count (is_usable event) os

  abbrev pub usable : ProviderFixtureOdds F → List (BookmakerMarket F) → ℕ
  usable event [] = 0
  usable event (m ∷ ms) =
      (if str_eq m.market "h2h" then dated_usable event m.outcomes m.last_update else 0)
      + usable event ms

abbrev pub offered : {F : Type 0} → List (BookmakerMarket F) → ℕ
offered [] = 0
offered (m ∷ ms) = (if str_eq m.market "h2h" then length m.outcomes else 0) + offered ms

-- From one state to a later one, `m` outcomes of `n` are stored or found.
pub record Ingested {F : Type 0} (s t : IngestState F) (m n : ℕ) : Type 0 where
  pub added :
      t.counters.created + t.counters.existing ≡ s.counters.created + s.counters.existing + m
  pub skipped : t.counters.outcomes_skipped + m ≡ s.counters.outcomes_skipped + n
  pub grown :
      length t.tables.snapshots + s.counters.created
      ≡ length s.tables.snapshots + t.counters.created
  pub fetched : t.counters.fetched ≡ s.counters.fetched
  pub matched_same : t.counters.matched_count ≡ s.counters.matched_count
  pub unmatched_same : t.counters.unmatched_count ≡ s.counters.unmatched_count
  pub ambiguous_same : t.counters.ambiguous_count ≡ s.counters.ambiguous_count
  pub unmatched_kept : t.unmatched_samples ≡ s.unmatched_samples
  pub ambiguous_kept : t.ambiguous_samples ≡ s.ambiguous_samples

module _ {F : Type 0} where
  Ingested-trans :
      {s t u : IngestState F} {k l m n : ℕ}
      → Ingested s t k l
      → Ingested t u m n
      → Ingested s u (k + m) (l + n)
  Ingested-trans a b = record {
    added = omega (arith, a.added, b.added);
    skipped = omega (arith, a.skipped, b.skipped);
    grown = omega (arith, a.grown, b.grown);
    fetched = cc (a.fetched, b.fetched);
    matched_same = cc (a.matched_same, b.matched_same);
    unmatched_same = cc (a.unmatched_same, b.unmatched_same);
    ambiguous_same = cc (a.ambiguous_same, b.ambiguous_same);
    unmatched_kept = cc (a.unmatched_kept, b.unmatched_kept);
    ambiguous_kept = cc (a.ambiguous_kept, b.ambiguous_kept);
  }

  -- A change of the tables, the cache and three of the counters.
  changed-Ingested :
      (s : IngestState F) (tables : OddsTables F) (cache : List (Name × ℕ)) (c e k m n : ℕ)
      → c + e ≡ s.counters.created + s.counters.existing + m
      → k + m ≡ s.counters.outcomes_skipped + n
      → length tables.snapshots + s.counters.created ≡ length s.tables.snapshots + c
      → Ingested s
          (record s {
            tables = tables;
            bookmaker_cache = cache;
            counters = record s.counters { created = c; existing = e; outcomes_skipped = k };
          })
          m
          n
  changed-Ingested s tables cache c e k m n h1 h2 h3 = record {
    added = h1;
    skipped = h2;
    grown = h3;
    fetched = refl;
    matched_same = refl;
    unmatched_same = refl;
    ambiguous_same = refl;
    unmatched_kept = refl;
    ambiguous_kept = refl;
  }

  Ingested-refl : (s : IngestState F) → Ingested s s 0 0
  Ingested-refl s = changed-Ingested s _ _ _ _ _ 0 0 (omega arith) (omega arith) (omega arith)

  from_table-Ingested :
      (key : Name) (name : String) (o : Option ℕ) (s : IngestState F)
      → Ingested s (from_table key name o s).1 0 0
  from_table-Ingested key name (some id) s =
      changed-Ingested s _ _ _ _ _ 0 0 (omega arith) (omega arith) (omega arith)
  from_table-Ingested key name none s =
      changed-Ingested s _ _ _ _ _ 0 0 (omega arith) (omega arith) (omega arith)

  from_cache-Ingested :
      (key : Name) (name : String) (o : Option ℕ) (s : IngestState F)
      → Ingested s (from_cache key name o s).1 0 0
  from_cache-Ingested key name (some id) s = Ingested-refl s
  from_cache-Ingested key name none s =
      from_table-Ingested key name (get_by_external_id key s.tables) s

  get_or_create-Ingested :
      (key title : String) (s : IngestState F)
      → Ingested s (get_or_create_bookmaker key title s).1 0 0
  unfolding get_or_create_bookmaker
  get_or_create-Ingested key title s =
      let identity = canonical_bookmaker_identity key title in
      from_cache-Ingested identity.0 identity.1 (find_cached identity.0 s.bookmaker_cache) s

  add_row-Ingested :
      (r : Option (SnapshotRow F)) (s : IngestState F)
      → Ingested s (add_row r s) (if is_some r then 1 else 0) 1
  add_row-Ingested none s =
      changed-Ingested s _ _ _ _ _ 0 1 (omega arith) (omega arith) (omega arith)
  add_row-Ingested (some r) s = elim (Bool-cases (is_stored r s.tables.snapshots)) [
    | inl old ↦ rw old (changed-Ingested s _ _ _ _ _ 1 1 (omega arith) (omega arith) (omega arith))
    | inr new ↦ rw new (changed-Ingested s _ _ _ _ _ 1 1 (omega arith) (omega arith) (omega arith))
  ]

module _ {F : Type 0} ⦃f : Number F⦄ where
  -- Whether a row is made does not depend on its identifiers.
  is_some-row_of :
      (e : ProviderFixtureOdds F) (fixture bookmaker at : ℕ) (o : OddsOutcome F)
      (code : Option String)
      → is_some (row_of e fixture bookmaker at o code) ≡ is_some (row_of e 0 0 0 o code)
  is_some-row_of e fixture bookmaker at o none = refl
  is_some-row_of e fixture bookmaker at o (some c) = elim (Bool-cases (f.le o.price (f.of_nat 1))) [
    | inl low ↦ rw low
    | inr high ↦ rw high
  ]

  ingest_outcome-Ingested :
      (e : ProviderFixtureOdds F) (fixture bookmaker at : ℕ) (o : OddsOutcome F) (s : IngestState F)
      → Ingested s (ingest_outcome e fixture bookmaker at o s) (if is_usable e o then 1 else 0) 1
  ingest_outcome-Ingested e fixture bookmaker at o s =
      let code = classify_outcome o.name e.home_team e.away_team in
      subst (λ b. Ingested s (ingest_outcome e fixture bookmaker at o s) (if b then 1 else 0) 1)
        (is_some-row_of e fixture bookmaker at o code)
        (add_row-Ingested (row_of e fixture bookmaker at o code) s)

  ingest_outcomes-Ingested :
      (e : ProviderFixtureOdds F) (fixture bookmaker at : ℕ) (os : List (OddsOutcome F))
      (s : IngestState F)
      → Ingested s
          (ingest_outcomes e fixture bookmaker at os s)
          (count (is_usable e) os)
          (length os)
  ingest_outcomes-Ingested e fixture bookmaker at [] s = Ingested-refl s
  ingest_outcomes-Ingested e fixture bookmaker at (o ∷ os) s =
      let first = ingest_outcome-Ingested e fixture bookmaker at o s in
      let rest =
        ingest_outcomes-Ingested e fixture bookmaker at os
          (ingest_outcome e fixture bookmaker at o s) in
      subst₂ (Ingested s (ingest_outcomes e fixture bookmaker at (o ∷ os) s)) (ground arith)
        (omega arith) (Ingested-trans first rest)

  ingest_dated-Ingested :
      (e : ProviderFixtureOdds F) (fixture : ℕ) (m : BookmakerMarket F) (at : Option ℕ)
      (s : IngestState F)
      → Ingested s
          (ingest_dated e fixture m at s)
          (dated_usable e m.outcomes at)
          (length m.outcomes)
  ingest_dated-Ingested e fixture m none s =
      changed-Ingested s _ _ _ _ _ 0 (length m.outcomes) (omega arith) (omega arith) (omega arith)
  ingest_dated-Ingested e fixture m (some at) s =
      let found = get_or_create_bookmaker m.bookmaker_key m.bookmaker_title s in
      subst₂ (Ingested s (ingest_outcomes e fixture found.0 at m.outcomes found.1)) (omega arith)
        (omega arith)
        (Ingested-trans (get_or_create-Ingested m.bookmaker_key m.bookmaker_title s)
          (ingest_outcomes-Ingested e fixture found.0 at m.outcomes found.1))

  pub ingest_markets-Ingested :
      (e : ProviderFixtureOdds F) (fixture : ℕ) (ms : List (BookmakerMarket F)) (s : IngestState F)
      → Ingested s (ingest_markets e fixture ms s) (usable e ms) (offered ms)
  ingest_markets-Ingested e fixture [] s = Ingested-refl s
  ingest_markets-Ingested e fixture (m ∷ ms) s = elim (Bool-cases (str_eq m.market "h2h")) [
    | inl on ↦ rw on (
        Ingested-trans (ingest_dated-Ingested e fixture m m.last_update s)
          (ingest_markets-Ingested e fixture ms (ingest_dated e fixture m m.last_update s)))
    | inr off ↦ rw off (Ingested-trans (Ingested-refl s) (ingest_markets-Ingested e fixture ms s))
  ]
