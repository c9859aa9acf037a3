-- ===== src/Odds/Ingestion/Growth.antt =====
-- An ingestion lets the tables grow, and its cache of bookmakers repeats the table.
use football_agent.Prelude.{
  ℕ, String, true, Option, none, some, List, ◌∷◌, ◌≡◌, arith, refl, eq_iff, code_eq, Bool-cases,
  inl, inr,
}
use football_agent.Odds.TeamNames.{Name, code_eq_iff}
use football_agent.Odds.Ingestion.Tables.{
  SnapshotRow, OddsTables, same_key, is_stored, get_by_external_id, add_bookmaker,
}
use football_agent.Odds.Ingestion.{
  IngestState, canonical_bookmaker_identity, find_cached, get_or_create_bookmaker, from_cache,
  from_table, add_row,
}

abbrev pub key_for : String → String → Name
key_for key title = (canonical_bookmaker_identity key title).0

module _ {F : Type 0} where
  pub same_key_self : (r : SnapshotRow F) → same_key r r ≡ true
  same_key_self r = ground (arith, eq_iff r.code r.code)

  -- The tables only grow.
  pub record Grows (a b : OddsTables F) : Type 0 where
    pub still_stored :
        (r : SnapshotRow F) → is_stored r a.snapshots ≡ true → is_stored r b.snapshots ≡ true
    pub still_known :
        (key : Name) (id : ℕ)
        → get_by_external_id key a ≡ some id
        → get_by_external_id key b ≡ some id

  pub Grows-refl : (a : OddsTables F) → Grows a a
  Grows-refl a = record { still_stored = λ r h. h; still_known = λ key id h. h }

  pub Grows-trans : {a b c : OddsTables F} → Grows a b → Grows b c → Grows a c
  Grows-trans g h = record {
    still_stored = λ r k. h.still_stored r (g.still_stored r k);
    still_known = λ key id k. h.still_known key id (g.still_known key id k);
  }

  -- The cache repeats the table.
  abbrev pub IsCoherent : IngestState F → Type 0
  IsCoherent s =
      (key : Name) (id : ℕ)
      → find_cached key s.bookmaker_cache ≡ some id
      → get_by_external_id key s.tables ≡ some id

  -- What an ingestion may do: the tables grow, and the cache stays coherent.
  pub record Keeps (s t : IngestState F) : Type 0 where
    pub grows : Grows s.tables t.tables
    pub coherent : IsCoherent t

  pub add_row-Keeps :
      (r : Option (SnapshotRow F)) (s : IngestState F) → IsCoherent s → Keeps s (add_row r s)
  add_row-Keeps none s c = record { grows = Grows-refl s.tables; coherent = c }
  add_row-Keeps (some r) s c = elim (Bool-cases (is_stored r s.tables.snapshots)) [
    | inl old ↦ rw old (record { grows = Grows-refl s.tables; coherent = c })
    | inr new ↦ rw new (record {
      grows = record { still_stored = λ q h. ground arith; still_known = λ key id h. h };
      coherent = c;
    })
  ]

  -- A bookmaker that is in the table may be cached.
  cached-IsCoherent :
      (key k : Name) (id j : ℕ) (cache : List (Name × ℕ)) (tables : OddsTables F)
      → get_by_external_id key tables ≡ some id
      → (find_cached k cache ≡ some j → get_by_external_id k tables ≡ some j)
      → find_cached k ((key, id) ∷ cache) ≡ some j
      → get_by_external_id k tables ≡ some j
  cached-IsCoherent key k id j cache tables e c h = elim (Bool-cases (code_eq k key)) [
    | inl on ↦
        let same : k ≡ key = (code_eq_iff k key).0 on in
        let this : id ≡ j = cc (rw on at h) in rw (same, ← this) e
    | inr off ↦ c (rw off at h)
  ]

  -- A bookmaker that is added under a new key is found, and the others still are.
  add_bookmaker-Grows :
      (key : Name) (name : String) (tables : OddsTables F)
      → get_by_external_id key tables ≡ none
      → Grows tables (add_bookmaker key name tables).1
  add_bookmaker-Grows key name tables e = record {
    still_stored = λ r h. h;
    still_known = λ k id h. elim (Bool-cases (code_eq k key)) [
      | inl on ↦
          let same : k ≡ key = (code_eq_iff k key).0 on in
          let missing : get_by_external_id k tables ≡ none = rw same e in absurd (cc (missing, h))
      | inr off ↦ rw off h
    ];
  }

  from_table-Keeps :
      (key : Name) (name : String) (o : Option ℕ) (s : IngestState F)
      → get_by_external_id key s.tables ≡ o
      → IsCoherent s
      → Keeps s (from_table key name o s).1
        × (get_by_external_id key (from_table key name o s).1.tables
            ≡ some (from_table key name o s).0)
  from_table-Keeps key name (some id) s e c = (
    record {
      grows = Grows-refl s.tables;
      coherent = λ k j h. cached-IsCoherent key k id j s.bookmaker_cache s.tables e (c k j) h;
    },
    e,
  )
  from_table-Keeps key name none s e c =
      let g = add_bookmaker-Grows key name s.tables e in
      let new = (add_bookmaker key name s.tables).1 in
      let there : get_by_external_id key new ≡ some s.tables.next_id =
        rw ((code_eq_iff key key).1 refl) refl in
      (
        record {
          grows = g;
          coherent = λ k j h.
              cached-IsCoherent key k s.tables.next_id j s.bookmaker_cache new there
                (λ l. g.still_known k j (c k j l)) h;
        },
        there,
      )

  from_cache-Keeps :
      (key : Name) (name : String) (o : Option ℕ) (s : IngestState F)
      → find_cached key s.bookmaker_cache ≡ o
      → IsCoherent s
      → Keeps s (from_cache key name o s).1
        × (get_by_external_id key (from_cache key name o s).1.tables
            ≡ some (from_cache key name o s).0)
  from_cache-Keeps key name (some id) s e c =
      (record { grows = Grows-refl s.tables; coherent = c }, c key id e)
  from_cache-Keeps key name none s e c =
      from_table-Keeps key name (get_by_external_id key s.tables) s refl c

  pub get_or_create-Keeps :
      (key title : String) (s : IngestState F)
      → IsCoherent s
      → Keeps s (get_or_create_bookmaker key title s).1
        × (get_by_external_id (key_for key title) (get_or_create_bookmaker key title s).1.tables
            ≡ some (get_or_create_bookmaker key title s).0)
  unfolding get_or_create_bookmaker
  get_or_create-Keeps key title s c =
      let identity = canonical_bookmaker_identity key title in
      from_cache-Keeps identity.0 identity.1 (find_cached identity.0 s.bookmaker_cache) s refl c
