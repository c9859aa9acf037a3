-- ===== src/Odds/Ingestion/Tables.antt =====
-- app/repositories/sqlalchemy/odds_snapshot_repository.py and reference_repositories.py: the
-- statements that the ingestion runs, on tables without an order.
use football_agent.Prelude.{
  ℕ, String, Bool, true, false, ◌&&◌, Option, none, some, List, [], ◌∷◌, ◌==◌, suc, any,
  if◌then◌else◌, str_eq, code_eq,
}
use football_agent.Odds.TeamNames.{Name}

-- A row for the 1X2 market, without a line.
pub record SnapshotRow (F : Type 0) : Type 0 where
  pub fixture_id : ℕ
  pub bookmaker_id : ℕ
  pub code : String
  pub odds : F
  pub captured_at : ℕ
  pub provider_source : String
  pub provider_event_id : String

-- A bookmaker of the source that the ingestion names.
pub record BookmakerRow : Type 0 where
  pub id : ℕ
  pub name : String
  pub external_id : Name

pub record OddsTables (F : Type 0) : Type 0 where
  pub snapshots : List (SnapshotRow F)
  pub bookmakers : List BookmakerRow
  pub next_id : ℕ

module _ {F : Type 0} where
  -- `uq_odds_snapshots_natural`
  abbrev pub same_key : SnapshotRow F → SnapshotRow F → Bool
  same_key r s =
      r.fixture_id == s.fixture_id
      && r.bookmaker_id == s.bookmaker_id
      && str_eq r.code s.code
      && r.captured_at == s.captured_at

  abbrev pub is_stored : SnapshotRow F → List (SnapshotRow F) → Bool
  is_stored r rows = any (same_key r) rows

  -- `ON CONFLICT DO NOTHING`
  abbrev pub add_if_absent : SnapshotRow F → OddsTables F → Bool × OddsTables F
  add_if_absent r t =
      if is_stored r t.snapshots
      then (false, t)
      else (true, record t { snapshots = r ∷ t.snapshots })

abbrev pub find_bookmaker : Name → List BookmakerRow → Option ℕ
find_bookmaker key [] = none
find_bookmaker key (b ∷ bs) = if code_eq key b.external_id then some b.id else find_bookmaker key bs

abbrev pub get_by_external_id : {F : Type 0} → Name → OddsTables F → Option ℕ
get_by_external_id key t = find_bookmaker key t.bookmakers

abbrev pub add_bookmaker : {F : Type 0} → Name → String → OddsTables F → ℕ × OddsTables F
add_bookmaker key name t = (
  t.next_id,
  record t {
    bookmakers = record { id = t.next_id; name = name; external_id = key } ∷ t.bookmakers;
    next_id = suc t.next_id;
  },
)
