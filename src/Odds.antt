-- ===== src/Odds.antt =====
-- Odds: team names, matching of odds events to fixtures, and the prioritized provider.
pub mod TeamNames
pub mod Schema
pub mod Matching
pub mod Aliases
pub mod Ingestion
pub mod Prioritized
mod Tests
