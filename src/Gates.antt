-- ===== src/Gates.antt =====
-- The gates that a recommendation passes.
pub mod Recommendation
pub mod Daily
pub mod Lineup
pub mod PreKickoff
pub mod MarketQuote
pub mod MarketMovement
mod Tests
