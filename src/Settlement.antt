-- ===== src/Settlement.antt =====
-- app/services/settlement.py: fail-closed settlement of value bets.
pub mod Performance
pub mod State
pub mod Resolve
pub mod Evidence
pub mod Ports
pub mod Plan
pub mod Batch
pub mod Run
pub mod Rows
pub mod FailClosed
pub mod Once
mod Tests
