-- ===== src/Domain.antt =====
-- The value objects and entities that the services share (app/models).
pub mod Score
pub mod Markets
pub mod Entities
