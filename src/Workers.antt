-- ===== src/Workers.antt =====
-- app/workers: the runner that a scheduler starts once per command.
pub mod Lock
