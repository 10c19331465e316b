-- ===== src/Cmd.antt =====
-- The command of cmd/: what it does with the events of the engine.
pub mod Risk
pub mod Identity
pub mod Response
pub mod Allowlist
pub mod Inventory
