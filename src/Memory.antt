-- ===== src/Memory.antt =====
-- The package memory: the stores that keep everything in one process.
pub mod EventStore
pub mod ProjectionStore
pub mod AutomationStore
