-- ===== src/Load.antt =====
-- internal/provider/load: the load runs.
mod Tests
pub mod Samples
pub mod Workers
