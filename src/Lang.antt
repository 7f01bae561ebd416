-- ===== src/Lang.antt =====
-- internal/lang: references between the steps of a scenario.
mod Tests
pub mod Collect
pub mod Missed
pub mod Refs
pub mod Vars
pub mod Versions
