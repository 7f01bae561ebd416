-- ===== src/Sql.antt =====
-- internal/provider/sql: the expansion of list arguments into runs of placeholders.
pub mod Dialect
pub mod Skip
pub mod Scan
pub mod Expand
mod Tests
mod Examples
