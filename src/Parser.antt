-- ===== src/Parser.antt =====
-- internal/parser: the order of the steps of a file.
mod Tests
pub mod Order
