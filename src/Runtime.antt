-- ===== src/Runtime.antt =====
-- internal/runtime: the execution of a suite.
mod Tests
pub mod Tracker
pub mod Steps
pub mod Skip
pub mod Scenario
pub mod Retry
pub mod Attempt
pub mod Keyword
pub mod Filter
pub mod SuiteTeardown
pub mod Suite
pub mod Webhook
