-- ===== src/State.antt =====
-- src/state.ts: the two process-local stores of compaction attempts.
pub mod Evict
pub mod Attempts
pub mod VccAttempt
pub mod VccAttempts
mod Tests
mod VccTests
