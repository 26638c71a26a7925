-- ===== src/Vcc.antt =====
-- src/vcc.ts: the deterministic compaction candidate.
pub mod Reason
pub mod Order
pub mod Serialize
pub mod Json
pub mod Patch
pub mod Event
pub mod Source
pub mod Episode
pub mod Select
pub mod Candidate
mod Tests
mod SourceTests
mod EpisodeTests
