-- ===== src/Compaction.antt =====
-- internal/compaction: what keeps the context of a session within the limit of its endpoint.
pub mod Types
pub mod Pruning
pub mod Groups
pub mod Digest
pub mod Summary
pub mod Admission
mod Tests
