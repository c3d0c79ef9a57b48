-- ===== src/Wire/Messages.antt =====
-- internal/flightrec/wire/types.go and codec.go: a module for each message.
pub mod Stamp
pub mod ArtifactRef
pub mod Link
pub mod Subject
pub mod Provenance
pub mod Sanitization
pub mod Usage
pub mod PathAttempt
pub mod Any
pub mod OperationStart
pub mod OperationEnd
pub mod Observation
pub mod JournalHealth
pub mod JournalRecord
pub mod SegmentHeader
