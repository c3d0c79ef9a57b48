-- ===== src/Wire/RoundTrip.antt =====
-- internal/flightrec/wire: the messages, from the encoder through the decoder.
pub mod Carry
pub mod Scalars
pub mod Children
pub mod Stamp
pub mod ArtifactRef
pub mod Link
pub mod Subject
pub mod Provenance
pub mod Sanitization
pub mod Usage
pub mod PathAttempt
pub mod Any
pub mod OperationStart
pub mod OperationEnd
pub mod Observation
pub mod JournalHealth
pub mod JournalRecord
pub mod SegmentHeader
