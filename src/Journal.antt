-- ===== src/Journal.antt =====
-- internal/flightrec/journal: the segment files of the flight recorder.
pub mod Crc
pub mod Frame
pub mod Findings
pub mod Machine
pub mod Scanner
pub mod Resync
pub mod Segment
mod Rules
mod Reading
mod Bounds
mod Search
pub mod Report
mod Ending
pub mod Whole
pub mod Intact
pub mod Opening
mod Delivered
mod Prefix
mod Grows
pub mod RoundTrip
pub mod Room
mod Tests
