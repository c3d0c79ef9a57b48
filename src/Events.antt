-- ===== src/Events.antt =====
-- internal/events: the typed payloads, the envelope and its checks.
pub mod Common
pub mod Planning
pub mod Execution
pub mod Evidence
pub mod Decision
pub mod Project
pub mod Discovery
pub mod Future
pub mod Payloads
pub mod Envelope
mod Tests
