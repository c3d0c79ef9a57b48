-- ===== src/State.antt =====
-- internal/state: the reduction of the event journal to the projection.
pub mod Exec
pub mod Discovery
pub mod Projection
pub mod Lineage
pub mod Facts
pub mod Delivery
pub mod Attempts
pub mod Evidence
pub mod Apply
pub mod Core
pub mod Sound
pub mod Machine
pub mod Refine
pub mod Frame
pub mod Index
pub mod Replay
pub mod Render
mod Tests
