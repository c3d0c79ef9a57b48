-- ===== src/Tasks.antt =====
-- internal/tasks: the delivery task state machine, tasks and attempts.
pub mod State
pub mod Task
pub mod Attempt
mod Tests
