-- ===== src/Lifecycle.antt =====
-- daemon/src/lifecycle.rs: what ends a task, and how a cleaned-up run becomes its final snapshot.
pub mod Latch
pub mod Signals
pub mod Evidence
pub mod Single
pub mod Classify
pub mod Completion
mod Tests
