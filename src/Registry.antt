-- ===== src/Registry.antt =====
-- daemon/src/adapters/task_registry.rs: the tasks, their results and the idempotent reservations that
-- the daemon keeps in memory. The registry's mutex is held for the whole of each method, so that a
-- method is a function on the state; `Methods` and `Owner` write the lock and its poisoning out.
pub mod Types
pub mod State
pub mod Methods
pub mod Owner
pub mod Invariant
pub mod Purge
pub mod Cases
pub mod Mutations
pub mod History
pub mod Stable
pub mod Retention
pub mod Kept
pub mod Completed
pub mod Rollback
mod Tests
