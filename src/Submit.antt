-- ===== src/Submit.antt =====
-- daemon/src/application/task/submit.rs: the coordination of a submission over the registry, the slots,
-- fail-stop and the metrics, with daemon/src/application/task/completion.rs.
pub mod Types
pub mod Execution
pub mod Completion
pub mod Owner
pub mod Coordinate
pub mod History
pub mod Live
pub mod Effects
pub mod Ends
pub mod Counts
pub mod Accounting
pub mod Admitted
pub mod Stages
pub mod Slots
pub mod Leaks
pub mod Granted
pub mod Stopping
mod Tests
