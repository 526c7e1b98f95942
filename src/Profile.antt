-- ===== src/Profile.antt =====
-- daemon/src/application/capsule/contract.rs and daemon/src/profile_mapper.rs: a profile call is
-- verified against the compiled contract of a capsule, and its arguments are bound to staged paths.
pub mod Types
pub mod Names
pub mod Inputs
pub mod Arguments
pub mod Resources
pub mod Contract
pub mod Mapper
pub mod Verified
pub mod Granted
pub mod Clean
pub mod Bound
pub mod Paths
pub mod Materialized
pub mod Pipeline
pub mod Tokens
pub mod Argv
pub mod Bundle
pub mod Compile
pub mod Accepted
pub mod Compiled
mod Tests
mod BundleTests
