-- ===== src/Policy.antt =====
-- core/src/policy/mod.rs: the resource and output policies of one task execution, and the
-- comparison of a request with the maximum that the daemon allows. A `NonZeroU64` or
-- `NonZeroUsize` is the number that it holds; `IsValid` of each type says what its constructor
-- guarantees. The field names are the source's texts.
pub mod Error
pub mod Cpu
pub mod Resource
pub mod Output
pub mod Budget
pub mod Exact
pub mod Maximum
mod Tests
