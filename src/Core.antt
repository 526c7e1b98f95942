-- ===== src/Core.antt =====
-- core/src: the values that describe a task execution, its output and its result.
pub mod Task
pub mod Output
pub mod Invocation
