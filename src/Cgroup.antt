-- ===== src/Cgroup.antt =====
-- linux-runtime/src/cgroup: what the daemon reads of a task's cgroup.
pub mod Events
