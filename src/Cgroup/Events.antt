-- ===== src/Cgroup/Events.antt =====
-- `KernelEvents` and `JobStats` of linux-runtime/src/cgroup/events.rs.
use taskcage.Prelude.{ℕ, ◌-◌, Option}

pub record KernelEvents : Type 0 where
  pub memory_oom : ℕ
  pub memory_oom_kill : ℕ
  pub pids_max : ℕ

-- `saturating_sub` on `u64` is the truncated subtraction of ℕ.
abbrev pub delta_from : KernelEvents → KernelEvents → KernelEvents
delta_from self baseline = record {
  memory_oom = self.memory_oom - baseline.memory_oom;
  memory_oom_kill = self.memory_oom_kill - baseline.memory_oom_kill;
  pids_max = self.pids_max - baseline.pids_max;
}

pub record JobStats : Type 0 where
  pub cpu_usage_micros : ℕ
  pub memory_current_bytes : ℕ
  pub memory_peak_bytes : ℕ
  pub current_processes : ℕ
  pub peak_processes : Option ℕ
  pub event_delta : KernelEvents
