-- ===== src/Policy/Resource.antt =====
-- `ResourcePolicy`. A `Duration` is its number of milliseconds.
use taskcage.Prelude.{ℕ, ◌<◌, Result, ok, ◌>>=◌}
use taskcage.Policy.Error.{PolicyError, nonzero_u64}
use taskcage.Policy.Cpu
use taskcage.Policy.Cpu.{CpuPolicy}

pub record ResourcePolicy : Type 0 where
  pub cpu : CpuPolicy
  pub memory_max_bytes : ℕ
  pub pids_max : ℕ
  pub wall_time_limit_ms : ℕ

pub record IsValid (r : ResourcePolicy) : Type 0 where
  pub cpu_valid : Cpu.IsValid r.cpu
  pub memory_pos : 0 < r.memory_max_bytes
  pub pids_pos : 0 < r.pids_max
  pub wall_pos : 0 < r.wall_time_limit_ms

unfoldable pub try_new : ℕ → ℕ → ℕ → ℕ → ℕ → Result PolicyError ResourcePolicy
unfolding nonzero_u64 Cpu.try_new
try_new cpu_quota_micros cpu_period_micros memory_max_bytes pids_max wall_time_limit_ms = do
  cpu ← Cpu.try_new cpu_quota_micros cpu_period_micros
  memory ← nonzero_u64 "limits.memoryMaxBytes" memory_max_bytes
  pids ← nonzero_u64 "limits.pidsMax" pids_max
  wall ← nonzero_u64 "limits.wallTimeLimitMs" wall_time_limit_ms
  ok (record { cpu = cpu; memory_max_bytes = memory; pids_max = pids; wall_time_limit_ms = wall })

unfoldable pub wall_timeout : ResourcePolicy → ℕ
wall_timeout r = r.wall_time_limit_ms
