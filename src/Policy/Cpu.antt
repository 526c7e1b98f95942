-- ===== src/Policy/Cpu.antt =====
-- `CpuPolicy`.
use taskcage.Prelude.{ℕ, ◌^◌, ◌<◌, Result, ok, ◌>>=◌}
use taskcage.Policy.Error.{PolicyError, nonzero_u64}

pub record CpuPolicy : Type 0 where
  pub quota_micros : ℕ
  pub period_micros : ℕ

pub record IsValid (c : CpuPolicy) : Type 0 where
  pub quota_pos : 0 < c.quota_micros
  pub period_pos : 0 < c.period_micros
  pub quota_fits : c.quota_micros < 2 ^ 64
  pub period_fits : c.period_micros < 2 ^ 64

unfoldable pub try_new : ℕ → ℕ → Result PolicyError CpuPolicy
unfolding nonzero_u64
try_new quota_micros period_micros = do
  quota ← nonzero_u64 "limits.cpuMax.quotaMicros" quota_micros
  period ← nonzero_u64 "limits.cpuMax.periodMicros" period_micros
  ok (record { quota_micros = quota; period_micros = period })
