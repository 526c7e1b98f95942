-- ===== src/Policy/Budget.antt =====
-- `ResourceBudget` and its comparison with a maximum.
use taskcage.Prelude.{ℕ, ◌*◌, ◌%◌, ◌^◌, String, ltb, leb, if◌then◌else◌, Result, ok, err, ◌>>◌}
use taskcage.Policy.Resource
use taskcage.Policy.Resource.{ResourcePolicy}
use taskcage.Policy.Output
use taskcage.Policy.Output.{OutputPolicy}
use taskcage.Policy.Cpu.{CpuPolicy}

pub record ResourceBudget : Type 0 where
  pub resources : ResourcePolicy
  pub output : OutputPolicy

pub record IsValid (b : ResourceBudget) : Type 0 where
  pub resources_valid : Resource.IsValid b.resources
  pub output_valid : Output.IsValid b.output

pub data ResourceMaximumViolation : Type 0 where
  cpu : ℕ → ℕ → ℕ → ℕ → ResourceMaximumViolation
  limit : String → ℕ → ℕ → ResourceMaximumViolation

unfoldable pub require_within_maximum : String → ℕ → ℕ → Result ResourceMaximumViolation (Unit {0})
require_within_maximum field actual maximum =
    if leb actual maximum then ok tt else err (limit field actual maximum)

-- The product of two `u128` values.
unfoldable pub mul_u128 : ℕ → ℕ → ℕ
mul_u128 a b = (a * b) % 2 ^ 128

unfoldable pub require_cpu : CpuPolicy → CpuPolicy → Result ResourceMaximumViolation (Unit {0})
unfolding mul_u128
require_cpu actual maximum =
    if ltb (mul_u128 maximum.quota_micros actual.period_micros)
      (mul_u128 actual.quota_micros maximum.period_micros)
    then err
        (cpu actual.quota_micros actual.period_micros maximum.quota_micros maximum.period_micros)
    else ok tt

unfoldable pub validate_within_maximum :
    ResourceBudget → ResourceBudget → Result ResourceMaximumViolation (Unit {0})
unfolding require_within_maximum require_cpu
validate_within_maximum budget maximum_budget =
    let actual = budget.resources in
    let maximum = maximum_budget.resources in
    do
      require_cpu actual.cpu maximum.cpu
      require_within_maximum "limits.memoryMaxBytes" actual.memory_max_bytes
          maximum.memory_max_bytes
      require_within_maximum "limits.pidsMax" actual.pids_max maximum.pids_max
      require_within_maximum "limits.wallTimeLimitMs" actual.wall_time_limit_ms
          maximum.wall_time_limit_ms
      require_within_maximum "output.stdoutTailMaxBytes" budget.output.stdout_tail_max_bytes
          maximum_budget.output.stdout_tail_max_bytes
      require_within_maximum "output.stderrTailMaxBytes" budget.output.stderr_tail_max_bytes
          maximum_budget.output.stderr_tail_max_bytes
