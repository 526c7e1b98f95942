-- ===== src/Policy/Maximum.antt =====
-- `ResourceBudget::validate_within_maximum` is the order of budgets: CPU by exact ratio, every
-- other limit by number. The `u128` products of the source do not wrap on `u64` factors.
use native.Mathlib.Nat.{mod-eq_of_lt, mul-le-mul}
use taskcage.Prelude.{ℕ, ◌-◌, ◌*◌, ◌^◌, ◌≤◌, ◌<◌, ◌≡◌, ◌↔◌, arith, ok}
use taskcage.Policy.Cpu
use taskcage.Policy.Cpu.{CpuPolicy}
use taskcage.Policy.Budget
use taskcage.Policy.Budget.{
  ResourceBudget, ResourceMaximumViolation, mul_u128, require_within_maximum, require_cpu,
  validate_within_maximum,
}

-- quota / period of the first is at most that of the second.
abbrev pub RatioLe : CpuPolicy → CpuPolicy → Type 0
RatioLe a m = a.quota_micros * m.period_micros ≤ m.quota_micros * a.period_micros

pub record Within (a m : ResourceBudget) : Type 0 where
  pub cpu_within : RatioLe a.resources.cpu m.resources.cpu
  pub memory_within : a.resources.memory_max_bytes ≤ m.resources.memory_max_bytes
  pub pids_within : a.resources.pids_max ≤ m.resources.pids_max
  pub wall_within : a.resources.wall_time_limit_ms ≤ m.resources.wall_time_limit_ms
  pub stdout_within : a.output.stdout_tail_max_bytes ≤ m.output.stdout_tail_max_bytes
  pub stderr_within : a.output.stderr_tail_max_bytes ≤ m.output.stderr_tail_max_bytes

product_fits : (a b : ℕ) → a < 2 ^ 64 → b < 2 ^ 64 → a * b < 2 ^ 128
product_fits a b ha hb =
    let h : a * b ≤ (2 ^ 64 - 1) * (2 ^ 64 - 1) =
      mul-le-mul {n₂ = 2 ^ 64 - 1} {m₂ = 2 ^ 64 - 1} (omega arith) (omega arith) in
    omega arith

mul_u128_exact : (a b : ℕ) → a < 2 ^ 64 → b < 2 ^ 64 → mul_u128 a b ≡ a * b
unfolding mul_u128
mul_u128_exact a b ha hb = mod-eq_of_lt (product_fits a b ha hb)

require_cpu_iff :
    (a m : CpuPolicy) → Cpu.IsValid a → Cpu.IsValid m → (require_cpu a m ≡ ok tt) ↔ RatioLe a m
unfolding require_cpu
require_cpu_iff a m va vm =
    rw
      (
        mul_u128_exact _ _ vm.quota_fits va.period_fits,
        mul_u128_exact _ _ va.quota_fits vm.period_fits,
      )
      ((λ h. ground arith), (λ h. ground arith))

-- On valid budgets the check succeeds exactly when every limit is within the maximum: the CPU
-- ratio compared exactly, every other limit by number.
pub validate-Within :
    (a m : ResourceBudget)
    → Budget.IsValid a
    → Budget.IsValid m
    → (validate_within_maximum a m ≡ ok tt) ↔ Within a m
unfolding validate_within_maximum
validate-Within a m va vm = (
  λ h. ground (
    arith,
    require_cpu_iff a.resources.cpu m.resources.cpu va.resources_valid.cpu_valid
        vm.resources_valid.cpu_valid,
  ),
  λ w. ground (
    arith,
    require_cpu_iff a.resources.cpu m.resources.cpu va.resources_valid.cpu_valid
        vm.resources_valid.cpu_valid,
  ),
)
