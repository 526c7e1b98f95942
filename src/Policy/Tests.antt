-- ===== src/Policy/Tests.antt =====
-- Runs of the policies, and the theorems at concrete requests.
use taskcage.Prelude.{ℕ, ◌≤◌, ◌<◌, ◌≡◌, refl, ◌≢◌, ◌↔◌, arith, ok, err}
use taskcage.Policy.Error.{
  PolicyError, output_tail_too_large, output_total_overflow, output_total_too_large,
  not_representable, max_output_tail_bytes,
}
use taskcage.Policy.Resource
use taskcage.Policy.Output
use taskcage.Policy.Output.{OutputPolicy}
use taskcage.Policy.Budget.{ResourceBudget, validate_within_maximum, cpu, limit}
use taskcage.Policy.Exact.{
  first_zero, or_zero_error, resource_fields, try_new-eq-first_zero, output_try_new_exact,
}
use taskcage.Policy.Maximum.{Within, validate-Within}

abbrev budget : ℕ → ℕ → ℕ → ResourceBudget
budget quota memory tail = record {
  resources = record {
    cpu = record { quota_micros = quota; period_micros = 100_000 };
    memory_max_bytes = memory;
    pids_max = 10;
    wall_time_limit_ms = 100;
  };
  output = record { stdout_tail_max_bytes = tail; stderr_tail_max_bytes = tail };
}

abbrev small : ResourceBudget
small = budget 50_000 100 10

abbrev large : ResourceBudget
large = budget 100_000 200 20

abbrev huge : ResourceBudget
huge = budget 400_000 400 40

rejects_zero_period :
    Resource.try_new 1 0 1 1 1 ≡ err (PolicyError.zero "limits.cpuMax.periodMicros")
unfolding Resource.try_new
rejects_zero_period = refl

rejects_outputs :
    (Output.try_new 0 1 ≡ err (PolicyError.zero "output.stdoutTailMaxBytes"))
    × (Output.try_new 65_537 1
        ≡ err (output_tail_too_large "output.stdoutTailMaxBytes" 65_537 65_536))
    × (Output.try_new 65_536 65_537 ≡ err (output_total_too_large 131_073 131_072))
    × (Output.try_new 4_294_967_295 1 ≡ err (output_total_overflow 4_294_967_295 1))
unfolding Output.try_new
rejects_outputs = (refl, refl, refl, refl)

compares_cpu_as_an_exact_ratio :
    (validate_within_maximum small large ≡ ok tt)
    × (validate_within_maximum huge large ≡ err (cpu 400_000 100_000 100_000 100_000))
    × (validate_within_maximum (budget 1 300 1) large ≡ err (limit "limits.memoryMaxBytes" 300 200))
unfolding validate_within_maximum
compares_cpu_as_an_exact_ratio = (refl, refl, refl)

try_new-eq-first_zero_example :
    Resource.try_new 1 1 0 1 0
    ≡ or_zero_error (first_zero (resource_fields 1 1 0 1 0)) (record {
      cpu = record { quota_micros = 1; period_micros = 1 };
      memory_max_bytes = 0;
      pids_max = 1;
      wall_time_limit_ms = 0;
    })
try_new-eq-first_zero_example = try_new-eq-first_zero 1 1 0 1 0

abbrev tails : OutputPolicy
tails = record { stdout_tail_max_bytes = 7; stderr_tail_max_bytes = 65_537 }

output_try_new_exact_example :
    ((Output.try_new 7 65_537 ≡ ok tails) ↔ (
      (0 < 7)
      × (0 < 65_537)
      × (7 ≤ max_output_tail_bytes)
      × (65_537 ≤ max_output_tail_bytes)
      × (tails ≡ tails)))
    × (Output.try_new 7 65_537 ≢ err (not_representable "output.stderrTailMaxBytes" 65_537))
output_try_new_exact_example =
    output_try_new_exact 7 65_537 tails "output.stderrTailMaxBytes" 65_537 (omega arith)
      (omega arith)

validate-Within_example : (validate_within_maximum small large ≡ ok tt) ↔ Within small large
validate-Within_example = validate-Within small large (omega arith) (omega arith)
