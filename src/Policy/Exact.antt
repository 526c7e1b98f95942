-- ===== src/Policy/Exact.antt =====
-- The constructors of the policies accept exactly the values that the protocol documents.
use taskcage.Prelude.{
  ℕ, ◌^◌, ◌≤◌, ◌<◌, String, ◌≡◌, ◌≢◌, ◌↔◌, Option, none, some, List, [], ◌∷◌, arith, ◌==◌,
  if◌then◌else◌, Result, ok, err,
}
use taskcage.Policy.Error.{PolicyError, not_representable, max_output_tail_bytes}
use taskcage.Policy.Resource
use taskcage.Policy.Resource.{ResourcePolicy}
use taskcage.Policy.Output
use taskcage.Policy.Output.{OutputPolicy}

-- The first field of a request that is zero, in the order of the document.
abbrev pub first_zero : List (String × ℕ) → Option String
first_zero [] = none
first_zero ((field, value) ∷ rest) = if value == 0 then some field else first_zero rest

abbrev pub or_zero_error : Option String → ResourcePolicy → Result PolicyError ResourcePolicy
or_zero_error none policy = ok policy
or_zero_error (some field) policy = err (PolicyError.zero field)

abbrev pub resource_fields : ℕ → ℕ → ℕ → ℕ → ℕ → List (String × ℕ)
resource_fields quota period memory pids wall =
    ("limits.cpuMax.quotaMicros", quota)
    ∷ ("limits.cpuMax.periodMicros", period)
    ∷ ("limits.memoryMaxBytes", memory)
    ∷ ("limits.pidsMax", pids)
    ∷ ("limits.wallTimeLimitMs", wall)
    ∷ []

module _ (quota period memory pids wall : ℕ) where
  -- `ResourcePolicy::try_new` keeps its five numbers as given if none is zero, and else reports
  -- the first field that is zero, in the order quota, period, memory, pids, wall time.
  pub try_new-eq-first_zero :
      Resource.try_new quota period memory pids wall
      ≡ or_zero_error (first_zero (resource_fields quota period memory pids wall)) (record {
        cpu = record { quota_micros = quota; period_micros = period };
        memory_max_bytes = memory;
        pids_max = pids;
        wall_time_limit_ms = wall;
      })
  unfolding Resource.try_new
  try_new-eq-first_zero = ground arith

  pub try_new-IsValid :
      {r : ResourcePolicy}
      → quota < 2 ^ 64
      → period < 2 ^ 64
      → Resource.try_new quota period memory pids wall ≡ ok r
      → Resource.IsValid r
  unfolding Resource.try_new
  try_new-IsValid hq hp e = ground arith

-- `OutputPolicy::try_new` on two `u32` values succeeds exactly when both are positive and at most
-- 65536, and then keeps them as given; in no case does it report a value that `usize` cannot
-- represent.
pub output_try_new_exact :
    (stdout stderr : ℕ) (p : OutputPolicy) (field : String) (value : ℕ)
    → stdout < 2 ^ 32
    → stderr < 2 ^ 32
    → ((Output.try_new stdout stderr ≡ ok p) ↔ (
        (0 < stdout)
        × (0 < stderr)
        × (stdout ≤ max_output_tail_bytes)
        × (stderr ≤ max_output_tail_bytes)
        × (p ≡ record { stdout_tail_max_bytes = stdout; stderr_tail_max_bytes = stderr })))
      × (Output.try_new stdout stderr ≢ err (not_representable field value))
unfolding Output.try_new
output_try_new_exact stdout stderr p field value a b =
    ((λ h. ground arith, λ h. ground arith), λ h. ground arith)

pub output_try_new-IsValid :
    (stdout stderr : ℕ) {p : OutputPolicy} → Output.try_new stdout stderr ≡ ok p → Output.IsValid p
unfolding Output.try_new
output_try_new-IsValid stdout stderr e = ground arith
