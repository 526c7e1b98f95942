-- ===== src/Profile/Resources.antt =====
-- `resolve_resources` and `validate_override_allowlist`, with `ResourceBudget::try_new`
-- (daemon/src/resource_budget.rs).
use taskcage.Prelude.{
  ℕ, String, Bool, true, false, ◌&&◌, not, Option, none, some, List, [], ◌∷◌, if◌then◌else◌, Result,
  ok, err, ◌>>=◌, ◌>>◌,
}
use taskcage.Policy.Error.{PolicyError}
use taskcage.Policy.Resource
use taskcage.Policy.Output
use taskcage.Policy.Budget.{ResourceBudget, ResourceMaximumViolation, validate_within_maximum}
use taskcage.Core.Invocation.{ProfileResourceOverrides, CpuMaxOverride}
use taskcage.Profile.Types.{
  CapsuleResourcePolicy, CompiledCapsuleProfile, InvocationError, invalid_compiled_contract,
  invalid_resource_override, policy_rejected, bad_policy, no_field, not_valid, not_allowed, exceeds,
}
use taskcage.Profile.Names.{contains}

-- `ResourceBudget::try_new`, of the seven numbers of a policy.
unfoldable pub budget_of : CapsuleResourcePolicy → Result PolicyError ResourceBudget
unfolding Resource.try_new Output.try_new
budget_of p = do
  resources ←
      Resource.try_new p.quota_micros p.period_micros p.memory_max_bytes p.pids_max
        p.wall_time_limit_ms
  output ← Output.try_new p.stdout_tail_max_bytes p.stderr_tail_max_bytes
  ok (record { resources = resources; output = output })

abbrev pub is_set : {A : Type 0} → Option A → Bool
is_set none = false
is_set (some _) = true

abbrev pub unwrap_or : Option ℕ → ℕ → ℕ
unwrap_or none value = value
unwrap_or (some n) value = n

abbrev pub quota_or : Option CpuMaxOverride → ℕ → ℕ
quota_or none value = value
quota_or (some cpu) value = cpu.quota_micros

abbrev pub period_or : Option CpuMaxOverride → ℕ → ℕ
period_or none value = value
period_or (some cpu) value = cpu.period_micros

-- `ProfileResourceOverrides::is_empty`.
abbrev pub is_empty : ProfileResourceOverrides → Bool
is_empty o =
    not (is_set o.cpu_max)
    && not (is_set o.memory_max_bytes)
    && not (is_set o.pids_max)
    && not (is_set o.wall_time_limit_ms)
    && not (is_set o.stdout_tail_max_bytes)
    && not (is_set o.stderr_tail_max_bytes)

-- The policy with the overridden fields.
abbrev pub overridden : CapsuleResourcePolicy → ProfileResourceOverrides → CapsuleResourcePolicy
overridden p o = record {
  quota_micros = quota_or o.cpu_max p.quota_micros;
  period_micros = period_or o.cpu_max p.period_micros;
  memory_max_bytes = unwrap_or o.memory_max_bytes p.memory_max_bytes;
  pids_max = unwrap_or o.pids_max p.pids_max;
  wall_time_limit_ms = unwrap_or o.wall_time_limit_ms p.wall_time_limit_ms;
  stdout_tail_max_bytes = unwrap_or o.stdout_tail_max_bytes p.stdout_tail_max_bytes;
  stderr_tail_max_bytes = unwrap_or o.stderr_tail_max_bytes p.stderr_tail_max_bytes;
}

abbrev pub requested_fields : ProfileResourceOverrides → List (String × Bool)
requested_fields o =
    ("limits.cpuMax", is_set o.cpu_max)
    ∷ ("limits.memoryMaxBytes", is_set o.memory_max_bytes)
    ∷ ("limits.pidsMax", is_set o.pids_max)
    ∷ ("limits.wallTimeLimitMs", is_set o.wall_time_limit_ms)
    ∷ ("output.stdoutTailMaxBytes", is_set o.stdout_tail_max_bytes)
    ∷ ("output.stderrTailMaxBytes", is_set o.stderr_tail_max_bytes)
    ∷ []

unfoldable pub first_not_allowed :
    List String → List (String × Bool) → Result InvocationError (Unit {0})
unfolding contains
first_not_allowed allowed [] = ok tt
first_not_allowed allowed ((field, requested) ∷ fields) =
    let rest = first_not_allowed allowed fields in
    if requested && not (contains field allowed)
    then err (policy_rejected (not_allowed field))
    else rest

abbrev pub validate_override_allowlist :
    List String → ProfileResourceOverrides → Result InvocationError (Unit {0})
validate_override_allowlist allowed overrides =
    first_not_allowed allowed (requested_fields overrides)

abbrev pub within : Result ResourceMaximumViolation (Unit {0}) → Result InvocationError (Unit {0})
within (ok _) = ok tt
within (err violation) = err (policy_rejected (exceeds violation))

abbrev pub budget_or :
    (PolicyError → InvocationError)
    → Result PolicyError ResourceBudget
    → Result InvocationError ResourceBudget
budget_or f (ok budget) = ok budget
budget_or f (err e) = err (f e)

-- The overridden policy, if it is valid, allowed and within the maximum.
abbrev pub resolve_overridden :
    CompiledCapsuleProfile
    → ResourceBudget
    → ProfileResourceOverrides
    → Result InvocationError ResourceBudget
resolve_overridden profile maximum overrides = do
  requested ←
      budget_or (λ e. invalid_resource_override (not_valid e))
        (budget_of (overridden profile.resource_policy overrides))
  validate_override_allowlist profile.allowed_overrides overrides
  within (validate_within_maximum requested maximum)
  ok requested

abbrev pub resolve_within :
    CompiledCapsuleProfile
    → ResourceBudget
    → Option ProfileResourceOverrides
    → Result InvocationError ResourceBudget
resolve_within profile maximum none = ok maximum
resolve_within profile maximum (some overrides) =
    if is_empty overrides
    then err (invalid_resource_override no_field)
    else resolve_overridden profile maximum overrides

unfoldable pub resolve_resources :
    CompiledCapsuleProfile → Option ProfileResourceOverrides → Result InvocationError ResourceBudget
unfolding budget_of first_not_allowed validate_within_maximum
resolve_resources profile overrides = do
  maximum ←
      budget_or (λ e. invalid_compiled_contract (bad_policy e)) (budget_of profile.resource_policy)
  resolve_within profile maximum overrides
