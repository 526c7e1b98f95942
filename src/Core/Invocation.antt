-- ===== src/Core/Invocation.antt =====
-- core/src/capsule/invocation.rs: a profile call, as it is compared for idempotency. A `u64` or `u32`
-- is its number, an `i64` its integer.
use taskcage.Prelude.{ℕ, String, Bool, Option, List, ℕ_discrete, String_discrete}
use taskcage.Prelude.Int.{ℤ}

pub record ProfileIdentity : Type 0 where
  pub name : String
  pub version : String

pub data ProfileValue : Type 0 where
  text : String → ProfileValue
  int64 : ℤ → ProfileValue
  boolean : Bool → ProfileValue
  local_input : String → String → ℕ → ProfileValue

pub record CpuMaxOverride : Type 0 where
  pub quota_micros : ℕ
  pub period_micros : ℕ

pub record ProfileResourceOverrides : Type 0 where
  pub cpu_max : Option CpuMaxOverride
  pub memory_max_bytes : Option ℕ
  pub pids_max : Option ℕ
  pub wall_time_limit_ms : Option ℕ
  pub stdout_tail_max_bytes : Option ℕ
  pub stderr_tail_max_bytes : Option ℕ

pub record ProfileCall : Type 0 where
  pub identity : ProfileIdentity
  pub inputs : List (String × ProfileValue)
  pub resource_overrides : Option ProfileResourceOverrides

-- The derived `PartialEq`.
pub ProfileCall-discrete : Discrete ProfileCall
ProfileCall-discrete = hlevel (String_discrete, ℕ_discrete)
