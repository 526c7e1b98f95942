-- ===== src/Core/Output.antt =====
-- core/src/output.rs and `into_task_output` of daemon/src/lib.rs. A byte is its number.
use taskcage.Prelude.{ℕ, String, Bool, List}
use taskcage.Core.Task.{TaskOutput}
use taskcage.Policy.Output.{OutputPolicy}

-- `CaptureLimits`, and `OutputPolicy::capture_limits` of core/src/policy/mod.rs.
pub record CaptureLimits : Type 0 where
  pub stdout_tail_max_bytes : ℕ
  pub stderr_tail_max_bytes : ℕ

abbrev pub capture_limits : OutputPolicy → CaptureLimits
capture_limits p = record {
  stdout_tail_max_bytes = p.stdout_tail_max_bytes;
  stderr_tail_max_bytes = p.stderr_tail_max_bytes;
}

pub record CapturedStream : Type 0 where
  pub tail : List ℕ
  pub truncated : Bool

pub record CapturedOutput : Type 0 where
  pub stdout : CapturedStream
  pub stderr : CapturedStream

-- `String::from_utf8_lossy` of the standard library is a parameter.
abbrev pub into_task_output : (List ℕ → String) → CapturedOutput → TaskOutput
into_task_output from_utf8_lossy captured = record {
  stdout_tail = from_utf8_lossy captured.stdout.tail;
  stderr_tail = from_utf8_lossy captured.stderr.tail;
  stdout_truncated = captured.stdout.truncated;
  stderr_truncated = captured.stderr.truncated;
}
