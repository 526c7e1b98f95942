-- ===== src/Lifecycle/Evidence.antt =====
-- What the runner hands over about a finished process, and `classify_termination`.
use taskcage.Prelude.{
  String, Bool, true, false, Option, none, some, ltb, if◌then◌else◌, Result, ok, err,
}
use taskcage.Prelude.Int.{ℤ}
use taskcage.Core.Task.{
  TerminationReason, ProcessResult, exited, execution_failed, cancelled, timed_out,
  memory_limit_exceeded, process_limit_exceeded, daemon_error,
}
use taskcage.Cgroup.Events.{KernelEvents}
use taskcage.Lifecycle.Latch.{ControlTrigger}
use taskcage.Lifecycle.Signals.{linux_signal_name}

pub record ProcessEvidence : Type 0 where
  pub exit_code : Option ℤ
  pub signal : Option ℤ

pub data ExecutionEvidence : Type 0 where
  started : ProcessEvidence → ExecutionEvidence
  start_failed : ℤ → ExecutionEvidence

pub data LifecycleError : Type 0 where
  already_finished invalid_process_outcome finished_before_started wall_time_overflow :
      LifecycleError
  unknown_signal : ℤ → LifecycleError

-- `control` is the first trigger of the latch, `ControlTriggers::first`.
pub record TerminationEvidence : Type 0 where
  pub execution : ExecutionEvidence
  pub control : Option ControlTrigger
  pub event_delta : KernelEvents
  pub daemon_error : Bool

abbrev pub is_start_failed : ExecutionEvidence → Bool
is_start_failed (started _) = false
is_start_failed (start_failed _) = true

abbrev pub control_reason : ControlTrigger → TerminationReason
control_reason ControlTrigger.timed_out = timed_out
control_reason ControlTrigger.cancelled = cancelled

-- The tests after the control trigger.
unfoldable pub classify_without_control : TerminationEvidence → TerminationReason
classify_without_control e =
    if ltb 0 e.event_delta.pids_max
    then process_limit_exceeded
    else if ltb 0 e.event_delta.memory_oom
    then memory_limit_exceeded
    else if e.daemon_error
    then daemon_error
    else if is_start_failed e.execution
    then execution_failed
    else exited

abbrev pub classify_control : TerminationEvidence → Option ControlTrigger → TerminationReason
classify_control e (some trigger) = control_reason trigger
classify_control e none = classify_without_control e

unfoldable pub classify_termination : TerminationEvidence → Result LifecycleError TerminationReason
unfolding classify_without_control
classify_termination e =
    if ltb 0 e.event_delta.memory_oom_kill
    then ok memory_limit_exceeded
    else ok (classify_control e e.control)

abbrev pub signal_result : ℤ → Option String → Result LifecycleError ProcessResult
signal_result signal (some name) = ok (record { exit_code = none; signal = some name })
signal_result signal none = err (unknown_signal signal)

abbrev pub process_result : Option ℤ → Option ℤ → Result LifecycleError ProcessResult
process_result (some exit_code) none = ok (record { exit_code = some exit_code; signal = none })
process_result none (some signal) = signal_result signal (linux_signal_name signal)
process_result none none = err invalid_process_outcome
process_result (some _) (some _) = err invalid_process_outcome

unfoldable pub map_process_result : ProcessEvidence → Result LifecycleError ProcessResult
map_process_result evidence = process_result evidence.exit_code evidence.signal
