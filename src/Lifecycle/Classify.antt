-- ===== src/Lifecycle/Classify.antt =====
-- What `classify_termination` and `linux_signal_name` answer, reason by reason and name by name.
use taskcage.Prelude.{◌<◌, ◌≡◌, ◌↔◌, ◌⊎◌, true, false, none, some, arith, ok}
use taskcage.Core.Task.{
  exited, execution_failed, cancelled, timed_out, memory_limit_exceeded, process_limit_exceeded,
  daemon_error,
}
use taskcage.Lifecycle.Latch.{ControlTrigger}
use taskcage.Lifecycle.Evidence.{TerminationEvidence, classify_termination, is_start_failed}

-- Nothing but the process itself, or the daemon, ended the task.
abbrev pub Unforced : TerminationEvidence → Type 0
Unforced e =
    (e.event_delta.memory_oom_kill ≡ 0)
    × (e.control ≡ none)
    × (e.event_delta.pids_max ≡ 0)
    × (e.event_delta.memory_oom ≡ 0)

-- `classify_termination` never fails, and each reason stands for exactly this evidence: an OOM kill
-- comes before the control trigger, a trigger before the process limit, the process limit before an
-- OOM notice without a kill, then a daemon error, then a failed start; an exit is what is left.
pub classify_exact :
    (e : TerminationEvidence)
    → ((classify_termination e ≡ ok timed_out)
        ↔ ((e.event_delta.memory_oom_kill ≡ 0) × (e.control ≡ some ControlTrigger.timed_out)))
      × ((classify_termination e ≡ ok cancelled)
          ↔ ((e.event_delta.memory_oom_kill ≡ 0) × (e.control ≡ some ControlTrigger.cancelled)))
      × ((classify_termination e ≡ ok process_limit_exceeded) ↔ (
          (e.event_delta.memory_oom_kill ≡ 0) × (e.control ≡ none) × (0 < e.event_delta.pids_max)))
      × ((classify_termination e ≡ ok memory_limit_exceeded) ↔ (
          (0 < e.event_delta.memory_oom_kill)
          ⊎ ((e.control ≡ none) × (e.event_delta.pids_max ≡ 0) × (0 < e.event_delta.memory_oom))))
      × ((classify_termination e ≡ ok daemon_error) ↔ (Unforced e × (e.daemon_error ≡ true)))
      × ((classify_termination e ≡ ok execution_failed)
          ↔ (Unforced e × (e.daemon_error ≡ false) × (is_start_failed e.execution ≡ true)))
      × ((classify_termination e ≡ ok exited)
          ↔ (Unforced e × (e.daemon_error ≡ false) × (is_start_failed e.execution ≡ false)))
unfolding classify_termination
classify_exact e = (
  (λ h. ground arith, λ h. ground arith),
  (λ h. ground arith, λ h. ground arith),
  (λ h. ground arith, λ h. ground arith),
  (λ h. ground arith, λ h. ground arith),
  (λ h. ground arith, λ h. ground arith),
  (λ h. ground arith, λ h. ground arith),
  (λ h. ground arith, λ h. ground arith),
)
