-- ===== src/Lifecycle/Single.antt =====
-- `SingleTaskLifecycle`: RUNNING until one successful `complete`. An `Instant` is a number of
-- nanoseconds on the monotonic clock.
use taskcage.Prelude.{
  ℕ, ◌-◌, ◌/◌, ◌^◌, String, Bool, Option, none, some, List, ltb, leb, if◌then◌else◌, Result, ok,
  err, ◌>>=◌, ok_or,
}
use taskcage.Core.Task.{TaskSnapshot, ProcessResult, TerminationReason, from_result}
use taskcage.Core.Output.{CapturedOutput, into_task_output}
use taskcage.Cgroup.Events.{JobStats}
use taskcage.Lifecycle.Latch.{ControlTrigger}
use taskcage.Lifecycle.Evidence.{
  ExecutionEvidence, started, start_failed, LifecycleError, already_finished,
  finished_before_started, wall_time_overflow, TerminationEvidence, classify_termination,
  map_process_result,
}

pub record RunningTask : Type 0 where
  pub task_id : String
  pub submitted_at : String
  pub started_at : String
  pub started_monotonic : ℕ

pub data LifecycleState : Type 0 where
  running : RunningTask → LifecycleState
  finished : TaskSnapshot → LifecycleState

pub record CompletionData : Type 0 where
  pub evidence : ExecutionEvidence
  pub control : Option ControlTrigger
  pub stats : JobStats
  pub output : CapturedOutput
  pub daemon_error : Bool

unfoldable pub snapshot : LifecycleState → TaskSnapshot
snapshot (running task) = TaskSnapshot.running task.task_id task.submitted_at task.started_at
snapshot (finished task) = task

-- `Instant::checked_duration_since`.
abbrev pub checked_duration_since : ℕ → ℕ → Option ℕ
checked_duration_since later earlier = if leb earlier later then some (later - earlier) else none

-- `u64::try_from(d.as_millis())`.
abbrev pub millis_u64 : ℕ → Option ℕ
millis_u64 nanos = if ltb (nanos / 1_000_000) (2 ^ 64) then some (nanos / 1_000_000) else none

abbrev pub process_of : ExecutionEvidence → Result LifecycleError ProcessResult
process_of (started process) = map_process_result process
process_of (start_failed _) = ok (record { exit_code = none; signal = none })

abbrev pub termination_evidence : CompletionData → TerminationEvidence
termination_evidence completion = record {
  execution = completion.evidence;
  control = completion.control;
  event_delta = completion.stats.event_delta;
  daemon_error = completion.daemon_error;
}

module _ (from_utf8_lossy : List ℕ → String) where
  unfoldable pub payload :
      RunningTask → CompletionData → String → TerminationReason → ProcessResult → ℕ → TaskSnapshot
  payload task completion finished_at reason process wall_time_ms = from_result (record {
    task_id = task.task_id;
    termination_reason = reason;
    process = process;
    timing = record {
      submitted_at = task.submitted_at;
      started_at = task.started_at;
      finished_at = finished_at;
      wall_time_ms = wall_time_ms;
    };
    usage = record {
      cpu_time_micros = completion.stats.cpu_usage_micros;
      memory_peak_bytes = completion.stats.memory_peak_bytes;
    };
    output = into_task_output from_utf8_lossy completion.output;
  })

  -- The checks of `complete_inner`, in its order.
  unfoldable pub completed :
      RunningTask → CompletionData → String → ℕ → Result LifecycleError TaskSnapshot
  unfolding payload
  completed task completion finished_at finished_monotonic = do
    reason ← classify_termination (termination_evidence completion)
    process ← process_of completion.evidence
    wall_time ←
        ok_or (checked_duration_since finished_monotonic task.started_monotonic)
          finished_before_started
    wall_time_ms ← ok_or (millis_u64 wall_time) wall_time_overflow
    ok (payload task completion finished_at reason process wall_time_ms)

  abbrev pub finish :
      LifecycleState
      → Result LifecycleError TaskSnapshot
      → LifecycleState × Result LifecycleError TaskSnapshot
  finish state (ok task) = (finished task, ok task)
  finish state (err e) = (state, err e)

  -- The new state, and the snapshot or the error that is returned.
  unfoldable pub complete_inner :
      LifecycleState
      → CompletionData
      → String
      → ℕ
      → LifecycleState × Result LifecycleError TaskSnapshot
  unfolding completed
  complete_inner (finished task) completion finished_at finished_monotonic =
      (finished task, err already_finished)
  complete_inner (running task) completion finished_at finished_monotonic =
      finish (running task) (completed task completion finished_at finished_monotonic)
