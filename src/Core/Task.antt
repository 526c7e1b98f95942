-- ===== src/Core/Task.antt =====
-- core/src/task/mod.rs: lifecycle snapshots and results of one task.
use taskcage.Prelude.{ℕ, String, Bool, Option}
use taskcage.Prelude.Int.{ℤ}

pub data TaskState : Type 0 where
  running finished : TaskState

pub data TerminationReason : Type 0 where
  exited execution_failed cancelled timed_out memory_limit_exceeded process_limit_exceeded
        daemon_error :
      TerminationReason

pub record ProcessResult : Type 0 where
  pub exit_code : Option ℤ
  pub signal : Option String

pub record TaskTiming : Type 0 where
  pub submitted_at : String
  pub started_at : String
  pub finished_at : String
  pub wall_time_ms : ℕ

pub record TaskUsage : Type 0 where
  pub cpu_time_micros : ℕ
  pub memory_peak_bytes : ℕ

pub record TaskOutput : Type 0 where
  pub stdout_tail : String
  pub stderr_tail : String
  pub stdout_truncated : Bool
  pub stderr_truncated : Bool

pub record TaskResult : Type 0 where
  pub task_id : String
  pub termination_reason : TerminationReason
  pub process : ProcessResult
  pub timing : TaskTiming
  pub usage : TaskUsage
  pub output : TaskOutput

-- `Running` holds the task's id and the texts of its submission and start times.
pub data TaskSnapshot : Type 0 where
  running : String → String → String → TaskSnapshot
  finished :
      String
      → TerminationReason
      → ProcessResult
      → TaskTiming
      → TaskUsage
      → TaskOutput
      → TaskSnapshot

abbrev pub state : TaskSnapshot → TaskState
state (TaskSnapshot.running _ _ _) = TaskState.running
state (TaskSnapshot.finished _ _ _ _ _ _) = TaskState.finished

abbrev pub task_id : TaskSnapshot → String
task_id (TaskSnapshot.running id _ _) = id
task_id (TaskSnapshot.finished id _ _ _ _ _) = id

abbrev pub from_result : TaskResult → TaskSnapshot
from_result r =
    TaskSnapshot.finished r.task_id r.termination_reason r.process r.timing r.usage r.output
