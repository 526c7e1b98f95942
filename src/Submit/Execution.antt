-- ===== src/Submit/Execution.antt =====
-- How an execution ends: the last part of `TaskRunner::run_task` (daemon/src/adapters/linux_executor.rs)
-- and `runner_execution_failure` (daemon/src/adapters/task_service.rs). What the kernel did is an
-- argument: the `CoreFailure` of `execute`, or a FINISHED snapshot.
use taskcage.Prelude.{
  ℕ, String, Bool, true, false, not, Option, none, some, if◌then◌else◌, Result, ok, err,
}
use taskcage.Core.Task.{TaskSnapshot}
use taskcage.FailStop.{State, Settings, CleanupFailureReport, activate, is_fail_stopping}
use taskcage.Registry.Types.{SubmitFailure, UseCaseErrorCode}
use taskcage.Submit.Types.{ExecutionFailure}

pub data TaskRunFailureKind : Type 0 where
  cgroup_read_back_mismatch cgroup_read_back_rollback_uncertain other_failure : TaskRunFailureKind

pub record TaskRunFailure : Type 0 where
  pub message : String
  pub kind : TaskRunFailureKind
  pub capacity_reusable : Bool
  pub cleanup_complete : Bool

pub record CoreFailure : Type 0 where
  pub message : String
  pub kind : TaskRunFailureKind
  pub block_future_runs : Bool
  pub cleanup_complete : Bool
  pub report : CleanupFailureReport

-- `refused` is the return before any side effect; `rejected` any error that is returned by
-- `with_reusable_capacity`; `unfinalized` a profile whose artifacts could not be published.
pub data Ending : Type 0 where
  refused : Ending
  rejected : String → Ending
  core_failed : CoreFailure → Ending
  completed : TaskSnapshot → Ending
  unfinalized : String → Ending

abbrev pub with_reusable_capacity : String → TaskRunFailure
with_reusable_capacity message = record {
  message = message;
  kind = other_failure;
  capacity_reusable = true;
  cleanup_complete = true;
}

abbrev run_failure : CoreFailure → TaskRunFailure
run_failure f = record {
  message = f.message;
  kind = f.kind;
  capacity_reusable = not f.block_future_runs;
  cleanup_complete = f.cleanup_complete;
}

abbrev submit_failure : TaskRunFailureKind → String → SubmitFailure
submit_failure cgroup_read_back_mismatch message = record {
  code = UseCaseErrorCode.internal_error;
  message = "cgroup limit read-back verification failed";
}
submit_failure cgroup_read_back_rollback_uncertain message = record {
  code = UseCaseErrorCode.environment_unavailable;
  message = "cgroup v2 execution environment is unavailable";
}
submit_failure other_failure message = record {
  code = UseCaseErrorCode.internal_error;
  message = message;
}

unfoldable pub runner_execution_failure : TaskRunFailure → ExecutionFailure
runner_execution_failure error = record {
  submit = submit_failure error.kind error.message;
  capacity_reusable = error.capacity_reusable;
  cleanup_complete = error.cleanup_complete;
}

-- `Error::CleanupUncertain`, in the words of daemon/src/lib.rs.
unfoldable pub refusal : TaskRunFailure
refusal = record {
  message = "이전 작업의 격리 정리를 확인하지 못해 새 작업을 실행할 수 없습니다";
  kind = other_failure;
  capacity_reusable = false;
  cleanup_complete = true;
}

abbrev pub activated_if : Bool → Settings → ℕ → CleanupFailureReport → State → State
activated_if false settings now report s = s
activated_if true settings now report s = (activate settings now report s).0

-- The state of fail-stop after the execution, and its result. `refused` is returned only if fail-stop
-- was in progress; else the execution goes on, and there is no result yet.
unfoldable pub execution_result :
    Settings → ℕ → Ending → State → State × Option (Result ExecutionFailure TaskSnapshot)
unfolding activate runner_execution_failure is_fail_stopping refusal
execution_result settings now refused s =
    (s, if is_fail_stopping s then some (err (runner_execution_failure refusal)) else none)
execution_result settings now (rejected message) s =
    (s, some (err (runner_execution_failure (with_reusable_capacity message))))
execution_result settings now (core_failed f) s = (
  activated_if f.block_future_runs settings now f.report s,
  some (err (runner_execution_failure (run_failure f))),
)
execution_result settings now (completed payload) s = (s, some (ok payload))
execution_result settings now (unfinalized message) s = (
  s,
  some (
      err (record {
        submit = record { code = UseCaseErrorCode.internal_error; message = message };
        capacity_reusable = false;
        cleanup_complete = false;
      })),
)
