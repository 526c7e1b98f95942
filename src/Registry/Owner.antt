-- ===== src/Registry/Owner.antt =====
-- The owner of an execution: how its resolution releases or keeps the reservation and what it
-- publishes to those who wait. `SubmitExecutionOwner` is consumed by the functions below, which set
-- `resolved`; an owner that none of them consumed is dropped.
use taskcage.Prelude.{ℕ, String, Option, none, some, str_append, Result, ok, err}
use taskcage.Core.Task.{TaskSnapshot}
use taskcage.Registry.Types.{
  RegistryError, running_snapshot_required, finished_snapshot_required, state_unavailable,
  capacity_exhausted, task_already_exists, idempotency_conflict, task_not_found,
  task_already_finished, verified_effective_limits_required, task_id_mismatch, UseCaseErrorCode,
  SubmitFailure, SubmitObservation, SubmitExecutionOwner, FinishedTaskPublication,
}
use taskcage.Registry.Methods.{Registry, Call, publish, set, finish_snapshot, release_failed_owner}

-- The `Display` of a `RegistryError`, in the words of its `#[error]` attributes.
abbrev pub to_string : RegistryError → String
to_string running_snapshot_required = "새 작업은 RUNNING snapshot으로 등록해야 합니다"
to_string finished_snapshot_required = "작업 완료에는 FINISHED snapshot이 필요합니다"
to_string (task_already_exists id) = str_append "taskId가 이미 등록되어 있습니다: " id
to_string (idempotency_conflict id) =
    str_append "같은 clientRequestId에 다른 submit payload가 사용됐습니다: " id
to_string (task_not_found id) = str_append "작업을 찾을 수 없습니다: " id
to_string (task_already_finished id) = str_append "완료된 작업 결과는 바꿀 수 없습니다: " id
to_string (task_id_mismatch expected actual) =
    str_append "완료 결과의 taskId가 예약과 다릅니다: expected="
      (str_append expected (str_append ", actual=" actual))
to_string state_unavailable = "Task Registry 상태 잠금을 사용할 수 없습니다"
to_string (verified_effective_limits_required id) =
    str_append "RUNNING 작업에 적용 확인된 effectiveLimits가 없습니다: " id
to_string capacity_exhausted = "task registry retention capacity is exhausted"

-- `RegistryError::error_code`.
unfoldable pub error_code : RegistryError → Option UseCaseErrorCode
error_code (idempotency_conflict _) = some UseCaseErrorCode.idempotency_conflict
error_code (task_not_found _) = some UseCaseErrorCode.task_not_found
error_code (task_already_finished _) = some UseCaseErrorCode.task_already_finished
error_code state_unavailable = some UseCaseErrorCode.internal_error
error_code (verified_effective_limits_required _) = some UseCaseErrorCode.internal_error
error_code capacity_exhausted = some UseCaseErrorCode.capacity_exhausted
error_code _ = none

abbrev pub internal : RegistryError → SubmitObservation
internal e =
    SubmitObservation.failed
      (record { code = UseCaseErrorCode.internal_error; message = to_string e })

abbrev pub set_completed : Option ℕ → TaskSnapshot → Registry → Registry
set_completed none taken r = r
set_completed (some address) taken r = record r { completed = set address (some taken) r.completed }

unfoldable pub publish_completion : FinishedTaskPublication → Registry → Registry × TaskSnapshot
publish_completion p r = (
  publish p.submit_signal (SubmitObservation.task p.snapshot)
      (set_completed p.cancellation p.snapshot r),
  p.snapshot,
)

abbrev failed_observation :
    SubmitFailure → Result RegistryError (Option TaskSnapshot) → SubmitObservation
failed_observation failure (ok (some taken)) = SubmitObservation.task taken
failed_observation failure (ok none) = SubmitObservation.failed failure
failed_observation failure (err _) = SubmitObservation.failed failure

unfoldable pub fail_inner :
    ℕ → SubmitExecutionOwner → SubmitFailure → Registry → Registry × SubmitObservation
unfolding release_failed_owner
fail_inner now o failure r =
    let (r', answer) = release_failed_owner now o r in
    let observation = failed_observation failure answer in
    (publish o.signal observation r', observation)

-- The clock is read once more when the completion is refused and the owner fails.
abbrev pub finished_or_failed :
    ℕ → SubmitExecutionOwner → Call FinishedTaskPublication → Call FinishedTaskPublication
finished_or_failed now o (r, ok p) = (r, ok p)
finished_or_failed now o (r, err e) = (
  (fail_inner now o (record { code = UseCaseErrorCode.internal_error; message = to_string e }) r).0,
  err e,
)

unfoldable pub finish_inner :
    ℕ → ℕ → ℕ → SubmitExecutionOwner → TaskSnapshot → Registry → Call FinishedTaskPublication
unfolding finish_snapshot fail_inner
finish_inner now later last o taken r =
    finished_or_failed last o (finish_snapshot now later o taken r)

abbrev pub rolled_back :
    SubmitExecutionOwner → SubmitFailure → Call (Option TaskSnapshot) → Call SubmitObservation
rolled_back o failure (r, ok none) =
    (publish o.signal (SubmitObservation.failed failure) r, ok (SubmitObservation.failed failure))
rolled_back o failure (r, ok (some _)) =
    (publish o.signal (internal state_unavailable) r, err state_unavailable)
rolled_back o failure (r, err e) = (publish o.signal (internal e) r, err e)

unfoldable pub rollback_before_running :
    ℕ → SubmitExecutionOwner → SubmitFailure → Registry → Call SubmitObservation
unfolding release_failed_owner
rollback_before_running now o failure r = rolled_back o failure (release_failed_owner now o r)

-- `Drop` of an owner that was not resolved.
unfoldable pub drop_owner : ℕ → SubmitExecutionOwner → Registry → Registry
unfolding fail_inner
drop_owner now o r =
    (fail_inner now o
      (record { code = UseCaseErrorCode.internal_error; message = "실행 소유자가 결과를 공개하기 전에 종료됐습니다" })
      r).0
