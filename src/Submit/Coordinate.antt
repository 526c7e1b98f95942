-- ===== src/Submit/Coordinate.antt =====
-- `coordinate_validated_submit_with_runtime` (daemon/src/application/task/submit.rs): the beginning of a
-- submission, in the three parts between which other threads may act (the lookup, the admission, and
-- the claim of a slot with what follows it), and its end, when the observation is there. The config of
-- the execution is left out.
use taskcage.Prelude.{suc, String, Option, none, some, str_append, if◌then◌else◌, Result, ok, err}
use taskcage.FailStop.{Settings, State, register, is_fail_stopping}
use taskcage.Metrics.{task_started}
use taskcage.Registry.Types.{
  task_already_exists, UseCaseErrorCode, SubmitFailure, SubmitObservation, ValidatedSubmit,
  VerifiedEffectiveLimits, SubmitReservation, owner, existing, SubmitWaiter, SubmitExecutionOwner,
}
use taskcage.Registry.Methods.{
  Registry, Call, existing_submit, reserve_submit_with, effective_limits_for,
}
use taskcage.Registry.Owner.{rollback_before_running, drop_owner}
use taskcage.Submit.Types.{
  Daemon, Readings, SubmitOutcome, SubmitError, registry_error, Begun, answered, waits, spawned,
}
use taskcage.Submit.Completion.{complete_active, drop_unresolved, try_acquire}

abbrev pub unavailable : SubmitFailure
unavailable = record {
  code = UseCaseErrorCode.environment_unavailable;
  message = "cgroup v2 execution environment is unavailable";
}

abbrev pub exhausted : SubmitFailure
exhausted = record {
  code = UseCaseErrorCode.capacity_exhausted;
  message = "all task execution slots are in use";
}

abbrev pub refused_with : String → String → SubmitFailure → SubmitOutcome
refused_with request_id task_id failure = record {
  request_id = request_id;
  task_id = task_id;
  effective_limits = none;
  observation = SubmitObservation.failed failure;
}

abbrev started : Daemon → Daemon
started d = record d {
  metrics = task_started d.metrics;
  next_cancellation = suc d.next_cancellation;
}

abbrev pub rollback_outcome :
    Settings
    → Readings
    → String
    → SubmitExecutionOwner
    → Daemon
    → Call SubmitObservation
    → Daemon × Begun
rollback_outcome settings at request_id o d (registry, ok observation) = (
  complete_active o.task_id (record d { registry = registry }),
  answered (
      ok (record {
        request_id = request_id;
        task_id = o.task_id;
        effective_limits = none;
        observation = observation;
      })),
)
rollback_outcome settings at request_id o d (registry, err e) = (
  drop_unresolved settings at.activated o.task_id (record d { registry = registry }),
  answered (err (registry_error e)),
)

-- What is left of a submission when its admission is over: an answer, a wait for another owner, or an
-- owner whose execution is registered and that has no slot yet.
pub data Admission : Type 0 where
  refuses : Result SubmitError SubmitOutcome → Admission
  joins : SubmitWaiter → Admission
  admitted : SubmitExecutionOwner → Admission

-- The owner of a new active execution, after its admission: it gets a slot and is spawned, or is
-- rolled back.
unfoldable pub claim : Settings → Readings → String → SubmitExecutionOwner → Daemon → Daemon × Begun
unfolding try_acquire rollback_before_running task_started
claim settings at request_id o d =
    let (capacity, acquired) = try_acquire d.capacity in
    let d1 = record d { capacity = capacity } in
    if acquired
    then (started d1, spawned o d1.next_cancellation)
    else rollback_outcome settings at request_id o d1
        (rollback_before_running at.released o exhausted d1.registry)

-- The registration with fail-stop, under the admission that the caller holds. Its refusal drops the
-- owner.
abbrev pub with_active :
    Readings
    → String
    → SubmitExecutionOwner
    → Daemon
    → State × Option (Result String (Unit {0}))
    → Daemon × Admission
with_active at request_id o d (s, some (ok _)) = (record d { fail_stop = s }, admitted o)
with_active at request_id o d (s, some (err id)) = (
  record d { registry = drop_owner at.released o d.registry; fail_stop = s },
  refuses (err (registry_error (task_already_exists (str_append "활성 실행 taskId가 중복되었습니다: " id)))),
)
with_active at request_id o d (s, none) = (d, refuses (ok (refused_with request_id "" unavailable)))

abbrev pub reserved : Readings → String → Daemon → Call SubmitReservation → Daemon × Admission
reserved at request_id d (registry, err e) =
    (record d { registry = registry }, refuses (err (registry_error e)))
reserved at request_id d (registry, ok (existing waiter)) =
    (record d { registry = registry }, joins waiter)
reserved at request_id d (registry, ok (owner o)) =
    with_active at request_id o (record d { registry = registry }) (register o.task_id d.fail_stop)

-- What is done while the admission is held. `candidate` is the task id that the submission's metadata
-- makes.
unfoldable pub admit : Readings → String → ValidatedSubmit → String → Daemon → Daemon × Admission
unfolding is_fail_stopping reserve_submit_with register drop_owner
admit at request_id request candidate d =
    if is_fail_stopping d.fail_stop
    then (d, refuses (ok (refused_with request_id "" unavailable)))
    else reserved at request_id d (reserve_submit_with at.changed request candidate d.registry)

abbrev pub claimed : Settings → Readings → String → Daemon × Admission → Daemon × Begun
claimed settings at request_id (d, refuses answer) = (d, answered answer)
claimed settings at request_id (d, joins waiter) = (d, waits waiter)
claimed settings at request_id (d, admitted o) = claim settings at request_id o d

abbrev pub looked_up :
    Settings
    → Readings
    → String
    → ValidatedSubmit
    → String
    → Daemon
    → Call (Option SubmitWaiter)
    → Daemon × Begun
looked_up settings at request_id request candidate d (registry, err e) =
    (record d { registry = registry }, answered (err (registry_error e)))
looked_up settings at request_id request candidate d (registry, ok (some waiter)) =
    (record d { registry = registry }, waits waiter)
looked_up settings at request_id request candidate d (registry, ok none) =
    claimed settings at request_id
      (admit at request_id request candidate (record d { registry = registry }))

-- A submission that nobody interrupts.
unfoldable pub begin :
    Settings → Readings → String → ValidatedSubmit → String → Daemon → Daemon × Begun
unfolding existing_submit admit claim
begin settings at request_id request candidate d =
    looked_up settings at request_id request candidate d
      (existing_submit at.looked_up request d.registry)

abbrev pub outcome_of :
    String
    → String
    → SubmitObservation
    → Call (Option VerifiedEffectiveLimits)
    → Registry × Result SubmitError SubmitOutcome
outcome_of request_id task_id observation (registry, ok limits) = (
  registry,
  ok (record {
    request_id = request_id;
    task_id = task_id;
    effective_limits = limits;
    observation = observation;
  }),
)
outcome_of request_id task_id observation (registry, err e) = (registry, err (registry_error e))

-- The end of a submission: the limits are read once the observation is there.
unfoldable pub settle :
    Readings
    → String
    → String
    → SubmitObservation
    → Daemon
    → Daemon × Result SubmitError SubmitOutcome
unfolding effective_limits_for
settle at request_id task_id observation d =
    let (registry, outcome) =
      outcome_of request_id task_id observation
        (effective_limits_for at.limits task_id observation d.registry) in
    (record d { registry = registry }, outcome)
