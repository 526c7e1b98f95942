-- ===== src/Submit/Owner.antt =====
-- `run_owner` and what it calls: the stretches of code of an owner's task between its awaits. The
-- execution may first send the RUNNING snapshot and end later, or end at once, with the snapshot sent
-- before it or not. What is sent to the submission that spawned the owner is returned.
use taskcage.Prelude.{ℕ, Bool, true, false, if◌then◌else◌, Result, ok, err}
use taskcage.Core.Task.{TaskSnapshot}
use taskcage.FailStop.{Settings}
use taskcage.Registry.Types.{
  SubmitFailure, SubmitObservation, SubmitExecutionOwner, UseCaseErrorCode, FinishedTaskPublication,
}
use taskcage.Registry.Methods.{Registry, Call, publish_running}
use taskcage.Registry.Owner.{fail_inner, finish_inner, rollback_before_running, internal, to_string}
use taskcage.Submit.Types.{Daemon, Readings, ExecutionFailure, VerifiedRunningTask}
use taskcage.Submit.Completion.{
  publish_finished, release_capacity, retain_slot, complete_active, drop_unresolved, resolve_active,
  report_running_failure, report_running_publication_failure,
}

abbrev in_registry : Daemon → Registry → Daemon
in_registry d registry = record d { registry = registry }

abbrev pub fail_owner :
    Readings → SubmitExecutionOwner → SubmitFailure → Daemon → Daemon × SubmitObservation
fail_owner at o failure d =
    let (registry, observation) = fail_inner at.released o failure d.registry in
    (in_registry d registry, observation)

-- The first half of `run_after_running` and `finish_after_running`; the flag says whether RUNNING was
-- published.
abbrev pub published_or_failed :
    Settings
    → Readings
    → SubmitExecutionOwner
    → Daemon
    → Call TaskSnapshot
    → Daemon × SubmitObservation × Bool
published_or_failed settings at o d (registry, ok taken) =
    (in_registry d registry, SubmitObservation.task taken, true)
published_or_failed settings at o d (registry, err e) =
    let d1 =
      report_running_publication_failure settings at.activated o.task_id (in_registry d registry) in
    let (d2, observation) =
      fail_owner at o (record { code = UseCaseErrorCode.internal_error; message = to_string e })
        d1 in
    (retain_slot d2, observation, false)

unfoldable pub publish_initial :
    Settings
    → Readings
    → SubmitExecutionOwner
    → VerifiedRunningTask
    → ℕ
    → Daemon
    → Daemon × SubmitObservation × Bool
unfolding publish_running fail_inner report_running_publication_failure
publish_initial settings at o running cancellation d =
    published_or_failed settings at o d (
      publish_running at.changed o running.snapshot running.effective_limits cancellation
        d.registry)

abbrev pub finish_owner :
    Readings → SubmitExecutionOwner → TaskSnapshot → Daemon → Call FinishedTaskPublication
finish_owner at o payload d =
    finish_inner at.changed at.finished_at at.released o payload d.registry

-- A completion that the registry refused: the slot is retained and the active execution dropped.
abbrev pub unfinished : Settings → Readings → SubmitExecutionOwner → Daemon → Daemon
unfinished settings at o d = drop_unresolved settings at.activated o.task_id (retain_slot d)

abbrev pub finished_after_running :
    Settings → Readings → SubmitExecutionOwner → Daemon → Call FinishedTaskPublication → Daemon
finished_after_running settings at o d (registry, ok p) =
    (publish_finished o.task_id p (in_registry d registry)).0
finished_after_running settings at o d (registry, err e) =
    unfinished settings at o (in_registry d registry)

-- The second half of `run_after_running` and `finish_after_running`.
unfoldable pub complete_running :
    Settings
    → Readings
    → SubmitExecutionOwner
    → Result ExecutionFailure TaskSnapshot
    → Daemon
    → Daemon
unfolding finish_inner publish_finished fail_inner report_running_failure
complete_running settings at o (ok payload) d =
    finished_after_running settings at o d (finish_owner at o payload d)
complete_running settings at o (err failure) d =
    let d1 = report_running_failure settings at.activated o.task_id d in
    let (d2, _) = fail_owner at o failure.submit d1 in
    retain_slot (resolve_active failure.cleanup_complete settings at.activated o.task_id d2)

abbrev pub finished_at_once :
    Settings
    → Readings
    → SubmitExecutionOwner
    → Daemon
    → Call FinishedTaskPublication
    → Daemon × SubmitObservation
finished_at_once settings at o d (registry, ok p) =
    let (d1, taken) = publish_finished o.task_id p (in_registry d registry) in
    (d1, SubmitObservation.task taken)
finished_at_once settings at o d (registry, err e) =
    (unfinished settings at o (in_registry d registry), internal e)

abbrev pub rolled_back :
    Settings
    → Readings
    → SubmitExecutionOwner
    → Daemon
    → Call SubmitObservation
    → Daemon × SubmitObservation
rolled_back settings at o d (registry, ok observation) =
    (release_capacity (complete_active o.task_id (in_registry d registry)), observation)
rolled_back settings at o d (registry, err e) =
    (unfinished settings at o (in_registry d registry), internal e)

abbrev pub failed_without_running :
    Settings
    → Readings
    → SubmitExecutionOwner
    → ExecutionFailure
    → Daemon
    → Bool
    → Daemon × SubmitObservation
failed_without_running settings at o failure d true =
    rolled_back settings at o d (rollback_before_running at.changed o failure.submit d.registry)
failed_without_running settings at o failure d false =
    let (d1, observation) = fail_owner at o failure.submit (retain_slot d) in
    (resolve_active failure.cleanup_complete settings at.activated o.task_id d1, observation)

unfoldable pub finish_without_running :
    Settings
    → Readings
    → SubmitExecutionOwner
    → Result ExecutionFailure TaskSnapshot
    → Daemon
    → Daemon × SubmitObservation
unfolding finish_inner publish_finished fail_inner rollback_before_running release_capacity
finish_without_running settings at o (ok payload) d =
    finished_at_once settings at o d (finish_owner at o payload d)
finish_without_running settings at o (err failure) d =
    failed_without_running settings at o failure d failure.capacity_reusable

-- `finish_after_running`: both halves without an await between them. After a refused publication the
-- active execution is dropped.
unfoldable pub finish_after_running :
    Settings
    → Readings
    → SubmitExecutionOwner
    → VerifiedRunningTask
    → ℕ
    → Result ExecutionFailure TaskSnapshot
    → Daemon
    → Daemon × SubmitObservation
unfolding publish_initial complete_running
finish_after_running settings at o running cancellation completion d =
    let (d1, observation, published) = publish_initial settings at o running cancellation d in
    (
      if published
          then complete_running settings at o completion d1
          else drop_unresolved settings at.activated o.task_id d1,
      observation,
    )
