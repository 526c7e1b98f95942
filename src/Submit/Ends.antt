-- ===== src/Submit/Ends.antt =====
-- The publication of RUNNING and the end of an execution: what they do to the slots and to fail-stop.
use taskcage.Prelude.{
  ℕ, ◌≡◌, refl, ◌∙◌, inr, Bool, true, false, ◌&&◌, not, some, arith, if◌then◌else◌, Result, ok, err,
}
use taskcage.Core.Task.{TaskSnapshot}
use taskcage.Capacity.{retain_for_fail_stop}
use taskcage.FailStop.{
  State, Settings, CleanupFailureReport, drop_active, is_healthy, is_fail_stopping,
}
use taskcage.Registry.Types.{SubmitExecutionOwner}
use taskcage.Registry.Methods.{Call, publish_running}
use taskcage.Submit.Types.{Daemon, Readings, ExecutionFailure, VerifiedRunningTask}
use taskcage.Submit.Execution.{
  Ending, refused, rejected, core_failed, completed, unfinalized, execution_result, activated_if,
}
use taskcage.Submit.Completion.{report_running_publication_failure}
use taskcage.Submit.Owner.{
  publish_initial, complete_running, finish_after_running, published_or_failed,
}
use taskcage.Submit.Live.{
  healthy_of, Released, Sound, activate_stops, drop_active_stops, complete_running-Released,
  retained_Released,
}

-- RUNNING was published, or the slot is retained and fail-stop in progress.
abbrev pub Announced : Daemon → Daemon → Bool → Type 0
Announced d d' true = (d'.capacity ≡ d.capacity) × (d'.fail_stop ≡ d.fail_stop)
Announced d d' false =
    (d'.capacity ≡ (retain_for_fail_stop d.capacity).0)
    × (healthy_of d' ≡ false)
    × (d'.fail_stop.active ≡ d.fail_stop.active)

module _ (settings : Settings) (at : Readings) (o : SubmitExecutionOwner) where
  published_or_failed-Announced :
      (d : Daemon) (call : Call TaskSnapshot)
      → let (d', _, published) = published_or_failed settings at o d call in
        Announced d d' published
  unfolding report_running_publication_failure
  published_or_failed-Announced d (registry, ok taken) = (refl, refl)
  published_or_failed-Announced d (registry, err e) =
      let stops = activate_stops settings at.activated _ d.fail_stop in (refl, stops.0, stops.1)

  pub publish_initial-Announced :
      (running_task : VerifiedRunningTask) (cancellation : ℕ) (d : Daemon)
      → let (d', _, published) = publish_initial settings at o running_task cancellation d in
        Announced d d' published
  unfolding publish_initial
  publish_initial-Announced running_task cancellation d = published_or_failed-Announced d (
      publish_running at.changed o running_task.snapshot running_task.effective_limits cancellation
        d.registry)

  -- Both halves of the end that found RUNNING waiting.
  both_Released :
      (completion : Result ExecutionFailure TaskSnapshot) (d d1 : Daemon) (published : Bool)
      → Announced d d1 published
      → Released o.task_id d (
          if published
          then complete_running settings at o completion d1
          else record d1 { fail_stop = drop_active settings at.activated o.task_id d1.fail_stop })
  both_Released completion d d1 true (c, f) =
      let (slot, later, gone) = complete_running-Released settings at o completion d1 in
      (rw (← c) slot, rw (← f) later, rw (← f) gone)
  both_Released completion d d1 false (c, h, a) =
      let stops = drop_active_stops settings at.activated o.task_id d1.fail_stop in
      retained_Released o.task_id d
        (record d1 { fail_stop = drop_active settings at.activated o.task_id d1.fail_stop }) c
        stops.0 (inr (stops.1 ∙ a))

  pub finish_after_running-Released :
      (running_task : VerifiedRunningTask) (cancellation : ℕ)
      (completion : Result ExecutionFailure TaskSnapshot) (d : Daemon)
      → Released o.task_id d
          (finish_after_running settings at o running_task cancellation completion d).0
  unfolding finish_after_running
  finish_after_running-Released running_task cancellation completion d =
      let (d1, _, published) = publish_initial settings at o running_task cancellation d in
      both_Released completion d d1 published
        (publish_initial-Announced running_task cancellation d)

activated_if_lem :
    (block cleanup_complete : Bool) (settings : Settings) (now : ℕ) (report : CleanupFailureReport)
    (s : State)
    → let s' = activated_if block settings now report s in
      ((is_healthy s'.phase && not (is_healthy s.phase)) ≡ false)
      × (s'.active ≡ s.active)
      × (((not (not block) && cleanup_complete) && is_healthy s'.phase) ≡ false)
activated_if_lem false cleanup_complete settings now report s = (ground arith, refl, ground arith)
activated_if_lem true cleanup_complete settings now report s =
    let stops = activate_stops settings now report s in
    (ground (arith, stops.0), stops.1, ground (arith, stops.0))

-- Fail-stop goes on, and no execution is registered or dropped.
pub execution_result-Quiet :
    (settings : Settings) (now : ℕ) (ending : Ending) (s : State)
    → let s' = (execution_result settings now ending s).0 in
      ((is_healthy s'.phase && not (is_healthy s.phase)) ≡ false) × (s'.active ≡ s.active)
unfolding execution_result
execution_result-Quiet settings now refused s = (ground arith, refl)
execution_result-Quiet settings now (rejected message) s = (ground arith, refl)
execution_result-Quiet settings now (core_failed f) s =
    let (later, same, _) =
      activated_if_lem f.block_future_runs f.cleanup_complete settings now f.report s in
    (later, same)
execution_result-Quiet settings now (completed payload) s = (ground arith, refl)
execution_result-Quiet settings now (unfinalized message) s = (ground arith, refl)

-- A failure without reusable capacity whose cleanup is complete comes only with fail-stop.
pub execution_result-Sound :
    (settings : Settings) (now : ℕ) (ending : Ending) (d : Daemon)
    (completion : Result ExecutionFailure TaskSnapshot)
    → let (s, result) = execution_result settings now ending d.fail_stop in
      result ≡ some completion → Sound completion (record d { fail_stop = s })
unfolding execution_result is_fail_stopping
execution_result-Sound settings now ending d (ok payload) h = tt
execution_result-Sound settings now refused d (err failure) h = ground arith
execution_result-Sound settings now (rejected message) d (err failure) h = ground arith
execution_result-Sound settings now (core_failed f) d (err failure) h =
    let (_, _, sound) =
      activated_if_lem f.block_future_runs f.cleanup_complete settings now f.report d.fail_stop in
    let reusable : failure.capacity_reusable ≡ not f.block_future_runs = cc (h) in
    let clean : failure.cleanup_complete ≡ f.cleanup_complete = cc (h) in rw (reusable, clean) sound
execution_result-Sound settings now (completed payload) d (err failure) h = ground arith
execution_result-Sound settings now (unfinalized message) d (err failure) h = ground arith
