-- ===== src/Submit/Live.antt =====
-- What one owner's end does to its slot and to its active execution, on every path: the slot is free
-- again and the execution is completed if fail-stop is not in progress, and the slot is retained if it
-- is.
use taskcage.Prelude.{
  ℕ, String, ◌≡◌, refl, ap, ◌∙◌, ◌⊎◌, inl, inr, Bool, true, false, ◌&&◌, not, arith, Bool-cases,
  Result, ok, err,
}
use taskcage.Prelude.Map
use taskcage.Core.Task.{TaskSnapshot}
use taskcage.Capacity.{TaskCapacity, drop_permit, retain_for_fail_stop}
use taskcage.FailStop.{
  State, Settings, is_healthy, activate, drop_active, complete, is_fail_stopping,
  CleanupFailureReport,
}
use taskcage.Registry.Types.{SubmitExecutionOwner, SubmitObservation, FinishedTaskPublication}
use taskcage.Registry.Methods.{Registry, Call}
use taskcage.Registry.Owner.{rollback_before_running}
use taskcage.Submit.Types.{Daemon, Readings, ExecutionFailure}
use taskcage.Submit.Completion.{
  publish_finished, release_capacity, report_running_failure, complete_active, drop_unresolved,
  resolve_active, retain_slot,
}
use taskcage.Submit.Owner.{
  finish_without_running, complete_running, finished_at_once, rolled_back, finished_after_running,
  failed_without_running, unfinished,
}

abbrev pub healthy_of : Daemon → Bool
healthy_of d = is_healthy d.fail_stop.phase

abbrev pub slot_after : Bool → TaskCapacity → TaskCapacity
slot_after true c = (drop_permit c).0
slot_after false c = (retain_for_fail_stop c).0

-- The end of an owner of the task `id`, with a permit. The execution is not completed only if
-- fail-stop is then in progress.
abbrev pub Released : String → Daemon → Daemon → Type 0
Released id d d' =
    (d'.capacity ≡ slot_after (healthy_of d') d.capacity)
    × ((healthy_of d' && not (healthy_of d)) ≡ false)
    × ((d'.fail_stop.active ≡ Map.remove id d.fail_stop.active)
        ⊎ ((healthy_of d' ≡ false) × (d'.fail_stop.active ≡ d.fail_stop.active)))

pub activate_stops :
    (settings : Settings) (now : ℕ) (report : CleanupFailureReport) (s : State)
    → (is_healthy (activate settings now report s).0.phase ≡ false)
      × ((activate settings now report s).0.active ≡ s.active)
unfolding activate
activate_stops settings now report s = ground arith

pub drop_active_stops :
    (settings : Settings) (now : ℕ) (id : String) (s : State)
    → (is_healthy (drop_active settings now id s).phase ≡ false)
      × ((drop_active settings now id s).active ≡ s.active)
unfolding drop_active
drop_active_stops settings now id s = activate_stops settings now _ s

-- A permit that is released after the execution was completed.
release_Released :
    (id : String) (d d0 : Daemon)
    → d0.capacity ≡ d.capacity
    → d0.fail_stop ≡ complete id d.fail_stop
    → Released id d (release_capacity d0)
unfolding release_capacity complete drop_permit retain_for_fail_stop is_fail_stopping
release_Released id d d0 c f = elim (Bool-cases (healthy_of d)) [
  | inl h ↦ (ground (arith, c, f, h), ground (arith, f, h), inl (ground (arith, f, h)))
  | inr h ↦ (ground (arith, c, f, h), ground (arith, f, h), inl (ground (arith, f, h)))
]

-- A permit that is retained, with fail-stop in progress.
pub retained_Released :
    (id : String) (d d' : Daemon)
    → d'.capacity ≡ (retain_for_fail_stop d.capacity).0
    → healthy_of d' ≡ false
    → (d'.fail_stop.active ≡ Map.remove id d.fail_stop.active)
      ⊎ (d'.fail_stop.active ≡ d.fail_stop.active)
    → Released id d d'
unfolding drop_permit retain_for_fail_stop
retained_Released id d d' c h (inl removed) = (ground (arith, c, h), ground (arith, h), inl removed)
retained_Released id d d' c h (inr kept) = (ground (arith, c, h), ground (arith, h), inr (h, kept))

-- The execution is dropped, which begins fail-stop.
unfinished-Released :
    (settings : Settings) (at : Readings) (o : SubmitExecutionOwner) (d : Daemon)
    (registry : Registry)
    → Released o.task_id d (unfinished settings at o (record d { registry = registry }))
unfinished-Released settings at o d registry =
    let stops = drop_active_stops settings at.activated o.task_id d.fail_stop in
    retained_Released o.task_id d (unfinished settings at o (record d { registry = registry })) refl
      stops.0 (inr stops.1)

publish_finished-Released :
    (id : String) (p : FinishedTaskPublication) (d : Daemon) (registry : Registry)
    → Released id d (publish_finished id p (record d { registry = registry })).0
unfolding publish_finished
publish_finished-Released id p d registry =
    release_Released id d (complete_active id (record d { registry = registry })) refl refl

-- What a failure says of fail-stop: one without reusable capacity whose cleanup is complete is
-- returned only when fail-stop is in progress.
abbrev pub Sound : Result ExecutionFailure TaskSnapshot → Daemon → Type 0
Sound (ok payload) d = Unit {0}
Sound (err failure) d =
    ((not failure.capacity_reusable && failure.cleanup_complete) && healthy_of d) ≡ false

module _ (settings : Settings) (at : Readings) (o : SubmitExecutionOwner) where
  finished_at_once-Released :
      (d : Daemon) (call : Call FinishedTaskPublication)
      → Released o.task_id d (finished_at_once settings at o d call).0
  finished_at_once-Released d (registry, ok p) = publish_finished-Released o.task_id p d registry
  finished_at_once-Released d (registry, err e) = unfinished-Released settings at o d registry

  finished_after_running-Released :
      (d : Daemon) (call : Call FinishedTaskPublication)
      → Released o.task_id d (finished_after_running settings at o d call)
  finished_after_running-Released d (registry, ok p) =
      publish_finished-Released o.task_id p d registry
  finished_after_running-Released d (registry, err e) = unfinished-Released settings at o d registry

  rolled_back-Released :
      (d : Daemon) (call : Call SubmitObservation)
      → Released o.task_id d (rolled_back settings at o d call).0
  rolled_back-Released d (registry, ok observation) =
      release_Released o.task_id d (complete_active o.task_id (record d { registry = registry }))
        refl refl
  rolled_back-Released d (registry, err e) = unfinished-Released settings at o d registry

  -- An execution that failed, its permit retained: it is dropped if its cleanup was not complete, and
  -- else fail-stop is in progress already.
  resolved_Released :
      (cleanup_complete : Bool) (d d0 : Daemon)
      → d0.capacity ≡ (retain_for_fail_stop d.capacity).0
      → d0.fail_stop.active ≡ d.fail_stop.active
      → (cleanup_complete && healthy_of d0) ≡ false
      → Released o.task_id d (resolve_active cleanup_complete settings at.activated o.task_id d0)
  unfolding complete
  resolved_Released true d d0 c a h =
      retained_Released o.task_id d (complete_active o.task_id d0) c h
        (inl (ap (Map.remove o.task_id) a))
  resolved_Released false d d0 c a h =
      let stops = drop_active_stops settings at.activated o.task_id d0.fail_stop in
      retained_Released o.task_id d (drop_unresolved settings at.activated o.task_id d0) c stops.0
        (inr (stops.1 ∙ a))

  failed_without_running-Released :
      (failure : ExecutionFailure) (d : Daemon) (reusable : Bool)
      → ((not reusable && failure.cleanup_complete) && healthy_of d) ≡ false
      → Released o.task_id d (failed_without_running settings at o failure d reusable).0
  failed_without_running-Released failure d true h =
      rolled_back-Released d (rollback_before_running at.changed o failure.submit d.registry)
  failed_without_running-Released failure d false h =
      resolved_Released failure.cleanup_complete d _ refl refl h

  pub finish_without_running-Released :
      (completion : Result ExecutionFailure TaskSnapshot) (d : Daemon)
      → Sound completion d
      → Released o.task_id d (finish_without_running settings at o completion d).0
  unfolding finish_without_running
  finish_without_running-Released (ok payload) d h = finished_at_once-Released d _
  finish_without_running-Released (err failure) d h =
      failed_without_running-Released failure d failure.capacity_reusable h

  -- The permit is retained after that.
  retain_resolved_Released :
      (cleanup_complete : Bool) (d d0 : Daemon)
      → d0.capacity ≡ d.capacity
      → d0.fail_stop.active ≡ d.fail_stop.active
      → healthy_of d0 ≡ false
      → Released o.task_id d
          (retain_slot (resolve_active cleanup_complete settings at.activated o.task_id d0))
  unfolding complete
  retain_resolved_Released true d d0 c a h =
      retained_Released o.task_id d (retain_slot (complete_active o.task_id d0))
        (ap (λ z. (retain_for_fail_stop z).0) c) h (inl (ap (Map.remove o.task_id) a))
  retain_resolved_Released false d d0 c a h =
      let stops = drop_active_stops settings at.activated o.task_id d0.fail_stop in
      retained_Released o.task_id d
        (retain_slot (drop_unresolved settings at.activated o.task_id d0))
        (ap (λ z. (retain_for_fail_stop z).0) c) stops.0 (inr (stops.1 ∙ a))

  pub complete_running-Released :
      (completion : Result ExecutionFailure TaskSnapshot) (d : Daemon)
      → Released o.task_id d (complete_running settings at o completion d)
  unfolding complete_running report_running_failure
  complete_running-Released (ok payload) d = finished_after_running-Released d _
  complete_running-Released (err failure) d =
      let stops = activate_stops settings at.activated _ d.fail_stop in
      retain_resolved_Released failure.cleanup_complete d _ refl stops.1 stops.0
