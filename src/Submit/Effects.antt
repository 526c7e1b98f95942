-- ===== src/Submit/Effects.antt =====
-- What the other stretches of code do to the slots and to fail-stop: the beginning of a submission, the
-- publication of RUNNING, and the end of an execution.
use taskcage.Prelude.{
  ℕ, ◌+◌, ◌≤◌, ◌<◌, String, ◌≡◌, refl, ap, ◌∙◌, ◌⊎◌, inl, inr, ite, true, false, ◌&&◌, not, Option,
  none, some, arith, String_discrete, ltb, if◌then◌else◌, Bool-cases, Option-cases, ok, err,
}
use taskcage.Prelude.Map
use taskcage.Capacity.{TaskCapacity}
use taskcage.FailStop.{Settings, StartState, pending, complete, register, is_fail_stopping}
use taskcage.Registry.Types.{
  SubmitExecutionOwner, SubmitObservation, ValidatedSubmit, SubmitReservation, owner, existing,
  SubmitWaiter,
}
use taskcage.Registry.Methods.{Registry, Call, existing_submit, reserve_submit_with}
use taskcage.Registry.Owner.{rollback_before_running, drop_owner}
use taskcage.Submit.Types.{Daemon, Readings, Begun, answered, waits, spawned}
use taskcage.Submit.Completion.{try_acquire}
use taskcage.Submit.Live.{healthy_of, drop_active_stops}
use taskcage.Submit.Coordinate.{
  Admission, refuses, joins, admitted, begin, admit, claim, claimed, exhausted, rollback_outcome,
  with_active, reserved, looked_up,
}

abbrev pub present : String → Map.Map StartState → ℕ
present id m = if Map.contains_key id m then 1 else 0

-- No slot is taken or freed, and fail-stop has not ended. An execution may be registered and dropped
-- only if fail-stop is then in progress.
abbrev pub Quiet : Daemon → Daemon → Type 0
Quiet d d' =
    (d'.capacity ≡ d.capacity)
    × ((healthy_of d' && not (healthy_of d)) ≡ false)
    × ((id : String) → present id d.fail_stop.active ≤ present id d'.fail_stop.active)
    × ((id : String)
        → healthy_of d' ≡ true
        → present id d'.fail_stop.active ≡ present id d.fail_stop.active)

-- A slot is taken, and the execution registered, while fail-stop is not in progress.
abbrev pub Started : SubmitExecutionOwner → Daemon → Daemon → Type 0
Started o d d' =
    (healthy_of d ≡ true)
    × (d.capacity.in_use < d.capacity.maximum)
    × (d'.capacity ≡ record d.capacity { in_use = d.capacity.in_use + 1 })
    × (d'.fail_stop.phase ≡ d.fail_stop.phase)
    × (Map.lookup o.task_id d.fail_stop.active ≡ none)
    × (d'.fail_stop.active ≡ Map.insert o.task_id pending d.fail_stop.active)

-- An execution is registered, while fail-stop is not in progress.
abbrev pub Registered : SubmitExecutionOwner → Daemon → Daemon → Type 0
Registered o d d' =
    (healthy_of d ≡ true)
    × (d'.capacity ≡ d.capacity)
    × (d'.fail_stop.phase ≡ d.fail_stop.phase)
    × (Map.lookup o.task_id d.fail_stop.active ≡ none)
    × (d'.fail_stop.active ≡ Map.insert o.task_id pending d.fail_stop.active)

abbrev pub Entered : Daemon → Daemon × Admission → Type 0
Entered d (d', refuses _) = Quiet d d'
Entered d (d', joins _) = Quiet d d'
Entered d (d', admitted o) = Registered o d d'

-- The owner of a registered execution is rolled back: the execution is not completed only if fail-stop
-- is then in progress.
abbrev pub Withdrawn : SubmitExecutionOwner → Daemon → Daemon → Type 0
Withdrawn o d d' =
    (d'.capacity ≡ d.capacity)
    × ((healthy_of d' && not (healthy_of d)) ≡ false)
    × ((d'.fail_stop.active ≡ Map.remove o.task_id d.fail_stop.active)
        ⊎ ((healthy_of d' ≡ false) × (d'.fail_stop.active ≡ d.fail_stop.active)))

-- It gets a slot, or is withdrawn.
abbrev pub Claimed : SubmitExecutionOwner → Daemon → Daemon × Begun → Type 0
Claimed o d (d', answered _) = Withdrawn o d d'
Claimed o d (d', waits _) = ⊥
Claimed o d (d', spawned o' _) =
    (o' ≡ o)
    × (d.capacity.in_use < d.capacity.maximum)
    × (d'.capacity ≡ record d.capacity { in_use = d.capacity.in_use + 1 })
    × (d'.fail_stop ≡ d.fail_stop)

abbrev pub Began : Daemon → Daemon × Begun → Type 0
Began d (d', answered _) = Quiet d d'
Began d (d', waits _) = Quiet d d'
Began d (d', spawned o _) = Started o d d'

-- An uninterrupted `try_acquire` takes a slot exactly when one is free.
pub try_acquire_lem :
    (c : TaskCapacity)
    → try_acquire c
      ≡ (if ltb c.in_use c.maximum then (record c { in_use = c.in_use + 1 }, true) else (c, false))
unfolding try_acquire
try_acquire_lem c = ground arith

pub Quiet-registry : (d : Daemon) (registry : Registry) → Quiet d (record d { registry = registry })
Quiet-registry d registry = (refl, ground arith, λ id. omega arith, λ id h. refl)

present-remove-insert :
    (k id : String) (v : StartState) (m : Map.Map StartState)
    → Map.lookup k m ≡ none
    → present id (Map.remove k (Map.insert k v m)) ≡ present id m
present-remove-insert k id v m h =
    ground (arith, Map.lookup-remove k id (Map.insert k v m), Map.lookup-insert k id v m)

present-insert-le :
    (k id : String) (v : StartState) (m : Map.Map StartState)
    → present id m ≤ present id (Map.insert k v m)
present-insert-le k id v m = ground (arith, Map.lookup-insert k id v m)

pub present-insert_new :
    (k id : String) (v : StartState) (m : Map.Map StartState)
    → Map.lookup k m ≡ none
    → present id (Map.insert k v m) ≡ ite (String_discrete k id) 1 0 + present id m
present-insert_new k id v m h = ground (arith, Map.lookup-insert k id v m, h)

pub present-remove :
    (k id : String) (m : Map.Map StartState)
    → (present id (Map.remove k m) ≡ ite (String_discrete k id) 0 (present id m))
      × (present id m ≤ 1)
present-remove k id m = (ground (arith, Map.lookup-remove k id m), ground arith)

module _ (settings : Settings) (at : Readings) (request_id : String) where
  rollback_outcome-Withdrawn :
      (o : SubmitExecutionOwner) (d d0 : Daemon) (call : Call SubmitObservation)
      → d0.capacity ≡ d.capacity
      → d0.fail_stop ≡ d.fail_stop
      → Claimed o d (rollback_outcome settings at request_id o d0 call)
  unfolding complete
  rollback_outcome-Withdrawn o d d0 (registry, ok observation) c f =
      (c, ground (arith, f), inl (ground (arith, f)))
  rollback_outcome-Withdrawn o d d0 (registry, err e) c f =
      let stops = drop_active_stops settings at.activated o.task_id d0.fail_stop in
      (c, ground (arith, stops.0), inr (stops.0, stops.1 ∙ ap (λ z. z.active) f))

  pub claim-Claimed :
      (o : SubmitExecutionOwner) (d : Daemon) → Claimed o d (claim settings at request_id o d)
  unfolding claim
  claim-Claimed o d = elim (Bool-cases (ltb d.capacity.in_use d.capacity.maximum)) [
    | inl free ↦ rw (try_acquire_lem d.capacity, free) (refl, ground (arith, free), refl, refl)
    | inr full ↦
        rw (try_acquire_lem d.capacity, full)
          (rollback_outcome-Withdrawn o d d
            (rollback_before_running at.released o exhausted d.registry) refl refl)
  ]

  with_active-Entered :
      (o : SubmitExecutionOwner) (d : Daemon) (registry : Registry)
      → Entered d (
          with_active at request_id o
            (record d { registry = registry })
            (register o.task_id d.fail_stop))
  unfolding register
  with_active-Entered o d registry = elim (Bool-cases (healthy_of d)) [
    | inl going ↦ elim (Option-cases (Map.lookup o.task_id d.fail_stop.active)) [
      | inl fresh ↦ rw (going, fresh) (going, refl, refl, fresh, refl)
      | inr (v, twice) ↦ rw (going, twice) (Quiet-registry d (drop_owner at.released o registry))
    ]
    | inr stopping ↦ rw stopping (Quiet-registry d registry)
  ]

  reserved-Entered :
      (d : Daemon) (registry0 : Registry) (call : Call SubmitReservation)
      → Entered d (reserved at request_id (record d { registry = registry0 }) call)
  reserved-Entered d registry0 (registry, err e) = Quiet-registry d registry
  reserved-Entered d registry0 (registry, ok (existing waiter)) = Quiet-registry d registry
  reserved-Entered d registry0 (registry, ok (owner o)) = with_active-Entered o d registry

  pub admit-Entered :
      (request : ValidatedSubmit) (candidate : String) (d : Daemon) (registry : Registry)
      → Entered d (admit at request_id request candidate (record d { registry = registry }))
  unfolding admit
  admit-Entered request candidate d registry = elim (Bool-cases (is_fail_stopping d.fail_stop)) [
    | inl stopping ↦ rw stopping (Quiet-registry d registry)
    | inr going ↦
        rw going
          (reserved-Entered d registry (reserve_submit_with at.changed request candidate registry))
  ]

  -- A registration and the claim that follows it at once.
  Claimed-Began :
      (o : SubmitExecutionOwner) (d d1 : Daemon) (b : Daemon × Begun)
      → Registered o d d1
      → Claimed o d1 b
      → Began d b
  Claimed-Began o d d1 (d2, answered _) (going, c, p, fresh, a) (c', later, inl removed) = (
    c' ∙ c,
    ground (arith, going),
    λ id.
        rw (removed, a)
          (omega (arith, present-remove-insert o.task_id id pending d.fail_stop.active fresh)),
    λ id h. rw (removed, a) (present-remove-insert o.task_id id pending d.fail_stop.active fresh),
  )
  Claimed-Began o d d1 (d2, answered _) (going, c, p, fresh, a) (c', later, inr (stopped, kept)) = (
    c' ∙ c,
    ground (arith, stopped),
    λ id. rw (kept, a) (present-insert-le o.task_id id pending d.fail_stop.active),
    λ id h. absurd (ground (arith, stopped, h)),
  )
  Claimed-Began o d d1 (d2, waits _) r never = absurd never
  Claimed-Began o d d1 (d2, spawned o' _) (going, c, p, fresh, a) (same, free, c', f) = rw same (
    going,
    ground (arith, c, free),
    ground (arith, c, c'),
    ground (arith, f, p),
    fresh,
    ap (λ z. z.active) f ∙ a,
  )

  Entered-Began :
      (d : Daemon) (x : Daemon × Admission)
      → Entered d x
      → Began d (claimed settings at request_id x)
  Entered-Began d (d1, refuses _) q = q
  Entered-Began d (d1, joins _) q = q
  Entered-Began d (d1, admitted o) r =
      Claimed-Began o d d1 (claim settings at request_id o d1) r (claim-Claimed o d1)

  looked_up-Began :
      (request : ValidatedSubmit) (candidate : String) (d : Daemon)
      (call : Call (Option SubmitWaiter))
      → Began d (looked_up settings at request_id request candidate d call)
  looked_up-Began request candidate d (registry, err e) = Quiet-registry d registry
  looked_up-Began request candidate d (registry, ok (some waiter)) = Quiet-registry d registry
  looked_up-Began request candidate d (registry, ok none) =
      Entered-Began d (admit at request_id request candidate (record d { registry = registry }))
        (admit-Entered request candidate d registry)

  pub begin-Began :
      (request : ValidatedSubmit) (candidate : String) (d : Daemon)
      → Began d (begin settings at request_id request candidate d)
  unfolding begin
  begin-Began request candidate d =
      looked_up-Began request candidate d (existing_submit at.looked_up request d.registry)
