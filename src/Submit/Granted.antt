-- ===== src/Submit/Granted.antt =====
-- When a submission gets a slot, and when it is refused one.
use taskcage.Prelude.{
  ℕ, ◌+◌, ◌^◌, ◌<◌, String, ◌≡◌, refl, sym, ◌∙◌, subst, inl, inr, true, Option, none, some, List,
  arith, dec_lt, ltb, Bool-cases, Option-cases, length, ok, err,
}
use taskcage.Prelude.Map
use taskcage.FailStop.{Settings, register, is_fail_stopping}
use taskcage.Registry.Types.{ValidatedSubmit, SubmitExecutionOwner, owner, SubmitObservation}
use taskcage.Registry.Methods.{Registry, existing_submit, reserve_submit_with}
use taskcage.Submit.Types.{Daemon, Readings, Begun, answered, waits, spawned, SubmitOutcome}
use taskcage.Submit.Coordinate.{begin, exhausted}
use taskcage.Submit.Live.{healthy_of}
use taskcage.Submit.Effects.{present, try_acquire_lem}
use taskcage.Submit.History.{Action, run, start}
use taskcage.Submit.Counts.{wanted, holders, count}
use taskcage.Submit.Slots.{run-Accounted}
use taskcage.Submit.Leaks.{start-Accounted, slots_accounted}
use taskcage.Submit.Coordinate.{
  Admission, refuses, joins, admitted, admit, claim, claimed, with_active, reserved, looked_up,
}
use taskcage.Registry.Types.{SubmitReservation, SubmitWaiter, existing}
use taskcage.Registry.Methods.{Call}

begin_spawned :
    (settings : Settings) (at : Readings) (request_id : String) (request : ValidatedSubmit)
    (candidate : String) (d : Daemon) (r1 r2 : Registry) (o : SubmitExecutionOwner)
    → existing_submit at.looked_up request d.registry ≡ (r1, ok none)
    → healthy_of d ≡ true
    → reserve_submit_with at.changed request candidate r1 ≡ (r2, ok (owner o))
    → Map.lookup o.task_id d.fail_stop.active ≡ none
    → d.capacity.in_use < d.capacity.maximum
    → (begin settings at request_id request candidate d).1 ≡ spawned o d.next_cancellation
unfolding begin admit claim is_fail_stopping register
begin_spawned settings at request_id request candidate d r1 r2 o looked e taken fresh free =
    let slot : ltb d.capacity.in_use d.capacity.maximum ≡ true = ground arith in
    rw looked (rw e (rw taken (rw (e, fresh) (rw (try_acquire_lem d.capacity, slot) refl))))

-- The answer does not say that the slots are all in use.
abbrev NotExhausted : Begun → Type 0
NotExhausted (answered (ok outcome)) = ¬ (outcome.observation ≡ SubmitObservation.failed exhausted)
NotExhausted (answered (err e)) = Unit
NotExhausted (waits waiter) = Unit
NotExhausted (spawned o cancellation) = Unit

-- Neither does an admission, and its claim gets a slot if one is free.
abbrev Unexhausted : Daemon → Daemon × Admission → Type 0
Unexhausted d (d', refuses answer) = NotExhausted (answered answer)
Unexhausted d (d', joins waiter) = Unit
Unexhausted d (d', admitted o) = d'.capacity ≡ d.capacity

module _ (settings : Settings) (at : Readings) (request_id : String) where
  with_active-Unexhausted :
      (o : SubmitExecutionOwner) (d : Daemon)
      → Unexhausted d (with_active at request_id o d (register o.task_id d.fail_stop))
  unfolding register
  with_active-Unexhausted o d = elim (Bool-cases (healthy_of d)) [
    | inl going ↦ elim (Option-cases (Map.lookup o.task_id d.fail_stop.active)) [
      | inl fresh ↦ rw (going, fresh) refl
      | inr (v, twice) ↦ rw (going, twice) tt
    ]
    | inr stopping ↦ rw stopping (λ h. cc h)
  ]

  reserved-Unexhausted :
      (d : Daemon) (call : Call SubmitReservation) → Unexhausted d (reserved at request_id d call)
  reserved-Unexhausted d (registry, err e) = tt
  reserved-Unexhausted d (registry, ok (existing waiter)) = tt
  reserved-Unexhausted d (registry, ok (owner o)) =
      with_active-Unexhausted o (record d { registry = registry })

  admit-Unexhausted :
      (request : ValidatedSubmit) (candidate : String) (d : Daemon)
      → Unexhausted d (admit at request_id request candidate d)
  unfolding admit
  admit-Unexhausted request candidate d = elim (Bool-cases (is_fail_stopping d.fail_stop)) [
    | inl stopping ↦ rw stopping (λ h. cc h)
    | inr going ↦
        rw going
          (reserved-Unexhausted d (reserve_submit_with at.changed request candidate d.registry))
  ]

  claimed-NotExhausted :
      (d : Daemon) (x : Daemon × Admission)
      → d.capacity.in_use < d.capacity.maximum
      → Unexhausted d x
      → NotExhausted (claimed settings at request_id x).1
  unfolding claim
  claimed-NotExhausted d (d', refuses answer) free u = u
  claimed-NotExhausted d (d', joins waiter) free u = tt
  claimed-NotExhausted d (d', admitted o) free same =
      let slot : ltb d'.capacity.in_use d'.capacity.maximum ≡ true = ground (arith, same) in
      rw (try_acquire_lem d'.capacity, slot) tt

  looked_up-NotExhausted :
      (request : ValidatedSubmit) (candidate : String) (d : Daemon)
      (call : Call (Option SubmitWaiter))
      → d.capacity.in_use < d.capacity.maximum
      → NotExhausted (looked_up settings at request_id request candidate d call).1
  looked_up-NotExhausted request candidate d (registry, err e) free = tt
  looked_up-NotExhausted request candidate d (registry, ok (some waiter)) free = tt
  looked_up-NotExhausted request candidate d (registry, ok none) free =
      let d1 = record d { registry = registry } in
      claimed-NotExhausted d1 (admit at request_id request candidate d1) free
        (admit-Unexhausted request candidate d1)

-- After any such history without fail-stop that leaves a slot free, a new request whose reservation
-- the registry accepts, for a task that no owner runs or is admitted for, is spawned if nobody
-- interrupts it: it is neither refused for want of a slot nor made to wait.
pub slot_granted :
    (settings : Settings) (maximum max_tasks : ℕ) (actions : List Action) (at : Readings)
    (request_id : String) (request : ValidatedSubmit) (candidate : String) (r1 r2 : Registry)
    (o : SubmitExecutionOwner)
    → maximum < 2 ^ 32
    → let w = run settings (start maximum max_tasks) actions in
      healthy_of w.daemon ≡ true
      → length w.live < maximum
      → existing_submit at.looked_up request w.daemon.registry ≡ (r1, ok none)
      → reserve_submit_with at.changed request candidate r1 ≡ (r2, ok (owner o))
      → wanted o.task_id w.admitted + count o.task_id w.live ≡ 0
      → (begin settings at request_id request candidate w.daemon).1
        ≡ spawned o w.daemon.next_cancellation
slot_granted settings maximum max_tasks actions at request_id request candidate r1 r2 o h e free
      looked reserved_by single =
    let w = run settings (start maximum max_tasks) actions in
    let v =
      run-Accounted settings maximum (start maximum max_tasks) actions
        (start-Accounted maximum max_tasks h) in
    let (_, _, rest) = slots_accounted settings maximum max_tasks actions h in
    let (_, used, exact) = rest e in
    let absent : present o.task_id w.daemon.fail_stop.active ≡ 0 = sym (exact o.task_id) ∙ single in
    elim (Option-cases (Map.lookup o.task_id w.daemon.fail_stop.active)) [
      | inl fresh ↦
          begin_spawned settings at request_id request candidate w.daemon r1 r2 o looked e
            reserved_by fresh (omega (arith, used, free, v.maximum_same))
      | inr (s, there) ↦ absurd (ground (arith, absent, there))
    ]

-- After any such history, a submission that nobody interrupts is answered that the slots are all in use
-- only if they are: the owners that have a slot and the retained slots are together the maximum.
pub exhausted_only_when_full :
    (settings : Settings) (maximum max_tasks : ℕ) (actions : List Action) (at : Readings)
    (request_id : String) (request : ValidatedSubmit) (candidate : String) (outcome : SubmitOutcome)
    → maximum < 2 ^ 32
    → let w = run settings (start maximum max_tasks) actions in
      (begin settings at request_id request candidate w.daemon).1 ≡ answered (ok outcome)
      → outcome.observation ≡ SubmitObservation.failed exhausted
      → holders w.live + w.daemon.capacity.retained_for_fail_stop ≡ maximum
unfolding begin
exhausted_only_when_full settings maximum max_tasks actions at request_id request candidate outcome
      h b e =
    let w = run settings (start maximum max_tasks) actions in
    let v =
      run-Accounted settings maximum (start maximum max_tasks) actions
        (start-Accounted maximum max_tasks h) in
    elim (dec_lt w.daemon.capacity.in_use w.daemon.capacity.maximum) [
      | yes free ↦
          let never =
            looked_up-NotExhausted settings at request_id request candidate w.daemon
              (existing_submit at.looked_up request w.daemon.registry) free in
          absurd (subst NotExhausted b never e)
      | no full ↦ omega (arith, full, v.in_use_exact, v.in_use_bounded, v.maximum_same)
    ]
