-- ===== src/Submit/Leaks.antt =====
-- What the accounting gives at the end of any history of the daemon.
use taskcage.Prelude.{
  ℕ, ◌+◌, ◌^◌, ◌≤◌, ◌<◌, String, ◌≡◌, refl, ap, ◌∙◌, true, List, [], ◌∷◌, arith, length,
}
use taskcage.Prelude.Map
use taskcage.Capacity.{is_idle}
use taskcage.FailStop.{Settings, StartState, active_count}
use taskcage.Submit.Live.{healthy_of}
use taskcage.Submit.Effects.{present}
use taskcage.Submit.History.{Action, run, start}
use taskcage.Submit.Counts.{wanted, holders, count}
use taskcage.Submit.Accounting.{Accounted}
use taskcage.Submit.Slots.{run-Accounted}

pub start-Accounted :
    (maximum max_tasks : ℕ) → maximum < 2 ^ 32 → Accounted maximum (start maximum max_tasks)
unfolding start Map.lookup
start-Accounted maximum max_tasks h = record {
  maximum_same = refl;
  maximum_u32 = h;
  in_use_exact = refl;
  in_use_bounded = omega arith;
  nothing_retained = λ e. (refl, refl);
  registered = λ id. omega arith;
  registered_exact = λ id e. refl;
}

-- After any history of a daemon that started with fewer than 2^32 slots, the slots in use are those of
-- the owners that have one and the retained ones, and are at most the maximum; and as long as fail-stop
-- is not in progress no slot is retained, every owner that runs has one, and a task's execution is
-- active exactly if one owner runs that task or is admitted for it, which at most one is.
pub slots_accounted :
    (settings : Settings) (maximum max_tasks : ℕ) (actions : List Action)
    → maximum < 2 ^ 32
    → let w = run settings (start maximum max_tasks) actions in
      let c = w.daemon.capacity in
      (c.in_use ≡ holders w.live + c.retained_for_fail_stop)
      × (c.in_use ≤ maximum)
      × (healthy_of w.daemon ≡ true
          → (c.retained_for_fail_stop ≡ 0)
            × (c.in_use ≡ length w.live)
            × ((id : String)
                → wanted id w.admitted + count id w.live ≡ present id w.daemon.fail_stop.active))
slots_accounted settings maximum max_tasks actions h =
    let v =
      run-Accounted settings maximum (start maximum max_tasks) actions
        (start-Accounted maximum max_tasks h) in
    (
      v.in_use_exact,
      v.in_use_bounded,
      λ e.
          let (none_kept, all) = v.nothing_retained e in
          (none_kept, omega (arith, none_kept, all, v.in_use_exact), λ id. v.registered_exact id e),
    )

none_present : (m : Map.Map StartState) → ((id : String) → present id m ≡ 0) → length m ≡ 0
unfolding Map.lookup
none_present [] h = refl
none_present ((k, v) ∷ m) h = absurd (ground (arith, h k))

-- After any such history in which every owner has ended, none is left admitted and fail-stop has not
-- begun, the slots are idle and no execution is active: nothing was leaked on any path.
pub nothing_left_behind :
    (settings : Settings) (maximum max_tasks : ℕ) (actions : List Action)
    → maximum < 2 ^ 32
    → let w = run settings (start maximum max_tasks) actions in
      healthy_of w.daemon ≡ true
      → w.admitted ≡ []
      → w.live ≡ []
      → (is_idle w.daemon.capacity ≡ true) × (active_count w.daemon.fail_stop ≡ 0)
unfolding is_idle active_count
nothing_left_behind settings maximum max_tasks actions h e left gone =
    let w = run settings (start maximum max_tasks) actions in
    let (_, _, rest) = slots_accounted settings maximum max_tasks actions h in
    let (_, used, exact) = rest e in
    let free : w.daemon.capacity.in_use ≡ 0 = used ∙ ap length gone in
    (
      ground (arith, free),
      none_present w.daemon.fail_stop.active
          (λ id. omega (arith, exact id, ap (wanted id) left, ap (count id) gone)),
    )
