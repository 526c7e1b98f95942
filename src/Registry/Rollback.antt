-- ===== src/Registry/Rollback.antt =====
-- A rejection before the task runs gives the reservation back.
use taskcage.Prelude.{ℕ, ◌≡◌, refl, ap, ◌∙◌, false, Option, none, some, List, arith, ok, err}
use taskcage.Prelude.Map
use taskcage.Core.Task.{TaskSnapshot}
use taskcage.Registry.Types.{
  RegistryState, RequestRecord, SubmitExecutionOwner, SubmitFailure, SubmitObservation,
}
use taskcage.Registry.State.{purge_expired, verify_owner, release}
use taskcage.Registry.Methods.{initialize, Registry, Call as Outcome, release_failed_owner}
use taskcage.Registry.Owner.{rollback_before_running, rolled_back}
use taskcage.Registry.Invariant.{Inv}
use taskcage.Registry.History.{Call, run}
use taskcage.Registry.Retention.{registry_consistent}
use taskcage.Registry.Purge.{purge_expired-kept}

-- The owner's reservation stands, and its task has not run.
abbrev pub reservation_of : SubmitExecutionOwner → RequestRecord
reservation_of o = record {
  task_id = o.task_id;
  identity = o.request.identity;
  reservation = o.signal;
}

abbrev pub Stands : SubmitExecutionOwner → RegistryState → Type 0
Stands o s =
    (Map.lookup o.client_request_id s.requests ≡ some (reservation_of o))
    × (Map.lookup o.task_id s.tasks ≡ none)

-- It survives a purge, whatever its reading.
purge_expired-Stands :
    (later : ℕ) (o : SubmitExecutionOwner) (s : RegistryState)
    → Inv s
    → Stands o s
    → Stands o (purge_expired later s)
purge_expired-Stands later o s i (here, no_task) =
    let (kept, same) =
      purge_expired-kept later s o.client_request_id (reservation_of o) i here
        (λ r at p _. absurd (ground (arith, no_task, p))) in
    (kept, same ∙ no_task)

-- Everything that a rollback does once its release succeeded.
RolledBack : SubmitExecutionOwner → SubmitFailure → Outcome SubmitObservation → Type 0
RolledBack o failure (s, answer) =
    (answer ≡ ok (SubmitObservation.failed failure))
    × (s.published o.signal ≡ some (SubmitObservation.failed failure))
    × (Map.lookup o.client_request_id s.state.requests ≡ none)
    × (Map.lookup o.task_id s.state.task_requests ≡ none)

rolled_back-released :
    (o : SubmitExecutionOwner) (failure : SubmitFailure) (x : Outcome (Option TaskSnapshot))
    → x.1 ≡ ok none
    → Map.lookup o.client_request_id x.0.state.requests ≡ none
    → Map.lookup o.task_id x.0.state.task_requests ≡ none
    → RolledBack o failure (rolled_back o failure x)
unfolding RolledBack
rolled_back-released o failure (s, ok none) p a b = (refl, ground arith, a, b)
rolled_back-released o failure (s, ok (some _)) p a b = absurd (ground arith)
rolled_back-released o failure (s, err e) p a b = absurd (ground arith)

release_failed_owner-owned :
    (later : ℕ) (o : SubmitExecutionOwner) (x : Registry)
    → x.poisoned ≡ false
    → verify_owner o (purge_expired later x.state) ≡ ok tt
    → ((release_failed_owner later o x).1 ≡ (release o (purge_expired later x.state)).1)
      × ((release_failed_owner later o x).0.state ≡ (release o (purge_expired later x.state)).0)
unfolding release_failed_owner
release_failed_owner-owned later o x sound v = rw (sound, v) (refl, refl)

-- What a rollback needs of the state and its owner.
abbrev Releasable : ℕ → SubmitExecutionOwner → RegistryState → Type 0
Releasable later o s =
    (verify_owner o (purge_expired later s) ≡ ok tt)
    × ((release o (purge_expired later s)).1 ≡ ok none)
    × (Map.lookup o.client_request_id (release o (purge_expired later s)).0.requests ≡ none)
    × (Map.lookup o.task_id (release o (purge_expired later s)).0.task_requests ≡ none)

Stands-Releasable :
    (later : ℕ) (o : SubmitExecutionOwner) (s : RegistryState)
    → Inv s
    → Stands o s
    → Releasable later o s
unfolding release verify_owner
Stands-Releasable later o s i stands =
    let (here, no_task) = purge_expired-Stands later o s i stands in
    let s' = purge_expired later s in
    (
      ground (arith, here),
      rw no_task refl,
      rw no_task
          (ground (arith, Map.lookup-remove o.client_request_id o.client_request_id s'.requests)),
      rw no_task (ground (arith, Map.lookup-remove o.task_id o.task_id s'.task_requests)),
    )

rollback_before_running-Releasable :
    (later : ℕ) (o : SubmitExecutionOwner) (failure : SubmitFailure) (x : Registry)
    → x.poisoned ≡ false
    → Releasable later o x.state
    → RolledBack o failure (rollback_before_running later o failure x)
unfolding rollback_before_running
rollback_before_running-Releasable later o failure x sound (v, gave, a, b) =
    let (answer, state) = release_failed_owner-owned later o x sound v in
    rolled_back-released o failure (release_failed_owner later o x) (answer ∙ gave)
      (ap (λ s. Map.lookup o.client_request_id s.requests) state ∙ a)
      (ap (λ s. Map.lookup o.task_id s.task_requests) state ∙ b)

-- If the reservation of an owner stands after a history of a new registry whose lock is not poisoned,
-- and its task has not run, then a rollback by the owner, whatever the clock reading, returns the
-- failure, those who wait on the reservation's signal observe it, and neither the request's id nor the
-- task's id is reserved any more.
pub rollback_frees :
    (max_tasks : ℕ) (calls : List Call) (later : ℕ) (o : SubmitExecutionOwner)
    (failure : SubmitFailure)
    → let r = run (initialize max_tasks) calls in
      r.poisoned ≡ false
      → Map.lookup o.client_request_id r.state.requests ≡ some (reservation_of o)
      → Map.lookup o.task_id r.state.tasks ≡ none
      → let (s, answer) = rollback_before_running later o failure r in
        (answer ≡ ok (SubmitObservation.failed failure))
        × (s.published o.signal ≡ some (SubmitObservation.failed failure))
        × (Map.lookup o.client_request_id s.state.requests ≡ none)
        × (Map.lookup o.task_id s.state.task_requests ≡ none)
unfolding RolledBack
rollback_frees max_tasks calls later o failure sound here no_task =
    let r = run (initialize max_tasks) calls in
    rollback_before_running-Releasable later o failure r sound
      (Stands-Releasable later o r.state (registry_consistent max_tasks calls).0 (here, no_task))
