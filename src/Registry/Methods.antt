-- ===== src/Registry/Methods.antt =====
-- The methods of `TaskRegistry`, each with the clock's reading at its purge. `poisoned` says whether
-- the registry's mutex is poisoned. The cells that callers share with the registry are functions on
-- their addresses: what a submit signal has published, the latch of a cancellation and its result.
-- The notifications that only wake waiters are left out: a waiter reads the cell again.
use taskcage.Prelude.{
  ℕ, suc, String, ite, Bool, false, Option, none, some, ℕ_discrete, if◌then◌else◌, Result, ok, err,
  ◌>>=◌, ok_or,
}
use taskcage.Prelude.Map
use taskcage.Core.Task.{TaskSnapshot, TaskState, task_id as id_of, state as state_of}
use taskcage.Lifecycle.Latch.{observe, cancelled}
use taskcage.Registry.Types.{
  ValidatedSubmit, client_request_id, SubmissionIdentity-discrete, RegistryError, RegistryState,
  running_snapshot_required, finished_snapshot_required, state_unavailable,
  verified_effective_limits_required, idempotency_conflict, task_not_found, task_already_finished,
  VerifiedEffectiveLimits, TaskRecord, RequestRecord, SubmitExecutionOwner, SubmitReservation,
  SubmitWaiter, FinishedTaskPublication, SubmitObservation,
}
use taskcage.Registry.State.{
  empty, Answer, purge_expired, verify_task_id, verify_owner, reserve, insert_running,
  insert_finished, release,
}

pub record Registry : Type 0 where
  pub poisoned : Bool
  pub state : RegistryState
  pub next_signal : ℕ
  pub published : ℕ → Option SubmitObservation
  pub latch : ℕ → ℕ
  pub completed : ℕ → Option TaskSnapshot

abbrev pub Call : Type 0 → Type 0
Call A = Registry × Result RegistryError A

abbrev pub store : {A : Type 0} → Registry → Answer A → Call A
store r (s, answer) = (record r { state = s }, answer)

-- `lock_state` and `purge_expired`, then the method under the lock.
abbrev pub with_lock : {A : Type 0} → ℕ → Registry → (RegistryState → Answer A) → Call A
with_lock now r f =
    if r.poisoned then (r, err state_unavailable) else store r (f (purge_expired now r.state))

-- A method that only reads.
abbrev pub reading :
    {A : Type 0} → (RegistryState → Result RegistryError A) → RegistryState → Answer A
reading f s = (s, f s)

abbrev pub if_owner :
    {A : Type 0}
    → (RegistryState → Answer A)
    → RegistryState
    → Result RegistryError (Unit {0})
    → Answer A
if_owner f s (ok _) = f s
if_owner f s (err e) = (s, err e)

-- A method of an owner.
abbrev pub owned :
    {A : Type 0} → SubmitExecutionOwner → (RegistryState → Answer A) → RegistryState → Answer A
owned o f s = if_owner f s (verify_owner o s)

abbrev pub set {ℓ} : {A : Type ℓ} → ℕ → A → (ℕ → A) → ℕ → A
set address value cells other = ite (ℕ_discrete address other) value (cells other)

-- `SubmitSignal::publish`.
abbrev pub publish : ℕ → SubmitObservation → Registry → Registry
publish signal observation r = record r { published = set signal (some observation) r.published }

-- The address of the fresh signal is used only when the reservation is a new one.
unfoldable pub reserve_submit_with :
    ℕ → ValidatedSubmit → String → Registry → Call SubmitReservation
unfolding reserve
reserve_submit_with now request candidate r =
    let (r', answer) = with_lock now r (reserve request candidate r.next_signal) in
    (record r' { next_signal = suc r'.next_signal }, answer)

abbrev waiter_of :
    ValidatedSubmit → Option RequestRecord → Result RegistryError (Option SubmitWaiter)
waiter_of request none = ok none
waiter_of request (some found) =
    ite (SubmissionIdentity-discrete found.identity request.identity)
      (ok (some (record { task_id = found.task_id; signal = found.reservation })))
      (err (idempotency_conflict (client_request_id request)))

unfoldable pub existing_submit : ℕ → ValidatedSubmit → Registry → Call (Option SubmitWaiter)
existing_submit now request r =
    with_lock now r
      (reading λ s. waiter_of request (Map.lookup (client_request_id request) s.requests))

abbrev snapshot_of : Option TaskRecord → Option TaskSnapshot
snapshot_of none = none
snapshot_of (some found) = some found.snapshot

unfoldable pub snapshot : ℕ → String → Registry → Call (Option TaskSnapshot)
snapshot now id r = with_lock now r (reading λ s. ok (snapshot_of (Map.lookup id s.tasks)))

abbrev snapshot_of_request : RegistryState → Option RequestRecord → Option TaskSnapshot
snapshot_of_request s none = none
snapshot_of_request s (some found) = snapshot_of (Map.lookup found.task_id s.tasks)

unfoldable pub snapshot_by_client_request_id : ℕ → String → Registry → Call (Option TaskSnapshot)
snapshot_by_client_request_id now id r =
    with_lock now r (reading λ s. ok (snapshot_of_request s (Map.lookup id s.requests)))

unfoldable pub has_client_request_id : ℕ → String → Registry → Call Bool
has_client_request_id now id r = with_lock now r (reading λ s. ok (Map.contains_key id s.requests))

abbrev limits_of :
    String → Option TaskRecord → Result RegistryError (Option VerifiedEffectiveLimits)
limits_of id none = err (verified_effective_limits_required id)
limits_of id (some found) =
    ok_or found.effective_limits (verified_effective_limits_required id) >>= λ limits.
    ok (some limits)

unfoldable pub effective_limits_for :
    ℕ → String → SubmitObservation → Registry → Call (Option VerifiedEffectiveLimits)
effective_limits_for now id (SubmitObservation.task (TaskSnapshot.running _ _ _)) r =
    with_lock now r (reading λ s. limits_of id (Map.lookup id s.tasks))
effective_limits_for now id (SubmitObservation.task (TaskSnapshot.finished _ _ _ _ _ _)) r =
    (r, ok none)
effective_limits_for now id (SubmitObservation.failed _) r = (r, ok none)

-- The cancellation whose latch observes the request.
abbrev pub cancellation_of : String → Option TaskRecord → Result RegistryError ℕ
cancellation_of id none = err (task_not_found id)
cancellation_of id (some found) = by_state (state_of found.snapshot)
  where
    by_state : TaskState → Result RegistryError ℕ
    by_state TaskState.finished = err (task_already_finished id)
    by_state TaskState.running = ok_or found.cancellation state_unavailable

abbrev pub observe_cancel : Call ℕ → Call ℕ
observe_cancel (r, err e) = (r, err e)
observe_cancel (r, ok address) =
    (record r { latch = set address (observe (r.latch address) cancelled).0 r.latch }, ok address)

-- The waiter of the answer is the address of the cancellation.
unfoldable pub request_cancel : ℕ → String → Registry → Call ℕ
unfolding observe
request_cancel now id r =
    observe_cancel (with_lock now r (reading λ s. cancellation_of id (Map.lookup id s.tasks)))

abbrev pub published_running :
    SubmitExecutionOwner → TaskSnapshot → Call (Unit {0}) → Call TaskSnapshot
published_running o taken (r, err e) = (r, err e)
published_running o taken (r, ok _) = (publish o.signal (SubmitObservation.task taken) r, ok taken)

abbrev pub checked : {A : Type 0} → Registry → Call A → Result RegistryError (Unit {0}) → Call A
checked r call (ok _) = call
checked r call (err e) = (r, err e)

-- A method that first asks for a snapshot with the owner's task id.
abbrev if_matching : {A : Type 0} → SubmitExecutionOwner → TaskSnapshot → Registry → Call A → Call A
if_matching o taken r call = checked r call (verify_task_id o.task_id (id_of taken))

unfoldable pub publish_running :
    ℕ
    → SubmitExecutionOwner
    → TaskSnapshot
    → VerifiedEffectiveLimits
    → ℕ
    → Registry
    → Call TaskSnapshot
unfolding verify_task_id verify_owner insert_running
publish_running now o taken limits cancellation r = elim (state_of taken) [
  | TaskState.finished ↦ (r, err running_snapshot_required)
  | TaskState.running ↦ if_matching o taken r (
      published_running o taken
        (with_lock now r (owned o (insert_running o taken limits cancellation))))
]

-- `finish_snapshot`; the clock is read once more for the time of completion.
unfoldable pub finish_snapshot :
    ℕ → ℕ → SubmitExecutionOwner → TaskSnapshot → Registry → Call FinishedTaskPublication
unfolding verify_task_id verify_owner insert_finished
finish_snapshot now later o taken r = elim (state_of taken) [
  | TaskState.running ↦ (r, err finished_snapshot_required)
  | TaskState.finished ↦
      if_matching o taken r (with_lock now r (owned o (insert_finished o taken later)))
]

unfoldable pub release_failed_owner :
    ℕ → SubmitExecutionOwner → Registry → Call (Option TaskSnapshot)
unfolding verify_owner release
release_failed_owner now o r = with_lock now r (owned o (release o))

abbrev pub initialize : ℕ → Registry
initialize max_tasks = record {
  poisoned = false;
  state = empty max_tasks;
  next_signal = 0;
  published = λ _. none;
  latch = λ _. 0;
  completed = λ _. none;
}
