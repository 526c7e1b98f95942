-- ===== src/Registry/State.antt =====
-- What the methods do to the state under the lock.
use taskcage.Prelude.{
  ℕ, ◌-◌, String, ite, Bool, true, false, ◌&&◌, Option, none, some, List, [], ◌∷◌, ◌++◌, ℕ_discrete,
  String_discrete, ltb, leb, if◌then◌else◌, length, Result, ok, err, ◌>>=◌, ok_or,
}
use taskcage.Prelude.Map
use taskcage.Core.Task.{TaskSnapshot}
use taskcage.Registry.Types.{
  ValidatedSubmit, client_request_id, SubmissionIdentity-discrete, RegistryError, RegistryState,
  capacity_exhausted, task_already_exists, idempotency_conflict, task_not_found,
  task_already_finished, task_id_mismatch, VerifiedEffectiveLimits, TaskRecord, RequestRecord,
  FinishedExpiration, SubmitExecutionOwner, SubmitReservation, owner, existing,
  FinishedTaskPublication,
}

-- `TaskRegistry::with_clock_and_settings`.
abbrev pub empty : ℕ → RegistryState
empty max_tasks = record {
  max_tasks = max_tasks;
  tasks = [];
  requests = [];
  task_requests = [];
  finished_expirations = [];
}

-- Ten minutes.
abbrev pub min_finished_retention : ℕ
min_finished_retention = 600_000_000_000

-- `checked_duration_since` gives no duration before the entry's own time.
unfoldable pub is_expired : ℕ → FinishedExpiration → Bool
is_expired now entry =
    leb entry.finished_monotonic now && ltb min_finished_retention (now - entry.finished_monotonic)

abbrev remove_request : Option String → RegistryState → RegistryState
remove_request none s = s
remove_request (some client_request_id) s = record s {
  requests = Map.remove client_request_id s.requests;
}

-- Without the task the two indexes stay, as the `continue` of the loop leaves them.
abbrev drop_known : FinishedExpiration → RegistryState → Option TaskRecord → RegistryState
drop_known entry s none = s
drop_known entry s (some _) = remove_request (Map.lookup entry.task_id s.task_requests) (record s {
  tasks = Map.remove entry.task_id s.tasks;
  task_requests = Map.remove entry.task_id s.task_requests;
})

-- What the loop does to the maps for one expired entry.
unfoldable pub drop_expired : FinishedExpiration → RegistryState → RegistryState
drop_expired entry s = drop_known entry s (Map.lookup entry.task_id s.tasks)

-- The loop; the list is what is left of the queue.
unfoldable pub purge_loop : ℕ → List FinishedExpiration → RegistryState → RegistryState
purge_loop now [] s = record s { finished_expirations = [] }
purge_loop now (entry ∷ rest) s = elim (is_expired now entry) [
  | true ↦ purge_loop now rest (drop_expired entry s)
  | false ↦ record s { finished_expirations = entry ∷ rest }
]

unfoldable pub purge_expired : ℕ → RegistryState → RegistryState
unfolding purge_loop
purge_expired now s = purge_loop now s.finished_expirations s

unfoldable pub verify_task_id : String → String → Result RegistryError (Unit {0})
unfolding String_discrete
verify_task_id expected actual =
    ite (String_discrete expected actual) (ok tt) (err (task_id_mismatch expected actual))

abbrev is_request_of : SubmitExecutionOwner → RequestRecord → Result RegistryError (Unit {0})
is_request_of o request =
    ite (String_discrete request.task_id o.task_id)
      (ite (ℕ_discrete request.reservation o.signal) (ok tt) (err (task_not_found o.task_id)))
      (err (task_not_found o.task_id))

unfoldable pub verify_owner : SubmitExecutionOwner → RegistryState → Result RegistryError (Unit {0})
unfolding String_discrete ℕ_discrete
verify_owner o s =
    ok_or (Map.lookup o.client_request_id s.requests) (task_not_found o.task_id) >>= is_request_of o

-- The new reservation of `reserve_submit_with`, with the address of its fresh signal.
abbrev pub inserted : ValidatedSubmit → String → ℕ → RegistryState → RegistryState
inserted request candidate signal s = record s {
  requests =
      Map.insert (client_request_id request)
        (record { task_id = candidate; identity = request.identity; reservation = signal })
        s.requests;
  task_requests = Map.insert candidate (client_request_id request) s.task_requests;
}

abbrev pub Answer : Type 0 → Type 0
Answer A = RegistryState × Result RegistryError A

abbrev reserve_existing : ValidatedSubmit → RequestRecord → RegistryState → Answer SubmitReservation
reserve_existing request found s =
    ite (SubmissionIdentity-discrete found.identity request.identity)
      (s, ok (existing (record { task_id = found.task_id; signal = found.reservation })))
      (s, err (idempotency_conflict (client_request_id request)))

abbrev reserve_new : ValidatedSubmit → String → ℕ → RegistryState → Answer SubmitReservation
reserve_new request candidate signal s =
    if leb s.max_tasks (length s.requests)
    then (s, err capacity_exhausted)
    else if Map.contains_key candidate s.task_requests
    then (s, err (task_already_exists candidate))
    else (
      inserted request candidate signal s,
      ok (
          owner (record {
            client_request_id = client_request_id request;
            task_id = candidate;
            request = request;
            signal = signal;
          })),
    )

abbrev reserve_found :
    ValidatedSubmit → String → ℕ → RegistryState → Option RequestRecord → Answer SubmitReservation
reserve_found request candidate signal s (some found) = reserve_existing request found s
reserve_found request candidate signal s none = reserve_new request candidate signal s

unfoldable pub reserve : ValidatedSubmit → String → ℕ → RegistryState → Answer SubmitReservation
reserve request candidate signal s =
    reserve_found request candidate signal s (Map.lookup (client_request_id request) s.requests)

-- `publish_running` under the lock.
unfoldable pub insert_running :
    SubmitExecutionOwner
    → TaskSnapshot
    → VerifiedEffectiveLimits
    → ℕ
    → RegistryState
    → Answer (Unit {0})
insert_running o snapshot effective_limits cancellation s =
    if Map.contains_key o.task_id s.tasks then (s, err (task_already_exists o.task_id)) else (
      record s {
        tasks =
            Map.insert o.task_id
              (record {
                snapshot = snapshot;
                effective_limits = some effective_limits;
                finished_monotonic = none;
                cancellation = some cancellation;
              })
              s.tasks;
      },
      ok tt,
    )

-- The FINISHED record of a task, in place of its RUNNING one, and its expiration.
abbrev pub finished_state :
    SubmitExecutionOwner
    → TaskSnapshot
    → ℕ
    → Option VerifiedEffectiveLimits
    → RegistryState
    → RegistryState
finished_state o snapshot now limits s = record s {
  tasks =
      Map.insert o.task_id
        (record {
          snapshot = snapshot;
          effective_limits = limits;
          finished_monotonic = some now;
          cancellation = none;
        })
        s.tasks;
  finished_expirations =
      s.finished_expirations ++ (record { task_id = o.task_id; finished_monotonic = now } ∷ []);
}

abbrev publication : SubmitExecutionOwner → TaskSnapshot → Option ℕ → FinishedTaskPublication
publication o snapshot cancellation = record {
  snapshot = snapshot;
  cancellation = cancellation;
  submit_signal = o.signal;
}

abbrev finish_unfinished :
    SubmitExecutionOwner
    → TaskSnapshot
    → ℕ
    → TaskRecord
    → RegistryState
    → Option ℕ
    → Answer FinishedTaskPublication
finish_unfinished o snapshot now found s (some _) = (s, err (task_already_finished o.task_id))
finish_unfinished o snapshot now found s none = (
  finished_state o snapshot now found.effective_limits s,
  ok (publication o snapshot found.cancellation),
)

abbrev finish_found :
    SubmitExecutionOwner
    → TaskSnapshot
    → ℕ
    → RegistryState
    → Option TaskRecord
    → Answer FinishedTaskPublication
finish_found o snapshot now s (some found) =
    finish_unfinished o snapshot now found s found.finished_monotonic
finish_found o snapshot now s none =
    (finished_state o snapshot now none s, ok (publication o snapshot none))

-- `finish_snapshot` under the lock, at the clock's second reading.
unfoldable pub insert_finished :
    SubmitExecutionOwner → TaskSnapshot → ℕ → RegistryState → Answer FinishedTaskPublication
insert_finished o snapshot now s = finish_found o snapshot now s (Map.lookup o.task_id s.tasks)

abbrev release_found :
    SubmitExecutionOwner → RegistryState → Option TaskRecord → Answer (Option TaskSnapshot)
release_found o s (some found) = (s, ok (some found.snapshot))
release_found o s none = (
  record s {
    requests = Map.remove o.client_request_id s.requests;
    task_requests = Map.remove o.task_id s.task_requests;
  },
  ok none,
)

-- `release_failed_owner` under the lock.
unfoldable pub release : SubmitExecutionOwner → RegistryState → Answer (Option TaskSnapshot)
release o s = release_found o s (Map.lookup o.task_id s.tasks)
