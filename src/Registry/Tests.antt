-- ===== src/Registry/Tests.antt =====
-- Runs of the registry, and the theorems at concrete histories.
use taskcage.Prelude.{
  ℕ, ◌+◌, ◌≤◌, String, ◌≡◌, refl, ite, false, none, some, List, [], ◌∷◌, ◌++◌, arith, length, ok,
  err,
}
use taskcage.Prelude.Map
use taskcage.Prelude.Int.{pos}
use taskcage.Core.Task.{TaskSnapshot, exited}
use taskcage.Registry.Types.{
  ValidatedSubmit, RequestRecord, SubmissionIdentity, SubmissionIdentity-discrete,
  SubmitExecutionOwner, SubmitFailure, SubmitObservation, FinishedTaskPublication, UseCaseErrorCode,
  existing, idempotency_conflict, capacity_exhausted,
}
use taskcage.Registry.State.{min_finished_retention, is_expired, drop_expired, purge_expired}
use taskcage.Registry.Methods.{
  Registry, initialize, reserve_submit_with, snapshot, snapshot_by_client_request_id,
}
use taskcage.Registry.Owner.{finish_inner, rollback_before_running}
use taskcage.Registry.Invariant.{Inv}
use taskcage.Registry.History.{Call, reserves, finishes, asks, run, AllReads}
use taskcage.Registry.Retention.{registry_consistent}
use taskcage.Registry.Completed.{completion_retained}
use taskcage.Registry.Rollback.{rollback_frees}

abbrev submission : String → String → ValidatedSubmit
submission id program = record {
  identity = SubmissionIdentity.raw (record {
    client_request_id = id;
    command = record {
      program = program;
      arguments = [];
      working_directory = "/";
      environment = [];
    };
    budget = record {
      resources = record {
        cpu = record { quota_micros = 50; period_micros = 100 };
        memory_max_bytes = 1;
        pids_max = 1;
        wall_time_limit_ms = 1;
      };
      output = record { stdout_tail_max_bytes = 1; stderr_tail_max_bytes = 1 };
    };
  });
}

abbrev the_owner : SubmitExecutionOwner
the_owner = record {
  client_request_id = "r1";
  task_id = "t1";
  request = submission "r1" "true";
  signal = 0;
}

abbrev result : TaskSnapshot
result =
    TaskSnapshot.finished "t1" exited (record { exit_code = some (pos 0); signal = none })
      (record { submitted_at = "a"; started_at = "b"; finished_at = "c"; wall_time_ms = 3 })
      (record { cpu_time_micros = 1; memory_peak_bytes = 2 })
      (record {
        stdout_tail = "";
        stderr_tail = "";
        stdout_truncated = false;
        stderr_truncated = false;
      })

abbrev published : FinishedTaskPublication
published = record { snapshot = result; cancellation = none; submit_signal = 0 }

abbrev before : List Call
before = reserves 0 (submission "r1" "true") "t1" ∷ []

abbrev reserved : Registry
reserved = run (initialize 2) before

abbrev later_calls : List Call
later_calls =
    reserves 7 (submission "r2" "false") "t2" ∷ finishes 8 9 10 the_owner result ∷ asks 11 "t1" ∷ []

-- The end of the retention of a task that finished at 6.
abbrev last_reading : ℕ
last_reading = 6 + min_finished_retention

abbrev failure : SubmitFailure
failure = record { code = UseCaseErrorCode.capacity_exhausted; message = "no slot" }

full_registry :
    (reserve_submit_with 0 (submission "r3" "true") "t3" (run (initialize 1) before)).1
    ≡ err capacity_exhausted
unfolding reserve_submit_with run Map.lookup Map.insert purge_expired
full_registry = refl

forgotten_after_retention :
    (snapshot (last_reading + 1) "t1" (run reserved (finishes 5 6 7 the_owner result ∷ []))).1
    ≡ ok none
unfolding snapshot run Map.lookup Map.insert Map.remove is_expired drop_expired purge_expired
forgotten_after_retention = refl

registry_consistent_example :
    Inv (run (initialize 2) (before ++ later_calls)).state
    × (length (run (initialize 2) (before ++ later_calls)).state.requests ≤ 2)
registry_consistent_example = registry_consistent 2 (before ++ later_calls)

-- Another submission comes between the reservation and the rollback.
abbrev between : List Call
between = reserves 0 (submission "r1" "true") "t1" ∷ reserves 7 (submission "r2" "false") "t2" ∷ []

rollback_frees_example :
    let (s, answer) = rollback_before_running 8 the_owner failure (run (initialize 2) between) in
    (answer ≡ ok (SubmitObservation.failed failure))
    × (s.published 0 ≡ some (SubmitObservation.failed failure))
    × (Map.lookup "r1" s.state.requests ≡ none)
    × (Map.lookup "t1" s.state.task_requests ≡ none)
unfolding run reserve_submit_with Map.lookup Map.insert purge_expired
rollback_frees_example = rollback_frees 2 between 8 the_owner failure refl refl refl

completion_retained_example :
    let s = run (finish_inner 5 6 7 the_owner result reserved).0 later_calls in
    ((snapshot last_reading "t1" s).1 ≡ ok (some result))
    × ((snapshot_by_client_request_id last_reading "r1" s).1 ≡ ok (some result))
    × ((q : RequestRecord) × (Map.lookup "r1"
            (finish_inner 5 6 7 the_owner result reserved).0.state.requests
          ≡ some q)
        × ((reserve_submit_with last_reading (submission "r1" "false") "t9" s).1
            ≡ ite
                (SubmissionIdentity-discrete q.identity (submission "r1" "false").identity)
                (ok (existing (record { task_id = "t1"; signal = 0 })))
                (err (idempotency_conflict "r1"))))
unfolding finish_inner run Map.lookup Map.insert purge_expired
completion_retained_example =
    completion_retained reserved 5 6 7 the_owner result published later_calls last_reading
      (submission "r1" "false") "t9" (registry_consistent 2 before).0 refl reads (omega arith) refl
  where
    reads : AllReads (λ t. t ≤ 6 + min_finished_retention) later_calls
    reads = (omega arith, ((omega arith, omega arith), (omega arith, tt)))
