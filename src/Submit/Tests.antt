-- ===== src/Submit/Tests.antt =====
-- Runs of the daemon, and the theorems at concrete histories.
use taskcage.Prelude.{
  ◌+◌, ◌≤◌, String, ◌≡◌, refl, true, false, none, some, List, [], ◌∷◌, arith, length,
}
use taskcage.Prelude.Map
use taskcage.Prelude.Int.{pos}
use taskcage.Core.Task.{TaskSnapshot, exited}
use taskcage.Capacity.{is_idle}
use taskcage.FailStop.{Settings, active_count, drop_active}
use taskcage.Registry.Types.{
  ValidatedSubmit, SubmissionIdentity, SubmitObservation, SubmitExecutionOwner,
}
use taskcage.Registry.State.{purge_expired}
use taskcage.Registry.Methods.{Registry, existing_submit, reserve_submit_with}
use taskcage.Submit.Types.{Readings, VerifiedRunningTask, spawned}
use taskcage.Submit.Execution.{completed, core_failed, other_failure, CoreFailure}
use taskcage.Submit.Coordinate.{begin, exhausted, refused_with}
use taskcage.Submit.Live.{healthy_of}
use taskcage.Submit.Effects.{present}
use taskcage.Submit.History.{
  World, Action, submits, looks_up, admits, claims, stops, announces, ends, run, start,
}
use taskcage.Submit.Counts.{wanted, holders, count}
use taskcage.Submit.Leaks.{slots_accounted, nothing_left_behind}
use taskcage.Submit.Granted.{slot_granted, exhausted_only_when_full}
use taskcage.Submit.Stopping.{no_admission_after_fail_stop}

abbrev settings : Settings
settings = record { timeout = 30; instant_max = 1_000 }

abbrev at : Readings
at = record { looked_up = 1; changed = 2; finished_at = 3; released = 4; activated = 5; limits = 6 }

abbrev submission : String → ValidatedSubmit
submission id = record {
  identity = SubmissionIdentity.raw (record {
    client_request_id = id;
    command = record {
      program = "/bin/true";
      arguments = [];
      working_directory = "/";
      environment = [];
    };
    budget = record {
      resources = record {
        cpu = record { quota_micros = 50; period_micros = 100 };
        memory_max_bytes = 1;
        pids_max = 1;
        wall_time_limit_ms = 1;
      };
      output = record { stdout_tail_max_bytes = 1; stderr_tail_max_bytes = 1 };
    };
  });
}

abbrev running_task : VerifiedRunningTask
running_task = record {
  snapshot = TaskSnapshot.running "t1" "a" "b";
  effective_limits = record {
    resources = record {
      cpu = record { quota_micros = 50; period_micros = 100 };
      memory_max_bytes = 1;
      pids_max = 1;
      wall_time_limit_ms = 1;
    };
  };
}

abbrev result : TaskSnapshot
result =
    TaskSnapshot.finished "t1" exited (record { exit_code = some (pos 0); signal = none })
      (record { submitted_at = "a"; started_at = "b"; finished_at = "c"; wall_time_ms = 3 })
      (record { cpu_time_micros = 1; memory_peak_bytes = 2 })
      (record {
        stdout_tail = "";
        stderr_tail = "";
        stdout_truncated = false;
        stderr_truncated = false;
      })

abbrev uncertain : CoreFailure
uncertain = record {
  message = "cgroup.kill";
  kind = other_failure;
  block_future_runs = true;
  cleanup_complete = false;
  report = record { task_id = "t2"; stage = "kill"; uncleaned = "cgroup" ∷ []; retry = "" };
}

-- One task runs and ends.
abbrev one_task : List Action
one_task =
    submits at "q1" (submission "r1") "t1"
    ∷ announces at 0 running_task
    ∷ ends at 0 (completed result)
    ∷ []

-- One task runs, and the cleanup of a second one is uncertain.
abbrev stopping : List Action
stopping =
    submits at "q1" (submission "r1") "t1"
    ∷ announces at 0 running_task
    ∷ submits at "q2" (submission "r2") "t2"
    ∷ ends at 0 (core_failed uncertain)
    ∷ []

-- The result of the task is there to query, and its slot is free; the uncertain cleanup keeps its slot.
outcomes :
    ((run settings (start 2 9) one_task).daemon.registry.published 0
      ≡ some (SubmitObservation.task result))
    × ((run settings (start 2 9) one_task).daemon.capacity.in_use ≡ 0)
    × ((run settings (start 2 9) stopping).daemon.capacity.retained_for_fail_stop ≡ 1)
    × (length (run settings (start 2 9) stopping).live ≡ 1)
unfolding run start Map.lookup Map.insert Map.remove purge_expired drop_active
outcomes = (refl, refl, refl, refl)

abbrev first : List Action
first = submits at "q1" (submission "r1") "t1" ∷ []

slots_accounted_example :
    let w = run settings (start 2 9) stopping in
    let c = w.daemon.capacity in
    (c.in_use ≡ holders w.live + c.retained_for_fail_stop)
    × (c.in_use ≤ 2)
    × (healthy_of w.daemon ≡ true
        → (c.retained_for_fail_stop ≡ 0)
          × (c.in_use ≡ length w.live)
          × ((id : String)
              → wanted id w.admitted + count id w.live ≡ present id w.daemon.fail_stop.active))
slots_accounted_example = slots_accounted settings 2 9 stopping (omega arith)

nothing_left_behind_example :
    let w = run settings (start 2 9) one_task in
    (is_idle w.daemon.capacity ≡ true) × (active_count w.daemon.fail_stop ≡ 0)
unfolding run start Map.lookup Map.insert Map.remove purge_expired
nothing_left_behind_example = nothing_left_behind settings 2 9 one_task (omega arith) refl refl refl

abbrev second_owner : SubmitExecutionOwner
second_owner = record {
  client_request_id = "r2";
  task_id = "t2";
  request = submission "r2";
  signal = 1;
}

abbrev looked : Registry
looked = (existing_submit 1 (submission "r2") (run settings (start 2 9) first).daemon.registry).0

slot_granted_example :
    (begin settings at "q2" (submission "r2") "t2" (run settings (start 2 9) first).daemon).1
    ≡ spawned second_owner 1
unfolding run start Map.lookup Map.insert Map.remove purge_expired existing_submit
    reserve_submit_with
slot_granted_example =
    slot_granted settings 2 9 first at "q2" (submission "r2") "t2" looked
      (reserve_submit_with 2 (submission "r2") "t2" looked).0 second_owner (omega arith) refl
      (omega arith) refl refl refl

exhausted_only_when_full_example :
    let w = run settings (start 1 9) first in
    holders w.live + w.daemon.capacity.retained_for_fail_stop ≡ 1
unfolding run start begin Map.lookup Map.insert Map.remove purge_expired
exhausted_only_when_full_example =
    exhausted_only_when_full settings 1 9 first at "q2" (submission "r2") "t2"
      (refused_with "q2" "t2" exhausted) (omega arith) refl refl

-- An owner is admitted before fail-stop begins and claims its slot after that; a later submission is
-- refused, though its lookup was before.
abbrev stopped : World
stopped = run settings (start 2 9) (
    admits at "q1" (submission "r1") "t1"
    ∷ looks_up at (submission "r3")
    ∷ stops 4 uncertain.report
    ∷ [])

abbrev after_stop : List Action
after_stop = claims at 0 ∷ admits at "q3" (submission "r3") "t3" ∷ []

late_spawn :
    (length (run settings stopped after_stop).admitted ≡ 0)
    × (length (run settings stopped after_stop).live ≡ 1)
unfolding run start Map.lookup Map.insert Map.remove purge_expired drop_active
late_spawn = (refl, refl)

no_admission_after_fail_stop_example :
    let w' = run settings stopped after_stop in
    (healthy_of w'.daemon ≡ false)
    × (length w'.admitted ≤ length stopped.admitted)
    × (length w'.admitted + length w'.live ≤ length stopped.admitted + length stopped.live)
unfolding run start Map.lookup Map.insert Map.remove purge_expired drop_active
no_admission_after_fail_stop_example = no_admission_after_fail_stop settings stopped after_stop refl
