-- ===== src/Submit/Completion.antt =====
-- daemon/src/application/task/completion.rs, and what becomes of an owner's slot and of its active
-- execution. A permit or an execution that goes out of scope is dropped.
use taskcage.Prelude.{ℕ, String, Bool, true, false, [], ◌∷◌, if◌then◌else◌, Result, ok, err}
use taskcage.Core.Task.{TaskSnapshot}
use taskcage.Capacity.{TaskCapacity, iterate, retain_for_fail_stop, drop_permit, Owner, holding}
use taskcage.FailStop.{Settings, activate, drop_active, is_fail_stopping}
use taskcage.FailStop
use taskcage.Metrics.{task_finished}
use taskcage.Registry.Types.{FinishedTaskPublication}
use taskcage.Registry.Owner.{publish_completion}
use taskcage.Submit.Types.{Daemon}

pub data CompletionError : Type 0 where
  completion_error : String → CompletionError

unfoldable pub require_finished : TaskSnapshot → Result CompletionError TaskSnapshot
require_finished (TaskSnapshot.finished t reason process timing usage output) =
    ok (TaskSnapshot.finished t reason process timing usage output)
require_finished (TaskSnapshot.running _ _ _) =
    err (completion_error "정리가 끝난 실행 결과가 FINISHED가 아닙니다")

-- `ActiveExecution::complete`, and its drop without that.
abbrev pub complete_active : String → Daemon → Daemon
complete_active task_id d = record d { fail_stop = FailStop.complete task_id d.fail_stop }

abbrev pub drop_unresolved : Settings → ℕ → String → Daemon → Daemon
drop_unresolved settings now task_id d = record d {
  fail_stop = drop_active settings now task_id d.fail_stop;
}

-- An execution that is completed if its cleanup was, and dropped if not.
abbrev pub resolve_active : Bool → Settings → ℕ → String → Daemon → Daemon
resolve_active true settings now task_id d = complete_active task_id d
resolve_active false settings now task_id d = drop_unresolved settings now task_id d

abbrev pub retain_slot : Daemon → Daemon
retain_slot d = record d { capacity = (retain_for_fail_stop d.capacity).0 }

-- The permit is consumed: it is retained, or dropped at the end of the function.
unfoldable pub release_capacity : Daemon → Daemon
unfolding is_fail_stopping retain_for_fail_stop drop_permit
release_capacity d =
    if is_fail_stopping d.fail_stop
    then retain_slot d
    else record d { capacity = (drop_permit d.capacity).0 }

-- The audit log's line is left out.
unfoldable pub publish_finished : String → FinishedTaskPublication → Daemon → Daemon × TaskSnapshot
unfolding FailStop.complete release_capacity publish_completion task_finished
publish_finished task_id p d =
    let d1 = release_capacity (complete_active task_id d) in
    let (registry, taken) = publish_completion p d1.registry in
    (record d1 { registry = registry; metrics = task_finished taken d1.metrics }, taken)

unfoldable pub report_running_failure : Settings → ℕ → String → Daemon → Daemon
unfolding activate
report_running_failure settings now task_id d = record d {
  fail_stop =
      (activate settings now
        (record {
          task_id = task_id;
          stage = "RUNNING 작업 완료";
          uncleaned = "검증된 FINISHED 결과" ∷ [];
          retry = "RUNNING snapshot을 유지하고 daemon 종료를 시작함";
        })
        d.fail_stop).0;
}

unfoldable pub report_running_publication_failure : Settings → ℕ → String → Daemon → Daemon
unfolding activate
report_running_publication_failure settings now task_id d = record d {
  fail_stop =
      (activate settings now
        (record {
          task_id = task_id;
          stage = "RUNNING 저장";
          uncleaned = "공개 RUNNING snapshot" ∷ [];
          retry = "exec 시작 뒤 작업 상태를 저장하지 못해 daemon 종료를 시작함";
        })
        d.fail_stop).0;
}

-- `try_acquire` when its rounds are not interrupted: one round that decides.
abbrev acquired_if : TaskCapacity × Owner → TaskCapacity × Bool
acquired_if (c, holding) = (c, true)
acquired_if (c, _) = (c, false)

unfoldable pub try_acquire : TaskCapacity → TaskCapacity × Bool
unfolding iterate
try_acquire c = acquired_if (iterate c.in_use false c)
