-- ===== src/Metrics/Tests.antt =====
-- The counters after a run of tasks.
use taskcage.Prelude.{ℕ, ◌≡◌, refl, false, none, List, [], ◌∷◌}
use taskcage.Core.Task.{TaskSnapshot, TaskTiming, TerminationReason, exited, timed_out}
use taskcage.Metrics.{default_metrics}
use taskcage.Metrics.Laws.{record_all, expected, record_all_exact}

abbrev took : ℕ → TaskTiming
took wall_time_ms = record {
  submitted_at = "a";
  started_at = "b";
  finished_at = "c";
  wall_time_ms = wall_time_ms;
}

abbrev tasks : List TaskSnapshot
tasks = ended exited 3 ∷ TaskSnapshot.running "t" "a" "b" ∷ ended timed_out 60_001 ∷ []
  where
    ended : TerminationReason → ℕ → TaskSnapshot
    ended reason wall_time_ms =
        TaskSnapshot.finished "t" reason (record { exit_code = none; signal = none })
          (took wall_time_ms) (record { cpu_time_micros = 1; memory_peak_bytes = 2 })
          (record {
            stdout_tail = "";
            stderr_tail = "";
            stdout_truncated = false;
            stderr_truncated = false;
          })

counters :
    ((record_all tasks default_metrics).tasks_finished ≡ 1 ∷ 0 ∷ 0 ∷ 1 ∷ 0 ∷ 0 ∷ 0 ∷ [])
    × ((record_all tasks default_metrics).duration_sum_millis ≡ 60_004)
unfolding record_all
counters = (refl, refl)

record_all_exact_example : record_all tasks default_metrics ≡ expected tasks
record_all_exact_example = record_all_exact tasks
