-- ===== src/Metrics.antt =====
-- daemon/src/metrics.rs: `RuntimeMetrics`. A counter is an atomic u64 that is only added to; the seven
-- outcomes are the fields of a record. A duration is compared in milliseconds: the bounds in seconds
-- are the divisions by 1000.0 of whole numbers of milliseconds, and so are the durations.
mod Laws
mod Tests
use taskcage.Prelude.{ℕ, zero, suc, ◌+◌, ◌%◌, ◌^◌, String, List, [], ◌∷◌, leb, if◌then◌else◌}
use taskcage.Core.Task.{TaskSnapshot, TerminationReason, TaskTiming}

pub record RuntimeMetrics : Type 0 where
  pub tasks_started : ℕ
  pub tasks_finished : List ℕ
  pub cleanup_verified : ℕ
  pub duration_count : ℕ
  pub duration_sum_millis : ℕ
  pub duration_buckets : List ℕ

abbrev pub duration_bounds_millis : List ℕ
duration_bounds_millis = 10 ∷ 50 ∷ 100 ∷ 500 ∷ 1_000 ∷ 5_000 ∷ 30_000 ∷ 60_000 ∷ []

-- `fetch_add` on a u64.
abbrev pub add64 : ℕ → ℕ → ℕ
add64 a b = (a + b) % 2 ^ 64

unfoldable pub outcome_index : TerminationReason → ℕ
outcome_index TerminationReason.exited = 0
outcome_index TerminationReason.execution_failed = 1
outcome_index TerminationReason.cancelled = 2
outcome_index TerminationReason.timed_out = 3
outcome_index TerminationReason.memory_limit_exceeded = 4
outcome_index TerminationReason.process_limit_exceeded = 5
outcome_index TerminationReason.daemon_error = 6

unfoldable pub outcome_name : TerminationReason → String
outcome_name TerminationReason.exited = "exited"
outcome_name TerminationReason.execution_failed = "execution_failed"
outcome_name TerminationReason.cancelled = "cancelled"
outcome_name TerminationReason.timed_out = "timed_out"
outcome_name TerminationReason.memory_limit_exceeded = "memory_limit_exceeded"
outcome_name TerminationReason.process_limit_exceeded = "process_limit_exceeded"
outcome_name TerminationReason.daemon_error = "daemon_error"

abbrev pub zeros : ℕ → List ℕ
zeros zero = []
zeros (suc n) = 0 ∷ zeros n

-- `RuntimeMetrics::default`.
abbrev pub default_metrics : RuntimeMetrics
default_metrics = record {
  tasks_started = 0;
  tasks_finished = zeros 7;
  cleanup_verified = 0;
  duration_count = 0;
  duration_sum_millis = 0;
  duration_buckets = zeros 8;
}

unfoldable pub task_started : RuntimeMetrics → RuntimeMetrics
task_started m = record m { tasks_started = add64 m.tasks_started 1 }

unfoldable pub increment_at : ℕ → List ℕ → List ℕ
increment_at i [] = []
increment_at zero (c ∷ cs) = add64 c 1 ∷ cs
increment_at (suc i) (c ∷ cs) = c ∷ increment_at i cs

-- The loop over the bounds, with the buckets beside them.
unfoldable pub add_buckets : ℕ → List ℕ → List ℕ → List ℕ
add_buckets millis [] buckets = buckets
add_buckets millis (bound ∷ bounds) [] = []
add_buckets millis (bound ∷ bounds) (c ∷ cs) =
    (if leb millis bound then add64 c 1 else c) ∷ add_buckets millis bounds cs

unfoldable pub task_finished : TaskSnapshot → RuntimeMetrics → RuntimeMetrics
unfolding outcome_index increment_at add_buckets
task_finished (TaskSnapshot.running _ _ _) m = m
task_finished (TaskSnapshot.finished _ reason _ timing _ _) m = record m {
  tasks_finished = increment_at (outcome_index reason) m.tasks_finished;
  cleanup_verified = add64 m.cleanup_verified 1;
  duration_count = add64 m.duration_count 1;
  duration_sum_millis = add64 m.duration_sum_millis timing.wall_time_ms;
  duration_buckets = add_buckets timing.wall_time_ms duration_bounds_millis m.duration_buckets;
}
