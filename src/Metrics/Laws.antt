-- ===== src/Metrics/Laws.antt =====
-- What the counters say after any sequence of finished tasks.
use taskcage.Prelude.{
  ℕ, ◌+◌, ◌%◌, ◌^◌, String, ◌≡◌, refl, sym, ap, ◌∙◌, List, [], ◌∷◌, ◌++◌, map, arith, leb,
  if◌then◌else◌,
}
use taskcage.Core.Task.{
  TaskSnapshot, TaskTiming, TerminationReason, ProcessResult, TaskUsage, TaskOutput,
}
use mathlib.Core.List.{append-nil, append_assoc}
use taskcage.Metrics.{
  RuntimeMetrics, default_metrics, task_finished, increment_at, add_buckets, outcome_index,
  duration_bounds_millis, add64,
}

-- The history of `task_finished`.
unfoldable pub record_all : List TaskSnapshot → RuntimeMetrics → RuntimeMetrics
unfolding task_finished
record_all [] m = m
record_all (s ∷ ss) m = record_all ss (task_finished s m)

-- How many tasks finished, for which outcome, within which time, and for how long together.
abbrev pub is_one : TaskSnapshot → ℕ
is_one (TaskSnapshot.running _ _ _) = 0
is_one (TaskSnapshot.finished _ _ _ _ _ _) = 1

-- The outcomes in the order of their counters.
abbrev pub outcomes : List TerminationReason
outcomes =
    TerminationReason.exited ∷ TerminationReason.execution_failed ∷ TerminationReason.cancelled
    ∷ TerminationReason.timed_out ∷ TerminationReason.memory_limit_exceeded
    ∷ TerminationReason.process_limit_exceeded ∷ TerminationReason.daemon_error ∷ []

abbrev pub same_reason : TerminationReason → TerminationReason → ℕ
same_reason TerminationReason.exited TerminationReason.exited = 1
same_reason TerminationReason.execution_failed TerminationReason.execution_failed = 1
same_reason TerminationReason.cancelled TerminationReason.cancelled = 1
same_reason TerminationReason.timed_out TerminationReason.timed_out = 1
same_reason TerminationReason.memory_limit_exceeded TerminationReason.memory_limit_exceeded = 1
same_reason TerminationReason.process_limit_exceeded TerminationReason.process_limit_exceeded = 1
same_reason TerminationReason.daemon_error TerminationReason.daemon_error = 1
same_reason _ _ = 0

abbrev pub ended_by : TerminationReason → TaskSnapshot → ℕ
ended_by outcome (TaskSnapshot.running _ _ _) = 0
ended_by outcome (TaskSnapshot.finished _ reason _ _ _ _) = same_reason outcome reason

abbrev pub is_within : ℕ → TaskSnapshot → ℕ
is_within bound (TaskSnapshot.running _ _ _) = 0
is_within bound (TaskSnapshot.finished _ _ _ timing _ _) =
    if leb timing.wall_time_ms bound then 1 else 0

abbrev pub millis : TaskSnapshot → ℕ
millis (TaskSnapshot.running _ _ _) = 0
millis (TaskSnapshot.finished _ _ _ timing _ _) = timing.wall_time_ms

abbrev pub total : (TaskSnapshot → ℕ) → List TaskSnapshot → ℕ
total f [] = 0
total f (s ∷ ss) = f s + total f ss

abbrev pub u64 : ℕ → ℕ
u64 n = n % 2 ^ 64

-- The counters as totals, each modulo 2^64.
abbrev pub expected : List TaskSnapshot → RuntimeMetrics
expected ss = record {
  tasks_started = 0;
  tasks_finished = map (λ r. u64 (total (ended_by r) ss)) outcomes;
  cleanup_verified = u64 (total is_one ss);
  duration_count = u64 (total is_one ss);
  duration_sum_millis = u64 (total millis ss);
  duration_buckets = map (λ b. u64 (total (is_within b) ss)) duration_bounds_millis;
}

total-append :
    (f : TaskSnapshot → ℕ) (ss : List TaskSnapshot) (s : TaskSnapshot)
    → total f (ss ++ s ∷ []) ≡ total f ss + f s
total-append f [] s = omega arith
total-append f (t ∷ ss) s = omega (arith, total-append f ss s)

buckets-expected :
    (bounds : List ℕ) (ss : List TaskSnapshot) (s : TaskSnapshot)
    → is_one s ≡ 1
    → add_buckets (millis s) bounds (map (λ b. u64 (total (is_within b) ss)) bounds)
      ≡ map (λ b. u64 (total (is_within b) (ss ++ s ∷ []))) bounds
unfolding add_buckets
buckets-expected [] ss s h = refl
buckets-expected (b ∷ bounds) ss (TaskSnapshot.running _ _ _) h = absurd (omega arith)
buckets-expected (b ∷ bounds) ss (TaskSnapshot.finished i r p t u o) h =
    let s = TaskSnapshot.finished i r p t u o in
    ground (arith, buckets-expected bounds ss s h, total-append (is_within b) ss s)

-- The place of one outcome after one more task.
outcome_total :
    (r : TerminationReason) (ss : List TaskSnapshot) (s : TaskSnapshot)
    → u64 (total (ended_by r) (ss ++ s ∷ [])) ≡ add64 (u64 (total (ended_by r) ss)) (ended_by r s)
outcome_total r ss s = omega (arith, total-append (ended_by r) ss s)

outcomes-expected :
    (ss : List TaskSnapshot) (id : String) (reason : TerminationReason) (p : ProcessResult)
    (t : TaskTiming) (u : TaskUsage) (o : TaskOutput)
    → let s = TaskSnapshot.finished id reason p t u o in
      increment_at (outcome_index reason) (expected ss).tasks_finished
      ≡ (expected (ss ++ s ∷ [])).tasks_finished
unfolding increment_at outcome_index
outcomes-expected ss id reason p t u o =
    let s = TaskSnapshot.finished id reason p t u o in
    ground (
      arith,
      outcome_total TerminationReason.exited ss s,
      outcome_total TerminationReason.execution_failed ss s,
      outcome_total TerminationReason.cancelled ss s,
      outcome_total TerminationReason.timed_out ss s,
      outcome_total TerminationReason.memory_limit_exceeded ss s,
      outcome_total TerminationReason.process_limit_exceeded ss s,
      outcome_total TerminationReason.daemon_error ss s,
    )

-- A snapshot that counts for nothing.
totals_same {ℓ} :
    {K : Type ℓ} (f : K → TaskSnapshot → ℕ) (keys : List K) (ss : List TaskSnapshot)
    (s : TaskSnapshot)
    → ((k : K) → f k s ≡ 0)
    → map (λ k. u64 (total (f k) ss)) keys ≡ map (λ k. u64 (total (f k) (ss ++ s ∷ []))) keys
totals_same f [] ss s h = refl
totals_same f (k ∷ keys) ss s h =
    ground (arith, totals_same f keys ss s h, total-append (f k) ss s, h k)

metrics_eq :
    (m m' : RuntimeMetrics)
    → m.tasks_started ≡ m'.tasks_started
    → m.tasks_finished ≡ m'.tasks_finished
    → m.cleanup_verified ≡ m'.cleanup_verified
    → m.duration_count ≡ m'.duration_count
    → m.duration_sum_millis ≡ m'.duration_sum_millis
    → m.duration_buckets ≡ m'.duration_buckets
    → m ≡ m'
metrics_eq m m' a b c d e f = cc

step-expected :
    (ss : List TaskSnapshot) (s : TaskSnapshot)
    → task_finished s (expected ss) ≡ expected (ss ++ s ∷ [])
unfolding task_finished
step-expected ss (TaskSnapshot.running a b c) =
    let s = TaskSnapshot.running a b c in
    let same : (f : TaskSnapshot → ℕ) → f s ≡ 0 → total f ss ≡ total f (ss ++ s ∷ []) =
      λ f z. omega (arith, total-append f ss s) in
    metrics_eq (expected ss) (expected (ss ++ s ∷ [])) refl
      (totals_same ended_by outcomes ss s (λ k. refl)) (ap u64 (same is_one refl))
      (ap u64 (same is_one refl)) (ap u64 (same millis refl))
      (totals_same is_within duration_bounds_millis ss s (λ k. refl))
step-expected ss (TaskSnapshot.finished id reason p t u o) =
    let s = TaskSnapshot.finished id reason p t u o in
    metrics_eq (task_finished s (expected ss)) (expected (ss ++ s ∷ [])) refl
      (outcomes-expected ss id reason p t u o) (omega (arith, total-append is_one ss s))
      (omega (arith, total-append is_one ss s)) (omega (arith, total-append millis ss s))
      (buckets-expected duration_bounds_millis ss s refl)

record_all-expected :
    (before ss : List TaskSnapshot) → record_all ss (expected before) ≡ expected (before ++ ss)
unfolding record_all
record_all-expected before [] = ap expected (sym (append-nil before))
record_all-expected before (s ∷ ss) =
    ap (record_all ss) (step-expected before s)
    ∙ record_all-expected (before ++ s ∷ []) ss
    ∙ ap expected (append_assoc before (s ∷ []) ss)

-- After any sequence of snapshots was reported to fresh counters, each counter is a total over the
-- FINISHED ones modulo 2^64: for each of the seven outcomes the tasks that ended with it, the tasks,
-- the sum of their durations, and for each of the eight bounds the tasks that took at most so long.
-- A RUNNING snapshot counts for nothing.
pub record_all_exact : (ss : List TaskSnapshot) → record_all ss default_metrics ≡ expected ss
record_all_exact ss = record_all-expected [] ss
