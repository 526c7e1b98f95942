-- ===== src/Lifecycle/Tests.antt =====
-- Runs of the latch, the classification and the lifecycle, and the theorems at concrete inputs.
use taskcage.Prelude.{
  ℕ, String, ◌≡◌, refl, ◌↔◌, ◌⊎◌, true, false, none, some, List, [], ◌∷◌, ok, err,
}
use taskcage.Prelude.Int.{pos, negsuc}
use taskcage.Core.Task
use taskcage.Core.Task.{
  TaskSnapshot, TaskState, exited, timed_out, memory_limit_exceeded, process_limit_exceeded,
  execution_failed, cancelled, daemon_error,
}
use taskcage.Cgroup.Events.{KernelEvents}
use taskcage.Lifecycle.Latch
use taskcage.Lifecycle.Latch.{
  ControlTrigger, LatchCall, observes, closes, first_call_wins, control_of, all_false,
}
use taskcage.Lifecycle.Signals.{linux_signal_name, signal_names_exact, IsNamed}
use taskcage.Lifecycle.Evidence.{
  ExecutionEvidence, TerminationEvidence, started, classify_termination, finished_before_started,
  invalid_process_outcome, map_process_result,
}
use taskcage.Lifecycle.Single.{RunningTask, running, CompletionData, complete_inner, completed}
use taskcage.Lifecycle.Classify.{classify_exact}
use taskcage.Lifecycle.Completion.{
  Attempt, run, first_ok, state_of, OnceOk, complete_once, HasOutcome, IsTimed, completed_exact,
}

abbrev quiet : KernelEvents
quiet = record { memory_oom = 0; memory_oom_kill = 0; pids_max = 0 }

abbrev killed : TerminationEvidence
killed = record {
  execution = started (record { exit_code = none; signal = some (pos 9) });
  control = some ControlTrigger.timed_out;
  event_delta = record { memory_oom = 1; memory_oom_kill = 1; pids_max = 0 };
  daemon_error = false;
}

oom_kill_comes_first : classify_termination killed ≡ ok memory_limit_exceeded
unfolding classify_termination
oom_kill_comes_first = refl

some_signals :
    (linux_signal_name (pos 9) ≡ some "SIGKILL")
    × (linux_signal_name (pos 64) ≡ some "SIGRTMIN+30")
    × (linux_signal_name (pos 35) ≡ some "SIGRTMIN+1")
    × (linux_signal_name (pos 33) ≡ none)
    × (linux_signal_name (negsuc 0) ≡ none)
unfolding linux_signal_name
some_signals = (refl, refl, refl, refl, refl)

abbrev task : RunningTask
task = record {
  task_id = "task-1";
  submitted_at = "submitted";
  started_at = "started";
  started_monotonic = 5_000_000;
}

-- Bytes are not decoded in these runs.
abbrev blank : List ℕ → String
blank bytes = ""

abbrev cleaned : ExecutionEvidence → CompletionData
cleaned evidence = record {
  evidence = evidence;
  control = none;
  stats = record {
    cpu_usage_micros = 3;
    memory_current_bytes = 0;
    memory_peak_bytes = 4096;
    current_processes = 0;
    peak_processes = none;
    event_delta = quiet;
  };
  output = record {
    stdout = record { tail = []; truncated = false };
    stderr = record { tail = []; truncated = false };
  };
  daemon_error = false;
}

abbrev exit_zero : CompletionData
exit_zero = cleaned (started (record { exit_code = some (pos 0); signal = none }))

abbrev no_outcome : CompletionData
no_outcome = cleaned (started (record { exit_code = none; signal = none }))

abbrev attempts : List Attempt
attempts =
    (no_outcome, "a", 9_000_000)
    ∷ (exit_zero, "b", 4)
    ∷ (exit_zero, "c", 9_000_000)
    ∷ (exit_zero, "d", 9_000_000)
    ∷ []

refused_then_finished :
    (complete_inner blank (running task) no_outcome "a" 9_000_000).1 ≡ err invalid_process_outcome
unfolding complete_inner classify_termination map_process_result
refused_then_finished = refl

too_early :
    complete_inner blank (running task) exit_zero "b" 4
    ≡ (running task, err finished_before_started)
unfolding complete_inner classify_termination map_process_result
too_early = refl

first_call_wins_example :
    let (last, wins) =
      Latch.run 0
        (observes ControlTrigger.timed_out ∷ observes ControlTrigger.cancelled ∷ closes ∷ []) in
    (wins ≡ true ∷ all_false (observes ControlTrigger.cancelled ∷ closes ∷ []))
    × (Latch.snapshot last ≡ control_of (observes ControlTrigger.timed_out))
first_call_wins_example =
    first_call_wins (observes ControlTrigger.timed_out)
      (observes ControlTrigger.cancelled ∷ closes ∷ [])

signal_names_exact_example :
    ((linux_signal_name (pos 9) ≡ none) ↔ (¬ IsNamed (pos 9)))
    × ((linux_signal_name (pos 9) ≡ linux_signal_name (pos 32))
        ↔ ((pos 9 ≡ pos 32) ⊎ ((¬ IsNamed (pos 9)) × (¬ IsNamed (pos 32)))))
signal_names_exact_example = signal_names_exact (pos 9) (pos 32)

classify_exact_example :
    (classify_termination killed ≡ ok timed_out)
    ↔ ((killed.event_delta.memory_oom_kill ≡ 0) × (killed.control ≡ some ControlTrigger.timed_out))
classify_exact_example = (classify_exact killed).0

complete_once_example :
    let (last, results) = run blank (running task) attempts in
    (last ≡ state_of (running task) (first_ok results)) × OnceOk results
complete_once_example = complete_once blank task attempts

completed_exact_example :
    ((p : TaskSnapshot) × (completed blank task exit_zero "c" 9_000_000 ≡ ok p)
      × (Task.state p ≡ TaskState.finished)
      × (Task.task_id p ≡ "task-1"))
    ↔ (HasOutcome exit_zero.evidence × IsTimed blank task exit_zero "c" 9_000_000)
completed_exact_example = completed_exact blank task exit_zero "c" 9_000_000
