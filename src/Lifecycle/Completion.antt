-- ===== src/Lifecycle/Completion.antt =====
-- When a completion is accepted, and that it is accepted at most once.
use taskcage.Prelude.{
  ℕ, ◌-◌, ◌/◌, ◌^◌, ◌≤◌, ◌<◌, String, ◌≡◌, refl, ◌≢◌, ◌↔◌, inl, inr, Option, none, some, List, [],
  ◌∷◌, arith, Result, ok, err, Result-cases, ok_of_ne_err,
}
use taskcage.Prelude.Int.{ℤ}
use taskcage.Core.Task
use taskcage.Core.Task.{TaskSnapshot, TaskState, ProcessResult, TerminationReason}
use taskcage.Lifecycle.Signals.{linux_signal_name}
use taskcage.Lifecycle.Evidence.{
  ExecutionEvidence, started, start_failed, LifecycleError, already_finished, classify_termination,
  map_process_result, process_result, TerminationEvidence,
}
use taskcage.Lifecycle.Single.{
  RunningTask, LifecycleState, running, finished, CompletionData, completed, complete_inner,
  process_of, termination_evidence,
}

-- Exactly one of exit code and signal is there, and the signal has a public name.
abbrev pub IsOutcome : Option ℤ → Option ℤ → Type 0
IsOutcome (some _) none = Unit {0}
IsOutcome none (some signal) = linux_signal_name signal ≢ none
IsOutcome none none = ⊥
IsOutcome (some _) (some _) = ⊥

abbrev pub HasOutcome : ExecutionEvidence → Type 0
HasOutcome (started p) = IsOutcome p.exit_code p.signal
HasOutcome (start_failed _) = Unit {0}

abbrev pub Attempt : Type 0
Attempt = CompletionData × String × ℕ

module _ (from_utf8_lossy : List ℕ → String) where
  -- The attempts to complete a task, in order, with what each returned.
  unfoldable pub run :
      LifecycleState → List Attempt → LifecycleState × List (Result LifecycleError TaskSnapshot)
  run state [] = (state, [])
  run state ((completion, finished_at, now) ∷ rest) =
      let (next, result) = complete_inner from_utf8_lossy state completion finished_at now in
      let (last, results) = run next rest in (last, result ∷ results)

abbrev pub first_ok : List (Result LifecycleError TaskSnapshot) → Option TaskSnapshot
first_ok [] = none
first_ok (ok task ∷ rest) = some task
first_ok (err e ∷ rest) = first_ok rest

-- Every result after the first success is the error that the task is finished.
abbrev pub AllRefused : List (Result LifecycleError TaskSnapshot) → Type 0
AllRefused [] = Unit {0}
AllRefused (r ∷ rest) = (r ≡ err already_finished) × AllRefused rest

abbrev pub OnceOk : List (Result LifecycleError TaskSnapshot) → Type 0
OnceOk [] = Unit {0}
OnceOk (ok task ∷ rest) = AllRefused rest
OnceOk (err e ∷ rest) = OnceOk rest

abbrev pub state_of : LifecycleState → Option TaskSnapshot → LifecycleState
state_of state none = state
state_of state (some task) = finished task

process_result-ok :
    (exit_code signal : Option ℤ)
    → IsOutcome exit_code signal
    → (p : ProcessResult) × (process_result exit_code signal ≡ ok p)
process_result-ok (some c) none h = (_, refl)
process_result-ok none none h = absurd h
process_result-ok (some c) (some g) h = absurd h
process_result-ok none (some g) h =
    ok_of_ne_err (process_result none (some g)) (λ e x. ground arith)

ok-process_result :
    (exit_code signal : Option ℤ) (p : ProcessResult)
    → process_result exit_code signal ≡ ok p
    → IsOutcome exit_code signal
ok-process_result (some c) none p h = tt
ok-process_result none none p h = cc
ok-process_result (some c) (some g) p h = cc
ok-process_result none (some g) p h = λ e. ground arith

process_of-ok :
    (evidence : ExecutionEvidence)
    → HasOutcome evidence
    → (p : ProcessResult) × (process_of evidence ≡ ok p)
unfolding map_process_result
process_of-ok (started e) h = process_result-ok e.exit_code e.signal h
process_of-ok (start_failed n) h = (_, refl)

ok-process_of :
    (evidence : ExecutionEvidence) (p : ProcessResult)
    → process_of evidence ≡ ok p
    → HasOutcome evidence
unfolding map_process_result
ok-process_of (started e) p h = ok-process_result e.exit_code e.signal p h
ok-process_of (start_failed n) p h = tt

classify-ok : (e : TerminationEvidence) → (r : TerminationReason) × (classify_termination e ≡ ok r)
unfolding classify_termination
classify-ok e = ok_of_ne_err (classify_termination e) (λ x h. ground arith)

module _ (from_utf8_lossy : List ℕ → String) where
  run_finished :
      (task : TaskSnapshot) (attempts : List Attempt)
      → ((run from_utf8_lossy (finished task) attempts).0 ≡ finished task)
        × AllRefused (run from_utf8_lossy (finished task) attempts).1
  unfolding run complete_inner
  run_finished task [] = (refl, tt)
  run_finished task (a ∷ attempts) =
      let (same, refused) = run_finished task attempts in (same, (refl, refused))

  -- Whatever attempts are made on a RUNNING task, the task stays RUNNING and unchanged until the
  -- first attempt that is accepted, is FINISHED with that attempt's snapshot from then on, and
  -- every later attempt is refused attempts already finished.
  pub complete_once :
      (task : RunningTask) (attempts : List Attempt)
      → let (last, results) = run from_utf8_lossy (running task) attempts in
        (last ≡ state_of (running task) (first_ok results)) × OnceOk results
  unfolding run complete_inner
  complete_once task [] = (refl, tt)
  complete_once task ((completion, finished_at, now) ∷ attempts) =
      elim (Result-cases (completed from_utf8_lossy task completion finished_at now)) [
        | inl (p, e) ↦ rw e (let (same, refused) = run_finished p attempts in (same, refused))
        | inr (x, e) ↦ rw e (complete_once task attempts)
      ]

  module _ (task : RunningTask) (completion : CompletionData) (finished_at : String) (now : ℕ) where
    abbrev pub IsTimed : Type 0
    IsTimed = (task.started_monotonic ≤ now) × ((now - task.started_monotonic) / 1_000_000 < 2 ^ 64)

    ok-completed :
        (p : TaskSnapshot)
        → completed from_utf8_lossy task completion finished_at now ≡ ok p
        → HasOutcome completion.evidence × IsTimed
    unfolding completed
    ok-completed p h = elim (Result-cases (process_of completion.evidence)) [
      | inl (r, e) ↦ (ok-process_of completion.evidence r e, ground arith)
      | inr (x, e) ↦ absurd (ground (arith, classify-ok (termination_evidence completion)))
    ]

    completed-ok :
        HasOutcome completion.evidence
        → IsTimed
        → (p : TaskSnapshot) × (completed from_utf8_lossy task completion finished_at now ≡ ok p)
    unfolding completed
    completed-ok outcome timed =
        ok_of_ne_err (completed from_utf8_lossy task completion finished_at now) (λ x h. ground (
          arith,
          classify-ok (termination_evidence completion),
          process_of-ok completion.evidence outcome,
        ))

    -- A RUNNING task's completion is accepted exactly when the process has a reportable outcome,
    -- the clock has not gone back since the start, and the wall time in milliseconds fits a `u64`.
    -- The snapshot is then FINISHED and keeps the task's id.
    pub completed_exact :
        ((p : TaskSnapshot) × (completed from_utf8_lossy task completion finished_at now ≡ ok p)
          × (Task.state p ≡ TaskState.finished)
          × (Task.task_id p ≡ task.task_id))
        ↔ (HasOutcome completion.evidence × IsTimed)
    unfolding completed
    completed_exact = (
      λ h. ok-completed h.0 h.1,
      λ h.
          let (p, e) = completed-ok h.0 h.1 in
          (
            p,
            e,
            ground (arith, classify-ok (termination_evidence completion)),
            ground (arith, classify-ok (termination_evidence completion)),
          ),
    )
