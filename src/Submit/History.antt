-- ===== src/Submit/History.antt =====
-- The daemon with the owners that run: a history says what happens next, a submission, a call of the
-- registry, or that the execution of one of the owners reports that its task runs, or ends. Each action
-- is a stretch of code without an await in it; the beginning of a submission is cut further, into the
-- lookup, the admission and the claim of a slot, between which fail-stop may begin.
use taskcage.Prelude.{
  ℕ, zero, suc, String, Bool, true, false, Option, none, some, List, [], ◌∷◌, Result,
}
use taskcage.Core.Task.{TaskSnapshot}
use taskcage.Capacity.{new}
use taskcage.FailStop.{Settings, CleanupFailureReport, activate, initial}
use taskcage.Metrics.{default_metrics}
use taskcage.Registry.Types.{SubmitObservation, ValidatedSubmit, SubmitExecutionOwner}
use taskcage.Registry.Methods.{initialize, existing_submit, snapshot, request_cancel}
use taskcage.Submit.Types.{
  Daemon, Readings, Begun, answered, waits, spawned, VerifiedRunningTask, ExecutionFailure,
}
use taskcage.Submit.Execution.{Ending, execution_result}
use taskcage.Submit.Completion.{drop_unresolved}
use taskcage.Submit.Owner.{
  publish_initial, complete_running, finish_without_running, finish_after_running,
}
use taskcage.Submit.Coordinate.{Admission, refuses, joins, begin, admit, claim, settle}

-- An owner before RUNNING was published, after it, and after its publication was refused.
pub data Stage : Type 0 where
  starting announced unpublished : Stage

pub record Live : Type 0 where
  pub owner : SubmitExecutionOwner
  pub cancellation : ℕ
  pub stage : Stage

-- `admitted` has the owners that were registered and have not tried to get a slot yet, with the ids of
-- their requests.
pub record World : Type 0 where
  pub daemon : Daemon
  pub admitted : List (String × SubmitExecutionOwner)
  pub live : List Live

-- `submits` is a submission that nobody interrupts; `looks_up`, `admits` and `claims` are its parts.
-- An admission may stand without its lookup, so there are more histories than the code has. `stops` is
-- an activation of fail-stop by whoever calls it, an execution that runs or another part of the daemon.
-- `claims`, `announces` and the two ends name an owner by its position.
pub data Action : Type 0 where
  submits : Readings → String → ValidatedSubmit → String → Action
  looks_up : Readings → ValidatedSubmit → Action
  admits : Readings → String → ValidatedSubmit → String → Action
  claims : Readings → ℕ → Action
  stops : ℕ → CleanupFailureReport → Action
  settles : Readings → String → String → SubmitObservation → Action
  asks cancels : ℕ → String → Action
  announces : Readings → ℕ → VerifiedRunningTask → Action
  ends : Readings → ℕ → Ending → Action
  ends_announced : Readings → ℕ → VerifiedRunningTask → Ending → Action

unfoldable pub get_elem? {ℓ} : {A : Type ℓ} → List A → ℕ → Option A
get_elem? [] n = none
get_elem? (o ∷ os) zero = some o
get_elem? (o ∷ os) (suc n) = get_elem? os n

unfoldable pub set : List Live → ℕ → Live → List Live
set [] n x = []
set (o ∷ os) zero x = x ∷ os
set (o ∷ os) (suc n) x = o ∷ set os n x

unfoldable pub erase_idx {ℓ} : {A : Type ℓ} → List A → ℕ → List A
erase_idx [] n = []
erase_idx (o ∷ os) zero = os
erase_idx (o ∷ os) (suc n) = o ∷ erase_idx os n

abbrev pub begun : World → Daemon × Begun → World
begun w (d, answered _) = record w { daemon = d }
begun w (d, waits _) = record w { daemon = d }
begun w (d, spawned o cancellation) = record {
  daemon = d;
  admitted = w.admitted;
  live = record { owner = o; cancellation = cancellation; stage = starting } ∷ w.live;
}

abbrev pub entered : World → String → Daemon × Admission → World
entered w request_id (d, refuses _) = record w { daemon = d }
entered w request_id (d, joins _) = record w { daemon = d }
entered w request_id (d, Admission.admitted o) = record {
  daemon = d;
  admitted = (request_id, o) ∷ w.admitted;
  live = w.live;
}

-- The owner is not waiting for a slot any more, whether it gets one or not.
abbrev pub claimed_by :
    Settings → Readings → ℕ → World → Option (String × SubmitExecutionOwner) → World
claimed_by settings at n w none = w
claimed_by settings at n w (some (request_id, o)) =
    begun (record w { admitted = erase_idx w.admitted n }) (claim settings at request_id o w.daemon)

abbrev pub stage_after : Bool → Stage
stage_after true = announced
stage_after false = unpublished

-- Only an owner that is starting has its receiver of RUNNING left.
abbrev pub announced_by :
    Settings → Readings → ℕ → VerifiedRunningTask → World → Option Live → World
announced_by settings at n running_task w none = w
announced_by settings at n running_task w (some l) = elim l.stage [
  | starting ↦
      let (d, _, published) =
        publish_initial settings at l.owner running_task l.cancellation w.daemon in
      record w { daemon = d; live = set w.live n (record l { stage = stage_after published }) }
  | announced ↦ w
  | unpublished ↦ w
]

abbrev pub finished_by :
    Settings
    → Readings
    → SubmitExecutionOwner
    → Stage
    → Result ExecutionFailure TaskSnapshot
    → Daemon
    → Daemon
finished_by settings at o starting completion d =
    (finish_without_running settings at o completion d).0
finished_by settings at o announced completion d = complete_running settings at o completion d
finished_by settings at o unpublished completion d =
    drop_unresolved settings at.activated o.task_id d

-- An execution without a result goes on.
abbrev pub ended_with :
    World
    → ℕ
    → (Result ExecutionFailure TaskSnapshot → Daemon → Daemon)
    → Daemon
    → Option (Result ExecutionFailure TaskSnapshot)
    → World
ended_with w n finish d none = record w { daemon = d }
ended_with w n finish d (some completion) = record w {
  daemon = finish completion d;
  live = erase_idx w.live n;
}

abbrev pub ended :
    Settings
    → Readings
    → ℕ
    → Ending
    → World
    → (Result ExecutionFailure TaskSnapshot → Daemon → Daemon)
    → World
ended settings at n ending w finish =
    let (s, completion) = execution_result settings at.activated ending w.daemon.fail_stop in
    ended_with w n finish (record w.daemon { fail_stop = s }) completion

abbrev pub ended_by : Settings → Readings → ℕ → Ending → World → Option Live → World
ended_by settings at n ending w none = w
ended_by settings at n ending w (some l) =
    ended settings at n ending w (finished_by settings at l.owner l.stage)

abbrev pub ended_announced_by :
    Settings → Readings → ℕ → VerifiedRunningTask → Ending → World → Option Live → World
ended_announced_by settings at n running_task ending w none = w
ended_announced_by settings at n running_task ending w (some l) = elim l.stage [
  | starting ↦ ended settings at n ending w (λ completion d.
      (finish_after_running settings at l.owner running_task l.cancellation completion d).0)
  | announced ↦ w
  | unpublished ↦ w
]

module _ (settings : Settings) where
  unfoldable pub step : World → Action → World
  unfolding get_elem? erase_idx set begin admit claim settle activate existing_submit
      publish_initial finish_without_running complete_running finish_after_running execution_result
      snapshot request_cancel
  step w (submits at request_id request candidate) =
      begun w (begin settings at request_id request candidate w.daemon)
  step w (looks_up at request) = record w {
    daemon = record w.daemon {
      registry = (existing_submit at.looked_up request w.daemon.registry).0;
    };
  }
  step w (admits at request_id request candidate) =
      entered w request_id (admit at request_id request candidate w.daemon)
  step w (claims at n) = claimed_by settings at n w (get_elem? w.admitted n)
  step w (stops now report) = record w {
    daemon = record w.daemon { fail_stop = (activate settings now report w.daemon.fail_stop).0 };
  }
  step w (settles at request_id task_id observation) = record w {
    daemon = (settle at request_id task_id observation w.daemon).0;
  }
  step w (asks now id) = record w {
    daemon = record w.daemon { registry = (snapshot now id w.daemon.registry).0 };
  }
  step w (cancels now id) = record w {
    daemon = record w.daemon { registry = (request_cancel now id w.daemon.registry).0 };
  }
  step w (announces at n running_task) =
      announced_by settings at n running_task w (get_elem? w.live n)
  step w (ends at n ending) = ended_by settings at n ending w (get_elem? w.live n)
  step w (ends_announced at n running_task ending) =
      ended_announced_by settings at n running_task ending w (get_elem? w.live n)

  unfoldable pub run : World → List Action → World
  unfolding step
  run w [] = w
  run w (a ∷ rest) = run (step w a) rest

-- The daemon as it starts.
unfoldable pub start : ℕ → ℕ → World
unfolding new
start maximum max_tasks = record {
  daemon = record {
    registry = initialize max_tasks;
    capacity = new maximum;
    fail_stop = initial;
    metrics = default_metrics;
    next_cancellation = 0;
  };
  admitted = [];
  live = [];
}
