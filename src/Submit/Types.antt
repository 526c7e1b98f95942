-- ===== src/Submit/Types.antt =====
-- The data of the submit use case. What the daemon shares between submissions is one record, of which
-- every call changes one component.
use taskcage.Prelude.{ℕ, String, Bool, Option, Result}
use taskcage.Core.Task.{TaskSnapshot}
use taskcage.Capacity.{TaskCapacity}
use taskcage.FailStop.{State}
use taskcage.Metrics.{RuntimeMetrics}
use taskcage.Registry.Types.{
  RegistryError, SubmitFailure, SubmitObservation, VerifiedEffectiveLimits, SubmitWaiter,
  SubmitExecutionOwner,
}
use taskcage.Registry.Methods.{Registry}

-- `SubmissionRuntime` and the registry. `next_cancellation` is the address of the next
-- `cancellation_channel`.
pub record Daemon : Type 0 where
  pub registry : Registry
  pub capacity : TaskCapacity
  pub fail_stop : State
  pub metrics : RuntimeMetrics
  pub next_cancellation : ℕ

-- The clock's readings in one stretch of code between two awaits, in the order of the calls that take
-- one: of the registry's lookups and changes, of a completion's second reading, of the release of a
-- failed owner, and of the activation of fail-stop.
pub record Readings : Type 0 where
  pub looked_up : ℕ
  pub changed : ℕ
  pub finished_at : ℕ
  pub released : ℕ
  pub activated : ℕ
  pub limits : ℕ

pub record SubmitOutcome : Type 0 where
  pub request_id : String
  pub task_id : String
  pub effective_limits : Option VerifiedEffectiveLimits
  pub observation : SubmitObservation

-- The errors after validation.
pub data SubmitError : Type 0 where
  registry_error : RegistryError → SubmitError
  coordinator_stopped : SubmitError

pub record ExecutionFailure : Type 0 where
  pub submit : SubmitFailure
  pub capacity_reusable : Bool
  pub cleanup_complete : Bool

pub record VerifiedRunningTask : Type 0 where
  pub snapshot : TaskSnapshot
  pub effective_limits : VerifiedEffectiveLimits

-- What a submission is doing after its synchronous beginning: it has its answer, it waits for another
-- submission's observation, or its owner runs, with the address of its cancellation.
pub data Begun : Type 0 where
  answered : Result SubmitError SubmitOutcome → Begun
  waits : SubmitWaiter → Begun
  spawned : SubmitExecutionOwner → ℕ → Begun
