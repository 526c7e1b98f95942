-- ===== src/Registry/Types.antt =====
-- The data of the registry. A shared `Arc<SubmitSignal>` or `Arc<CancellationState>` is the address of
-- its cell; pointer equality is the equality of addresses. An `Instant` is a number of nanoseconds.
use taskcage.Prelude.{ℕ, String, Option, List, ℕ_discrete, String_discrete}
use taskcage.Prelude.Map.{Map}
use taskcage.Core.Task.{TaskSnapshot}
use taskcage.Core.Invocation.{ProfileCall, ProfileCall-discrete}
use taskcage.Policy.Resource.{ResourcePolicy}
use taskcage.Policy.Budget.{ResourceBudget}

-- `RawCommand` of daemon/src/execution_plan.rs; the environment in the order of its `BTreeMap`.
pub record RawCommand : Type 0 where
  pub program : String
  pub arguments : List String
  pub working_directory : String
  pub environment : List (String × String)

pub record RawSubmission : Type 0 where
  pub client_request_id : String
  pub command : RawCommand
  pub budget : ResourceBudget

pub record ProfileSubmission : Type 0 where
  pub client_request_id : String
  pub call : ProfileCall

pub data SubmissionIdentity : Type 0 where
  raw : RawSubmission → SubmissionIdentity
  profile : ProfileSubmission → SubmissionIdentity

pub SubmissionIdentity-discrete : Discrete SubmissionIdentity
SubmissionIdentity-discrete = hlevel (String_discrete, ℕ_discrete, ProfileCall-discrete)

-- The execution plan of a `ValidatedSubmit` is only passed on by the registry and is left out.
pub record ValidatedSubmit : Type 0 where
  pub identity : SubmissionIdentity

abbrev client_request_id_of : SubmissionIdentity → String
client_request_id_of (raw submission) = submission.client_request_id
client_request_id_of (profile submission) = submission.client_request_id

abbrev pub client_request_id : ValidatedSubmit → String
client_request_id request = client_request_id_of request.identity

pub data UseCaseErrorCode : Type 0 where
  artifact_digest_mismatch capacity_exhausted environment_unavailable idempotency_conflict
        internal_error invalid_artifact_path invalid_profile_input limit_exceeds_policy
        profile_not_found task_already_finished task_not_found :
      UseCaseErrorCode

pub record SubmitFailure : Type 0 where
  pub code : UseCaseErrorCode
  pub message : String

pub data SubmitObservation : Type 0 where
  task : TaskSnapshot → SubmitObservation
  failed : SubmitFailure → SubmitObservation

pub data RegistryError : Type 0 where
  running_snapshot_required finished_snapshot_required state_unavailable capacity_exhausted :
      RegistryError
  task_already_exists idempotency_conflict task_not_found task_already_finished
        verified_effective_limits_required :
      String → RegistryError
  task_id_mismatch : String → String → RegistryError

-- `VerifiedEffectiveLimits` of daemon/src/resource_budget.rs.
pub record VerifiedEffectiveLimits : Type 0 where
  pub resources : ResourcePolicy

pub record TaskRecord : Type 0 where
  pub snapshot : TaskSnapshot
  pub effective_limits : Option VerifiedEffectiveLimits
  pub finished_monotonic : Option ℕ
  pub cancellation : Option ℕ

pub record RequestRecord : Type 0 where
  pub task_id : String
  pub identity : SubmissionIdentity
  pub reservation : ℕ

pub record FinishedExpiration : Type 0 where
  pub task_id : String
  pub finished_monotonic : ℕ

-- `RegistryState`; `max_tasks` is its settings.
pub record RegistryState : Type 0 where
  pub max_tasks : ℕ
  pub tasks : Map TaskRecord
  pub requests : Map RequestRecord
  pub task_requests : Map String
  pub finished_expirations : List FinishedExpiration

pub record SubmitWaiter : Type 0 where
  pub task_id : String
  pub signal : ℕ

pub record SubmitExecutionOwner : Type 0 where
  pub client_request_id : String
  pub task_id : String
  pub request : ValidatedSubmit
  pub signal : ℕ

pub data SubmitReservation : Type 0 where
  owner : SubmitExecutionOwner → SubmitReservation
  existing : SubmitWaiter → SubmitReservation

pub record FinishedTaskPublication : Type 0 where
  pub snapshot : TaskSnapshot
  pub cancellation : Option ℕ
  pub submit_signal : ℕ
