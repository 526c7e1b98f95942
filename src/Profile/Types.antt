-- ===== src/Profile/Types.antt =====
-- The contract of a capsule (daemon/src/capsule.rs, with the parts of it that
-- daemon/src/adapters/outbound/bundle_catalog.rs declares), and the outcome of a verification. The
-- text of an error is the value that it is made from.
use taskcage.Prelude.{ℕ, String, Bool, List}
use taskcage.Prelude.Map.{Map}
use taskcage.Prelude.Int.{ℤ}
use taskcage.Core.Invocation.{ProfileIdentity, ProfileValue}
use taskcage.Policy.Error.{PolicyError}
use taskcage.Policy.Budget.{ResourceBudget, ResourceMaximumViolation}

pub record CapsuleIdentity : Type 0 where
  pub name : String
  pub version : String

-- A digest is the list of its bytes.
pub record CapsuleRuntimeReference : Type 0 where
  pub package_id : String
  pub package_digest : List ℕ

pub data CapsuleInt64Constraint : Type 0 where
  allowed_values : List ℤ → CapsuleInt64Constraint
  range : ℤ → ℤ → CapsuleInt64Constraint

pub data CapsuleInputKind : Type 0 where
  local_input_kind string_kind boolean_kind : CapsuleInputKind
  int64_kind : CapsuleInt64Constraint → CapsuleInputKind

pub record CapsuleInput : Type 0 where
  pub name : String
  pub required : Bool
  pub kind : CapsuleInputKind

pub data CapsuleInputValueKind : Type 0 where
  string_value int64_value boolean_value : CapsuleInputValueKind

pub data CapsuleArgument : Type 0 where
  literal input_path output_path : String → CapsuleArgument
  input_value : CapsuleInputValueKind → String → CapsuleArgument

pub record CapsuleOutput : Type 0 where
  pub name : String
  pub file_name : String
  pub media_type : String
  pub maximum_bytes : ℕ

pub record CapsuleResourcePolicy : Type 0 where
  pub quota_micros : ℕ
  pub period_micros : ℕ
  pub memory_max_bytes : ℕ
  pub pids_max : ℕ
  pub wall_time_limit_ms : ℕ
  pub stdout_tail_max_bytes : ℕ
  pub stderr_tail_max_bytes : ℕ

pub record CompiledCapsuleProfile : Type 0 where
  pub domain_identity : ProfileIdentity
  pub inputs : List CapsuleInput
  pub arguments : List CapsuleArgument
  pub output : CapsuleOutput
  pub resource_policy : CapsuleResourcePolicy
  pub allowed_overrides : List String

pub record CompiledCapsule : Type 0 where
  pub identity : CapsuleIdentity
  pub runtime : CapsuleRuntimeReference
  pub profile : CompiledCapsuleProfile

-- `LocalInputArtifact`: the bytes of its path, its digest and its size.
pub record LocalInputArtifact : Type 0 where
  pub path : List ℕ
  pub digest : List ℕ
  pub size_bytes : ℕ

pub data VerifiedArgument : Type 0 where
  literal input_artifact_path output_artifact_path : String → VerifiedArgument

pub record VerifiedInvocation : Type 0 where
  pub capsule : CompiledCapsule
  pub profile_identity : ProfileIdentity
  pub values : Map ProfileValue
  pub input_artifacts : Map LocalInputArtifact
  pub arguments : List VerifiedArgument
  pub effective_resources : ResourceBudget

pub data InputValueRejection : Type 0 where
  int64_constraint string_constraint artifact_path artifact_digest : InputValueRejection

-- What is invalid about a compiled contract.
pub data ContractFault : Type 0 where
  identities_differ input_count bad_input local_input_count bad_output_slot argument_count
        bad_override lost_input bad_literal :
      ContractFault
  bad_input_path scalar_kind missing_scalar scalar_value bad_output_path : String → ContractFault
  bad_policy : PolicyError → ContractFault

pub data OverrideFault : Type 0 where
  no_field : OverrideFault
  not_valid : PolicyError → OverrideFault

pub data PolicyFault : Type 0 where
  not_allowed : String → PolicyFault
  exceeds : ResourceMaximumViolation → PolicyFault

pub data InvocationError : Type 0 where
  invalid_name invalid_version : InvocationError
  capsule_profile_not_found : String → String → InvocationError
  duplicate_input : String → InvocationError
  input_set_mismatch : List String → List String → InvocationError
  input_type_mismatch : String → String → String → InvocationError
  input_value_rejected : String → InputValueRejection → InvocationError
  invalid_resource_override : OverrideFault → InvocationError
  policy_rejected : PolicyFault → InvocationError
  invalid_compiled_contract : ContractFault → InvocationError
