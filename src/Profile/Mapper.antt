-- ===== src/Profile/Mapper.antt =====
-- daemon/src/profile_mapper.rs: the staged paths are bound to the arguments of a verified invocation. A
-- path and a token are the lists of their bytes.
use taskcage.Prelude.{
  ℕ, ◌+◌, String, Bool, true, false, ◌&&◌, not, List, [], ◌∷◌, ◌==◌, if◌then◌else◌, Result, ok, err,
  ◌>>=◌, ◌>>◌, ok_or,
}
use taskcage.Prelude.Map
use taskcage.Prelude.Map.{Map}
use taskcage.Prelude.Ordered
use taskcage.Prelude.Utf8.{utf8, has_nul}
use taskcage.Core.Invocation.{ProfileIdentity}
use taskcage.Policy.Budget.{ResourceBudget}
use taskcage.Profile.Types.{
  CapsuleIdentity, CapsuleRuntimeReference, CapsuleOutput, VerifiedArgument, VerifiedInvocation,
}

pub data ArtifactBindingKind : Type 0 where
  input output : ArtifactBindingKind

pub record ArtifactBindings : Type 0 where
  pub input_paths : List (String × List ℕ)
  pub output_paths : List (String × List ℕ)
  pub working_directory : List ℕ

pub record MaterializedInvocation : Type 0 where
  pub capsule_identity : CapsuleIdentity
  pub profile_identity : ProfileIdentity
  pub runtime : CapsuleRuntimeReference
  pub argv0 : List ℕ
  pub arguments : List (List ℕ)
  pub working_directory : List ℕ
  pub effective_resources : ResourceBudget
  pub declared_output : CapsuleOutput

-- `missing_input` and `missing_output` are the two reasons of `InvalidVerifiedInvocation`.
pub data MaterializationError : Type 0 where
  duplicate_binding non_absolute_binding nul_binding :
      ArtifactBindingKind → String → MaterializationError
  binding_set_mismatch :
      List String → List String → List String → List String → MaterializationError
  non_absolute_working_directory nul_argv0 nul_working_directory : MaterializationError
  nul_argument : ℕ → MaterializationError
  missing_input missing_output : String → MaterializationError

unfoldable pub collect_bindings :
    ArtifactBindingKind
    → List (String × List ℕ)
    → Map (List ℕ)
    → Result MaterializationError (Map (List ℕ))
unfolding Ordered.insert
collect_bindings kind [] collected = ok collected
collect_bindings kind ((slot, path) ∷ bindings) collected =
    let rest = collect_bindings kind bindings (Ordered.insert slot path collected) in
    if Map.contains_key slot collected then err (duplicate_binding kind slot) else rest

abbrev pub is_empty : List String → Bool
is_empty [] = true
is_empty (s ∷ ss) = false

-- The difference of the sets of keys of two maps.
abbrev pub set_difference {ℓ κ} : {V : Type ℓ} {W : Type κ} → Map V → Map W → List String
set_difference left right = Ordered.difference left (λ slot. Map.contains_key slot right)

unfoldable pub validate_binding_sets :
    VerifiedInvocation → Map (List ℕ) → Map (List ℕ) → Result MaterializationError (Unit {0})
unfolding Ordered.difference
validate_binding_sets invocation input_paths output_paths =
    let expected_outputs : Map (Unit {0}) = (invocation.capsule.profile.output.name, tt) ∷ [] in
    let missing_inputs = set_difference invocation.input_artifacts input_paths in
    let unknown_inputs = set_difference input_paths invocation.input_artifacts in
    let missing_outputs = set_difference expected_outputs output_paths in
    let unknown_outputs = set_difference output_paths expected_outputs in
    if is_empty missing_inputs
      && is_empty unknown_inputs
      && is_empty missing_outputs
      && is_empty unknown_outputs
    then ok tt
    else err (binding_set_mismatch missing_inputs unknown_inputs missing_outputs unknown_outputs)

abbrev pub is_absolute : List ℕ → Bool
is_absolute [] = false
is_absolute (c ∷ cs) = c == 47

abbrev check_path : ArtifactBindingKind → String → List ℕ → Result MaterializationError (Unit {0})
check_path kind slot path =
    if not (is_absolute path)
    then err (non_absolute_binding kind slot)
    else if has_nul path
    then err (nul_binding kind slot)
    else ok tt

unfoldable pub validate_absolute_paths :
    ArtifactBindingKind → Map (List ℕ) → Result MaterializationError (Unit {0})
unfolding has_nul
validate_absolute_paths kind [] = ok tt
validate_absolute_paths kind ((slot, path) ∷ paths) =
    check_path kind slot path >> validate_absolute_paths kind paths

abbrev pub token_of :
    Map (List ℕ) → Map (List ℕ) → VerifiedArgument → Result MaterializationError (List ℕ)
token_of input_paths output_paths (VerifiedArgument.literal value) = ok (utf8 value)
token_of input_paths output_paths (VerifiedArgument.input_artifact_path slot) =
    ok_or (Map.lookup slot input_paths) (missing_input slot)
token_of input_paths output_paths (VerifiedArgument.output_artifact_path slot) =
    ok_or (Map.lookup slot output_paths) (missing_output slot)

abbrev pub unless : Bool → MaterializationError → Result MaterializationError (Unit {0})
unless false e = ok tt
unless true e = err e

-- The loop over the arguments, from an index on.
unfoldable pub bind_tokens :
    ℕ
    → Map (List ℕ)
    → Map (List ℕ)
    → List VerifiedArgument
    → Result MaterializationError (List (List ℕ))
unfolding utf8 has_nul
bind_tokens index input_paths output_paths [] = ok []
bind_tokens index input_paths output_paths (argument ∷ arguments) = do
  token ← token_of input_paths output_paths argument
  unless (has_nul token) (nul_argument index)
  rest ← bind_tokens (index + 1) input_paths output_paths arguments
  ok (token ∷ rest)

unfoldable pub materialize_invocation :
    VerifiedInvocation → ArtifactBindings → Result MaterializationError MaterializedInvocation
unfolding collect_bindings validate_binding_sets validate_absolute_paths bind_tokens utf8 has_nul
materialize_invocation invocation bindings = do
  input_paths ← collect_bindings input bindings.input_paths []
  output_paths ← collect_bindings output bindings.output_paths []
  validate_binding_sets invocation input_paths output_paths
  validate_absolute_paths input input_paths
  validate_absolute_paths output output_paths
  unless (not (is_absolute bindings.working_directory)) non_absolute_working_directory
  unless (has_nul bindings.working_directory) nul_working_directory
  unless (has_nul (utf8 invocation.profile_identity.name)) nul_argv0
  arguments ← bind_tokens 0 input_paths output_paths invocation.arguments
  ok (record {
    capsule_identity = invocation.capsule.identity;
    profile_identity = invocation.profile_identity;
    runtime = invocation.capsule.runtime;
    argv0 = utf8 invocation.profile_identity.name;
    arguments = arguments;
    working_directory = bindings.working_directory;
    effective_resources = invocation.effective_resources;
    declared_output = invocation.capsule.profile.output;
  })
