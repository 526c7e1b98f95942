-- ===== src/Profile/Contract.antt =====
-- `verify_profile_call`: the checks of one profile call, in their order.
use taskcage.Prelude.{
  ℕ, ◌+◌, String, Bool, true, false, ◌&&◌, not, List, [], ◌∷◌, str_eq, leb, ◌==◌, length, Result,
  ok, err, ◌>>=◌, ◌>>◌,
}
use taskcage.Core.Invocation.{ProfileIdentity, ProfileCall}
use taskcage.Profile.Types.{
  CapsuleInput, CapsuleInputKind, local_input_kind, CompiledCapsule, VerifiedInvocation,
  InvocationError, invalid_name, invalid_version, capsule_profile_not_found,
  invalid_compiled_contract, ContractFault, identities_differ, input_count, bad_input,
  local_input_count, bad_output_slot, argument_count, bad_override,
}
use taskcage.Profile.Names.{
  is_valid_capsule_name, valid_profile_version, valid_slot_name, known_override_field, contains,
}
use taskcage.Profile.Inputs.{
  collect_inputs, validate_exact_input_set, validate_input_values, collect_into, validate_into,
}
use taskcage.Profile.Arguments.{kinds_into, bind_all}
use taskcage.Profile.Resources.{resolve_resources}

abbrev pub guard : Bool → InvocationError → Result InvocationError (Unit {0})
guard false e = err e
guard true e = ok tt

unfoldable pub validate_requested_identity : ProfileIdentity → Result InvocationError (Unit {0})
unfolding is_valid_capsule_name valid_profile_version
validate_requested_identity identity = do
  guard (is_valid_capsule_name identity.name) invalid_name
  guard (valid_profile_version identity.version) invalid_version

abbrev fault : ContractFault → InvocationError
fault f = invalid_compiled_contract f

abbrev pub is_local : CapsuleInputKind → ℕ
is_local local_input_kind = 1
is_local _ = 0

-- The loop over the inputs: the names seen and the number of local inputs.
unfoldable pub check_inputs : List CapsuleInput → List String → ℕ → Result InvocationError ℕ
unfolding valid_slot_name contains
check_inputs [] names local_inputs = ok local_inputs
check_inputs (input ∷ inputs) names local_inputs = do
  guard (input.required && valid_slot_name input.name && not (contains input.name names))
      (fault bad_input)
  check_inputs inputs (input.name ∷ names) (is_local input.kind + local_inputs)

unfoldable pub check_overrides : List String → List String → Result InvocationError (Unit {0})
unfolding known_override_field contains
check_overrides [] allowed = ok tt
check_overrides (field ∷ fields) allowed = do
  guard (known_override_field field && not (contains field allowed)) (fault bad_override)
  check_overrides fields (field ∷ allowed)

unfoldable pub validate_compiled_structure : CompiledCapsule → Result InvocationError (Unit {0})
unfolding check_inputs check_overrides valid_slot_name
validate_compiled_structure capsule =
    let profile = capsule.profile in
    do
      guard
          (str_eq capsule.identity.name profile.domain_identity.name
            && str_eq capsule.identity.version profile.domain_identity.version)
          (fault identities_differ)
      guard (leb 1 (length profile.inputs) && leb (length profile.inputs) 32) (fault input_count)
      local_inputs ← check_inputs profile.inputs [] 0
      guard (local_inputs == 1) (fault local_input_count)
      guard (valid_slot_name profile.output.name) (fault bad_output_slot)
      guard (leb 1 (length profile.arguments) && leb (length profile.arguments) 128)
          (fault argument_count)
      check_overrides profile.allowed_overrides []

abbrev pub same_identity : CompiledCapsule → ProfileIdentity → Bool
same_identity capsule identity =
    str_eq identity.name capsule.identity.name
    && str_eq identity.version capsule.identity.version
    && str_eq identity.name capsule.profile.domain_identity.name
    && str_eq identity.version capsule.profile.domain_identity.version

unfoldable pub verify_profile_call :
    CompiledCapsule → ProfileCall → Result InvocationError VerifiedInvocation
unfolding validate_requested_identity validate_compiled_structure collect_into
    validate_exact_input_set validate_into kinds_into bind_all resolve_resources
verify_profile_call capsule call =
    let profile = capsule.profile in
    do
      validate_requested_identity call.identity
      validate_compiled_structure capsule
      guard (same_identity capsule call.identity)
          (capsule_profile_not_found call.identity.name call.identity.version)
      values ← collect_inputs call.inputs
      validate_exact_input_set profile.inputs values
      input_artifacts ← validate_input_values profile.inputs values
      arguments ←
          bind_all profile.output.name (kinds_into profile.inputs []) values input_artifacts
            profile.arguments
      effective_resources ← resolve_resources profile call.resource_overrides
      ok (record {
        capsule = capsule;
        profile_identity = call.identity;
        values = values;
        input_artifacts = input_artifacts;
        arguments = arguments;
        effective_resources = effective_resources;
      })
