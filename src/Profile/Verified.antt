-- ===== src/Profile/Verified.antt =====
-- What an accepted profile call has passed.
use taskcage.Prelude.{
  ◌≡◌, refl, subst, Bool, true, false, [], ok_injective, >>=-eq-ok, >>-eq-ok, ok,
}
use taskcage.Core.Invocation.{ProfileCall}
use taskcage.Profile.Types.{
  CompiledCapsule, VerifiedInvocation, InvocationError, capsule_profile_not_found,
}
use taskcage.Profile.Inputs.{collect_inputs, validate_exact_input_set, validate_input_values}
use taskcage.Profile.Arguments.{kinds_into, bind_all}
use taskcage.Profile.Resources.{resolve_resources}
use taskcage.Profile.Contract.{
  guard, validate_requested_identity, validate_compiled_structure, same_identity,
  verify_profile_call,
}

pub guard-eq-ok : (b : Bool) (e : InvocationError) → guard b e ≡ ok tt → b ≡ true
guard-eq-ok true e h = refl
guard-eq-ok false e h = cc

pub record Verified (capsule : CompiledCapsule) (call : ProfileCall) (v : VerifiedInvocation)
    : Type 0 where
  pub identity_valid : validate_requested_identity call.identity ≡ ok tt
  pub structure_valid : validate_compiled_structure capsule ≡ ok tt
  pub identity_matches : same_identity capsule call.identity ≡ true
  pub collected : collect_inputs call.inputs ≡ ok v.values
  pub exact : validate_exact_input_set capsule.profile.inputs v.values ≡ ok tt
  pub checked : validate_input_values capsule.profile.inputs v.values ≡ ok v.input_artifacts
  pub bound :
      bind_all capsule.profile.output.name
        (kinds_into capsule.profile.inputs [])
        v.values
        v.input_artifacts
        capsule.profile.arguments
      ≡ ok v.arguments
  pub resolved :
      resolve_resources capsule.profile call.resource_overrides ≡ ok v.effective_resources
  pub capsule_same : v.capsule ≡ capsule
  pub identity_same : v.profile_identity ≡ call.identity

pub verify_profile_call-Verified :
    (capsule : CompiledCapsule) (call : ProfileCall) (v : VerifiedInvocation)
    → verify_profile_call capsule call ≡ ok v
    → Verified capsule call v
unfolding verify_profile_call
verify_profile_call-Verified capsule call v h =
    let (a, h1) = >>-eq-ok (validate_requested_identity call.identity) _ h in
    let (b, h2) = >>-eq-ok (validate_compiled_structure capsule) _ h1 in
    let (c, h3) =
      >>-eq-ok
        (guard (same_identity capsule call.identity)
          (capsule_profile_not_found call.identity.name call.identity.version))
        _ h2 in
    let (values, d, h4) = >>=-eq-ok (collect_inputs call.inputs) _ h3 in
    let (e, h5) = >>-eq-ok (validate_exact_input_set capsule.profile.inputs values) _ h4 in
    let (artifacts, f, h6) = >>=-eq-ok (validate_input_values capsule.profile.inputs values) _ h5 in
    let (arguments, g, h7) =
      >>=-eq-ok
        (bind_all capsule.profile.output.name (kinds_into capsule.profile.inputs []) values
          artifacts capsule.profile.arguments)
        _ h6 in
    let (resources, i, h8) =
      >>=-eq-ok (resolve_resources capsule.profile call.resource_overrides) _ h7 in
    subst (Verified capsule call) (ok_injective _ v h8) (record {
      identity_valid = a;
      structure_valid = b;
      identity_matches = guard-eq-ok _ _ c;
      collected = d;
      exact = e;
      checked = f;
      bound = g;
      resolved = i;
      capsule_same = refl;
      identity_same = refl;
    })
