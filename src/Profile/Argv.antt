-- ===== src/Profile/Argv.antt =====
-- The invocation that is executed, against the call and the bindings that it is made from.
use taskcage.Prelude.{
  ◌≡◌, sym, ap, ◌∙◌, subst, true, false, [], ok_injective, >>=-eq-ok, >>-eq-ok, ok,
}
use taskcage.Prelude.Utf8.{utf8, has_nul}
use taskcage.Core.Invocation.{ProfileCall}
use taskcage.Profile.Types.{CompiledCapsule, VerifiedInvocation}
use taskcage.Profile.Arguments.{kinds_into}
use taskcage.Profile.Contract.{verify_profile_call}
use taskcage.Profile.Verified.{verify_profile_call-Verified}
use taskcage.Profile.Mapper.{
  input, output, ArtifactBindings, MaterializedInvocation, collect_bindings, validate_binding_sets,
  is_absolute, validate_absolute_paths, materialize_invocation,
}
use taskcage.Profile.Materialized.{NulFree, verified_name-IsClean}
use taskcage.Profile.Pipeline.{last_part-eq-ok, verified_tokens}
use taskcage.Profile.Tokens.{AllRender, bind_tokens-AllRender}

-- If a call is verified and then materialized, argv has one token for each node of the capsule's
-- template, in its order: a literal is itself, a scalar is the printed value that the call gives to
-- its slot, and a path is one that the bindings give to its slot. No token has a NUL, argv0 is the
-- call's name, the working directory is the bound one, absolute and without a NUL, and the resources
-- are those that the verification granted.
pub argv_exact :
    (capsule : CompiledCapsule) (call : ProfileCall) (v : VerifiedInvocation)
    (bindings : ArtifactBindings) (m : MaterializedInvocation)
    → verify_profile_call capsule call ≡ ok v
    → materialize_invocation v bindings ≡ ok m
    → AllRender call bindings capsule.profile.arguments m.arguments
      × NulFree m.arguments
      × (m.argv0 ≡ utf8 call.identity.name)
      × (m.working_directory ≡ bindings.working_directory)
      × (is_absolute m.working_directory ≡ true)
      × (has_nul m.working_directory ≡ false)
      × (m.effective_resources ≡ v.effective_resources)
unfolding materialize_invocation
argv_exact capsule call v bindings m accepted h =
    let steps = verify_profile_call-Verified capsule call v accepted in
    let (ins, ins_bound, h1) = >>=-eq-ok (collect_bindings input bindings.input_paths []) _ h in
    let (outs, outs_bound, h2) =
      >>=-eq-ok (collect_bindings output bindings.output_paths []) _ h1 in
    let (sets, h3) = >>-eq-ok (validate_binding_sets v ins outs) _ h2 in
    let (ins_ok, h4) = >>-eq-ok (validate_absolute_paths input ins) _ h3 in
    let (outs_ok, h5) = >>-eq-ok (validate_absolute_paths output outs) _ h4 in
    let (made, named, directory, absolute, clean, granted) =
      last_part-eq-ok v (verified_name-IsClean capsule call v accepted) bindings ins outs m h5 in
    let (tokens, found, _, free) =
      verified_tokens capsule call v ins outs accepted sets ins_ok outs_ok in
    (
      bind_tokens-AllRender call bindings capsule.profile.output.name
          (kinds_into capsule.profile.inputs []) v.values v.input_artifacts ins outs steps.collected
          ins_bound outs_bound capsule.profile.arguments v.arguments 0 m.arguments steps.bound made,
      subst NulFree (ok_injective tokens m.arguments (sym found ∙ made)) free,
      named ∙ ap (λ i. utf8 i.name) steps.identity_same,
      directory,
      absolute,
      clean,
      granted,
    )
