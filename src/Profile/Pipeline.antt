-- ===== src/Profile/Pipeline.antt =====
-- The whole way of a profile call: verified, then materialized.
use taskcage.Prelude.{
  ℕ, ◌≡◌, refl, sym, subst, inl, inr, Bool, true, false, not, List, [], arith, >>=-eq-err,
  >>-eq-err, err_injective, ok_injective, >>=-eq-ok, >>-eq-ok, if◌then◌else◌, length, Result, ok,
  err, ◌>>=◌, ◌>>◌,
}
use taskcage.Prelude.Map.{Map}
use taskcage.Prelude.Utf8.{utf8, has_nul}
use taskcage.Core.Invocation.{ProfileCall}
use taskcage.Profile.Types.{CompiledCapsule, VerifiedInvocation}
use taskcage.Profile.Contract.{verify_profile_call}
use taskcage.Profile.Verified.{verify_profile_call-Verified}
use taskcage.Profile.Bound.{AllClean, verified-AllClean}
use taskcage.Profile.Mapper.{
  input, output, ArtifactBindings, MaterializedInvocation, MaterializationError,
  binding_set_mismatch, non_absolute_working_directory, nul_argv0, nul_working_directory,
  collect_bindings, validate_binding_sets, is_absolute, validate_absolute_paths, unless,
  bind_tokens, materialize_invocation,
}
use taskcage.Profile.Paths.{
  BindingFault, collect_bindings-BindingFault, validate_absolute_paths-PathsClean,
  validate_absolute_paths-BindingFault,
}
use taskcage.Profile.Materialized.{
  NulFree, validate_binding_sets-Covers, bind_tokens-ok, verified_name-IsClean, unless-BindingFault,
}

if_ok-BindingFault :
    (b : Bool) (fault e : MaterializationError)
    → BindingFault fault
    → (let r : Result MaterializationError (Unit {0}) = if b then ok tt else err fault in r) ≡ err e
    → BindingFault e
if_ok-BindingFault true fault e f h = absurd (ground (arith, h))
if_ok-BindingFault false fault e f h = subst BindingFault (err_injective fault e h) f

validate_binding_sets-BindingFault :
    (v : VerifiedInvocation) (input_paths output_paths : Map (List ℕ)) (e : MaterializationError)
    → validate_binding_sets v input_paths output_paths ≡ err e
    → BindingFault e
unfolding validate_binding_sets
validate_binding_sets-BindingFault v input_paths output_paths e h =
    if_ok-BindingFault _ (binding_set_mismatch _ _ _ _) e tt h

pub verified_tokens :
    (capsule : CompiledCapsule) (call : ProfileCall) (v : VerifiedInvocation)
    (input_paths output_paths : Map (List ℕ))
    → verify_profile_call capsule call ≡ ok v
    → validate_binding_sets v input_paths output_paths ≡ ok tt
    → validate_absolute_paths input input_paths ≡ ok tt
    → validate_absolute_paths output output_paths ≡ ok tt
    → (tokens : List (List ℕ)) × (bind_tokens 0 input_paths output_paths v.arguments ≡ ok tokens)
      × (length tokens ≡ length v.arguments)
      × NulFree tokens
verified_tokens capsule call v input_paths output_paths accepted sets ins outs =
    bind_tokens-ok v input_paths output_paths
      (validate_binding_sets-Covers v input_paths output_paths sets)
      (validate_absolute_paths-PathsClean input input_paths ins)
      (validate_absolute_paths-PathsClean output output_paths outs) 0 v.arguments
      (subst (λ c. AllClean v.input_artifacts c.profile.output.name v.arguments)
        (sym ((verify_profile_call-Verified capsule call v accepted).capsule_same))
        (verified-AllClean capsule call v accepted).0)

module _ (v : VerifiedInvocation) (named : has_nul (utf8 v.profile_identity.name) ≡ false) where
  -- What `materialize_invocation` does once the paths are validated.
  abbrev pub last_part :
      ArtifactBindings
      → Map (List ℕ)
      → Map (List ℕ)
      → Result MaterializationError MaterializedInvocation
  last_part bindings input_paths output_paths = do
    unless (not (is_absolute bindings.working_directory)) non_absolute_working_directory
    unless (has_nul bindings.working_directory) nul_working_directory
    unless (has_nul (utf8 v.profile_identity.name)) nul_argv0
    arguments ← bind_tokens 0 input_paths output_paths v.arguments
    ok (record {
      capsule_identity = v.capsule.identity;
      profile_identity = v.profile_identity;
      runtime = v.capsule.runtime;
      argv0 = utf8 v.profile_identity.name;
      arguments = arguments;
      working_directory = bindings.working_directory;
      effective_resources = v.effective_resources;
      declared_output = v.capsule.profile.output;
    })

  last_part-BindingFault :
      (bindings : ArtifactBindings) (input_paths output_paths : Map (List ℕ))
      (tokens : List (List ℕ)) (e : MaterializationError)
      → bind_tokens 0 input_paths output_paths v.arguments ≡ ok tokens
      → last_part bindings input_paths output_paths ≡ err e
      → BindingFault e
  last_part-BindingFault bindings input_paths output_paths tokens e made h =
      elim (>>-eq-err (unless (not (is_absolute bindings.working_directory)) _) _ h) [
        | inl a ↦ unless-BindingFault _ non_absolute_working_directory e tt a
        | inr (_, h1) ↦ elim (>>-eq-err (unless (has_nul bindings.working_directory) _) _ h1) [
          | inl b ↦ unless-BindingFault _ nul_working_directory e tt b
          | inr (_, h2) ↦ absurd (ground (arith, h2, named, made))
        ]
      ]

-- An invocation that the verification accepted is refused a materialization for its bindings alone: a
-- slot bound twice, a path that is relative or has a NUL, a set of slots that is not the declared one,
-- or a bad working directory. Never is an argument missing, and never does argv have a NUL.
pub materialize_blames_bindings :
    (capsule : CompiledCapsule) (call : ProfileCall) (v : VerifiedInvocation)
    (bindings : ArtifactBindings) (e : MaterializationError)
    → verify_profile_call capsule call ≡ ok v
    → materialize_invocation v bindings ≡ err e
    → BindingFault e
unfolding materialize_invocation
materialize_blames_bindings capsule call v bindings e accepted h =
    elim (>>=-eq-err (collect_bindings input bindings.input_paths []) _ h) [
      | inl a ↦ collect_bindings-BindingFault input bindings.input_paths [] e a
      | inr (ins, _, h1) ↦
          elim (>>=-eq-err (collect_bindings output bindings.output_paths []) _ h1) [
            | inl a ↦ collect_bindings-BindingFault output bindings.output_paths [] e a
            | inr (outs, _, h2) ↦ elim (>>-eq-err (validate_binding_sets v ins outs) _ h2) [
              | inl a ↦ validate_binding_sets-BindingFault v ins outs e a
              | inr (sets, h3) ↦ elim (>>-eq-err (validate_absolute_paths input ins) _ h3) [
                | inl a ↦ validate_absolute_paths-BindingFault input ins e a
                | inr (ins_ok, h4) ↦ elim (>>-eq-err (validate_absolute_paths output outs) _ h4) [
                  | inl a ↦ validate_absolute_paths-BindingFault output outs e a
                  | inr (outs_ok, h5) ↦
                      let (tokens, made, _, _) =
                        verified_tokens capsule call v ins outs accepted sets ins_ok outs_ok in
                      last_part-BindingFault v (verified_name-IsClean capsule call v accepted)
                        bindings ins outs tokens e made h5
                ]
              ]
            ]
          ]
    ]

pub last_part-eq-ok :
    (v : VerifiedInvocation) (named : has_nul (utf8 v.profile_identity.name) ≡ false)
    (bindings : ArtifactBindings) (input_paths output_paths : Map (List ℕ))
    (m : MaterializedInvocation)
    → last_part v named bindings input_paths output_paths ≡ ok m
    → (bind_tokens 0 input_paths output_paths v.arguments ≡ ok m.arguments)
      × (m.argv0 ≡ utf8 v.profile_identity.name)
      × (m.working_directory ≡ bindings.working_directory)
      × (is_absolute m.working_directory ≡ true)
      × (has_nul m.working_directory ≡ false)
      × (m.effective_resources ≡ v.effective_resources)
last_part-eq-ok v named bindings input_paths output_paths m h =
    let (a, h1) =
      >>-eq-ok
        (unless (not (is_absolute bindings.working_directory)) non_absolute_working_directory) _
        h in
    let (b, h2) =
      >>-eq-ok (unless (has_nul bindings.working_directory) nul_working_directory) _ h1 in
    let (_, h3) = >>-eq-ok (unless (has_nul (utf8 v.profile_identity.name)) nul_argv0) _ h2 in
    let (tokens, made, h4) = >>=-eq-ok (bind_tokens 0 input_paths output_paths v.arguments) _ h3 in
    subst
      (λ z.
        (bind_tokens 0 input_paths output_paths v.arguments ≡ ok z.arguments)
        × (z.argv0 ≡ utf8 v.profile_identity.name)
        × (z.working_directory ≡ bindings.working_directory)
        × (is_absolute z.working_directory ≡ true)
        × (has_nul z.working_directory ≡ false)
        × (z.effective_resources ≡ v.effective_resources))
      (ok_injective _ m h4) (made, refl, refl, ground (arith, a), ground (arith, b), refl)
