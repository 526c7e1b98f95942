-- ===== src/Profile/Materialized.antt =====
-- A verified invocation is materialized whenever its bindings are good.
use taskcage.Prelude.{
  ℕ, suc, ◌+◌, String, ◌≡◌, refl, sym, ap, ◌∙◌, subst, inl, inr, Bool, true, false, ◌||◌, List, [],
  ◌∷◌, arith, err_injective, >>-eq-ok, ◌==◌, Bool-cases, Option-cases, length, ok, err, ok_or,
}
use taskcage.Prelude.Map
use taskcage.Prelude.Map.{Map}
use taskcage.Prelude.Utf8.{utf8, has_nul}
use taskcage.Core.Invocation.{ProfileCall}
use taskcage.Profile.Types.{
  CompiledCapsule, VerifiedInvocation, VerifiedArgument, invalid_name, invalid_version,
}
use taskcage.Artifact.LocalPath.{prepend}
use taskcage.Profile.Names.{
  split_on, all_bytes, all_segments, starts_lower, name_byte, is_valid_capsule_name,
  valid_profile_version,
}
use taskcage.Profile.Contract.{guard, validate_requested_identity, verify_profile_call}
use taskcage.Profile.Verified.{verify_profile_call-Verified, guard-eq-ok}
use taskcage.Profile.Bound.{ArgumentClean, AllClean}
use taskcage.Profile.Mapper.{
  MaterializationError, missing_input, missing_output, validate_binding_sets, token_of, unless,
  bind_tokens,
}
use taskcage.Profile.Paths.{BindingFault, PathsClean, difference-nil}

-- A valid name has no NUL.
all_bytes-clean :
    (p : ℕ → Bool) (bytes : List ℕ) → p 0 ≡ false → all_bytes p bytes ≡ true → has_nul bytes ≡ false
unfolding all_bytes has_nul
all_bytes-clean p [] z h = refl
all_bytes-clean p (b ∷ bytes) z h = elim (Bool-cases (b == 0)) [
  | inl nul ↦ let e : b ≡ 0 = ground (arith, nul) in absurd (ground (arith, z, h, ap p e))
  | inr other ↦ rw other (all_bytes-clean p bytes z (ground (arith, h)))
]

any_nul : List (List ℕ) → Bool
any_nul [] = false
any_nul (s ∷ ss) = has_nul s || any_nul ss

any_nul-prepend : (c : ℕ) (ss : List (List ℕ)) → any_nul (prepend c ss) ≡ ((c == 0) || any_nul ss)
unfolding any_nul has_nul
any_nul-prepend c [] = ground arith
any_nul-prepend c (s ∷ ss) = ground arith

any_nul-split_on : (bytes : List ℕ) → any_nul (split_on 46 bytes) ≡ has_nul bytes
unfolding any_nul split_on has_nul
any_nul-split_on [] = refl
any_nul-split_on (c ∷ cs) = ground (arith, any_nul-split_on cs, any_nul-prepend c (split_on 46 cs))

name_segments-clean :
    (ss : List (List ℕ)) → all_segments (starts_lower name_byte) ss ≡ true → any_nul ss ≡ false
unfolding any_nul all_segments has_nul
name_segments-clean [] h = refl
name_segments-clean ([] ∷ ss) h = absurd (ground (arith, h))
name_segments-clean ((c ∷ cs) ∷ ss) h =
    ground (arith, all_bytes-clean name_byte cs refl, name_segments-clean ss)

name-IsClean : (name : String) → is_valid_capsule_name name ≡ true → has_nul (utf8 name) ≡ false
unfolding is_valid_capsule_name
name-IsClean name h =
    sym (any_nul-split_on (utf8 name))
    ∙ name_segments-clean (split_on 46 (utf8 name)) (ground (arith, h))

-- The sets of slots are those that the invocation has.
abbrev pub Covers : VerifiedInvocation → Map (List ℕ) → Map (List ℕ) → Type 0
Covers v input_paths output_paths =
    ((slot : String)
      → Map.contains_key slot v.input_artifacts ≡ true
      → Map.contains_key slot input_paths ≡ true)
    × (Map.contains_key v.capsule.profile.output.name output_paths ≡ true)

pub validate_binding_sets-Covers :
    (v : VerifiedInvocation) (input_paths output_paths : Map (List ℕ))
    → validate_binding_sets v input_paths output_paths ≡ ok tt
    → Covers v input_paths output_paths
unfolding validate_binding_sets Map.lookup
validate_binding_sets-Covers v input_paths output_paths h = (
  λ slot there.
      difference-nil v.input_artifacts (λ k. Map.contains_key k input_paths) slot
        (ground (arith, h)) there,
  ground (arith, h),
)

-- No token has a NUL.
abbrev pub NulFree : List (List ℕ) → Type 0
NulFree [] = Unit {0}
NulFree (token ∷ tokens) = (has_nul token ≡ false) × NulFree tokens

found_token :
    (slot : String) (paths : Map (List ℕ)) (e : MaterializationError)
    → PathsClean paths
    → Map.contains_key slot paths ≡ true
    → (token : List ℕ) × (ok_or (Map.lookup slot paths) e ≡ ok token) × (has_nul token ≡ false)
found_token slot paths e clean there = elim (Option-cases (Map.lookup slot paths)) [
  | inl missing ↦ absurd (ground (arith, there, missing))
  | inr (path, found) ↦ (path, rw found refl, clean slot path found)
]

module _ (v : VerifiedInvocation) (input_paths output_paths : Map (List ℕ))
    (covers : Covers v input_paths output_paths) (inputs_clean : PathsClean input_paths)
    (outputs_clean : PathsClean output_paths) where
  token_of-ok :
      (argument : VerifiedArgument)
      → ArgumentClean v.input_artifacts v.capsule.profile.output.name argument
      → (token : List ℕ) × (token_of input_paths output_paths argument ≡ ok token)
        × (has_nul token ≡ false)
  token_of-ok (VerifiedArgument.literal value) clean = (utf8 value, refl, clean)
  token_of-ok (VerifiedArgument.input_artifact_path slot) there =
      found_token slot input_paths (missing_input slot) inputs_clean (covers.0 slot there)
  token_of-ok (VerifiedArgument.output_artifact_path slot) same =
      found_token slot output_paths (missing_output slot) outputs_clean (rw same (covers.1))

  -- Every token is there and has no NUL.
  pub bind_tokens-ok :
      (index : ℕ) (arguments : List VerifiedArgument)
      → AllClean v.input_artifacts v.capsule.profile.output.name arguments
      → (tokens : List (List ℕ)) × (bind_tokens index input_paths output_paths arguments
          ≡ ok tokens)
        × (length tokens ≡ length arguments)
        × NulFree tokens
  unfolding bind_tokens
  bind_tokens-ok index [] clean = ([], refl, refl, tt)
  bind_tokens-ok index (argument ∷ arguments) clean =
      let (token, made, nul_free) = token_of-ok argument clean.0 in
      let (tokens, rest, same, free) = bind_tokens-ok (index + 1) arguments clean.1 in
      (token ∷ tokens, rw made (rw nul_free (rw rest refl)), ap suc same, (nul_free, free))

-- The name of an accepted call has no NUL.
pub verified_name-IsClean :
    (capsule : CompiledCapsule) (call : ProfileCall) (v : VerifiedInvocation)
    → verify_profile_call capsule call ≡ ok v
    → has_nul (utf8 v.profile_identity.name) ≡ false
unfolding validate_requested_identity
verified_name-IsClean capsule call v h =
    let steps = verify_profile_call-Verified capsule call v h in
    let (valid, _) =
      >>-eq-ok (guard (is_valid_capsule_name call.identity.name) invalid_name)
        (guard (valid_profile_version call.identity.version) invalid_version)
        steps.identity_valid in
    rw steps.identity_same (name-IsClean call.identity.name (guard-eq-ok _ _ valid))

pub unless-BindingFault :
    (b : Bool) (fault e : MaterializationError)
    → BindingFault fault
    → unless b fault ≡ err e
    → BindingFault e
unless-BindingFault true fault e f h = subst BindingFault (err_injective fault e h) f
unless-BindingFault false fault e f h = absurd (ground (arith, h))
