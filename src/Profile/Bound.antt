-- ===== src/Profile/Bound.antt =====
-- Every argument that `bind_arguments` returns is clean, one for each node of the template.
use taskcage.Prelude.{
  suc, String, ◌≡◌, refl, ap, subst, inl, inr, Bool, true, false, ◌||◌, not, Option, none, some,
  List, [], ◌∷◌, arith, String_discrete, ok_injective, >>=-eq-ok, ok_or-eq-ok, if◌then◌else◌,
  Bool-cases, length, ok, err, ok_or,
}
use taskcage.Prelude.Map
use taskcage.Prelude.Map.{Map}
use taskcage.Core.Invocation.{ProfileCall, ProfileValue, text, int64, boolean, local_input}
use taskcage.Profile.Types.{
  CapsuleInput, CapsuleInputKind, local_input_kind, string_kind, boolean_kind, int64_kind,
  CapsuleInputValueKind, string_value, int64_value, boolean_value, CapsuleArgument, CompiledCapsule,
  VerifiedInvocation, LocalInputArtifact, VerifiedArgument, InvocationError,
  invalid_compiled_contract, missing_scalar, bad_input_path,
}
use taskcage.Profile.Inputs.{is_bad_text, check_value, validate_into}
use taskcage.Profile.Arguments.{
  kinds_into, argument_kind_matches_declaration, scalar_text, bind_argument, bind_all,
  is_local_input,
}
use taskcage.Profile.Contract.{verify_profile_call}
use taskcage.Profile.Verified.{verify_profile_call-Verified}
use taskcage.Profile.Clean.{
  IsClean, int_text-IsClean, bool_text-IsClean, good-IsClean, kinds_into-Declared,
  validate_into-Passed,
}

pub unless-ok :
    (b : Bool) (e : InvocationError) (a verified : VerifiedArgument)
    → (if b then err e else ok a) ≡ ok verified
    → (b ≡ false) × (a ≡ verified)
unless-ok true e a verified h = absurd (ground (arith, h))
unless-ok false e a verified h = (refl, ok_injective a verified h)

second_holds : (a b : Bool) → (not a || not b) ≡ false → b ≡ true
second_holds a b h = ground arith

abbrev input_path_fault : String → InvocationError
input_path_fault slot = invalid_compiled_contract (bad_input_path slot)

-- A literal has no NUL, and a path is of an input artifact or of the output.
abbrev pub ArgumentClean : Map LocalInputArtifact → String → VerifiedArgument → Type 0
ArgumentClean artifacts output_name (VerifiedArgument.literal value) = IsClean value
ArgumentClean artifacts output_name (VerifiedArgument.input_artifact_path slot) =
    Map.contains_key slot artifacts ≡ true
ArgumentClean artifacts output_name (VerifiedArgument.output_artifact_path slot) =
    slot ≡ output_name

abbrev pub AllClean : Map LocalInputArtifact → String → List VerifiedArgument → Type 0
AllClean artifacts output_name [] = Unit {0}
AllClean artifacts output_name (argument ∷ arguments) =
    ArgumentClean artifacts output_name argument × AllClean artifacts output_name arguments

string_value-Declared :
    (found : Option CapsuleInputKind)
    → argument_kind_matches_declaration string_value found ≡ true
    → found ≡ some string_kind
unfolding argument_kind_matches_declaration
string_value-Declared none h = absurd (ground arith)
string_value-Declared (some local_input_kind) h = absurd (ground arith)
string_value-Declared (some string_kind) h = refl
string_value-Declared (some boolean_kind) h = absurd (ground arith)
string_value-Declared (some (int64_kind c)) h = absurd (ground arith)

text-IsClean :
    (slot value : String) (artifact : Option LocalInputArtifact)
    → check_value slot string_kind (text value) ≡ ok artifact
    → IsClean value
unfolding check_value
text-IsClean slot value artifact h = elim (Bool-cases (is_bad_text value)) [
  | inl bad ↦ absurd (ground (arith, h, bad))
  | inr good ↦ good-IsClean value good
]

module _ (inputs : List CapsuleInput) (values : Map ProfileValue)
    (artifacts : Map LocalInputArtifact)
    (checked : validate_into inputs values [] ≡ ok artifacts) where
  text_value-IsClean :
      (slot value : String)
      → Map.lookup slot (kinds_into inputs []) ≡ some string_kind
      → Map.lookup slot values ≡ some (text value)
      → IsClean value
  unfolding Map.lookup
  text_value-IsClean slot value k h = elim (kinds_into-Declared slot string_kind inputs [] k) [
    | inl d ↦
        let (other, artifact, found, passed) =
          validate_into-Passed slot string_kind inputs values [] artifacts checked d in
        let same : other ≡ text value = ground (arith, h, found) in
        text-IsClean slot value artifact
          (subst (λ z. check_value slot string_kind z ≡ ok artifact) same passed)
    | inr e ↦ absurd (ground (arith, e))
  ]

  scalar_text-IsClean :
      (slot : String) (kind : CapsuleInputValueKind) (value : ProfileValue) (literal : String)
      → argument_kind_matches_declaration kind (Map.lookup slot (kinds_into inputs [])) ≡ true
      → Map.lookup slot values ≡ some value
      → scalar_text slot kind value ≡ ok literal
      → IsClean literal
  unfolding scalar_text
  scalar_text-IsClean slot string_value (text s) literal k found h =
      subst IsClean (ok_injective s literal h)
        (text_value-IsClean slot s (string_value-Declared _ k) found)
  scalar_text-IsClean slot string_value (int64 z) literal k found h = absurd (ground (arith, h))
  scalar_text-IsClean slot string_value (boolean b) literal k found h = absurd (ground (arith, h))
  scalar_text-IsClean slot string_value (local_input p d n) literal k found h =
      absurd (ground (arith, h))
  scalar_text-IsClean slot int64_value (int64 z) literal k found h =
      subst IsClean (ok_injective _ literal h) (int_text-IsClean z)
  scalar_text-IsClean slot int64_value (text s) literal k found h = absurd (ground (arith, h))
  scalar_text-IsClean slot int64_value (boolean b) literal k found h = absurd (ground (arith, h))
  scalar_text-IsClean slot int64_value (local_input p d n) literal k found h =
      absurd (ground (arith, h))
  scalar_text-IsClean slot boolean_value (boolean b) literal k found h =
      subst IsClean (ok_injective _ literal h) (bool_text-IsClean b)
  scalar_text-IsClean slot boolean_value (text s) literal k found h = absurd (ground (arith, h))
  scalar_text-IsClean slot boolean_value (int64 z) literal k found h = absurd (ground (arith, h))
  scalar_text-IsClean slot boolean_value (local_input p d n) literal k found h =
      absurd (ground (arith, h))

  bind_argument-ArgumentClean :
      (output_name : String) (argument : CapsuleArgument) (verified : VerifiedArgument)
      → bind_argument output_name (kinds_into inputs []) values artifacts argument ≡ ok verified
      → ArgumentClean artifacts output_name verified
  unfolding bind_argument
  bind_argument-ArgumentClean output_name (CapsuleArgument.literal value) verified h =
      elim (Bool-cases (is_bad_text value)) [
        | inl bad ↦ absurd (ground (arith, h, bad))
        | inr good ↦
            let e : VerifiedArgument.literal value ≡ verified = ground (arith, h, good) in
            subst (ArgumentClean artifacts output_name) e (good-IsClean value good)
      ]
  bind_argument-ArgumentClean output_name (CapsuleArgument.input_path slot) verified h =
      let local = is_local_input (Map.lookup slot (kinds_into inputs [])) in
      let there = Map.contains_key slot artifacts in
      let (both, e) = unless-ok (not local || not there) (input_path_fault slot) _ verified h in
      subst (ArgumentClean artifacts output_name) e (second_holds local there both)
  bind_argument-ArgumentClean output_name (CapsuleArgument.input_value kind slot) verified h =
      elim (Bool-cases
        (argument_kind_matches_declaration kind (Map.lookup slot (kinds_into inputs [])))) [
          | inl matches ↦
              let (value, found, h1) =
                >>=-eq-ok
                  (ok_or (Map.lookup slot values) (invalid_compiled_contract (missing_scalar slot)))
                  _ (rw matches at h) in
              let (literal, made, h2) = >>=-eq-ok (scalar_text slot kind value) _ h1 in
              subst (ArgumentClean artifacts output_name) (ok_injective _ verified h2)
                (scalar_text-IsClean slot kind value literal matches (ok_or-eq-ok _ _ found) made)
          | inr differs ↦ absurd (ground (arith, h, differs))
        ]
  bind_argument-ArgumentClean output_name (CapsuleArgument.output_path slot) verified h =
      elim (String_discrete slot output_name) [
        | yes p ↦
            let e : VerifiedArgument.output_artifact_path slot ≡ verified = ground (arith, h, p) in
            subst (ArgumentClean artifacts output_name) e p
        | no n ↦ absurd (ground (arith, h, n))
      ]

  pub bind_all-AllClean :
      (output_name : String) (arguments : List CapsuleArgument) (verified : List VerifiedArgument)
      → bind_all output_name (kinds_into inputs []) values artifacts arguments ≡ ok verified
      → AllClean artifacts output_name verified × (length verified ≡ length arguments)
  unfolding bind_all
  bind_all-AllClean output_name [] verified h =
      let e : [] ≡ verified = ok_injective [] verified h in
      subst (λ z. AllClean artifacts output_name z × (length z ≡ 0)) e (tt, refl)
  bind_all-AllClean output_name (argument ∷ arguments) verified h =
      let (first, a, h1) =
        >>=-eq-ok (bind_argument output_name (kinds_into inputs []) values artifacts argument) _
          h in
      let (rest, b, h2) =
        >>=-eq-ok (bind_all output_name (kinds_into inputs []) values artifacts arguments) _ h1 in
      let (clean, same) = bind_all-AllClean output_name arguments rest b in
      subst (λ z. AllClean artifacts output_name z × (length z ≡ suc (length arguments)))
        (ok_injective (first ∷ rest) verified h2)
        ((bind_argument-ArgumentClean output_name argument first a, clean), ap suc same)

-- The arguments of an accepted call.
pub verified-AllClean :
    (capsule : CompiledCapsule) (call : ProfileCall) (v : VerifiedInvocation)
    → verify_profile_call capsule call ≡ ok v
    → AllClean v.input_artifacts capsule.profile.output.name v.arguments
      × (length v.arguments ≡ length capsule.profile.arguments)
verified-AllClean capsule call v h =
    let steps = verify_profile_call-Verified capsule call v h in
    bind_all-AllClean capsule.profile.inputs v.values v.input_artifacts steps.checked
      capsule.profile.output.name capsule.profile.arguments v.arguments steps.bound
