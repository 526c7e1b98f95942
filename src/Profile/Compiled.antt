-- ===== src/Profile/Compiled.antt =====
-- An installed bundle, compiled.
use taskcage.Prelude.{
  ℕ, String, ◌≡◌, refl, sym, ap, ◌∙◌, Bool, true, false, ◌&&◌, ◌||◌, not, List, [], arith,
  String_discrete, str_eq, ok_injective, >>=-eq-ok, >>-eq-ok, ok_or-eq-ok, leb, ◌==◌, length,
  Result, ok, err, ◌>>=◌, ok_or,
}
use taskcage.Profile.Types.{CapsuleInput, CompiledCapsule}
use taskcage.Profile.Names.{valid_slot_name, is_valid_capsule_name}
use taskcage.Profile.Contract.{check_inputs, check_overrides, validate_compiled_structure}
use taskcage.Profile.Bundle.{
  validate_key_id, package_id, digest_differs, profile_differs, BundleManifest, BundleProfile,
  require, bundle_name, bundle_version, input_count, local_inputs, argv_count, override_count,
  validate_inputs, validate_slot, validate_relative_filename, validate_all_argv, validate_overrides,
  validate_profile, bundle_schema,
}
use taskcage.Profile.Compile.{
  good_package_id, same_bytes, same_profile, InstalledBundle, Semver, ensure_inspection_consistency,
  new_identity, validate_identity, validate_bundle, from_verified_inspection,
}
use taskcage.Profile.Accepted.{
  require-eq-ok, guard_then, slot-IsValid, validate_inputs-agrees, validate_overrides-agrees,
}

str_eq-true : (s t : String) → str_eq s t ≡ true → s ≡ t
str_eq-true s t h = elim (String_discrete s t) [ yes p ↦ p | no n ↦ absurd (ground (arith, h, n)) ]

parts_false : (a b c : Bool) → not (not a || b || c) ≡ true → (a ≡ true) × ((b || c) ≡ false)
parts_false true b c h = (refl, ground arith)
parts_false false b c h = absurd (ground (arith, h))

validate_identity-new_identity :
    (semver : Semver) (name version : String)
    → validate_identity semver name version ≡ ok tt
    → new_identity semver name version ≡ ok (record { name = name; version = version })
unfolding validate_identity new_identity
validate_identity-new_identity semver name version h =
    let (named, h1) = >>-eq-ok (require (is_valid_capsule_name name) bundle_name) _ h in
    let (parsed, found, h2) = >>=-eq-ok (ok_or (semver.parse version) bundle_version) _ h1 in
    let (canonical, plain) =
      parts_false _ (semver.has_pre parsed) (semver.has_build parsed) (require-eq-ok _ _ h2) in
    rw
      (
        require-eq-ok (is_valid_capsule_name name) bundle_name named,
        ok_or-eq-ok _ _ found,
        plain,
        str_eq-true (semver.to_string parsed) version canonical,
      )
      refl

-- What `validate_profile` has seen to.
record Profiled (profile : BundleProfile) : Type 0 where
  inputs_counted : (leb 1 (length profile.inputs) && leb (length profile.inputs) 32) ≡ true
  total : ℕ
  inputs_valid : validate_inputs profile.inputs [] 0 ≡ ok total
  one_local : (total == 1) ≡ true
  output_valid : validate_slot profile.output.name ≡ ok tt
  argv_counted : (leb 1 (length profile.argv) && leb (length profile.argv) 128) ≡ true
  overrides_valid : validate_overrides profile.allowed_overrides [] ≡ ok tt

validate_profile-Profiled :
    (profile : BundleProfile) → validate_profile profile ≡ ok tt → Profiled profile
unfolding validate_profile
validate_profile-Profiled profile h =
    let (a, h1) = >>-eq-ok (require _ input_count) _ h in
    let (total, b, h2) = >>=-eq-ok (validate_inputs profile.inputs [] 0) _ h1 in
    let (c, h3) = >>-eq-ok (require (total == 1) local_inputs) _ h2 in
    let (d, h4) = >>-eq-ok (validate_slot profile.output.name) _ h3 in
    let (_, h5) = >>-eq-ok (validate_relative_filename profile.output.file_name) _ h4 in
    let (_, h6) = >>-eq-ok (require _ _) _ h5 in
    let (e, h7) = >>-eq-ok (require _ argv_count) _ h6 in
    let (_, h8) = >>-eq-ok (validate_all_argv profile.argv profile.inputs profile.output) _ h7 in
    let (_, h9) = >>-eq-ok (require _ override_count) _ h8 in
    let (f, _) = >>-eq-ok (validate_overrides profile.allowed_overrides []) _ h9 in
    record {
      inputs_counted = require-eq-ok _ _ a;
      total = total;
      inputs_valid = b;
      one_local = require-eq-ok _ _ c;
      output_valid = d;
      argv_counted = require-eq-ok _ _ e;
      overrides_valid = f;
    }

str_eq-of : (s t : String) → s ≡ t → str_eq s t ≡ true
str_eq-of s t e = ground (arith, e)

bind_then {ℓ κ} :
    {E : Type 0} {A : Type ℓ} {B : Type κ} (head : Result E A) (next : A → Result E B) {given : A}
    {last : B}
    → head ≡ ok given
    → next given ≡ ok last
    → (head >>= next) ≡ ok last
bind_then (ok given) next h same = ap next (ok_injective _ _ h) ∙ same
bind_then (err e) next h same = absurd (ground (arith, h))

-- The structure of what `profile` compiles to.
structure_ok :
    (profile : BundleProfile) (p : Profiled profile) (capsule : CompiledCapsule)
    → capsule.identity.name ≡ capsule.profile.domain_identity.name
    → capsule.identity.version ≡ capsule.profile.domain_identity.version
    → length capsule.profile.inputs ≡ length profile.inputs
    → check_inputs capsule.profile.inputs [] 0 ≡ ok p.total
    → capsule.profile.output ≡ profile.output
    → capsule.profile.arguments ≡ profile.argv
    → check_overrides capsule.profile.allowed_overrides [] ≡ ok tt
    → validate_compiled_structure capsule ≡ ok tt
unfolding validate_compiled_structure
structure_ok profile p capsule named versioned same checked output arguments overrides =
    let c = capsule.profile in
    let identities : (str_eq capsule.identity.name c.domain_identity.name
          && str_eq capsule.identity.version c.domain_identity.version)
        ≡ true =
      rw (str_eq-of _ _ named, str_eq-of _ _ versioned) refl in
    let counted : (leb 1 (length c.inputs) && leb (length c.inputs) 32) ≡ true =
      rw same (p.inputs_counted) in
    let slot : valid_slot_name c.output.name ≡ true =
      rw output (slot-IsValid profile.output.name p.output_valid) in
    let argv : (leb 1 (length c.arguments) && leb (length c.arguments) 128) ≡ true =
      rw arguments (p.argv_counted) in
    guard_then _ _ _ identities (
      guard_then _ _ _ counted (
        bind_then (check_inputs c.inputs [] 0) _ checked (
          guard_then _ _ _ (p.one_local)
            (guard_then _ _ _ slot (guard_then _ _ _ argv overrides)))))

parts_true :
    (schema named versioned : Bool)
    → not (not schema || not named || not versioned) ≡ true
    → (named ≡ true) × (versioned ≡ true)
parts_true schema named versioned h = (ground arith, ground arith)

abbrev compiled : BundleManifest → BundleProfile → List CapsuleInput → CompiledCapsule
compiled bundle profile inputs = record {
  identity = record { name = bundle.name; version = bundle.version };
  runtime = bundle.runtime;
  profile = record {
    domain_identity = record { name = profile.name; version = profile.version };
    inputs = inputs;
    arguments = profile.argv;
    output = profile.output;
    resource_policy = profile.policy;
    allowed_overrides = profile.allowed_overrides;
  };
}

-- A bundle that `validate_bundle` accepts, once it is installed under its own identity, compiles to a
-- capsule of that name and version, and the structure of the capsule is valid. This is for every
-- semver library and every hash.
pub accepted_bundle_compiles :
    (semver : Semver) (sha256 : List ℕ → List ℕ) (installed : InstalledBundle)
    (bundle : BundleManifest) (profile : BundleProfile) (profile_raw : List ℕ)
    → validate_bundle semver sha256 bundle profile profile_raw ≡ ok tt
    → ensure_inspection_consistency installed bundle profile ≡ ok tt
    → (capsule : CompiledCapsule) × (from_verified_inspection semver installed bundle profile
        ≡ ok capsule)
      × (validate_compiled_structure capsule ≡ ok tt)
      × (capsule.identity ≡ record { name = bundle.name; version = bundle.version })
unfolding validate_bundle from_verified_inspection
accepted_bundle_compiles semver sha256 installed bundle profile profile_raw h consistent =
    let (_, h1) =
      >>-eq-ok (require (str_eq bundle.schema_version "taskcage.bundle/v0alpha1") bundle_schema) _
        h in
    let (identified, h2) = >>-eq-ok (validate_identity semver bundle.name bundle.version) _ h1 in
    let (_, h3) = >>-eq-ok (validate_key_id bundle.signing_key_id) _ h2 in
    let (_, h4) = >>-eq-ok (require (good_package_id bundle.runtime.package_id) package_id) _ h3 in
    let (_, h5) =
      >>-eq-ok (require (same_bytes bundle.profile_digest (sha256 profile_raw)) digest_differs) _
        h4 in
    let (agrees, h6) = >>-eq-ok (require (same_profile bundle profile) profile_differs) _ h5 in
    let (named, versioned) =
      parts_true (str_eq profile.schema_version "taskcage.profile/v0alpha1")
        (str_eq profile.name bundle.name) (str_eq profile.version bundle.version)
        (require-eq-ok (same_profile bundle profile) profile_differs agrees) in
    let p = validate_profile-Profiled profile h6 in
    let (inputs, made, checked, same) =
      validate_inputs-agrees profile.inputs [] 0 p.total p.inputs_valid in
    let (allowed, overrides) =
      validate_overrides-agrees profile.allowed_overrides [] p.overrides_valid in
    (
      compiled bundle profile inputs,
      rw
          (
            consistent,
            made,
            allowed,
            validate_identity-new_identity semver bundle.name bundle.version identified,
          )
          refl,
      structure_ok profile p (compiled bundle profile inputs)
          (sym (str_eq-true profile.name bundle.name named))
          (sym (str_eq-true profile.version bundle.version versioned)) same checked refl refl
          overrides,
      refl,
    )
