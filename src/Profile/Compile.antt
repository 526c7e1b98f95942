-- ===== src/Profile/Compile.antt =====
-- A bundle's identity (`validate_identity` and the whole of `validate_bundle` in
-- daemon/src/adapters/outbound/bundle_catalog.rs, `CapsuleIdentity::new` in
-- core/src/capsule/identity.rs) and the compilation of a capsule (daemon/src/capsule.rs).
use taskcage.Prelude.{
  ℕ, String, Bool, true, false, ◌&&◌, ◌||◌, not, Option, none, some, List, [], ◌∷◌, str_eq, ltb,
  ◌==◌, if◌then◌else◌, length, Result, ok, err, ◌>>=◌, ◌>>◌, ok_or,
}
use taskcage.Prelude.Int.{ℤ}
use taskcage.Prelude.Utf8.{utf8}
use taskcage.Profile.Types.{
  CapsuleIdentity, CapsuleInput, CapsuleInputKind, local_input_kind, string_kind, boolean_kind,
  int64_kind, allowed_values, range, CompiledCapsule,
}
use taskcage.Profile.Names.{
  all_bytes, is_lower, is_digit, is_valid_capsule_name, contains, known_override_field,
}
use taskcage.Profile.Inputs.{leb_ℤ}
use taskcage.Profile.Bundle.{
  BundleInput, BundleManifest, BundleProfile, BundleFault, bundle_schema, bundle_name,
  bundle_version, package_id, digest_differs, profile_differs, require, validate_key_id,
  good_values, ascends_from, validate_profile,
}

pub record InstalledBundle : Type 0 where
  pub digest : List ℕ
  pub name : String
  pub version : String
  pub runtime_package_digest : List ℕ
  pub runtime_package_id : String

pub data IdentityError : Type 0 where
  invalid_name invalid_version prerelease_or_build_metadata : String → IdentityError

-- The `InvalidContract` errors of a compilation, and what each of them is about.
pub data CapsuleFault : Type 0 where
  not_consistent bad_allowlist : CapsuleFault
  not_required bad_kind : String → CapsuleFault
  bad_identity : IdentityError → CapsuleFault

-- What the semver library does to a text.
pub record Semver : Type 1 where
  pub Version : Type 0
  pub parse : String → Option Version
  pub to_string : Version → String
  pub has_pre : Version → Bool
  pub has_build : Version → Bool

abbrev pub same_bytes : List ℕ → List ℕ → Bool
same_bytes [] [] = true
same_bytes [] (d ∷ ds) = false
same_bytes (c ∷ cs) [] = false
same_bytes (c ∷ cs) (d ∷ ds) = c == d && same_bytes cs ds

abbrev package_byte : ℕ → Bool
package_byte c = is_lower c || is_digit c || c == 46 || c == 45

unfoldable pub good_package_id : String → Bool
unfolding all_bytes utf8
good_package_id id =
    not (
      length (utf8 id) == 0 || ltb 255 (length (utf8 id)) || not (all_bytes package_byte (utf8 id)))

abbrev pub same_profile : BundleManifest → BundleProfile → Bool
same_profile bundle profile = not (
    not (str_eq profile.schema_version "taskcage.profile/v0alpha1")
    || not (str_eq profile.name bundle.name)
    || not (str_eq profile.version bundle.version))

unfoldable pub kind_of : String → Option (List ℤ) → Option ℤ → Option ℤ → Option CapsuleInputKind
unfolding ascends_from
kind_of kind none none none =
    if str_eq kind "LOCAL_INPUT"
    then some local_input_kind
    else if str_eq kind "STRING"
    then some string_kind
    else if str_eq kind "BOOLEAN"
    then some boolean_kind
    else none
kind_of kind (some values) none none =
    if str_eq kind "INT64" && good_values values
    then some (int64_kind (allowed_values values))
    else none
kind_of kind none (some minimum) (some maximum) =
    if str_eq kind "INT64" && leb_ℤ minimum maximum
    then some (int64_kind (range minimum maximum))
    else none
kind_of kind _ _ _ = none

unfoldable pub try_from : BundleInput → Result CapsuleFault CapsuleInput
unfolding kind_of
try_from input =
    let found = kind_of input.kind input.allowed_values input.minimum input.maximum in
    if not input.required then err (not_required input.name) else (do
      kind ← ok_or found (bad_kind input.name)
      ok (record { name = input.name; required = input.required; kind = kind }))

unfoldable pub try_from_all : List BundleInput → Result CapsuleFault (List CapsuleInput)
unfolding try_from
try_from_all [] = ok []
try_from_all (input ∷ inputs) = do
  first ← try_from input
  rest ← try_from_all inputs
  ok (first ∷ rest)

unfoldable pub validate_allowed_overrides :
    List String → List String → Result CapsuleFault (Unit {0})
unfolding known_override_field contains
validate_allowed_overrides [] unique = ok tt
validate_allowed_overrides (field ∷ fields) unique =
    let rest = validate_allowed_overrides fields (field ∷ unique) in
    if not (known_override_field field) || contains field unique then err bad_allowlist else rest

abbrev pub ensure_inspection_consistency :
    InstalledBundle → BundleManifest → BundleProfile → Result CapsuleFault (Unit {0})
ensure_inspection_consistency installed manifest profile =
    if not (str_eq installed.name manifest.name)
      || not (str_eq installed.version manifest.version)
      || not (str_eq installed.runtime_package_id manifest.runtime.package_id)
      || not (same_bytes installed.runtime_package_digest manifest.runtime.package_digest)
      || not (str_eq profile.name manifest.name)
      || not (str_eq profile.version manifest.version)
    then err not_consistent
    else ok tt

module _ (semver : Semver) where
  unfoldable pub new_identity : String → String → Result IdentityError CapsuleIdentity
  unfolding is_valid_capsule_name
  new_identity name version =
      if not (is_valid_capsule_name name) then err (invalid_name name) else (do
        parsed ← ok_or (semver.parse version) (invalid_version version)
        if semver.has_pre parsed || semver.has_build parsed
            then err (prerelease_or_build_metadata (semver.to_string parsed))
            else ok (record { name = name; version = semver.to_string parsed }))

  unfoldable pub validate_identity : String → String → Result BundleFault (Unit {0})
  unfolding is_valid_capsule_name
  validate_identity name version = do
    require (is_valid_capsule_name name) bundle_name
    parsed ← ok_or (semver.parse version) bundle_version
    require
        (not (
          not (str_eq (semver.to_string parsed) version)
          || semver.has_pre parsed
          || semver.has_build parsed))
        bundle_version

  -- `sha256` is the hash of the profile's bytes.
  unfoldable pub validate_bundle :
      (List ℕ → List ℕ) → BundleManifest → BundleProfile → List ℕ → Result BundleFault (Unit {0})
  unfolding validate_identity validate_key_id validate_profile good_package_id
  validate_bundle sha256 bundle profile profile_raw = do
    require (str_eq bundle.schema_version "taskcage.bundle/v0alpha1") bundle_schema
    validate_identity bundle.name bundle.version
    validate_key_id bundle.signing_key_id
    require (good_package_id bundle.runtime.package_id) package_id
    require (same_bytes bundle.profile_digest (sha256 profile_raw)) digest_differs
    require (same_profile bundle profile) profile_differs
    validate_profile profile

  abbrev identity_or : Result IdentityError CapsuleIdentity → Result CapsuleFault CapsuleIdentity
  identity_or (ok identity) = ok identity
  identity_or (err e) = err (bad_identity e)

  unfoldable pub from_verified_inspection :
      InstalledBundle → BundleManifest → BundleProfile → Result CapsuleFault CompiledCapsule
  unfolding try_from_all validate_allowed_overrides new_identity
  from_verified_inspection installed manifest profile = do
    ensure_inspection_consistency installed manifest profile
    inputs ← try_from_all profile.inputs
    validate_allowed_overrides profile.allowed_overrides []
    identity ← identity_or (new_identity manifest.name manifest.version)
    ok (record {
      identity = identity;
      runtime = manifest.runtime;
      profile = record {
        domain_identity = record { name = profile.name; version = profile.version };
        inputs = inputs;
        arguments = profile.argv;
        output = profile.output;
        resource_policy = profile.policy;
        allowed_overrides = profile.allowed_overrides;
      };
    })
