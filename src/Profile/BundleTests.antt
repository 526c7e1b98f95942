-- ===== src/Profile/BundleTests.antt =====
-- A bundle that is accepted and compiled. The semver library is one that takes every text for a plain
-- version, the hash is the identity.
use taskcage.Prelude.{ℕ, String, ◌≡◌, refl, true, false, none, some, List, [], ◌∷◌, ok}
use taskcage.Prelude.Int.{pos}
use taskcage.Profile.Types.{string_value, CapsuleArgument, CompiledCapsule}
use taskcage.Profile.Contract.{validate_compiled_structure}
use taskcage.Profile.Bundle.{BundleInput, BundleManifest, BundleProfile}
use taskcage.Profile.Compile.{
  InstalledBundle, Semver, ensure_inspection_consistency, validate_bundle, from_verified_inspection,
}
use taskcage.Profile.Compiled.{accepted_bundle_compiles}

abbrev any_version : Semver
any_version = record {
  Version = String;
  parse = λ s. some s;
  to_string = λ s. s;
  has_pre = λ s. false;
  has_build = λ s. false;
}

abbrev raw : List ℕ
raw = 1 ∷ 2 ∷ []

abbrev installed : InstalledBundle
installed = record {
  digest = 9 ∷ [];
  name = "audio.extract";
  version = "1.0.2";
  runtime_package_digest = 7 ∷ [];
  runtime_package_id = "ffmpeg";
}

abbrev manifest : BundleManifest
manifest = record {
  schema_version = "taskcage.bundle/v0alpha1";
  name = "audio.extract";
  version = "1.0.2";
  signing_key_id = "key-1";
  runtime = record { package_id = "ffmpeg"; package_digest = 7 ∷ [] };
  profile_digest = raw;
}

abbrev plain : String → String → BundleInput
plain name kind = record {
  name = name;
  kind = kind;
  required = true;
  allowed_values = none;
  minimum = none;
  maximum = none;
}

abbrev profile : BundleProfile
profile = record {
  schema_version = "taskcage.profile/v0alpha1";
  name = "audio.extract";
  version = "1.0.2";
  inputs =
      plain "source" "LOCAL_INPUT"
      ∷ record (plain "rate" "INT64") { allowed_values = some (pos 8_000 ∷ pos 16_000 ∷ []) }
      ∷ plain "title" "STRING"
      ∷ [];
  output = record {
    name = "result";
    file_name = "out.wav";
    media_type = "audio/wav";
    maximum_bytes = 4_096;
  };
  argv =
      CapsuleArgument.literal "-i"
      ∷ CapsuleArgument.input_path "source"
      ∷ CapsuleArgument.input_value string_value "title"
      ∷ CapsuleArgument.output_path "result"
      ∷ [];
  policy = record {
    quota_micros = 50_000;
    period_micros = 100_000;
    memory_max_bytes = 1_000_000;
    pids_max = 8;
    wall_time_limit_ms = 60_000;
    stdout_tail_max_bytes = 1_024;
    stderr_tail_max_bytes = 1_024;
  };
  allowed_overrides = "limits.pidsMax" ∷ [];
}

bundle_valid : validate_bundle any_version (λ bytes. bytes) manifest profile raw ≡ ok tt
unfolding validate_bundle
bundle_valid = refl

consistent : ensure_inspection_consistency installed manifest profile ≡ ok tt
unfolding validate_bundle
consistent = refl

accepted_bundle_compiles_example :
    (capsule : CompiledCapsule) × (from_verified_inspection any_version installed manifest profile
      ≡ ok capsule)
    × (validate_compiled_structure capsule ≡ ok tt)
    × (capsule.identity ≡ record { name = "audio.extract"; version = "1.0.2" })
accepted_bundle_compiles_example =
    accepted_bundle_compiles any_version (λ bytes. bytes) installed manifest profile raw
      bundle_valid consistent
