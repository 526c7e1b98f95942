-- ===== src/Profile/Tests.antt =====
-- A capsule with one input of each kind, and the theorems at a call of it.
use taskcage.Prelude.{ℕ, ◌≡◌, refl, true, false, none, some, List, [], ◌∷◌, ◌++◌, ok, err}
use taskcage.Prelude.Map
use taskcage.Prelude.Utf8.{utf8, has_nul}
use taskcage.Prelude.Int.{pos, negsuc}
use taskcage.Core.Invocation.{
  ProfileCall, ProfileResourceOverrides, text, int64, boolean, local_input,
}
use taskcage.Artifact.Digest
use taskcage.Profile.Types.{
  CapsuleResourcePolicy, local_input_kind, string_kind, boolean_kind, int64_kind, range,
  string_value, int64_value, boolean_value, CapsuleArgument, CompiledCapsule, VerifiedArgument,
  VerifiedInvocation,
}
use taskcage.Profile.Materialized.{NulFree}
use taskcage.Profile.Paths.{BindingFault}
use taskcage.Profile.Tokens.{AllRender}
use taskcage.Profile.Contract.{verify_profile_call}
use taskcage.Profile.Mapper.{
  ArtifactBindings, MaterializedInvocation, MaterializationError, binding_set_mismatch, is_absolute,
  materialize_invocation,
}
use taskcage.Profile.Pipeline.{materialize_blames_bindings}
use taskcage.Profile.Argv.{argv_exact}

abbrev policy : CapsuleResourcePolicy
policy = record {
  quota_micros = 50_000;
  period_micros = 100_000;
  memory_max_bytes = 1_000_000;
  pids_max = 8;
  wall_time_limit_ms = 60_000;
  stdout_tail_max_bytes = 1_024;
  stderr_tail_max_bytes = 1_024;
}

abbrev capsule : CompiledCapsule
capsule = record {
  identity = record { name = "audio.extract"; version = "1.0.2" };
  runtime = record { package_id = "ffmpeg"; package_digest = [] };
  profile = record {
    domain_identity = record { name = "audio.extract"; version = "1.0.2" };
    inputs =
        record { name = "source"; required = true; kind = local_input_kind }
        ∷ record {
          name = "rate";
          required = true;
          kind = int64_kind (range (negsuc 4) (pos 48_000));
        }
        ∷ record { name = "title"; required = true; kind = string_kind }
        ∷ record { name = "loud"; required = true; kind = boolean_kind }
        ∷ [];
    arguments =
        CapsuleArgument.literal "-i"
        ∷ CapsuleArgument.input_path "source"
        ∷ CapsuleArgument.input_value int64_value "rate"
        ∷ CapsuleArgument.input_value string_value "title"
        ∷ CapsuleArgument.input_value boolean_value "loud"
        ∷ CapsuleArgument.output_path "result"
        ∷ [];
    output = record {
      name = "result";
      file_name = "out.wav";
      media_type = "audio/wav";
      maximum_bytes = 4_096;
    };
    resource_policy = policy;
    allowed_overrides = "limits.pidsMax" ∷ [];
  };
}

abbrev lowered : ProfileResourceOverrides
lowered = record {
  cpu_max = none;
  memory_max_bytes = none;
  pids_max = some 4;
  wall_time_limit_ms = none;
  stdout_tail_max_bytes = none;
  stderr_tail_max_bytes = none;
}

abbrev call : ProfileCall
call = record {
  identity = record { name = "audio.extract"; version = "1.0.2" };
  inputs =
      ("title", text "a b")
      ∷ (
        "source",
        local_input "in/a.mp4"
            "sha256:00112233445566778899aabbccddeeff00112233445566778899aabbccddeeff" 12,
      )
      ∷ ("loud", boolean true)
      ∷ ("rate", int64 (negsuc 1))
      ∷ [];
  resource_overrides = some lowered;
}

abbrev bindings : ArtifactBindings
bindings = record {
  input_paths = ("source", utf8 "/stage/in") ∷ [];
  output_paths = ("result", utf8 "/stage/out") ∷ [];
  working_directory = utf8 "/stage";
}

abbrev digest_half : List ℕ
digest_half =
    0 ∷ 17 ∷ 34 ∷ 51 ∷ 68 ∷ 85 ∷ 102 ∷ 119 ∷ 136 ∷ 153 ∷ 170 ∷ 187 ∷ 204 ∷ 221 ∷ 238 ∷ 255 ∷ []

abbrev verified : VerifiedInvocation
verified = record {
  capsule = capsule;
  profile_identity = record { name = "audio.extract"; version = "1.0.2" };
  values =
      ("loud", boolean true)
      ∷ ("rate", int64 (negsuc 1))
      ∷ (
        "source",
        local_input "in/a.mp4"
            "sha256:00112233445566778899aabbccddeeff00112233445566778899aabbccddeeff" 12,
      )
      ∷ ("title", text "a b")
      ∷ [];
  input_artifacts =
      (
        "source",
        record { path = utf8 "in/a.mp4"; digest = digest_half ++ digest_half; size_bytes = 12 },
      )
      ∷ [];
  arguments =
      VerifiedArgument.literal "-i"
      ∷ VerifiedArgument.input_artifact_path "source"
      ∷ VerifiedArgument.literal "-2"
      ∷ VerifiedArgument.literal "a b"
      ∷ VerifiedArgument.literal "true"
      ∷ VerifiedArgument.output_artifact_path "result"
      ∷ [];
  effective_resources = record {
    resources = record {
      cpu = record { quota_micros = 50_000; period_micros = 100_000 };
      memory_max_bytes = 1_000_000;
      pids_max = 4;
      wall_time_limit_ms = 60_000;
    };
    output = record { stdout_tail_max_bytes = 1_024; stderr_tail_max_bytes = 1_024 };
  };
}

accepted : verify_profile_call capsule call ≡ ok verified
unfolding verify_profile_call Map.lookup Digest.strip_prefix Digest.all_hex Digest.pairs
accepted = refl

abbrev argv : List (List ℕ)
argv = utf8 "-i" ∷ utf8 "/stage/in" ∷ utf8 "-2" ∷ utf8 "a b" ∷ utf8 "true" ∷ utf8 "/stage/out" ∷ []

abbrev materialized : MaterializedInvocation
materialized = record {
  capsule_identity = capsule.identity;
  profile_identity = call.identity;
  runtime = capsule.runtime;
  argv0 = utf8 "audio.extract";
  arguments = argv;
  working_directory = utf8 "/stage";
  effective_resources = verified.effective_resources;
  declared_output = capsule.profile.output;
}

materialized_run : materialize_invocation verified bindings ≡ ok materialized
unfolding materialize_invocation Map.lookup
materialized_run = refl

-- The output is bound to a slot that is not declared.
abbrev strange : ArtifactBindings
strange = record {
  input_paths = ("source", utf8 "/stage/in") ∷ [];
  output_paths = ("other", utf8 "/stage/out") ∷ [];
  working_directory = utf8 "/stage";
}

abbrev mismatch : MaterializationError
mismatch = binding_set_mismatch [] [] ("result" ∷ []) ("other" ∷ [])

strange_run : materialize_invocation verified strange ≡ err mismatch
unfolding materialize_invocation Map.lookup
strange_run = refl

materialize_blames_bindings_example : BindingFault mismatch
materialize_blames_bindings_example =
    materialize_blames_bindings capsule call verified strange mismatch accepted strange_run

argv_exact_example :
    AllRender call bindings capsule.profile.arguments argv
    × NulFree argv
    × (materialized.argv0 ≡ utf8 "audio.extract")
    × (materialized.working_directory ≡ bindings.working_directory)
    × (is_absolute materialized.working_directory ≡ true)
    × (has_nul materialized.working_directory ≡ false)
    × (materialized.effective_resources ≡ verified.effective_resources)
argv_exact_example =
    argv_exact capsule call verified bindings materialized accepted materialized_run
