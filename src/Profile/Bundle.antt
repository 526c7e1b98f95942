-- ===== src/Profile/Bundle.antt =====
-- `validate_bundle` (daemon/src/adapters/outbound/bundle_catalog.rs), the checks of a bundle before it
-- is installed. The semver library and SHA-256 are parameters.
use taskcage.Prelude.{
  ℕ, ◌+◌, String, Bool, true, false, ◌&&◌, ◌||◌, not, Option, none, some, List, [], ◌∷◌, str_eq,
  ltb, leb, ◌==◌, if◌then◌else◌, length, Result, ok, err, ◌>>=◌, ◌>>◌,
}
use taskcage.Prelude.Int.{ℤ}
use taskcage.Prelude.Utf8.{utf8}
use taskcage.Policy.Error.{PolicyError}
use taskcage.Policy.Budget.{ResourceBudget}
use taskcage.Profile.Types.{
  CapsuleRuntimeReference, CapsuleOutput, CapsuleArgument, CapsuleInputValueKind, string_value,
  int64_value, boolean_value, CapsuleResourcePolicy,
}
use taskcage.Profile.Names.{
  all_bytes, is_lower, is_digit, slot_byte, contains, known_override_field,
}
use taskcage.Profile.Inputs.{leb_ℤ, is_bad_text}
use taskcage.Profile.Resources.{budget_of}

pub record BundleInput : Type 0 where
  pub name : String
  pub kind : String
  pub required : Bool
  pub allowed_values : Option (List ℤ)
  pub minimum : Option ℤ
  pub maximum : Option ℤ

pub record BundleManifest : Type 0 where
  pub schema_version : String
  pub name : String
  pub version : String
  pub signing_key_id : String
  pub runtime : CapsuleRuntimeReference
  pub profile_digest : List ℕ

pub record BundleProfile : Type 0 where
  pub schema_version : String
  pub name : String
  pub version : String
  pub inputs : List BundleInput
  pub output : CapsuleOutput
  pub argv : List CapsuleArgument
  pub policy : CapsuleResourcePolicy
  pub allowed_overrides : List String

-- The `Manifest` errors, and what each of them is about.
pub data BundleFault : Type 0 where
  bundle_schema bundle_name bundle_version key_id package_id digest_differs profile_differs
        input_count slot_name bad_input input_kind input_schema local_inputs file_name output_limits
        argv_count argv_literal argv_input argv_output override_count bad_override :
      BundleFault
  bad_policy : PolicyError → BundleFault

abbrev pub require : Bool → BundleFault → Result BundleFault (Unit {0})
require false fault = err fault
require true fault = ok tt

abbrev is_alphanumeric : ℕ → Bool
is_alphanumeric c = is_lower c || is_digit c || (leb 65 c && leb c 90)

-- A first byte of one kind, then bytes of another.
abbrev pub first_then : (ℕ → Bool) → (ℕ → Bool) → List ℕ → Bool
first_then p q [] = true
first_then p q (c ∷ cs) = p c && all_bytes q cs

unfoldable pub validate_key_id : String → Result BundleFault (Unit {0})
unfolding utf8 all_bytes
validate_key_id value =
    require
      (not (
        length (utf8 value) == 0
        || ltb 64 (length (utf8 value))
        || not (
            first_then is_alphanumeric (λ c. is_alphanumeric c || c == 46 || c == 95 || c == 45)
              (utf8 value))))
      key_id

unfoldable pub validate_slot : String → Result BundleFault (Unit {0})
unfolding utf8 all_bytes
validate_slot value =
    require
      (not (
        length (utf8 value) == 0
        || ltb 64 (length (utf8 value))
        || not (first_then is_lower slot_byte (utf8 value))))
      slot_name

unfoldable pub validate_relative_filename : String → Result BundleFault (Unit {0})
unfolding utf8 all_bytes
validate_relative_filename value =
    require
      (not (
        length (utf8 value) == 0
        || ltb 255 (length (utf8 value))
        || not (all_bytes (λ c. not (c == 47)) (utf8 value))
        || not (all_bytes (λ c. not (c == 92)) (utf8 value))
        || str_eq value "."
        || str_eq value ".."))
      file_name

unfoldable pub ascends_from : ℤ → List ℤ → Bool
ascends_from x [] = true
ascends_from x (y ∷ ys) = not (leb_ℤ y x) && ascends_from y ys

-- `windows(2)`, each pair strictly ascending.
abbrev pub ascending : List ℤ → Bool
ascending [] = true
ascending (x ∷ xs) = ascends_from x xs

abbrev pub good_values : List ℤ → Bool
good_values values = leb 1 (length values) && leb (length values) 64 && ascending values

abbrev is_set : {A : Type 0} → Option A → Bool
is_set none = false
is_set (some _) = true

abbrev pub good_constraint : Option (List ℤ) → Option ℤ → Option ℤ → Bool
good_constraint (some values) none none = good_values values
good_constraint none (some minimum) (some maximum) = leb_ℤ minimum maximum
good_constraint _ _ _ = false

unfoldable pub validate_input_schema : BundleInput → Result BundleFault (Unit {0})
unfolding ascends_from
validate_input_schema input =
    if not (str_eq input.kind "INT64")
    then require (not (is_set input.allowed_values || is_set input.minimum || is_set input.maximum))
        input_schema
    else require (good_constraint input.allowed_values input.minimum input.maximum) input_schema

unfoldable pub has_input : List BundleInput → String → String → Bool
has_input [] slot kind = false
has_input (input ∷ inputs) slot kind =
    (str_eq input.name slot && str_eq input.kind kind) || has_input inputs slot kind

abbrev kind_text : CapsuleInputValueKind → String
kind_text string_value = "STRING"
kind_text int64_value = "INT64"
kind_text boolean_value = "BOOLEAN"

unfoldable pub validate_argv :
    CapsuleArgument → List BundleInput → CapsuleOutput → Result BundleFault (Unit {0})
unfolding is_bad_text has_input
validate_argv (CapsuleArgument.literal value) inputs output =
    require (not (is_bad_text value)) argv_literal
validate_argv (CapsuleArgument.input_path slot) inputs output =
    require (has_input inputs slot "LOCAL_INPUT") argv_input
validate_argv (CapsuleArgument.input_value kind slot) inputs output =
    require (has_input inputs slot (kind_text kind)) argv_input
validate_argv (CapsuleArgument.output_path slot) inputs output =
    require (str_eq slot output.name) argv_output

unfoldable pub validate_all_argv :
    List CapsuleArgument → List BundleInput → CapsuleOutput → Result BundleFault (Unit {0})
unfolding validate_argv
validate_all_argv [] inputs output = ok tt
validate_all_argv (argument ∷ arguments) inputs output =
    validate_argv argument inputs output >> validate_all_argv arguments inputs output

abbrev pub local_of : String → Result BundleFault ℕ
local_of kind =
    if str_eq kind "LOCAL_INPUT"
    then ok 1
    else if str_eq kind "STRING" || str_eq kind "INT64" || str_eq kind "BOOLEAN"
    then ok 0
    else err input_kind

-- The loop over the inputs: the names seen and the number of local inputs.
unfoldable pub validate_inputs : List BundleInput → List String → ℕ → Result BundleFault ℕ
unfolding validate_slot contains validate_input_schema
validate_inputs [] names count = ok count
validate_inputs (input ∷ inputs) names count = do
  validate_slot input.name
  require (not (contains input.name names) && input.required) bad_input
  here ← local_of input.kind
  validate_input_schema input
  validate_inputs inputs (input.name ∷ names) (here + count)

unfoldable pub validate_overrides : List String → List String → Result BundleFault (Unit {0})
unfolding known_override_field contains
validate_overrides [] allowed = ok tt
validate_overrides (field ∷ fields) allowed = do
  require (known_override_field field && not (contains field allowed)) bad_override
  validate_overrides fields (field ∷ allowed)

abbrev policy_valid : Result PolicyError ResourceBudget → Result BundleFault (Unit {0})
policy_valid (ok _) = ok tt
policy_valid (err e) = err (bad_policy e)

-- The part of `validate_bundle` that follows the identities.
unfoldable pub validate_profile : BundleProfile → Result BundleFault (Unit {0})
unfolding validate_inputs validate_slot validate_relative_filename validate_all_argv
    validate_overrides budget_of utf8
validate_profile profile = do
  require (leb 1 (length profile.inputs) && leb (length profile.inputs) 32) input_count
  count ← validate_inputs profile.inputs [] 0
  require (count == 1) local_inputs
  validate_slot profile.output.name
  validate_relative_filename profile.output.file_name
  require
      (not (length (utf8 profile.output.media_type) == 0)
        && not (profile.output.maximum_bytes == 0))
      output_limits
  require (leb 1 (length profile.argv) && leb (length profile.argv) 128) argv_count
  validate_all_argv profile.argv profile.inputs profile.output
  require (leb (length profile.allowed_overrides) 6) override_count
  validate_overrides profile.allowed_overrides []
  policy_valid (budget_of profile.policy)
