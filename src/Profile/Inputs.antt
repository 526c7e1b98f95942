-- ===== src/Profile/Inputs.antt =====
-- The inputs of a call: `collect_inputs`, `validate_exact_input_set` and `validate_input_values`.
use taskcage.Prelude.{
  String, Bool, true, false, ◌&&◌, ◌||◌, Option, none, some, List, [], ◌∷◌, ltb, leb, ◌==◌,
  if◌then◌else◌, length, Result, ok, err, ◌>>=◌, ok_or,
}
use taskcage.Prelude.Map
use taskcage.Prelude.Map.{Map}
use taskcage.Prelude.Int.{ℤ, pos, negsuc}
use taskcage.Prelude.Ordered
use taskcage.Prelude.Utf8.{utf8, has_nul}
use taskcage.Core.Invocation.{ProfileValue, text, int64, boolean, local_input}
use taskcage.Artifact.LocalPath.{parse}
use taskcage.Artifact.Digest.{from_str}
use taskcage.Profile.Types.{
  CapsuleInput, CapsuleInputKind, local_input_kind, string_kind, boolean_kind, int64_kind,
  CapsuleInt64Constraint, allowed_values, range, LocalInputArtifact, InvocationError,
  duplicate_input, input_set_mismatch, input_type_mismatch, input_value_rejected,
  invalid_compiled_contract, int64_constraint, string_constraint, artifact_path, artifact_digest,
  lost_input,
}

unfoldable pub collect_into :
    List (String × ProfileValue) → Map ProfileValue → Result InvocationError (Map ProfileValue)
unfolding Ordered.insert
collect_into [] values = ok values
collect_into ((name, value) ∷ inputs) values =
    let rest = collect_into inputs (Ordered.insert name value values) in
    if Map.contains_key name values then err (duplicate_input name) else rest

abbrev pub collect_inputs : List (String × ProfileValue) → Result InvocationError (Map ProfileValue)
collect_inputs inputs = collect_into inputs []

-- The set of the declared names.
unfoldable pub declared_names : List CapsuleInput → Map (Unit {0})
unfolding Ordered.insert
declared_names [] = []
declared_names (input ∷ inputs) = Ordered.insert input.name tt (declared_names inputs)

abbrev if_no_difference : List String → List String → Result InvocationError (Unit {0})
if_no_difference [] [] = ok tt
if_no_difference missing unknown = err (input_set_mismatch missing unknown)

unfoldable pub validate_exact_input_set :
    List CapsuleInput → Map ProfileValue → Result InvocationError (Unit {0})
unfolding declared_names Ordered.difference
validate_exact_input_set declarations values =
    let declared = declared_names declarations in
    if_no_difference (Ordered.difference declared (λ k. Map.contains_key k values))
      (Ordered.difference values (λ k. Map.contains_key k declared))

abbrev pub leb_ℤ : ℤ → ℤ → Bool
leb_ℤ (pos a) (pos b) = leb a b
leb_ℤ (pos a) (negsuc b) = false
leb_ℤ (negsuc a) (pos b) = true
leb_ℤ (negsuc a) (negsuc b) = leb b a

abbrev pub eqb_ℤ : ℤ → ℤ → Bool
eqb_ℤ a b = leb_ℤ a b && leb_ℤ b a

unfoldable pub member : ℤ → List ℤ → Bool
member value [] = false
member value (v ∷ vs) = eqb_ℤ value v || member value vs

-- The binary search finds exactly the members of the values, which ascend in a compiled contract.
unfoldable pub allows : CapsuleInt64Constraint → ℤ → Bool
unfolding member
allows (allowed_values values) value = member value values
allows (range minimum maximum) value = leb_ℤ minimum value && leb_ℤ value maximum

unfoldable pub is_bad_text : String → Bool
unfolding utf8 has_nul
is_bad_text value =
    length (utf8 value) == 0 || ltb 4_096 (length (utf8 value)) || has_nul (utf8 value)

abbrev pub schema_name : CapsuleInputKind → String
schema_name local_input_kind = "LOCAL_INPUT"
schema_name string_kind = "STRING"
schema_name boolean_kind = "BOOLEAN"
schema_name (int64_kind _) = "INT64"

abbrev pub kind_name : ProfileValue → String
kind_name (text _) = "STRING"
kind_name (int64 _) = "INT64"
kind_name (boolean _) = "BOOLEAN"
kind_name (local_input _ _ _) = "LOCAL_INPUT"

abbrev rejected_if_err : {E A : Type 0} → InvocationError → Result E A → Result InvocationError A
rejected_if_err e (ok a) = ok a
rejected_if_err e (err _) = err e

-- The value of one declared input: the artifact that it stands for, if it is one.
unfoldable pub check_value :
    String → CapsuleInputKind → ProfileValue → Result InvocationError (Option LocalInputArtifact)
unfolding parse from_str allows is_bad_text utf8
check_value name local_input_kind (local_input path digest size_bytes) = do
  path ← rejected_if_err (input_value_rejected name artifact_path) (parse (utf8 path))
  digest ← rejected_if_err (input_value_rejected name artifact_digest) (from_str (utf8 digest))
  ok (some (record { path = path; digest = digest; size_bytes = size_bytes }))
check_value name (int64_kind constraint) (int64 value) =
    if allows constraint value then ok none else err (input_value_rejected name int64_constraint)
check_value name string_kind (text value) =
    if is_bad_text value then err (input_value_rejected name string_constraint) else ok none
check_value name boolean_kind (boolean value) = ok none
check_value name expected actual =
    err (input_type_mismatch name (schema_name expected) (kind_name actual))

abbrev pub insert_if :
    String → Option LocalInputArtifact → Map LocalInputArtifact → Map LocalInputArtifact
insert_if name none artifacts = artifacts
insert_if name (some artifact) artifacts = Ordered.insert name artifact artifacts

abbrev lost : Option ProfileValue → Result InvocationError ProfileValue
lost value = ok_or value (invalid_compiled_contract lost_input)

unfoldable pub validate_into :
    List CapsuleInput
    → Map ProfileValue
    → Map LocalInputArtifact
    → Result InvocationError (Map LocalInputArtifact)
unfolding check_value
validate_into [] values artifacts = ok artifacts
validate_into (input ∷ inputs) values artifacts = do
  value ← lost (Map.lookup input.name values)
  artifact ← check_value input.name input.kind value
  validate_into inputs values (insert_if input.name artifact artifacts)

abbrev pub validate_input_values :
    List CapsuleInput → Map ProfileValue → Result InvocationError (Map LocalInputArtifact)
validate_input_values declarations values = validate_into declarations values []
