-- ===== src/Profile/Arguments.antt =====
-- `bind_arguments`: the argv template with its scalars bound to texts.
use taskcage.Prelude.{
  ◌+◌, String, Bool, true, false, ◌||◌, not, Option, some, List, [], ◌∷◌, str_append, str_eq,
  decimal, if◌then◌else◌, Result, ok, err, ◌>>=◌, ok_or,
}
use taskcage.Prelude.Map
use taskcage.Prelude.Map.{Map}
use taskcage.Prelude.Int.{ℤ, pos, negsuc}
use taskcage.Prelude.Ordered
use taskcage.Core.Invocation.{ProfileValue, text, int64, boolean}
use taskcage.Profile.Types.{
  CapsuleInput, CapsuleInputKind, local_input_kind, string_kind, boolean_kind, int64_kind,
  CapsuleInputValueKind, string_value, int64_value, boolean_value, CapsuleArgument,
  LocalInputArtifact, VerifiedArgument, InvocationError, invalid_compiled_contract, ContractFault,
  bad_literal, bad_input_path, scalar_kind, missing_scalar, scalar_value, bad_output_path,
}
use taskcage.Profile.Inputs.{is_bad_text}

-- `to_string` of an `i64` and of a `bool`.
unfoldable pub int_text : ℤ → String
unfolding decimal
int_text (pos n) = decimal n
int_text (negsuc n) = str_append "-" (decimal (n + 1))

abbrev pub bool_text : Bool → String
bool_text true = "true"
bool_text false = "false"

-- The declarations by name; a later one replaces an earlier one of its name.
unfoldable pub kinds_into : List CapsuleInput → Map CapsuleInputKind → Map CapsuleInputKind
unfolding Ordered.insert
kinds_into [] kinds = kinds
kinds_into (input ∷ inputs) kinds = kinds_into inputs (Ordered.insert input.name input.kind kinds)

abbrev pub is_local_input : Option CapsuleInputKind → Bool
is_local_input (some local_input_kind) = true
is_local_input _ = false

unfoldable pub argument_kind_matches_declaration :
    CapsuleInputValueKind → Option CapsuleInputKind → Bool
argument_kind_matches_declaration string_value (some string_kind) = true
argument_kind_matches_declaration int64_value (some (int64_kind _)) = true
argument_kind_matches_declaration boolean_value (some boolean_kind) = true
argument_kind_matches_declaration _ _ = false

abbrev fault : {A : Type 0} → ContractFault → Result InvocationError A
fault f = err (invalid_compiled_contract f)

unfoldable pub scalar_text :
    String → CapsuleInputValueKind → ProfileValue → Result InvocationError String
unfolding int_text
scalar_text slot string_value (text value) = ok value
scalar_text slot int64_value (int64 value) = ok (int_text value)
scalar_text slot boolean_value (boolean value) = ok (bool_text value)
scalar_text slot _ _ = fault (scalar_value slot)

module _ (output_name : String) (kinds : Map CapsuleInputKind) (values : Map ProfileValue)
    (artifacts : Map LocalInputArtifact) where
  unfoldable pub bind_argument : CapsuleArgument → Result InvocationError VerifiedArgument
  unfolding is_bad_text argument_kind_matches_declaration scalar_text
  bind_argument (CapsuleArgument.literal value) =
      if is_bad_text value then fault bad_literal else ok (VerifiedArgument.literal value)
  bind_argument (CapsuleArgument.input_path slot) =
      if not (is_local_input (Map.lookup slot kinds)) || not (Map.contains_key slot artifacts)
      then fault (bad_input_path slot)
      else ok (VerifiedArgument.input_artifact_path slot)
  bind_argument (CapsuleArgument.input_value kind slot) =
      if not (argument_kind_matches_declaration kind (Map.lookup slot kinds))
      then fault (scalar_kind slot)
      else (do
        value ← ok_or (Map.lookup slot values) (invalid_compiled_contract (missing_scalar slot))
        literal ← scalar_text slot kind value
        ok (VerifiedArgument.literal literal))
  bind_argument (CapsuleArgument.output_path slot) =
      if not (str_eq slot output_name)
      then fault (bad_output_path slot)
      else ok (VerifiedArgument.output_artifact_path slot)

  unfoldable pub bind_all : List CapsuleArgument → Result InvocationError (List VerifiedArgument)
  unfolding bind_argument
  bind_all [] = ok []
  bind_all (argument ∷ arguments) = do
    verified ← bind_argument argument
    rest ← bind_all arguments
    ok (verified ∷ rest)
