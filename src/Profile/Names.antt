-- ===== src/Profile/Names.antt =====
-- The grammars of names: `is_valid_capsule_name` (core/src/capsule/identity.rs), and
-- `valid_profile_version`, `valid_slot_name` and `known_override_field` of the contract.
use taskcage.Prelude.{
  ℕ, String, ite, Bool, true, false, ◌&&◌, ◌||◌, not, List, [], ◌∷◌, String_discrete, leb, ◌==◌,
  if◌then◌else◌, length, take,
}
use taskcage.Prelude.Utf8.{utf8}
use taskcage.Artifact.LocalPath.{prepend}

-- `split` by an ASCII character, on the bytes.
unfoldable pub split_on : ℕ → List ℕ → List (List ℕ)
split_on sep [] = [] ∷ []
split_on sep (c ∷ cs) = let rest = split_on sep cs in if c == sep then [] ∷ rest else prepend c rest

unfoldable pub all_bytes : (ℕ → Bool) → List ℕ → Bool
all_bytes p [] = true
all_bytes p (c ∷ cs) = p c && all_bytes p cs

abbrev pub is_lower : ℕ → Bool
is_lower c = leb 97 c && leb c 122

abbrev pub is_digit : ℕ → Bool
is_digit c = leb 48 c && leb c 57

-- A lower letter, then bytes of the kind `p`.
abbrev pub starts_lower : (ℕ → Bool) → List ℕ → Bool
starts_lower p [] = false
starts_lower p (c ∷ cs) = is_lower c && all_bytes p cs

abbrev pub name_byte : ℕ → Bool
name_byte c = is_lower c || is_digit c || c == 45

unfoldable pub all_segments : (List ℕ → Bool) → List (List ℕ) → Bool
all_segments p [] = true
all_segments p (s ∷ ss) = p s && all_segments p ss

unfoldable pub is_valid_capsule_name : String → Bool
unfolding utf8 split_on all_bytes all_segments
is_valid_capsule_name name =
    let bytes = utf8 name in
    leb 1 (length bytes)
    && leb (length bytes) 63
    && all_segments (starts_lower name_byte) (split_on 46 bytes)

-- '0', or digits without a zero before them.
abbrev pub is_version_component : List ℕ → Bool
is_version_component [] = false
is_version_component (c ∷ cs) = all_bytes is_digit (c ∷ cs) && (not (c == 48) || length cs == 0)

-- The first three components are tested, and there are no more and no fewer.
unfoldable pub valid_profile_version : String → Bool
unfolding utf8 split_on all_bytes all_segments
valid_profile_version value =
    let components = split_on 46 (utf8 value) in
    all_segments is_version_component (take 3 components) && length components == 3

abbrev pub slot_byte : ℕ → Bool
slot_byte c = is_lower c || is_digit c || c == 95 || c == 45

unfoldable pub valid_slot_name : String → Bool
unfolding utf8 all_bytes
valid_slot_name value =
    let bytes = utf8 value in leb (length bytes) 64 && starts_lower slot_byte bytes

abbrev pub override_fields : List String
override_fields =
    "limits.cpuMax" ∷ "limits.memoryMaxBytes" ∷ "limits.pidsMax" ∷ "limits.wallTimeLimitMs"
    ∷ "output.stdoutTailMaxBytes" ∷ "output.stderrTailMaxBytes" ∷ []

-- `contains` of a set or a slice of texts.
unfoldable pub contains : String → List String → Bool
unfolding String_discrete
contains k [] = false
contains k (j ∷ js) = let rest = contains k js in ite (String_discrete j k) true rest

unfoldable pub known_override_field : String → Bool
unfolding contains
known_override_field value = contains value override_fields
