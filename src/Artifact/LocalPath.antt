-- ===== src/Artifact/LocalPath.antt =====
-- core/src/artifact/mod.rs: the paths of artifacts under their root. A text is the list of its UTF-8
-- bytes; the separator '/' is one byte, so that splitting the bytes splits the text.
use taskcage.Prelude.{
  ℕ, Bool, true, false, ◌&&◌, ◌||◌, List, [], ◌∷◌, ltb, ◌==◌, if◌then◌else◌, length, Result, ok,
  err, ◌>>◌,
}

pub data ArtifactPathError : Type 0 where
  length_error segment_error unsafe_character reserved_path : ArtifactPathError

abbrev pub max_artifact_path_bytes : ℕ
max_artifact_path_bytes = 4_096

-- ".taskcage".
abbrev pub reserved : List ℕ
reserved = 46 ∷ 116 ∷ 97 ∷ 115 ∷ 107 ∷ 99 ∷ 97 ∷ 103 ∷ 101 ∷ []

abbrev pub prepend : ℕ → List (List ℕ) → List (List ℕ)
prepend c [] = (c ∷ []) ∷ []
prepend c (s ∷ ss) = (c ∷ s) ∷ ss

-- `split('/')`.
unfoldable pub split : List ℕ → List (List ℕ)
split [] = [] ∷ []
split (c ∷ cs) = let rest = split cs in if c == 47 then [] ∷ rest else prepend c rest

unfoldable pub same_bytes : List ℕ → List ℕ → Bool
same_bytes [] [] = true
same_bytes [] (d ∷ ds) = false
same_bytes (c ∷ cs) [] = false
same_bytes (c ∷ cs) (d ∷ ds) = c == d && same_bytes cs ds

unfoldable pub is_unsafe : ℕ → Bool
is_unsafe c = c == 0 || c == 92 || ltb c 32 || c == 127

unfoldable pub any_unsafe : List ℕ → Bool
unfolding is_unsafe
any_unsafe [] = false
any_unsafe (c ∷ cs) = is_unsafe c || any_unsafe cs

abbrev pub check_segment : List ℕ → Result ArtifactPathError (Unit {0})
check_segment s =
    if same_bytes s [] || same_bytes s (46 ∷ []) || same_bytes s (46 ∷ 46 ∷ [])
    then err segment_error
    else if any_unsafe s
    then err unsafe_character
    else ok tt

unfoldable pub check_segments : List (List ℕ) → Result ArtifactPathError (Unit {0})
unfolding same_bytes any_unsafe
check_segments [] = ok tt
check_segments (s ∷ ss) = check_segment s >> check_segments ss

abbrev pub first_is_reserved : List (List ℕ) → Bool
first_is_reserved [] = false
first_is_reserved (s ∷ ss) = same_bytes s reserved

unfoldable pub parse : List ℕ → Result ArtifactPathError (List ℕ)
unfolding split check_segments
parse value =
    if length value == 0 || ltb max_artifact_path_bytes (length value)
    then err length_error
    else (check_segments (split value)
        >> (if first_is_reserved (split value) then err reserved_path else ok value))
