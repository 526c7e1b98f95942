-- ===== src/Artifact/Tests.antt =====
-- Texts of digests and paths.
use taskcage.Prelude.{
  ℕ, zero, suc, ◌<◌, ◌≡◌, refl, ◌↔◌, List, [], ◌∷◌, ◌++◌, arith, length, replicate, ok, err,
}
use taskcage.Artifact.Digest.{
  from_str, strip_prefix, to_text, Bytes, digest_parse_error, from_str-to_text, to_text-from_str,
}
use taskcage.Artifact.LocalPath.{
  parse, split, check_segments, same_bytes, any_unsafe, is_unsafe, reserved, segment_error,
  unsafe_character, reserved_path,
}
use taskcage.Artifact.PathExact.{Relative, parse_exact, Name}
use taskcage.Artifact.DeclaredOutput.{
  new, contains, any_control, file_name_error, DeclaredOutputArtifact, MediaType, new_exact,
}

abbrev digest : List ℕ
digest = 171 ∷ replicate 31 9

abbrev digest_text : List ℕ
digest_text = to_text digest

digest-Bytes : Bytes digest
digest-Bytes = (omega arith, replicated 31)
  where
    replicated : (n : ℕ) → Bytes (replicate n 9)
    replicated zero = tt
    replicated (suc n) = (omega arith, replicated n)

wrong_prefix_is_refused : from_str (65 ∷ digest_text) ≡ err digest_parse_error
unfolding from_str strip_prefix
wrong_prefix_is_refused = refl

from_str-to_text_example : from_str (to_text digest) ≡ ok digest
from_str-to_text_example = from_str-to_text digest digest-Bytes refl

to_text-from_str_example : (to_text digest ≡ digest_text) × Bytes digest × (length digest ≡ 32)
to_text-from_str_example = to_text-from_str digest_text digest from_str-to_text_example

-- "a/b".
abbrev two_names : List ℕ
two_names = 97 ∷ 47 ∷ 98 ∷ []

escape_is_refused : parse (46 ∷ 46 ∷ 47 ∷ 97 ∷ []) ≡ err segment_error
unfolding parse split check_segments same_bytes
escape_is_refused = refl

backslash_is_refused : parse (97 ∷ 92 ∷ 97 ∷ []) ≡ err unsafe_character
unfolding parse split check_segments same_bytes any_unsafe is_unsafe
backslash_is_refused = refl

staging_is_refused : parse (reserved ++ (47 ∷ 97 ∷ [])) ≡ err reserved_path
unfolding parse split check_segments same_bytes any_unsafe is_unsafe
staging_is_refused = refl

parse_exact_example :
    (parse two_names ≡ ok two_names) ↔ (Relative two_names × (two_names ≡ two_names))
parse_exact_example = parse_exact two_names two_names

separator_is_refused : new two_names (97 ∷ []) 1 ≡ err file_name_error
unfolding new same_bytes contains any_control
separator_is_refused = refl

abbrev output : DeclaredOutputArtifact
output = record { file_name = 97 ∷ []; media_type = 98 ∷ []; maximum_bytes = 5 }

new_exact_example :
    (new (97 ∷ []) (98 ∷ []) 5 ≡ ok output)
    ↔ (Name (97 ∷ []) × MediaType (98 ∷ []) × (0 < 5) × (output ≡ output))
new_exact_example = new_exact (97 ∷ []) (98 ∷ []) 5 output
