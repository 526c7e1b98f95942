-- ===== src/Artifact/DeclaredOutput.antt =====
-- core/src/artifact/mod.rs: the contract of an output file that a profile declares.
use taskcage.Prelude.{
  ℕ, ◌≤◌, ◌<◌, ◌≡◌, refl, ap, ◌≢◌, ◌↔◌, Bool, false, ◌||◌, List, [], ◌∷◌, arith, ltb, ◌==◌,
  if◌then◌else◌, length, Result, ok, err,
}
use taskcage.Artifact.LocalPath.{same_bytes}
use taskcage.Artifact.PathExact.{Name, Clean, same_bytes_iff}

pub data DeclaredOutputError : Type 0 where
  file_name_error media_type_error maximum_bytes_error : DeclaredOutputError

pub record DeclaredOutputArtifact : Type 0 where
  pub file_name : List ℕ
  pub media_type : List ℕ
  pub maximum_bytes : ℕ

-- `contains` of one character below 128.
unfoldable pub contains : ℕ → List ℕ → Bool
contains c [] = false
contains c (d ∷ ds) = d == c || contains c ds

-- NUL is a control character.
unfoldable pub any_control : List ℕ → Bool
any_control [] = false
any_control (c ∷ cs) = (c == 0 || ltb c 32 || c == 127) || any_control cs

abbrev pub is_bad_file_name : List ℕ → Bool
is_bad_file_name s =
    same_bytes s []
    || contains 47 s
    || contains 92 s
    || same_bytes s (46 ∷ [])
    || same_bytes s (46 ∷ 46 ∷ [])
    || any_control s

abbrev pub is_bad_media_type : List ℕ → Bool
is_bad_media_type s = same_bytes s [] || ltb 255 (length s) || any_control s

unfoldable pub new : List ℕ → List ℕ → ℕ → Result DeclaredOutputError DeclaredOutputArtifact
unfolding same_bytes contains any_control
new file_name media_type maximum_bytes =
    if is_bad_file_name file_name
    then err file_name_error
    else if is_bad_media_type media_type
    then err media_type_error
    else if maximum_bytes == 0
    then err maximum_bytes_error
    else ok
        (record { file_name = file_name; media_type = media_type; maximum_bytes = maximum_bytes })

-- No byte is a control character.
abbrev pub Visible : List ℕ → Type 0
Visible [] = Unit {0}
Visible (c ∷ cs) = ((32 ≤ c) × (c ≢ 127)) × Visible cs

Clean-iff :
    (s : List ℕ)
    → Clean s ↔ ((contains 47 s ≡ false) × (contains 92 s ≡ false) × (any_control s ≡ false))
unfolding contains any_control
Clean-iff [] = (λ _. (refl, refl, refl), λ _. tt)
Clean-iff (c ∷ cs) =
    let e = Clean-iff cs in
    (
      λ h. (
        ground (arith, h.0, e.0 h.1),
        ground (arith, h.0, e.0 h.1),
        ground (arith, h.0, e.0 h.1),
      ),
      λ h. (ground (arith, h), e.1 (ground (arith, h), ground (arith, h), ground (arith, h))),
    )

Visible-iff : (s : List ℕ) → Visible s ↔ (any_control s ≡ false)
unfolding any_control
Visible-iff [] = (λ _. refl, λ _. tt)
Visible-iff (c ∷ cs) =
    let e = Visible-iff cs in
    (λ h. ground (arith, h.0, e.0 h.1), λ h. (ground (arith, h), e.1 (ground (arith, h))))

is_bad_file_name_iff : (s : List ℕ) → (is_bad_file_name s ≡ false) ↔ Name s
is_bad_file_name_iff s = (
  λ h. (
    ground (arith, h, same_bytes_iff s []),
    ground (arith, h, same_bytes_iff s (46 ∷ [])),
    ground (arith, h, same_bytes_iff s (46 ∷ 46 ∷ [])),
    (Clean-iff s).1 (ground (arith, h), ground (arith, h), ground (arith, h)),
  ),
  λ n. ground (
    arith,
    n,
    (Clean-iff s).0 n.3,
    same_bytes_iff s [],
    same_bytes_iff s (46 ∷ []),
    same_bytes_iff s (46 ∷ 46 ∷ []),
  ),
)

-- A media type of 1 to 255 bytes without control characters.
abbrev pub MediaType : List ℕ → Type 0
MediaType s = (s ≢ []) × (length s ≤ 255) × Visible s

is_bad_media_type_iff : (s : List ℕ) → (is_bad_media_type s ≡ false) ↔ MediaType s
is_bad_media_type_iff s = (
  λ h. (
    ground (arith, h, same_bytes_iff s []),
    ground (arith, h),
    (Visible-iff s).1 (ground (arith, h)),
  ),
  λ n. ground (arith, n.0, n.1, (Visible-iff s).0 n.2, same_bytes_iff s []),
)

-- A declared output is made, with its three parts unchanged, exactly when its file name is a single
-- safe name, its media type has 1 to 255 bytes and no control character, and its maximum is positive.
pub new_exact :
    (f m : List ℕ) (n : ℕ) (output : DeclaredOutputArtifact)
    → (new f m n ≡ ok output) ↔ (
        Name f
        × MediaType m
        × (0 < n)
        × (record { file_name = f; media_type = m; maximum_bytes = n } ≡ output))
unfolding new
new_exact f m n output = (
  λ h. (
    (is_bad_file_name_iff f).0 (ground (arith, h)),
    (is_bad_media_type_iff m).0 (ground (arith, h)),
    ground (arith, h),
    ground (arith, h),
  ),
  λ h.
      let a = (is_bad_file_name_iff f).1 h.0 in
      let b = (is_bad_media_type_iff m).1 h.1 in
      let c : (n == 0) ≡ false = ground (arith, h.2) in rw (a, b, c) (ap (λ x. ok x) h.3),
)
