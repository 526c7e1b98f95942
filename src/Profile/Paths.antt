-- ===== src/Profile/Paths.antt =====
-- The checks of the bindings: what a passed one says, and whom a failed one blames.
use taskcage.Prelude.{
  ℕ, String, ◌≡◌, sym, ap, ◌∙◌, subst, inl, inr, Bool, true, false, some, List, [], ◌∷◌, arith,
  String_discrete, >>-eq-ok, Bool-cases, ok, err,
}
use taskcage.Prelude.Map
use taskcage.Prelude.Map.{Map}
use taskcage.Prelude.Ordered
use taskcage.Prelude.Utf8.{has_nul}
use taskcage.Profile.Mapper.{
  ArtifactBindingKind, MaterializationError, duplicate_binding, non_absolute_binding, nul_binding,
  binding_set_mismatch, non_absolute_working_directory, nul_argv0, nul_working_directory,
  nul_argument, missing_input, missing_output, collect_bindings, is_empty, is_absolute,
  validate_absolute_paths,
}

-- An error that the bindings alone are to blame for.
abbrev pub BindingFault : MaterializationError → Type 0
BindingFault (duplicate_binding _ _) = Unit {0}
BindingFault (non_absolute_binding _ _) = Unit {0}
BindingFault (nul_binding _ _) = Unit {0}
BindingFault (binding_set_mismatch _ _ _ _) = Unit {0}
BindingFault non_absolute_working_directory = Unit {0}
BindingFault nul_working_directory = Unit {0}
BindingFault nul_argv0 = ⊥
BindingFault (nul_argument _) = ⊥
BindingFault (missing_input _) = ⊥
BindingFault (missing_output _) = ⊥

pub collect_bindings-BindingFault :
    (kind : ArtifactBindingKind) (bindings : List (String × List ℕ)) (collected : Map (List ℕ))
    (e : MaterializationError)
    → collect_bindings kind bindings collected ≡ err e
    → BindingFault e
unfolding collect_bindings
collect_bindings-BindingFault kind [] collected e h = absurd (ground (arith, h))
collect_bindings-BindingFault kind ((slot, path) ∷ bindings) collected e h =
    elim (Bool-cases (Map.contains_key slot collected)) [
      | inl twice ↦
          let same : duplicate_binding kind slot ≡ e = ground (arith, h, twice) in
          subst BindingFault same tt
      | inr fresh ↦
          collect_bindings-BindingFault kind bindings (Ordered.insert slot path collected) e
            (ground (arith, h, fresh))
    ]

-- The paths of a map have no NUL.
abbrev pub PathsClean : Map (List ℕ) → Type 0
PathsClean paths =
    (slot : String) (path : List ℕ) → Map.lookup slot paths ≡ some path → has_nul path ≡ false

pub validate_absolute_paths-PathsClean :
    (kind : ArtifactBindingKind) (paths : Map (List ℕ))
    → validate_absolute_paths kind paths ≡ ok tt
    → PathsClean paths
unfolding validate_absolute_paths Map.lookup
validate_absolute_paths-PathsClean kind [] h slot path found = absurd (ground (arith, found))
validate_absolute_paths-PathsClean kind ((k, p) ∷ paths) h slot path found =
    let (first, rest) = >>-eq-ok _ (validate_absolute_paths kind paths) h in
    elim (String_discrete k slot) [
      | yes same ↦
          let e : p ≡ path = ground (arith, found, same) in
          subst (λ z. has_nul z ≡ false) e (ground (arith, first))
      | no other ↦
          validate_absolute_paths-PathsClean kind paths rest slot path
            (ground (arith, found, other))
    ]

pub validate_absolute_paths-BindingFault :
    (kind : ArtifactBindingKind) (paths : Map (List ℕ)) (e : MaterializationError)
    → validate_absolute_paths kind paths ≡ err e
    → BindingFault e
unfolding validate_absolute_paths
validate_absolute_paths-BindingFault kind [] e h = absurd (ground (arith, h))
validate_absolute_paths-BindingFault kind ((k, p) ∷ paths) e h = elim (Bool-cases (is_absolute p)) [
  | inr relative ↦
      let same : non_absolute_binding kind k ≡ e = ground (arith, h, relative) in
      subst BindingFault same tt
  | inl absolute ↦ elim (Bool-cases (has_nul p)) [
    | inl nul ↦
        let same : nul_binding kind k ≡ e = ground (arith, h, absolute, nul) in
        subst BindingFault same tt
    | inr clean ↦
        validate_absolute_paths-BindingFault kind paths e (ground (arith, h, absolute, clean))
  ]
]

-- A key of the first map that the second does not have is in their difference.
pub difference-nil {ℓ} :
    {V : Type ℓ} (left : Map V) (other : String → Bool) (slot : String)
    → is_empty (Ordered.difference left other) ≡ true
    → Map.contains_key slot left ≡ true
    → other slot ≡ true
unfolding Ordered.difference Map.lookup
difference-nil [] other slot e h = absurd (ground (arith, h))
difference-nil ((k, v) ∷ left) other slot e h = elim (Bool-cases (other k)) [
  | inr missing ↦ absurd (ground (arith, e, missing))
  | inl there ↦ elim (String_discrete k slot) [
    | yes same ↦ ap other (sym same) ∙ there
    | no differs ↦
        difference-nil left other slot (ground (arith, e, there)) (ground (arith, h, differs))
  ]
]
