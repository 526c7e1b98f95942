-- ===== src/Profile/Tokens.antt =====
-- Every token of argv is what its node of the capsule's template stands for.
use taskcage.Prelude.{
  ℕ, ◌+◌, String, ◌≡◌, sym, ap, ◌∙◌, subst, ◌⊎◌, inl, inr, some, List, [], ◌∷◌, arith,
  String_discrete, ok_injective, >>=-eq-ok, >>-eq-ok, ok_or-eq-ok, Bool-cases, ok, ok_or,
}
use taskcage.Prelude.Map
use taskcage.Prelude.Map.{Map}
use taskcage.Prelude.Ordered
use taskcage.Prelude.Utf8.{utf8, has_nul}
use taskcage.Core.Invocation.{ProfileCall, ProfileValue, text, int64, boolean, local_input}
use taskcage.Profile.Types.{
  CapsuleInputKind, CapsuleInputValueKind, string_value, int64_value, boolean_value,
  CapsuleArgument, LocalInputArtifact, VerifiedArgument, invalid_compiled_contract, missing_scalar,
}
use taskcage.Profile.Inputs.{collect_into, collect_inputs, is_bad_text}
use taskcage.Profile.Arguments.{
  int_text, bool_text, argument_kind_matches_declaration, scalar_text, bind_argument, bind_all,
}
use taskcage.Profile.Bound.{unless-ok}
use taskcage.Profile.Mapper.{
  ArtifactBindingKind, input, output, ArtifactBindings, missing_input, missing_output, nul_argument,
  collect_bindings, token_of, unless, bind_tokens,
}

-- The list has the name with the value.
abbrev pub Entry : {V : Type 0} → String → V → List (String × V) → Type 0
Entry slot value [] = ⊥
Entry slot value ((k, v) ∷ entries) = ((k ≡ slot) × (v ≡ value)) ⊎ Entry slot value entries

insert-Entry :
    {V : Type 0} (slot k : String) (value v : V) (entries : List (String × V)) (collected : Map V)
    → Entry slot value entries ⊎ (Map.lookup slot (Ordered.insert k v collected) ≡ some value)
    → Entry slot value ((k, v) ∷ entries) ⊎ (Map.lookup slot collected ≡ some value)
insert-Entry slot k value v entries collected (inl e) = inl (inr e)
insert-Entry slot k value v entries collected (inr found) = elim (String_discrete k slot) [
  | yes p ↦ inl (inl (p, ground (arith, Ordered.lookup-insert k slot v collected, p, found)))
  | no n ↦ inr (ground (arith, Ordered.lookup-insert k slot v collected, n, found))
]

collect_into-Entry :
    (slot : String) (value : ProfileValue) (entries : List (String × ProfileValue))
    (collected values : Map ProfileValue)
    → collect_into entries collected ≡ ok values
    → Map.lookup slot values ≡ some value
    → Entry slot value entries ⊎ (Map.lookup slot collected ≡ some value)
unfolding collect_into
collect_into-Entry slot value [] collected values h found =
    inr (ap (Map.lookup slot) (ok_injective collected values h) ∙ found)
collect_into-Entry slot value ((k, v) ∷ entries) collected values h found =
    elim (Bool-cases (Map.contains_key k collected)) [
      | inl twice ↦ absurd (ground (arith, h, twice))
      | inr fresh ↦ insert-Entry slot k value v entries collected (
          collect_into-Entry slot value entries (Ordered.insert k v collected) values
            (ground (arith, h, fresh)) found)
    ]

collect_bindings-Entry :
    (kind : ArtifactBindingKind) (slot : String) (path : List ℕ) (entries : List (String × List ℕ))
    (collected paths : Map (List ℕ))
    → collect_bindings kind entries collected ≡ ok paths
    → Map.lookup slot paths ≡ some path
    → Entry slot path entries ⊎ (Map.lookup slot collected ≡ some path)
unfolding collect_bindings
collect_bindings-Entry kind slot path [] collected paths h found =
    inr (ap (Map.lookup slot) (ok_injective collected paths h) ∙ found)
collect_bindings-Entry kind slot path ((k, p) ∷ entries) collected paths h found =
    elim (Bool-cases (Map.contains_key k collected)) [
      | inl twice ↦ absurd (ground (arith, h, twice))
      | inr fresh ↦ insert-Entry slot k path p entries collected (
          collect_bindings-Entry kind slot path entries (Ordered.insert k p collected) paths
            (ground (arith, h, fresh)) found)
    ]

-- From an empty map, only the entries are left.
from_entries :
    {V : Type 0} (slot : String) (value : V) (entries : List (String × V))
    → Entry slot value entries ⊎ (Map.lookup slot [] ≡ some value)
    → Entry slot value entries
unfolding Map.lookup
from_entries slot value entries (inl e) = e
from_entries slot value entries (inr f) = absurd (ground (arith, f))

-- A scalar as it is printed.
abbrev pub printed : ProfileValue → String
printed (text value) = value
printed (int64 value) = int_text value
printed (boolean value) = bool_text value
printed (local_input _ _ _) = ""

-- The token that a node of the template stands for, in the caller's own lists.
abbrev pub Renders : ProfileCall → ArtifactBindings → CapsuleArgument → List ℕ → Type 0
Renders call bindings (CapsuleArgument.literal value) token = token ≡ utf8 value
Renders call bindings (CapsuleArgument.input_path slot) token =
    Entry slot token bindings.input_paths
Renders call bindings (CapsuleArgument.output_path slot) token =
    Entry slot token bindings.output_paths
Renders call bindings (CapsuleArgument.input_value kind slot) token =
    (value : ProfileValue) × Entry slot value call.inputs × (token ≡ utf8 (printed value))

abbrev pub AllRender :
    ProfileCall → ArtifactBindings → List CapsuleArgument → List (List ℕ) → Type 0
AllRender call bindings [] [] = Unit {0}
AllRender call bindings [] (token ∷ tokens) = ⊥
AllRender call bindings (node ∷ nodes) [] = ⊥
AllRender call bindings (node ∷ nodes) (token ∷ tokens) =
    Renders call bindings node token × AllRender call bindings nodes tokens

module _ (call : ProfileCall) (bindings : ArtifactBindings) (output_name : String)
    (kinds : Map CapsuleInputKind) (values : Map ProfileValue) (artifacts : Map LocalInputArtifact)
    (ins outs : Map (List ℕ)) (supplied : collect_inputs call.inputs ≡ ok values)
    (ins_bound : collect_bindings input bindings.input_paths [] ≡ ok ins)
    (outs_bound : collect_bindings output bindings.output_paths [] ≡ ok outs) where
  scalar_text-printed :
      (slot : String) (kind : CapsuleInputValueKind) (value : ProfileValue) (literal : String)
      → scalar_text slot kind value ≡ ok literal
      → literal ≡ printed value
  unfolding scalar_text
  scalar_text-printed slot string_value (text s) literal h = sym (ok_injective s literal h)
  scalar_text-printed slot string_value (int64 z) literal h = absurd (ground (arith, h))
  scalar_text-printed slot string_value (boolean b) literal h = absurd (ground (arith, h))
  scalar_text-printed slot string_value (local_input p d n) literal h = absurd (ground (arith, h))
  scalar_text-printed slot int64_value (int64 z) literal h = sym (ok_injective _ literal h)
  scalar_text-printed slot int64_value (text s) literal h = absurd (ground (arith, h))
  scalar_text-printed slot int64_value (boolean b) literal h = absurd (ground (arith, h))
  scalar_text-printed slot int64_value (local_input p d n) literal h = absurd (ground (arith, h))
  scalar_text-printed slot boolean_value (boolean b) literal h = sym (ok_injective _ literal h)
  scalar_text-printed slot boolean_value (text s) literal h = absurd (ground (arith, h))
  scalar_text-printed slot boolean_value (int64 z) literal h = absurd (ground (arith, h))
  scalar_text-printed slot boolean_value (local_input p d n) literal h = absurd (ground (arith, h))

  token_of-Renders :
      (node : CapsuleArgument) (verified : VerifiedArgument) (token : List ℕ)
      → bind_argument output_name kinds values artifacts node ≡ ok verified
      → token_of ins outs verified ≡ ok token
      → Renders call bindings node token
  unfolding bind_argument
  token_of-Renders (CapsuleArgument.literal value) verified token h t =
      let (_, e) = unless-ok (is_bad_text value) _ (VerifiedArgument.literal value) verified h in
      sym (ok_injective (utf8 value) token (ap (token_of ins outs) e ∙ t))
  token_of-Renders (CapsuleArgument.input_path slot) verified token h t =
      let (_, e) = unless-ok _ _ (VerifiedArgument.input_artifact_path slot) verified h in
      from_entries slot token bindings.input_paths (
        collect_bindings-Entry input slot token bindings.input_paths [] ins ins_bound
          (ok_or-eq-ok (Map.lookup slot ins) (missing_input slot) (ap (token_of ins outs) e ∙ t)))
  token_of-Renders (CapsuleArgument.output_path slot) verified token h t =
      let (_, e) = unless-ok _ _ (VerifiedArgument.output_artifact_path slot) verified h in
      from_entries slot token bindings.output_paths (
        collect_bindings-Entry output slot token bindings.output_paths [] outs outs_bound
          (ok_or-eq-ok (Map.lookup slot outs) (missing_output slot) (ap (token_of ins outs) e ∙ t)))
  token_of-Renders (CapsuleArgument.input_value kind slot) verified token h t =
      elim (Bool-cases (argument_kind_matches_declaration kind (Map.lookup slot kinds))) [
        | inl matches ↦
            let (value, found, h1) =
              >>=-eq-ok
                (ok_or (Map.lookup slot values) (invalid_compiled_contract (missing_scalar slot))) _
                (rw matches at h) in
            let (literal, made, h2) = >>=-eq-ok (scalar_text slot kind value) _ h1 in
            let e = ok_injective (VerifiedArgument.literal literal) verified h2 in
            (
              value,
              from_entries slot value call.inputs (
                  collect_into-Entry slot value call.inputs [] values supplied
                    (ok_or-eq-ok _ _ found)),
              sym (ok_injective (utf8 literal) token (ap (token_of ins outs) e ∙ t))
                  ∙ ap utf8 (scalar_text-printed slot kind value literal made),
            )
        | inr differs ↦ absurd (ground (arith, h, differs))
      ]

  pub bind_tokens-AllRender :
      (nodes : List CapsuleArgument) (arguments : List VerifiedArgument) (index : ℕ)
      (tokens : List (List ℕ))
      → bind_all output_name kinds values artifacts nodes ≡ ok arguments
      → bind_tokens index ins outs arguments ≡ ok tokens
      → AllRender call bindings nodes tokens
  unfolding bind_all bind_tokens
  bind_tokens-AllRender [] arguments index tokens h t =
      subst (AllRender call bindings [])
        (ok_injective [] tokens (ap (bind_tokens index ins outs) (ok_injective [] arguments h) ∙ t))
        tt
  bind_tokens-AllRender (node ∷ nodes) arguments index tokens h t =
      let (first, a, h1) = >>=-eq-ok (bind_argument output_name kinds values artifacts node) _ h in
      let (rest, b, h2) = >>=-eq-ok (bind_all output_name kinds values artifacts nodes) _ h1 in
      let e = ok_injective (first ∷ rest) arguments h2 in
      let (token, c, t1) =
        >>=-eq-ok (token_of ins outs first) _ (ap (bind_tokens index ins outs) e ∙ t) in
      let (_, t2) = >>-eq-ok (unless (has_nul token) (nul_argument index)) _ t1 in
      let (others, d, t3) = >>=-eq-ok (bind_tokens (index + 1) ins outs rest) _ t2 in
      subst (AllRender call bindings (node ∷ nodes)) (ok_injective (token ∷ others) tokens t3) (
        token_of-Renders node first token a c,
        bind_tokens-AllRender nodes rest (index + 1) others b d,
      )
