-- ===== src/Profile/Clean.antt =====
-- The bound arguments of an accepted call: no literal contains a NUL, and a path stands for a declared
-- slot.
use taskcage.Prelude.{
  ℕ, zero, suc, ◌+◌, ◌/◌, ◌%◌, String, ◌≡◌, refl, sym, ap, ◌∙◌, ◌⊎◌, inl, inr, Bool, true, false,
  Option, some, List, [], ◌∷◌, arith, String_discrete, str_append, decimal_fuel, >>=-eq-ok,
  ok_or-eq-ok, digit, decimal, ltb, Bool-cases, ok, ok_or,
}
use taskcage.Prelude.Map
use taskcage.Prelude.Map.{Map}
use taskcage.Prelude.Int.{ℤ, pos, negsuc}
use taskcage.Prelude.Ordered
use taskcage.Prelude.Utf8.{utf8, has_nul, utf8-append, has_nul-append}
use taskcage.Core.Invocation.{ProfileValue}
use taskcage.Profile.Types.{
  CapsuleInput, CapsuleInputKind, LocalInputArtifact, invalid_compiled_contract, lost_input,
}
use taskcage.Profile.Inputs.{is_bad_text, check_value, validate_into, insert_if}
use taskcage.Profile.Arguments.{int_text, bool_text, kinds_into}

abbrev pub IsClean : String → Type 0
IsClean s = has_nul (utf8 s) ≡ false

append-IsClean : (s t : String) → IsClean s → IsClean t → IsClean (str_append s t)
append-IsClean s t p q =
    rw (utf8-append s t) (rw (has_nul-append (utf8 s) (utf8 t)) (rw (p, q) refl))

digit-IsClean : (n : ℕ) → IsClean (digit n)
unfolding digit utf8 has_nul
digit-IsClean zero = refl
digit-IsClean (suc zero) = refl
digit-IsClean (suc (suc zero)) = refl
digit-IsClean (suc (suc (suc zero))) = refl
digit-IsClean (suc (suc (suc (suc zero)))) = refl
digit-IsClean (suc (suc (suc (suc (suc zero))))) = refl
digit-IsClean (suc (suc (suc (suc (suc (suc zero)))))) = refl
digit-IsClean (suc (suc (suc (suc (suc (suc (suc zero))))))) = refl
digit-IsClean (suc (suc (suc (suc (suc (suc (suc (suc zero)))))))) = refl
digit-IsClean (suc (suc (suc (suc (suc (suc (suc (suc (suc n))))))))) = refl

decimal_fuel-IsClean : (fuel n : ℕ) → IsClean (decimal_fuel fuel n)
unfolding decimal_fuel
decimal_fuel-IsClean zero n = digit-IsClean n
decimal_fuel-IsClean (suc fuel) n = elim (Bool-cases (ltb n 10)) [
  | inl small ↦ rw (small, decimal_fuel) (digit-IsClean n)
  | inr large ↦
      rw (large, decimal_fuel)
        (append-IsClean (decimal_fuel fuel (n / 10)) (digit (n % 10))
          (decimal_fuel-IsClean fuel (n / 10)) (digit-IsClean (n % 10)))
]

minus-IsClean : IsClean "-"
unfolding utf8 has_nul
minus-IsClean = refl

pub int_text-IsClean : (z : ℤ) → IsClean (int_text z)
unfolding int_text decimal
int_text-IsClean (pos n) = decimal_fuel-IsClean n n
int_text-IsClean (negsuc n) =
    append-IsClean "-" (decimal (n + 1)) minus-IsClean (decimal_fuel-IsClean (n + 1) (n + 1))

pub bool_text-IsClean : (b : Bool) → IsClean (bool_text b)
unfolding utf8 has_nul
bool_text-IsClean true = refl
bool_text-IsClean false = refl

pub good-IsClean : (s : String) → is_bad_text s ≡ false → IsClean s
unfolding is_bad_text
good-IsClean s h = ground arith

-- The input is declared with the kind.
abbrev pub Declared : String → CapsuleInputKind → List CapsuleInput → Type 0
Declared slot kind [] = ⊥
Declared slot kind (input ∷ inputs) =
    ((input.name ≡ slot) × (input.kind ≡ kind)) ⊎ Declared slot kind inputs

pub kinds_into-Declared :
    (slot : String) (kind : CapsuleInputKind) (inputs : List CapsuleInput)
    (kinds : Map CapsuleInputKind)
    → Map.lookup slot (kinds_into inputs kinds) ≡ some kind
    → Declared slot kind inputs ⊎ (Map.lookup slot kinds ≡ some kind)
unfolding kinds_into
kinds_into-Declared slot kind [] kinds h = inr h
kinds_into-Declared slot kind (input ∷ inputs) kinds h =
    elim (kinds_into-Declared slot kind inputs (Ordered.insert input.name input.kind kinds) h) [
      | inl d ↦ inl (inr d)
      | inr e ↦ elim (String_discrete input.name slot) [
        | yes p ↦
            inl (
              inl (p, ground (arith, Ordered.lookup-insert input.name slot input.kind kinds, p, e)))
        | no n ↦ inr (ground (arith, Ordered.lookup-insert input.name slot input.kind kinds, n, e))
      ]
    ]

-- The value of a declared input was supplied and checked.
abbrev pub Passed : String → CapsuleInputKind → Map ProfileValue → Type 0
Passed slot kind values =
    (value : ProfileValue) × (artifact : Option LocalInputArtifact) × (Map.lookup slot values
      ≡ some value)
    × (check_value slot kind value ≡ ok artifact)

pub validate_into-Passed :
    (slot : String) (kind : CapsuleInputKind) (inputs : List CapsuleInput)
    (values : Map ProfileValue) (artifacts result : Map LocalInputArtifact)
    → validate_into inputs values artifacts ≡ ok result
    → Declared slot kind inputs
    → Passed slot kind values
unfolding validate_into
validate_into-Passed slot kind [] values artifacts result h d = absurd d
validate_into-Passed slot kind (input ∷ inputs) values artifacts result h d =
    let (value, a, h1) =
      >>=-eq-ok (ok_or (Map.lookup input.name values) (invalid_compiled_contract lost_input)) _ h in
    let (artifact, b, h2) = >>=-eq-ok (check_value input.name input.kind value) _ h1 in
    elim d [
      | inl (p, q) ↦ (
        value,
        artifact,
        ap (λ z. Map.lookup z values) (sym p) ∙ ok_or-eq-ok _ _ a,
        ap (λ z. check_value z kind value) (sym p)
            ∙ (ap (λ z. check_value input.name z value) (sym q) ∙ b),
      )
      | inr e ↦
          validate_into-Passed slot kind inputs values (insert_if input.name artifact artifacts)
            result h2 e
    ]
