-- ===== src/Profile/Accepted.antt =====
-- A bundle that `validate_bundle` accepts compiles, to a capsule with a valid structure.
use taskcage.Prelude.{
  ℕ, suc, ◌+◌, String, ◌≡◌, refl, sym, ap, ◌∙◌, subst, Bool, true, false, ◌&&◌, ◌||◌, not, Option,
  none, some, List, [], ◌∷◌, arith, String_discrete, ok_injective, >>=-eq-ok, >>-eq-ok, ltb, leb,
  ◌==◌, if◌then◌else◌, length, Result, ok, err, ◌>>◌,
}
use taskcage.Prelude.Utf8.{utf8}
use taskcage.Prelude.Int.{ℤ}
use taskcage.Profile.Types.{
  InvocationError, CapsuleInput, CapsuleInputKind, local_input_kind, string_kind, boolean_kind,
  int64_kind, allowed_values, range,
}
use taskcage.Profile.Names.{
  is_lower, slot_byte, starts_lower, valid_slot_name, contains, known_override_field,
}
use taskcage.Profile.Contract.{guard, is_local, check_inputs, check_overrides}
use taskcage.Profile.Bundle
use taskcage.Profile.Bundle.{
  first_then, BundleInput, BundleProfile, BundleFault, require, validate_slot,
  validate_input_schema, local_of, validate_inputs, validate_overrides, good_values,
  good_constraint,
}
use taskcage.Profile.Compile.{
  bad_allowlist, CapsuleFault, kind_of, try_from, try_from_all, validate_allowed_overrides,
}

pub require-eq-ok : (b : Bool) (fault : BundleFault) → require b fault ≡ ok tt → b ≡ true
require-eq-ok true fault h = refl
require-eq-ok false fault h = cc

-- What a schema that was accepted becomes.
abbrev Becomes : String → Option (List ℤ) → Option ℤ → Option ℤ → ℕ → Type 0
Becomes kind values minimum maximum here =
    (compiled : CapsuleInputKind) × (kind_of kind values minimum maximum ≡ some compiled)
    × (is_local compiled ≡ here)

abbrev schema : String → Option (List ℤ) → Option ℤ → Option ℤ → BundleInput
schema kind values minimum maximum = record {
  name = "";
  kind = kind;
  required = true;
  allowed_values = values;
  minimum = minimum;
  maximum = maximum;
}

plain-Becomes :
    (kind : String) (values : Option (List ℤ)) (minimum maximum : Option ℤ) (here : ℕ)
    → ¬ (kind ≡ "INT64")
    → local_of kind ≡ ok here
    → validate_input_schema (schema kind values minimum maximum) ≡ ok tt
    → Becomes kind values minimum maximum here
unfolding validate_input_schema kind_of
plain-Becomes kind none none none here other h v = elim (String_discrete kind "LOCAL_INPUT") [
  | yes p ↦ (local_input_kind, ground (arith, p), ground (arith, p, h))
  | no n ↦ elim (String_discrete kind "STRING") [
    | yes p ↦ (string_kind, ground (arith, p, n), ground (arith, p, n, h))
    | no m ↦ elim (String_discrete kind "BOOLEAN") [
      | yes p ↦ (boolean_kind, ground (arith, p, n, m), ground (arith, p, n, m, h))
      | no l ↦ absurd (ground (arith, h, n, m, l, other))
    ]
  ]
]
plain-Becomes kind (some _) _ _ here other h v = absurd (ground (arith, other, v))
plain-Becomes kind none (some _) _ here other h v = absurd (ground (arith, other, v))
plain-Becomes kind none none (some _) here other h v = absurd (ground (arith, other, v))

int64-Becomes :
    (values : Option (List ℤ)) (minimum maximum : Option ℤ) (here : ℕ)
    → local_of "INT64" ≡ ok here
    → validate_input_schema (schema "INT64" values minimum maximum) ≡ ok tt
    → Becomes "INT64" values minimum maximum here
unfolding validate_input_schema kind_of String_discrete
int64-Becomes (some values) none none here h v =
    (int64_kind (allowed_values values), ground (arith, v), ok_injective 0 here h)
int64-Becomes none (some minimum) (some maximum) here h v =
    (int64_kind (range minimum maximum), ground (arith, v), ok_injective 0 here h)
int64-Becomes none none maximum here h v = absurd (ground (arith, v))
int64-Becomes none (some _) none here h v = absurd (ground (arith, v))
int64-Becomes (some _) (some _) maximum here h v = absurd (ground (arith, v))
int64-Becomes (some _) none (some _) here h v = absurd (ground (arith, v))

schema-Becomes :
    (kind : String) (values : Option (List ℤ)) (minimum maximum : Option ℤ) (here : ℕ)
    → local_of kind ≡ ok here
    → validate_input_schema (schema kind values minimum maximum) ≡ ok tt
    → Becomes kind values minimum maximum here
schema-Becomes kind values minimum maximum here h v = elim (String_discrete kind "INT64") [
  | yes p ↦
      subst (λ z. Becomes z values minimum maximum here) (sym p)
        (int64-Becomes values minimum maximum here (ap local_of (sym p) ∙ h)
          (ap (λ z. validate_input_schema (schema z values minimum maximum)) (sym p) ∙ v))
  | no n ↦ plain-Becomes kind values minimum maximum here n h v
]

slot_bytes :
    (bytes : List ℕ)
    → (not
        (length bytes == 0 || ltb 64 (length bytes) || not (first_then is_lower slot_byte bytes)))
      ≡ true
    → (leb (length bytes) 64 && starts_lower slot_byte bytes) ≡ true
slot_bytes [] h = absurd (ground (arith, h))
slot_bytes (c ∷ cs) h = ground (arith, h)

pub slot-IsValid : (name : String) → validate_slot name ≡ ok tt → valid_slot_name name ≡ true
unfolding validate_slot valid_slot_name
slot-IsValid name h = slot_bytes (utf8 name) (require-eq-ok _ _ h)

pub guard_then {ℓ} :
    {A : Type ℓ} (b : Bool) (e : InvocationError) (next : Result InvocationError A) {last : A}
    → b ≡ true
    → next ≡ ok last
    → (guard b e >> next) ≡ ok last
guard_then true e next h same = same
guard_then false e next h same = absurd (ground (arith, h))

not_both :
    (known twice : Bool) (next : Result CapsuleFault (Unit {0}))
    → (known && not twice) ≡ true
    → next ≡ ok tt
    → (if not known || twice then err bad_allowlist else next) ≡ ok tt
not_both true false next h same = same
not_both true true next h same = absurd (ground (arith, h))
not_both false twice next h same = absurd (ground (arith, h))

pub validate_overrides-agrees :
    (fields allowed : List String)
    → validate_overrides fields allowed ≡ ok tt
    → (validate_allowed_overrides fields allowed ≡ ok tt) × (check_overrides fields allowed ≡ ok tt)
unfolding validate_overrides validate_allowed_overrides check_overrides
validate_overrides-agrees [] allowed h = (refl, refl)
validate_overrides-agrees (field ∷ fields) allowed h =
    let fresh = known_override_field field && not (contains field allowed) in
    let (now, later) =
      >>-eq-ok (require fresh Bundle.bad_override) (validate_overrides fields (field ∷ allowed))
        h in
    let new = require-eq-ok fresh Bundle.bad_override now in
    let (a, b) = validate_overrides-agrees fields (field ∷ allowed) later in
    (
      not_both (known_override_field field) (contains field allowed) _ new a,
      guard_then fresh _ (check_overrides fields (field ∷ allowed)) new b,
    )

-- An input that passes its checks compiles to one that passes the contract's.
try_from-ok :
    (input : BundleInput) (here : ℕ)
    → input.required ≡ true
    → local_of input.kind ≡ ok here
    → validate_input_schema input ≡ ok tt
    → (compiled : CapsuleInput) × (try_from input ≡ ok compiled)
      × (compiled.name ≡ input.name)
      × (compiled.required ≡ true)
      × (is_local compiled.kind ≡ here)
unfolding try_from validate_input_schema
try_from-ok input here required h v =
    let (kind, found, local) =
      schema-Becomes input.kind input.allowed_values input.minimum input.maximum here h v in
    (
      record { name = input.name; required = input.required; kind = kind },
      rw (required, found) refl,
      refl,
      required,
      local,
    )

second_and : (a b : Bool) → (not a && b) ≡ true → (a ≡ false) × (b ≡ true)
second_and a b h = (ground arith, ground arith)

pub validate_inputs-agrees :
    (inputs : List BundleInput) (names : List String) (count total : ℕ)
    → validate_inputs inputs names count ≡ ok total
    → (compiled : List CapsuleInput) × (try_from_all inputs ≡ ok compiled)
      × (check_inputs compiled names count ≡ ok total)
      × (length compiled ≡ length inputs)
unfolding validate_inputs try_from_all check_inputs
validate_inputs-agrees [] names count total h = ([], refl, ground (arith, h), refl)
validate_inputs-agrees (input ∷ inputs) names count total h =
    let (a, h1) = >>-eq-ok (validate_slot input.name) _ h in
    let (b, h2) =
      >>-eq-ok (require (not (contains input.name names) && input.required) Bundle.bad_input) _
        h1 in
    let (here, c, h3) = >>=-eq-ok (local_of input.kind) _ h2 in
    let (d, h4) = >>-eq-ok (validate_input_schema input) _ h3 in
    let (fresh, required) =
      second_and (contains input.name names) input.required (require-eq-ok _ Bundle.bad_input b) in
    let (first, made, named, needed, local) = try_from-ok input here required c d in
    let (rest, others, checked, same) =
      validate_inputs-agrees inputs (input.name ∷ names) (here + count) total h4 in
    (
      first ∷ rest,
      rw (made, others) refl,
      guard_then _ _ (check_inputs rest (first.name ∷ names) (is_local first.kind + count))
          (rw (needed, named, slot-IsValid input.name a, fresh) refl) (rw (named, local) checked),
      ap suc same,
    )
