-- ===== src/Prelude/Results.antt =====
-- Rust's `Result<A, E>`; a `do` block is the chain of its `?` operators.
use mathlib.Core.Path.{◌≡◌, refl}
use mathlib.Core.Logic.{◌⊎◌, inl, inr}
use mathlib.Core.Option.{Option, none, some}

pub data Result {ℓ} (E : Type 0) (A : Type ℓ) : Type ℓ where
  ok : A → Result E A
  err : E → Result E A

infixl 5 ◌>>=◌ ◌>>◌
abbrev pub ◌>>=◌ {ℓ κ} :
    {E : Type 0} {A : Type ℓ} {B : Type κ} → Result E A → (A → Result E B) → Result E B
ok a >>= f = f a
err e >>= f = err e

abbrev pub ◌>>◌ {ℓ} : {E : Type 0} {B : Type ℓ} → Result E (Unit {0}) → Result E B → Result E B
m >> k = m >>= λ _. k

-- `Option::ok_or`.
abbrev pub ok_or {ℓ} : {E : Type 0} {A : Type ℓ} → Option A → E → Result E A
ok_or none e = err e
ok_or (some a) e = ok a

pub Result-cases {ℓ} :
    {E : Type 0} {A : Type ℓ} (r : Result E A) → ((a : A) × (r ≡ ok a)) ⊎ ((e : E) × (r ≡ err e))
Result-cases (ok a) = inl (a, refl)
Result-cases (err e) = inr (e, refl)

-- A result that is no error is a success.
pub ok_of_ne_err {ℓ} :
    {E : Type 0} {A : Type ℓ} (r : Result E A) → ((e : E) → ¬ (r ≡ err e)) → (a : A) × (r ≡ ok a)
ok_of_ne_err (ok a) h = (a, refl)
ok_of_ne_err (err e) h = absurd (h e refl)

-- What each part of a chain gave if the chain succeeded.
pub >>=-eq-ok {ℓ κ} :
    {E : Type 0} {A : Type ℓ} {B : Type κ} (head : Result E A) (next : A → Result E B) {last : B}
    → (head >>= next) ≡ ok last
    → (given : A) × (head ≡ ok given) × (next given ≡ ok last)
>>=-eq-ok (ok given) next same = (given, refl, same)
>>=-eq-ok (err reason) next same = cc

pub >>-eq-ok {ℓ} :
    {E : Type 0} {B : Type ℓ} (head : Result E (Unit {0})) (next : Result E B) {last : B}
    → (head >> next) ≡ ok last
    → (head ≡ ok tt) × (next ≡ ok last)
>>-eq-ok (ok tt) next same = (refl, same)
>>-eq-ok (err reason) next same = cc

pub ok_or-eq-ok {ℓ} :
    {E : Type 0} {A : Type ℓ} (o : Option A) (e : E) {a : A} → ok_or o e ≡ ok a → o ≡ some a
ok_or-eq-ok none e h = cc
ok_or-eq-ok (some a) e h = cc

pub ok_injective {ℓ} :
    {E : Type 0} {A : Type ℓ} (a b : A) → (let r : Result E A = ok a in r) ≡ ok b → a ≡ b
ok_injective a b h = cc

-- Which part of a chain its error came from.
pub >>=-eq-err {ℓ κ} :
    {E : Type 0} {A : Type ℓ} {B : Type κ} (head : Result E A) (next : A → Result E B) {reason : E}
    → (head >>= next) ≡ err reason
    → (head ≡ err reason) ⊎ ((given : A) × (head ≡ ok given) × (next given ≡ err reason))
>>=-eq-err (err reason) next same = inl (cc)
>>=-eq-err (ok given) next same = inr (given, refl, same)

pub >>-eq-err {ℓ} :
    {E : Type 0} {B : Type ℓ} (head : Result E (Unit {0})) (next : Result E B) {reason : E}
    → (head >> next) ≡ err reason
    → (head ≡ err reason) ⊎ ((head ≡ ok tt) × (next ≡ err reason))
>>-eq-err (err reason) next same = inl (cc)
>>-eq-err (ok tt) next same = inr (refl, same)

pub err_injective {ℓ} :
    {E : Type 0} {A : Type ℓ} (a b : E) → (let r : Result E A = err a in r) ≡ err b → a ≡ b
err_injective a b h = cc
