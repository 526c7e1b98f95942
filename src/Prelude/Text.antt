-- ===== src/Prelude/Text.antt =====
-- Texts, compared by the native comparison.
use Prim.Native.Nat.{ℕ, zero, suc, ◌/◌, ◌%◌}
use Prim.Native.String.{String, ◌++◌ as append}
use mathlib.Core.Path.{◌≡◌, refl}
use mathlib.Core.Logic.{◌↔◌, ite}
use mathlib.Core.Bool.{Bool, true, false, false≢true}
use text.Mathlib.Text.{◌==◌}
use text.Mathlib.TextEquality.{eq_iff}
use taskcage.Prelude.Tests.{ltb}

dec_of_iff {ℓ} : {A : Type ℓ} (b : Bool) → (b ≡ true) ↔ A → Dec A
dec_of_iff true e = yes (e.0 refl)
dec_of_iff false e = no (λ a. false≢true (e.1 a))

unfoldable pub String_discrete : Discrete String
unfolding dec_of_iff
String_discrete s t = dec_of_iff (s == t) (eq_iff s t)

-- `==` of two texts.
abbrev pub str_eq : String → String → Bool
str_eq s t = ite (String_discrete s t) true false

abbrev pub str_append : String → String → String
str_append = append

unfoldable pub digit : ℕ → String
digit zero = "0"
digit (suc zero) = "1"
digit (suc (suc zero)) = "2"
digit (suc (suc (suc zero))) = "3"
digit (suc (suc (suc (suc zero)))) = "4"
digit (suc (suc (suc (suc (suc zero))))) = "5"
digit (suc (suc (suc (suc (suc (suc zero)))))) = "6"
digit (suc (suc (suc (suc (suc (suc (suc zero))))))) = "7"
digit (suc (suc (suc (suc (suc (suc (suc (suc zero)))))))) = "8"
digit _ = "9"

unfoldable pub decimal_fuel : ℕ → ℕ → String
unfolding digit
decimal_fuel zero n = digit n
decimal_fuel (suc fuel) n = elim (ltb n 10) [
  | true ↦ digit n
  | false ↦ str_append (decimal_fuel fuel (n / 10)) (digit (n % 10))
]

-- A number in decimal, as `format!("{}", n)` writes it. A number has at most as many digits as its
-- value says, so the fuel is enough.
unfoldable pub decimal : ℕ → String
unfolding decimal_fuel
decimal n = decimal_fuel n n
