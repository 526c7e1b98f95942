-- ===== src/Prelude/Ordered.antt =====
-- `BTreeMap<String, V>` and `BTreeSet<String>`: an association list whose keys ascend, in the order of
-- the texts' bytes, in which `insert` replaces the entry of its key. `lookup` is that of Map.
use Prim.Native.Nat.{ℕ}
use Prim.Native.String.{String}
use mathlib.Core.Path.{◌≡◌, refl}
use mathlib.Core.Logic.{ite}
use mathlib.Core.Bool.{Bool, true, false}
use mathlib.Core.Option.{some}
use mathlib.Core.List.{List, [], ◌∷◌}
use native.Mathlib.Omega.{arith}
use taskcage.Prelude.Tests.{ltb, ◌==◌, if◌then◌else◌}
use taskcage.Prelude.Text.{String_discrete}
use taskcage.Prelude.Map.{Map, lookup}
use taskcage.Prelude.Utf8.{utf8}

unfoldable pub bytes_lt : List ℕ → List ℕ → Bool
bytes_lt bs [] = false
bytes_lt [] (c ∷ cs) = true
bytes_lt (b ∷ bs) (c ∷ cs) =
    let rest = bytes_lt bs cs in if ltb b c then true else if b == c then rest else false

module _ {ℓ} {V : Type ℓ} where
  unfoldable pub insert : String → V → Map V → Map V
  unfolding String_discrete bytes_lt utf8
  insert k v [] = (k, v) ∷ []
  insert k v ((j, w) ∷ m) =
      ite (String_discrete j k) ((k, v) ∷ m)
        (if bytes_lt (utf8 k) (utf8 j) then (k, v) ∷ (j, w) ∷ m else (j, w) ∷ insert k v m)

  pub lookup-insert :
      (k j : String) (v : V) (m : Map V)
      → lookup j (insert k v m) ≡ ite (String_discrete k j) (some v) (lookup j m)
  unfolding lookup insert
  lookup-insert k j v [] = refl
  lookup-insert k j v ((i, w) ∷ m) = ground (arith, lookup-insert k j v m)

  -- The keys of the first map that the second has not: `difference` of the sets of keys.
  unfoldable pub difference : Map V → (String → Bool) → List String
  difference [] other = []
  difference ((k, v) ∷ m) other =
      let rest = difference m other in if other k then rest else k ∷ rest
