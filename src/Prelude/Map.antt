-- ===== src/Prelude/Map.antt =====
-- `HashMap<String, V>` as an association list in which `insert` replaces the entry of its key.
use Prim.Native.Nat.{◌+◌, ◌≤◌, ◌<◌}
use Prim.Native.String.{String}
use mathlib.Core.Path.{◌≡◌, refl}
use mathlib.Core.Logic.{ite, ◌⊎◌, inl, inr}
use mathlib.Core.Bool.{Bool, true, false}
use mathlib.Core.Option.{Option, none, some}
use mathlib.Core.List.{List, [], ◌∷◌}
use native.Mathlib.Omega.{arith}
use taskcage.Prelude.Text.{String_discrete}
use taskcage.Prelude.Lists.{length}

abbrev pub Map {ℓ} : Type ℓ → Type ℓ
Map V = List (String × V)

module _ {ℓ} {V : Type ℓ} where
  unfoldable pub lookup : String → Map V → Option V
  unfolding String_discrete
  lookup k [] = none
  lookup k ((j, v) ∷ m) = ite (String_discrete j k) (some v) (lookup k m)

  unfoldable pub insert : String → V → Map V → Map V
  unfolding String_discrete
  insert k v [] = (k, v) ∷ []
  insert k v ((j, w) ∷ m) = ite (String_discrete j k) ((k, v) ∷ m) ((j, w) ∷ insert k v m)

  unfoldable pub remove : String → Map V → Map V
  unfolding String_discrete
  remove k [] = []
  remove k ((j, w) ∷ m) = ite (String_discrete j k) (remove k m) ((j, w) ∷ remove k m)

  abbrev pub is_some : Option V → Bool
  is_some none = false
  is_some (some v) = true

  abbrev pub contains_key : String → Map V → Bool
  contains_key k m = is_some (lookup k m)

  pub lookup-insert :
      (k j : String) (v : V) (m : Map V)
      → lookup j (insert k v m) ≡ ite (String_discrete k j) (some v) (lookup j m)
  unfolding lookup insert
  lookup-insert k j v [] = refl
  lookup-insert k j v ((i, w) ∷ m) = ground (arith, lookup-insert k j v m)

  pub lookup-remove :
      (k j : String) (m : Map V)
      → lookup j (remove k m) ≡ ite (String_discrete k j) none (lookup j m)
  unfolding lookup remove
  lookup-remove k j [] = ground arith
  lookup-remove k j ((i, w) ∷ m) = ground (arith, lookup-remove k j m)

  pub length-insert-le : (k : String) (v : V) (m : Map V) → length (insert k v m) ≤ length m + 1
  unfolding insert
  length-insert-le k v [] = omega arith
  length-insert-le k v ((i, w) ∷ m) = ground (arith, length-insert-le k v m)

  pub length-remove-le : (k : String) (m : Map V) → length (remove k m) ≤ length m
  unfolding remove
  length-remove-le k [] = omega arith
  length-remove-le k ((i, w) ∷ m) = ground (arith, length-remove-le k m)

  pub length-remove-lt :
      (k : String) (v : V) (m : Map V) → lookup k m ≡ some v → length (remove k m) < length m
  unfolding lookup remove
  length-remove-lt k v [] h = absurd (ground arith)
  length-remove-lt k v ((i, w) ∷ m) h = ground (arith, length-remove-le k m, length-remove-lt k v m)

  pub lookup-insert_same : (k : String) (v : V) (m : Map V) → lookup k (insert k v m) ≡ some v
  lookup-insert_same k v m = ground (arith, lookup-insert k k v m)

  pub lookup-insert_other :
      (k j : String) (v : V) (m : Map V) → ¬ (k ≡ j) → lookup j (insert k v m) ≡ lookup j m
  lookup-insert_other k j v m n = ground (arith, lookup-insert k j v m, n)

  pub lookup-insert_cases :
      (k j : String) (v w : V) (m : Map V)
      → lookup j (insert k v m) ≡ some w
      → ((k ≡ j) × (v ≡ w)) ⊎ (¬ (k ≡ j) × (lookup j m ≡ some w))
  lookup-insert_cases k j v w m h = elim (String_discrete k j) [
    | yes p ↦ inl (p, ground (arith, lookup-insert k j v m, p, h))
    | no n ↦ inr (n, ground (arith, lookup-insert k j v m, n, h))
  ]

  pub lookup-remove_other :
      (k j : String) (m : Map V) → ¬ (k ≡ j) → lookup j (remove k m) ≡ lookup j m
  lookup-remove_other k j m n = ground (arith, lookup-remove k j m, n)

  pub lookup-remove-some :
      (k j : String) (w : V) (m : Map V)
      → lookup j (remove k m) ≡ some w
      → ¬ (k ≡ j) × (lookup j m ≡ some w)
  lookup-remove-some k j w m h =
      (ground (arith, lookup-remove k j m, h), ground (arith, lookup-remove k j m, h))
