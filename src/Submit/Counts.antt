-- ===== src/Submit/Counts.antt =====
-- Counts over the owners that run, and how they change with one owner.
use taskcage.Prelude.{
  ℕ, zero, suc, ◌+◌, ◌≤◌, String, ◌≡◌, refl, ap, ◌⊎◌, inl, inr, ite, Option, some, List, [], ◌∷◌,
  arith, String_discrete, length,
}
use taskcage.Registry.Types.{SubmitExecutionOwner}
use taskcage.Submit.History.{
  Live, Stage, starting, announced, unpublished, get_elem?, set, erase_idx,
}

-- Whether an owner has its permit: it was retained when the publication of RUNNING was refused.
abbrev pub holds : Stage → ℕ
holds starting = 1
holds announced = 1
holds unpublished = 0

pub Stage-cases : (s : Stage) → (s ≡ starting) ⊎ ((s ≡ announced) ⊎ (s ≡ unpublished))
Stage-cases starting = inl refl
Stage-cases announced = inr (inl refl)
Stage-cases unpublished = inr (inr refl)

abbrev pub holders : List Live → ℕ
holders [] = 0
holders (o ∷ os) = holds o.stage + holders os

abbrev pub is_for : String → Live → ℕ
is_for id o = ite (String_discrete o.owner.task_id id) 1 0

-- How many of the owners run the task `id`.
abbrev pub count : String → List Live → ℕ
count id [] = 0
count id (o ∷ os) = is_for id o + count id os

-- How many of the owners that are admitted are for the task `id`.
abbrev pub is_wanted : String → String × SubmitExecutionOwner → ℕ
is_wanted id (request_id, o) = ite (String_discrete o.task_id id) 1 0

abbrev pub wanted : String → List (String × SubmitExecutionOwner) → ℕ
wanted id [] = 0
wanted id (p ∷ ps) = is_wanted id p + wanted id ps

some_injective : {A : Type 0} {a b : A} → (let o : Option A = some a in o) ≡ some b → a ≡ b
some_injective h = cc

pub wanted-erase_idx :
    (ps : List (String × SubmitExecutionOwner)) (n : ℕ) (p : String × SubmitExecutionOwner)
    (id : String)
    → get_elem? ps n ≡ some p
    → wanted id ps ≡ is_wanted id p + wanted id (erase_idx ps n)
unfolding get_elem? erase_idx
wanted-erase_idx [] n p id h = absurd (ground (arith, h))
wanted-erase_idx (q ∷ ps) zero p id h = ap (λ z. is_wanted id z + wanted id ps) (some_injective h)
wanted-erase_idx (q ∷ ps) (suc n) p id h = omega (arith, wanted-erase_idx ps n p id h)

pub holders_le : (os : List Live) → holders os ≤ length os
holders_le [] = omega arith
holders_le (o ∷ os) = ground (arith, holders_le os)

pub erase_idx_counts :
    (os : List Live) (n : ℕ) (o : Live) (id : String)
    → get_elem? os n ≡ some o
    → (holders os ≡ holds o.stage + holders (erase_idx os n))
      × (count id os ≡ is_for id o + count id (erase_idx os n))
      × (length os ≡ suc (length (erase_idx os n)))
unfolding get_elem? erase_idx
erase_idx_counts [] n o id h = absurd (ground (arith, h))
erase_idx_counts (p ∷ os) zero o id h = ground (arith, h)
erase_idx_counts (p ∷ os) (suc n) o id h =
    let (a, b, c) = erase_idx_counts os n o id h in
    (omega (arith, a), omega (arith, b), omega (arith, c))

pub set_counts :
    (os : List Live) (n : ℕ) (o o' : Live) (id : String)
    → get_elem? os n ≡ some o
    → o'.owner ≡ o.owner
    → (holders (set os n o') + holds o.stage ≡ holds o'.stage + holders os)
      × (count id (set os n o') ≡ count id os)
      × (length (set os n o') ≡ length os)
unfolding get_elem? set
set_counts [] n o o' id h same = absurd (ground (arith, h))
set_counts (p ∷ os) zero o o' id h same =
    let e : p ≡ o = ground (arith, h) in rw (e, same) (omega arith, refl, refl)
set_counts (p ∷ os) (suc n) o o' id h same =
    let (a, b, c) = set_counts os n o o' id h same in
    (omega (arith, a), omega (arith, b), omega (arith, c))
