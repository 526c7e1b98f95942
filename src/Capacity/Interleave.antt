-- ===== src/Capacity/Interleave.antt =====
-- The interleavings of any number of owners.
use taskcage.Prelude.{ℕ, zero, suc, ◌+◌, Bool, List, [], ◌∷◌}
use taskcage.Capacity.{
  TaskCapacity, Owner, idle, looping, refused, holding, retained, load, iterate,
  retain_for_fail_stop, drop_permit,
}

-- What the acting owner does next, where it has a choice.
pub data Action : Type 0 where
  next : Bool → Action
  retains drops : Action

-- An owner acts; what its place does not allow changes nothing. `next` is the next instruction of
-- `try_acquire`, with the spurious failure of its compare-exchange, or a new call after a refusal.
unfoldable pub act : Action → TaskCapacity → Owner → TaskCapacity × Owner
unfolding load iterate retain_for_fail_stop drop_permit
act (next spurious) c idle = load c
act (next spurious) c (looping current) = iterate current spurious c
act (next spurious) c refused = load c
act (next spurious) c holding = (c, holding)
act (next spurious) c retained = (c, retained)
act retains c holding = retain_for_fail_stop c
act retains c idle = (c, idle)
act retains c (looping current) = (c, looping current)
act retains c refused = (c, refused)
act retains c retained = (c, retained)
act drops c holding = drop_permit c
act drops c idle = (c, idle)
act drops c (looping current) = (c, looping current)
act drops c refused = (c, refused)
act drops c retained = (c, retained)

abbrev pub System : Type 0
System = TaskCapacity × List Owner

-- The owner at a position of the list acts.
unfoldable pub step : Action → ℕ → TaskCapacity → List Owner → System
unfolding act
step a n c [] = (c, [])
step a zero c (o ∷ os) = let (c', o') = act a c o in (c', o' ∷ os)
step a (suc n) c (o ∷ os) = let (c', os') = step a n c os in (c', o ∷ os')

abbrev pub Schedule : Type 0
Schedule = List (ℕ × Action)

unfoldable pub run : Schedule → System → System
unfolding step
run [] s = s
run ((n, a) ∷ rest) (c, os) = run rest (step a n c os)

abbrev pub is_holding : Owner → ℕ
is_holding holding = 1
is_holding _ = 0

abbrev pub is_retained : Owner → ℕ
is_retained retained = 1
is_retained _ = 0

-- How many owners have a permit, and how many permits were retained.
abbrev pub holders : List Owner → ℕ
holders [] = 0
holders (o ∷ os) = is_holding o + holders os

abbrev pub retentions : List Owner → ℕ
retentions [] = 0
retentions (o ∷ os) = is_retained o + retentions os
