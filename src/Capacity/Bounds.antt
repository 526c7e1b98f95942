-- ===== src/Capacity/Bounds.antt =====
-- No interleaving exceeds the maximum, loses a slot or reuses a retained one.
use taskcage.Prelude.{
  ℕ, zero, suc, ◌+◌, ◌^◌, ◌≤◌, ◌<◌, ◌≡◌, refl, sym, subst, ◌↔◌, inl, inr, Bool, true, false, Option,
  none, some, List, [], ◌∷◌, arith, ltb, if◌then◌else◌, Bool-cases, replicate,
}
use taskcage.Capacity.{
  TaskCapacity, Owner, idle, looping, refused, holding, retained, new, drop_notifies, drop_permit,
  is_idle,
}
use taskcage.Capacity.Interleave.{
  Action, next, retains, drops, act, step, run, System, Schedule, holders, retentions, is_holding,
  is_retained,
}

-- The counters are the numbers of owners that have, or retained, a permit.
pub record Counted (maximum : ℕ) (s : System) : Type 0 where
  pub maximum_same : s.0.maximum ≡ maximum
  pub maximum_u32 : maximum < 2 ^ 32
  pub in_use_exact : s.0.in_use ≡ holders s.1 + retentions s.1
  pub in_use_bounded : s.0.in_use ≤ maximum
  pub retained_exact : s.0.retained_for_fail_stop ≡ retentions s.1

-- One action of one owner, seen through what it adds to the counts.
abbrev Balanced : TaskCapacity → Owner → TaskCapacity × Owner → ℕ → ℕ → Type 0
Balanced c o (c', o') others kept =
    (c'.maximum ≡ c.maximum)
    × (c'.in_use ≡ is_holding o' + is_retained o' + others)
    × (c'.in_use ≤ c.maximum)
    × (c'.retained_for_fail_stop ≡ is_retained o' + kept)

act-Balanced :
    (a : Action) (c : TaskCapacity) (o : Owner) (others kept : ℕ)
    → c.maximum < 2 ^ 32
    → kept ≤ others
    → c.in_use ≡ is_holding o + is_retained o + others
    → c.in_use ≤ c.maximum
    → c.retained_for_fail_stop ≡ is_retained o + kept
    → Balanced c o (act a c o) others kept
unfolding act
act-Balanced (next spurious) c idle others kept m k u b r = ground arith
act-Balanced (next spurious) c (looping current) others kept m k u b r = ground arith
act-Balanced (next spurious) c refused others kept m k u b r = ground arith
act-Balanced (next spurious) c holding others kept m k u b r = ground arith
act-Balanced (next spurious) c retained others kept m k u b r = ground arith
act-Balanced retains c idle others kept m k u b r = ground arith
act-Balanced retains c (looping current) others kept m k u b r = ground arith
act-Balanced retains c refused others kept m k u b r = ground arith
act-Balanced retains c holding others kept m k u b r = ground arith
act-Balanced retains c retained others kept m k u b r = ground arith
act-Balanced drops c idle others kept m k u b r = ground arith
act-Balanced drops c (looping current) others kept m k u b r = ground arith
act-Balanced drops c refused others kept m k u b r = ground arith
act-Balanced drops c holding others kept m k u b r = ground arith
act-Balanced drops c retained others kept m k u b r = ground arith

-- The same with the owners that stand before in the list counted in `before` and `kept`.
record CountedFrom (maximum before kept : ℕ) (c : TaskCapacity) (os : List Owner) : Type 0 where
  maximum_same : c.maximum ≡ maximum
  maximum_u32 : maximum < 2 ^ 32
  kept_le : kept ≤ before
  in_use_exact : c.in_use ≡ holders os + retentions os + before
  in_use_bounded : c.in_use ≤ maximum
  retained_exact : c.retained_for_fail_stop ≡ retentions os + kept

step-CountedFrom :
    (a : Action) (n maximum before kept : ℕ) (c : TaskCapacity) (os : List Owner)
    → CountedFrom maximum before kept c os
    → CountedFrom maximum before kept (step a n c os).0 (step a n c os).1
unfolding step
step-CountedFrom a n maximum before kept c [] v = v
step-CountedFrom a zero maximum before kept c (o ∷ os) v =
    let (m, u, b, r) =
      act-Balanced a c o (holders os + retentions os + before) (retentions os + kept)
        (omega (arith, v.maximum_same, v.maximum_u32)) (omega (arith, v.kept_le))
        (omega (arith, v.in_use_exact)) (omega (arith, v.in_use_bounded, v.maximum_same))
        (omega (arith, v.retained_exact)) in
    record {
      maximum_same = omega (arith, v.maximum_same, m);
      maximum_u32 = v.maximum_u32;
      kept_le = v.kept_le;
      in_use_exact = omega (arith, u);
      in_use_bounded = omega (arith, b, v.maximum_same);
      retained_exact = omega (arith, r);
    }
step-CountedFrom a (suc n) maximum before kept c (o ∷ os) v =
    let w =
      step-CountedFrom a n maximum (is_holding o + is_retained o + before) (is_retained o + kept) c
        os
        (record {
          maximum_same = v.maximum_same;
          maximum_u32 = v.maximum_u32;
          kept_le = omega (arith, v.kept_le);
          in_use_exact = omega (arith, v.in_use_exact);
          in_use_bounded = v.in_use_bounded;
          retained_exact = omega (arith, v.retained_exact);
        }) in
    record {
      maximum_same = w.maximum_same;
      maximum_u32 = w.maximum_u32;
      kept_le = v.kept_le;
      in_use_exact = omega (arith, w.in_use_exact);
      in_use_bounded = w.in_use_bounded;
      retained_exact = omega (arith, w.retained_exact);
    }

step-Counted :
    (a : Action) (n maximum : ℕ) (c : TaskCapacity) (os : List Owner)
    → Counted maximum (c, os)
    → Counted maximum (step a n c os)
step-Counted a n maximum c os v =
    let w = step-CountedFrom a n maximum 0 0 c os (record {
      maximum_same = v.maximum_same;
      maximum_u32 = v.maximum_u32;
      kept_le = omega arith;
      in_use_exact = omega (arith, v.in_use_exact);
      in_use_bounded = v.in_use_bounded;
      retained_exact = omega (arith, v.retained_exact);
    }) in
    record {
      maximum_same = w.maximum_same;
      maximum_u32 = w.maximum_u32;
      in_use_exact = omega (arith, w.in_use_exact);
      in_use_bounded = w.in_use_bounded;
      retained_exact = omega (arith, w.retained_exact);
    }

act_retained :
    (a : Action) (c : TaskCapacity) (o : Owner) → is_retained o ≤ is_retained (act a c o).1
unfolding act
act_retained a c idle = omega arith
act_retained a c (looping current) = omega arith
act_retained a c refused = omega arith
act_retained a c holding = omega arith
act_retained (next spurious) c retained = omega arith
act_retained retains c retained = omega arith
act_retained drops c retained = omega arith

retentions-step :
    (a : Action) (n : ℕ) (c : TaskCapacity) (os : List Owner)
    → retentions os ≤ retentions (step a n c os).1
unfolding step
retentions-step a n c [] = omega arith
retentions-step a zero c (o ∷ os) = omega (arith, act_retained a c o)
retentions-step a (suc n) c (o ∷ os) = omega (arith, retentions-step a n c os)

-- Every schedule keeps the counters equal to what the owners hold and retain, and within the
-- maximum.
pub run-Counted :
    (maximum : ℕ) (schedule : Schedule) (s : System)
    → Counted maximum s
    → Counted maximum (run schedule s)
unfolding run
run-Counted maximum [] s v = v
run-Counted maximum ((n, a) ∷ rest) (c, os) v =
    run-Counted maximum rest (step a n c os) (step-Counted a n maximum c os v)

retentions-run : (schedule : Schedule) (s : System) → retentions s.1 ≤ retentions (run schedule s).1
unfolding run
retentions-run [] s = omega arith
retentions-run ((n, a) ∷ rest) (c, os) =
    omega (arith, retentions-step a n c os, retentions-run rest (step a n c os))

-- From any state that the counters describe, under every interleaving, the permits held later and
-- the permits already retained now are together at most the maximum: a retained slot is never
-- given out again.
pub retained_never_reused :
    (maximum : ℕ) (schedule : Schedule) (s : System)
    → Counted maximum s
    → holders (run schedule s).1 + retentions s.1 ≤ maximum
retained_never_reused maximum schedule s v =
    omega (arith, run-Counted maximum schedule s v, retentions-run schedule s)

holders_idle : (n : ℕ) → (holders (replicate n idle) ≡ 0) × (retentions (replicate n idle) ≡ 0)
holders_idle zero = (refl, refl)
holders_idle (suc n) = omega (arith, holders_idle n)

-- Any number of owners of fresh slots, under every interleaving of their instructions and whatever
-- compare-exchanges fail spuriously: at most `maximum` permits are held or retained at a time, the
-- counters say exactly how many, and the slots read as idle exactly when no permit is out.
pub slots_safe :
    (maximum n : ℕ) (schedule : Schedule)
    → maximum < 2 ^ 32
    → let (c, os) = run schedule (new maximum, replicate n idle) in
      (holders os + retentions os ≤ maximum)
      × (c.in_use ≡ holders os + retentions os)
      × (c.retained_for_fail_stop ≡ retentions os)
      × ((is_idle c ≡ true) ↔ (holders os + retentions os ≡ 0))
unfolding new is_idle
slots_safe maximum n schedule h =
    let v =
      run-Counted maximum schedule (new maximum, replicate n idle)
        (record {
          maximum_same = refl;
          maximum_u32 = h;
          in_use_exact = omega (arith, holders_idle n);
          in_use_bounded = omega arith;
          retained_exact = omega (arith, holders_idle n);
        }) in
    (
      omega (arith, v),
      v.in_use_exact,
      v.retained_exact,
      (λ e. ground (arith, v.in_use_exact), λ e. ground (arith, v.in_use_exact)),
    )

-- The drop of a permit wakes the waiters exactly when it leaves the slots idle.
pub notifies_when_idle :
    (c : TaskCapacity)
    → 0 < c.in_use
    → c.in_use < 2 ^ 32
    → (drop_notifies c ≡ true) ↔ (is_idle (drop_permit c).0 ≡ true)
unfolding drop_notifies is_idle drop_permit
notifies_when_idle c h k = (λ e. ground arith, λ e. ground arith)

abbrev pub owner_at : ℕ → List Owner → Option Owner
owner_at n [] = none
owner_at zero (o ∷ os) = some o
owner_at (suc n) (o ∷ os) = owner_at n os

-- One owner in a row: it loads the count, and then each exchange fails spuriously or not.
abbrev pub tries : ℕ → List Bool → Schedule
tries n [] = []
tries n (spurious ∷ rest) = (n, next spurious) ∷ tries n rest

abbrev pub alone : ℕ → List Bool → Schedule
alone n exchanges = (n, next false) ∷ tries n exchanges

-- So many spurious failures, and then an exchange that does not fail spuriously.
abbrev pub at_last : ℕ → List Bool
at_last zero = false ∷ []
at_last (suc failures) = true ∷ at_last failures

loaded :
    (n : ℕ) (c : TaskCapacity) (os : List Owner)
    → owner_at n os ≡ some idle
    → ((step (next false) n c os).0 ≡ c)
      × (owner_at n (step (next false) n c os).1 ≡ some (looping c.in_use))
unfolding step act
loaded n c [] h = cc
loaded zero c (o ∷ os) h = ground arith
loaded (suc n) c (o ∷ os) h = loaded n c os h

-- A spurious failure changes nothing when the count is the one that was read.
spurious_step :
    (n : ℕ) (c : TaskCapacity) (os : List Owner)
    → owner_at n os ≡ some (looping c.in_use)
    → ltb c.in_use c.maximum ≡ true
    → step (next true) n c os ≡ (c, os)
unfolding step act
spurious_step n c [] h free = cc
spurious_step zero c (o ∷ os) h free = ground (arith, h, free)
spurious_step (suc n) c (o ∷ os) h free = rw (spurious_step n c os h free) refl

last_step :
    (n : ℕ) (c : TaskCapacity) (os : List Owner)
    → owner_at n os ≡ some (looping c.in_use)
    → ltb c.in_use c.maximum ≡ true
    → owner_at n (step (next false) n c os).1 ≡ some holding
unfolding step act
last_step n c [] h free = cc
last_step zero c (o ∷ os) h free = ground (arith, h, free)
last_step (suc n) c (o ∷ os) h free = last_step n c os h free

refused_step :
    (n : ℕ) (spurious : Bool) (c : TaskCapacity) (os : List Owner)
    → owner_at n os ≡ some (looping c.in_use)
    → ltb c.in_use c.maximum ≡ false
    → owner_at n (step (next spurious) n c os).1 ≡ some refused
unfolding step act
refused_step n spurious c [] h full = cc
refused_step zero spurious c (o ∷ os) h full = ground (arith, h, full)
refused_step (suc n) spurious c (o ∷ os) h full = refused_step n spurious c os h full

tries-holding :
    (n failures : ℕ) (c : TaskCapacity) (os : List Owner)
    → owner_at n os ≡ some (looping c.in_use)
    → ltb c.in_use c.maximum ≡ true
    → owner_at n (run (tries n (at_last failures)) (c, os)).1 ≡ some holding
unfolding run
tries-holding n zero c os h free = last_step n c os h free
tries-holding n (suc failures) c os h free =
    subst (λ z. owner_at n (run (tries n (at_last failures)) z).1 ≡ some holding)
      (sym (spurious_step n c os h free)) (tries-holding n failures c os h free)

tries-answered :
    (n failures : ℕ) (spurious : Bool) (c : TaskCapacity) (os : List Owner)
    → owner_at n os ≡ some (looping c.in_use)
    → let free = ltb c.in_use c.maximum in
      owner_at n (run (tries n (if free then at_last failures else spurious ∷ [])) (c, os)).1
      ≡ some (if free then holding else refused)
unfolding run
tries-answered n failures spurious c os h = elim (Bool-cases (ltb c.in_use c.maximum)) [
  | inl free ↦ rw free (tries-holding n failures c os h free)
  | inr full ↦ rw full (refused_step n spurious c os h full)
]

-- An owner that nobody interrupts gets a permit if a slot is free, at the first exchange that does not
-- fail spuriously, however many failed before it; and if none is free it is refused at once.
pub alone_answered :
    (n failures : ℕ) (spurious : Bool) (c : TaskCapacity) (os : List Owner)
    → owner_at n os ≡ some idle
    → let free = ltb c.in_use c.maximum in
      owner_at n (run (alone n (if free then at_last failures else spurious ∷ [])) (c, os)).1
      ≡ some (if free then holding else refused)
unfolding run
alone_answered n failures spurious c os h =
    let (same, read) = loaded n c os h in
    let os' = (step (next false) n c os).1 in
    subst
      (λ z.
        owner_at n
          (run (tries n (if ltb c.in_use c.maximum then at_last failures else spurious ∷ []))
            (z, os')).1
        ≡ some (if ltb c.in_use c.maximum then holding else refused))
      (sym same) (tries-answered n failures spurious c os' read)
