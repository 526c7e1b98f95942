-- ===== src/Capacity/Tests.antt =====
-- Runs of the slots, and their theorems at concrete schedules.
use taskcage.Prelude.{
  ◌+◌, ◌≤◌, ◌≡◌, refl, ◌↔◌, true, false, some, [], ◌∷◌, arith, replicate, ok, err,
}
use taskcage.Capacity.{
  idle, holding, refused, retained, zero_maximum, new_settings, new, is_idle, drop_permit,
  drop_notifies,
}
use taskcage.Capacity.Interleave.{next, retains, drops, run, System, Schedule, holders, retentions}
use taskcage.Capacity.Bounds.{
  Counted, owner_at, alone, at_last, retained_never_reused, slots_safe, notifies_when_idle,
  alone_answered,
}

rejects_zero : (new_settings 0 ≡ err zero_maximum) × (new_settings 2 ≡ ok 2)
unfolding new_settings
rejects_zero = (refl, refl)

-- Two owners race for one slot: the second's exchange fails, it reads again and is refused. Then the
-- first drops its permit and the third gets the slot, and retains it.
abbrev race : Schedule
race =
    (0, next false)
    ∷ (1, next false)
    ∷ (0, next false)
    ∷ (1, next false)
    ∷ (1, next false)
    ∷ (0, drops)
    ∷ (2, next false)
    ∷ (2, next true)
    ∷ (2, next false)
    ∷ (2, retains)
    ∷ (0, next false)
    ∷ (0, next false)
    ∷ []

race_ends : (run race (new 1, replicate 3 idle)).1 ≡ refused ∷ refused ∷ retained ∷ []
unfolding run new
race_ends = refl

abbrev one_kept : System
one_kept =
    (record { maximum = 2; in_use = 2; retained_for_fail_stop = 1 }, holding ∷ retained ∷ idle ∷ [])

one_kept-Counted : Counted 2 one_kept
one_kept-Counted = omega arith

retained_never_reused_example : holders (run race one_kept).1 + 1 ≤ 2
retained_never_reused_example = retained_never_reused 2 race one_kept one_kept-Counted

slots_safe_example :
    let (c, os) = run race (new 1, replicate 3 idle) in
    (holders os + retentions os ≤ 1)
    × (c.in_use ≡ holders os + retentions os)
    × (c.retained_for_fail_stop ≡ retentions os)
    × ((is_idle c ≡ true) ↔ (holders os + retentions os ≡ 0))
slots_safe_example = slots_safe 1 3 race (omega arith)

notifies_when_idle_example :
    (drop_notifies one_kept.0 ≡ true) ↔ (is_idle (drop_permit one_kept.0).0 ≡ true)
notifies_when_idle_example = notifies_when_idle one_kept.0 (omega arith) (omega arith)

alone_answered_example :
    owner_at 1 (run (alone 1 (at_last 3)) (new 2, holding ∷ idle ∷ [])).1 ≡ some holding
unfolding new
alone_answered_example = alone_answered 1 3 true (new 2) (holding ∷ idle ∷ []) refl
