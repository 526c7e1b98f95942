-- ===== src/Capacity.antt =====
-- daemon/src/capacity.rs: the execution slots. Every access to the two counters is one atomic
-- instruction, so the callers of `try_acquire` and the owners of permits interleave instruction by
-- instruction: a schedule says which of them acts next.
pub mod Interleave
pub mod Bounds
mod Tests
use taskcage.Prelude.{
  ℕ, ◌+◌, ◌-◌, ◌%◌, ◌^◌, Bool, ◌&&◌, not, leb, ◌==◌, if◌then◌else◌, Result, ok, err,
}

pub data SettingsError : Type 0 where
  zero_maximum : SettingsError

-- `TaskCapacitySettings::new`.
unfoldable pub new_settings : ℕ → Result SettingsError ℕ
new_settings max_concurrent_tasks =
    if max_concurrent_tasks == 0 then err zero_maximum else ok max_concurrent_tasks

pub record TaskCapacity : Type 0 where
  pub maximum : ℕ
  pub in_use : ℕ
  pub retained_for_fail_stop : ℕ

unfoldable pub new : ℕ → TaskCapacity
new maximum = record { maximum = maximum; in_use = 0; retained_for_fail_stop = 0 }

-- Where a caller stands: before the call, in the loop with the value of `current`, refused with
-- `None`, with a permit, or with a permit that was retained for fail-stop.
pub data Owner : Type 0 where
  idle : Owner
  looping : ℕ → Owner
  refused holding retained : Owner

-- The first load of `try_acquire`.
unfoldable pub load : TaskCapacity → TaskCapacity × Owner
load c = (c, looping c.in_use)

-- One round of the loop. `compare_exchange_weak` may fail though the value is the expected one.
unfoldable pub iterate : ℕ → Bool → TaskCapacity → TaskCapacity × Owner
iterate current spurious c =
    if leb c.maximum current
    then (c, refused)
    else if c.in_use == current && not spurious
    then (record c { in_use = current + 1 }, holding)
    else (c, looping c.in_use)

-- `retain_for_fail_stop`: `fetch_add` on a `u32`; the drop that follows does nothing.
unfoldable pub retain_for_fail_stop : TaskCapacity → TaskCapacity × Owner
retain_for_fail_stop c =
    (record c { retained_for_fail_stop = (c.retained_for_fail_stop + 1) % 2 ^ 32 }, retained)

-- The drop of a permit: `fetch_sub` on a `u32`, which wraps at 0.
unfoldable pub drop_permit : TaskCapacity → TaskCapacity × Owner
drop_permit c = (record c { in_use = (c.in_use + 2 ^ 32 - 1) % 2 ^ 32 }, idle)

-- Whether that drop wakes the waiters of `wait_idle`.
unfoldable pub drop_notifies : TaskCapacity → Bool
drop_notifies c = c.in_use == 1

-- `wait_idle` returns when it reads 0.
unfoldable pub is_idle : TaskCapacity → Bool
is_idle c = c.in_use == 0
