-- ===== src/Deadline.antt =====
-- linux-runtime/src/deadline.rs: a point on the monotonic clock with the budget that it came from.
-- An `Instant` and a `Duration` are numbers of nanoseconds; `instant_max` is the last instant that
-- the platform represents.
use taskcage.Prelude.{
  ℕ, ◌+◌, ◌-◌, ◌≤◌, ◌<◌, ◌≡◌, ◌↔◌, Option, none, some, arith, ltb, leb, ◌==◌, if◌then◌else◌,
}

pub record MonotonicDeadline : Type 0 where
  pub at : ℕ
  pub budget : ℕ

-- `Instant::checked_add`.
abbrev pub checked_add : ℕ → ℕ → ℕ → Option ℕ
checked_add instant_max start budget =
    if leb (start + budget) instant_max then some (start + budget) else none

abbrev pub with_budget : ℕ → Option ℕ → Option MonotonicDeadline
with_budget budget none = none
with_budget budget (some at) = some (record { at = at; budget = budget })

unfoldable pub from_start : ℕ → ℕ → ℕ → Option MonotonicDeadline
from_start instant_max start budget =
    if budget == 0 then none else with_budget budget (checked_add instant_max start budget)

abbrev pub expired_at : ℕ → MonotonicDeadline
expired_at now = record { at = now; budget = 0 }

-- `checked_duration_since`, without a zero.
unfoldable pub remaining_at : MonotonicDeadline → ℕ → Option ℕ
remaining_at self now = if ltb now self.at then some (self.at - now) else none

-- A deadline made at `start` has time left at `now`, not before `start`, exactly while less than its
-- budget has passed, and what is left and what has passed make up the budget.
pub remaining_at-from_start :
    (instant_max start budget now left : ℕ) (d : MonotonicDeadline)
    → from_start instant_max start budget ≡ some d
    → start ≤ now
    → (remaining_at d now ≡ some left) ↔ ((0 < left) × (left + (now - start) ≡ budget))
unfolding from_start remaining_at
remaining_at-from_start instant_max start budget now left d e h =
    (λ r. ground arith, λ r. ground arith)
