-- ===== src/Lifecycle/Latch.antt =====
-- `TerminalTriggerLatch`: an atomic byte that records the first control trigger. Every operation
-- is one atomic instruction, so concurrent callers act in some order, which is a list of calls.
use taskcage.Prelude.{
  ℕ, ◌<◌, ◌≡◌, refl, Bool, true, false, Option, none, some, List, [], ◌∷◌, arith, ◌==◌,
  if◌then◌else◌,
}

pub data ControlTrigger : Type 0 where
  timed_out cancelled : ControlTrigger

-- `compare_exchange(0, value)`: the new byte, and whether it was exchanged.
abbrev pub compare_exchange : ℕ → ℕ → ℕ × Bool
compare_exchange first value = if first == 0 then (value, true) else (first, false)

abbrev pub trigger_value : ControlTrigger → ℕ
trigger_value timed_out = 1
trigger_value cancelled = 2

unfoldable pub observe : ℕ → ControlTrigger → ℕ × Bool
observe first trigger = compare_exchange first (trigger_value trigger)

-- `close_without_control`: the target's own exit was seen first.
unfoldable pub close_without_control : ℕ → ℕ × Bool
close_without_control first = compare_exchange first 3

-- `snapshot().first()`.
unfoldable pub snapshot : ℕ → Option ControlTrigger
snapshot first = if first == 1 then some timed_out else if first == 2 then some cancelled else none

pub data LatchCall : Type 0 where
  observes : ControlTrigger → LatchCall
  closes : LatchCall

unfoldable pub call : ℕ → LatchCall → ℕ × Bool
unfolding observe close_without_control
call first (observes trigger) = observe first trigger
call first closes = close_without_control first

-- The latch after a history, with what each call returned.
unfoldable pub run : ℕ → List LatchCall → ℕ × List Bool
unfolding call
run first [] = (first, [])
run first (c ∷ cs) =
    let (next, won) = call first c in let (last, wins) = run next cs in (last, won ∷ wins)

-- The trigger that a call stands for.
abbrev pub control_of : LatchCall → Option ControlTrigger
control_of (observes trigger) = some trigger
control_of closes = none

abbrev pub all_false : List LatchCall → List Bool
all_false [] = []
all_false (c ∷ cs) = false ∷ all_false cs

run_taken : (first : ℕ) (cs : List LatchCall) → 0 < first → run first cs ≡ (first, all_false cs)
unfolding run
run_taken first [] h = refl
run_taken first (c ∷ cs) h = rw (call_taken first c h) (rw (run_taken first cs h) refl)
  where
    call_taken : (n : ℕ) (d : LatchCall) → 0 < n → call n d ≡ (n, false)
    call_taken n (observes t) p = ground arith
    call_taken n closes p = ground arith

-- In every history of a fresh latch the first call alone succeeds, and the latch reports the
-- trigger of that call for ever: a late timeout, cancel or exit does not replace it.
pub first_call_wins :
    (c : LatchCall) (cs : List LatchCall)
    → let (last, wins) = run 0 (c ∷ cs) in
      (wins ≡ true ∷ all_false cs) × (snapshot last ≡ control_of c)
unfolding run snapshot
first_call_wins (observes timed_out) cs = rw (run_taken 1 cs (omega arith)) (refl, refl)
first_call_wins (observes cancelled) cs = rw (run_taken 2 cs (omega arith)) (refl, refl)
first_call_wins closes cs = rw (run_taken 3 cs (omega arith)) (refl, refl)
