-- ===== src/FailStop/Tests.antt =====
-- Runs of the coordinator and of deadlines, and the theorems at concrete histories.
use taskcage.Prelude.{
  ◌+◌, ◌-◌, ◌≤◌, ◌<◌, ◌≡◌, refl, ◌↔◌, some, List, [], ◌∷◌, arith, length, ok, err,
}
use taskcage.Prelude.Map
use taskcage.Deadline.{from_start, remaining_at, remaining_at-from_start}
use taskcage.FailStop.{
  State, Settings, CleanupFailureReport, fail_stopping, initial, new_settings, zero_timeout,
  unrepresentable_timeout, activate, commit_start, deadline, stopping, pending,
}
use taskcage.FailStop.History.{
  Call, registers, commits, completes, drops, run, tries, registrations, fail_stop_final,
  gate_tried_once,
}

abbrev settings : Settings
settings = record { timeout = 30; instant_max = 1_000 }

abbrev report : CleanupFailureReport
report = record { task_id = "a"; stage = "stage"; uncleaned = "cgroup" ∷ []; retry = "none" }

abbrev stopped : State
stopped = record {
  phase = fail_stopping (record { at = 40; budget = 30 }) report;
  active = ("a", pending) ∷ [];
}

settings_checks :
    (new_settings 1_000 10 0 ≡ err zero_timeout)
    × (new_settings 1_000 10 991 ≡ err unrepresentable_timeout)
    × (new_settings 1_000 10 990 ≡ ok (record { timeout = 990; instant_max = 1_000 }))
unfolding new_settings
settings_checks = (refl, refl, refl)

first_activation_wins :
    deadline (activate settings 20 report (activate settings 10 report initial).0).0
    ≡ some (record { at = 40; budget = 30 })
unfolding activate deadline
first_activation_wins = refl

late_commit_is_refused :
    (commit_start {E = Unit {0}} {T = Unit {0}} "a" (ok tt) stopped).2
    ≡ err (stopping (record { at = 40; budget = 30 }))
unfolding commit_start
late_commit_is_refused = refl

abbrev calls : List Call
calls =
    registers "a"
    ∷ commits "a" (ok tt)
    ∷ commits "a" (ok tt)
    ∷ completes "a"
    ∷ registers "b"
    ∷ drops 5 "b"
    ∷ commits "b" (ok tt)
    ∷ []

one_gate :
    (tries "a" (run settings initial calls).1 ≡ 1) × (tries "b" (run settings initial calls).1 ≡ 0)
unfolding run Map.lookup Map.insert Map.remove
one_gate = (refl, refl)

remaining_at-from_start_example :
    (remaining_at (record { at = 40; budget = 30 }) 25 ≡ some 15)
    ↔ ((0 < 15) × (15 + (25 - 10) ≡ 30))
unfolding from_start
remaining_at-from_start_example =
    remaining_at-from_start 1_000 10 30 25 15 (record { at = 40; budget = 30 }) refl (omega arith)

fail_stop_final_example :
    ((run settings stopped calls).0.phase ≡ stopped.phase)
    × ((run settings stopped calls).1 ≡ [])
    × (length (run settings stopped calls).0.active ≤ 1)
fail_stop_final_example =
    fail_stop_final settings stopped calls (record { at = 40; budget = 30 }) report refl

gate_tried_once_example :
    tries "a" (run settings initial calls).1 ≤ registrations "a" (run settings initial calls).1
gate_tried_once_example = gate_tried_once settings "a" initial calls refl
