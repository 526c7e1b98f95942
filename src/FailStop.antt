-- ===== src/FailStop.antt =====
-- daemon/src/fail_stop.rs: `FailStopCoordinator`. Every method holds the coordinator's mutex for its
-- whole effect, so that concurrent callers act one after another and a method is a function on the
-- state. The clock's reading, which `activate` takes under the lock, is an argument.
pub mod History
mod Tests
use taskcage.Prelude.{
  ℕ, String, Bool, true, false, not, Option, none, some, List, [], ◌∷◌, ◌==◌, if◌then◌else◌, length,
  Result, ok, err,
}
use taskcage.Prelude.Map
use taskcage.Prelude.Map.{Map}
use taskcage.Deadline.{MonotonicDeadline, from_start, expired_at}

pub record CleanupFailureReport : Type 0 where
  pub task_id : String
  pub stage : String
  pub uncleaned : List String
  pub retry : String

pub data Phase : Type 0 where
  healthy : Phase
  fail_stopping : MonotonicDeadline → CleanupFailureReport → Phase

pub data StartState : Type 0 where
  pending committing committed failed : StartState

pub record State : Type 0 where
  pub phase : Phase
  pub active : Map StartState

-- What does not change: the timeout of `FailStopSettings`, and the platform's last instant.
pub record Settings : Type 0 where
  pub timeout : ℕ
  pub instant_max : ℕ

pub data SettingsError : Type 0 where
  zero_timeout unrepresentable_timeout : SettingsError

abbrev representable : Option MonotonicDeadline → ℕ → ℕ → Result SettingsError Settings
representable none timeout instant_max = err unrepresentable_timeout
representable (some _) timeout instant_max =
    ok (record { timeout = timeout; instant_max = instant_max })

-- `FailStopSettings::new`, at the time `now`.
unfoldable pub new_settings : ℕ → ℕ → ℕ → Result SettingsError Settings
unfolding from_start
new_settings instant_max now timeout =
    if timeout == 0
    then err zero_timeout
    else representable (from_start instant_max now timeout) timeout instant_max

abbrev pub initial : State
initial = record { phase = healthy; active = [] }

abbrev pub is_healthy : Phase → Bool
is_healthy healthy = true
is_healthy (fail_stopping _ _) = false

pub data StartCommitError (E : Type 0) : Type 0 where
  stopping : MonotonicDeadline → StartCommitError E
  not_active : String → StartCommitError E
  already_resolved : String → String → StartCommitError E
  gate : E → StartCommitError E

abbrev or_expired : ℕ → Option MonotonicDeadline → MonotonicDeadline
or_expired now none = expired_at now
or_expired now (some d) = d

abbrev activate_in : Settings → ℕ → CleanupFailureReport → State → Phase → State × MonotonicDeadline
activate_in settings now report state (fail_stopping deadline first_report) = (state, deadline)
activate_in settings now report state healthy =
    let deadline = or_expired now (from_start settings.instant_max now settings.timeout) in
    (record state { phase = fail_stopping deadline report }, deadline)

unfoldable pub activate : Settings → ℕ → CleanupFailureReport → State → State × MonotonicDeadline
unfolding from_start
activate settings now report state = activate_in settings now report state state.phase

-- `try_admit` and `FailStopAdmission::register`, which hold one lock: `none` if admission is closed.
unfoldable pub register : String → State → State × Option (Result String (Unit {0}))
register task_id state =
    if is_healthy state.phase
    then (if Map.contains_key task_id state.active
        then (state, some (err task_id))
        else (record state { active = Map.insert task_id pending state.active }, some (ok tt)))
    else (state, none)

-- The state of a start after its gate was tried.
abbrev pub gate_state {ℓ} : {E : Type 0} {T : Type ℓ} → Result E T → StartState
gate_state (ok _) = committed
gate_state (err _) = failed

abbrev pub gate_result {ℓ} : {E : Type 0} {T : Type ℓ} → Result E T → Result (StartCommitError E) T
gate_result (ok t) = ok t
gate_result (err e) = err (gate e)

module _ {E : Type 0} {T : Type 0} where
  -- `commit_gate` is the closure's answer; the flag says whether it was called.
  abbrev commit_state :
      String → Result E T → State → Option StartState → State × Bool × Result (StartCommitError E) T
  commit_state task_id commit_gate state none = (state, false, err (not_active task_id))
  commit_state task_id commit_gate state (some pending) = (
    record state { active = Map.insert task_id (gate_state commit_gate) state.active },
    true,
    gate_result commit_gate,
  )
  commit_state task_id commit_gate state (some committing) =
      (state, false, err (already_resolved task_id "committing"))
  commit_state task_id commit_gate state (some committed) =
      (state, false, err (already_resolved task_id "committed"))
  commit_state task_id commit_gate state (some failed) =
      (state, false, err (already_resolved task_id "failed"))

  abbrev commit_in :
      String → Result E T → State → Phase → State × Bool × Result (StartCommitError E) T
  commit_in task_id commit_gate state (fail_stopping deadline _) =
      (state, false, err (stopping deadline))
  commit_in task_id commit_gate state healthy =
      commit_state task_id commit_gate state (Map.lookup task_id state.active)

  unfoldable pub commit_start :
      String → Result E T → State → State × Bool × Result (StartCommitError E) T
  commit_start task_id commit_gate state = commit_in task_id commit_gate state state.phase

-- `ActiveExecution::complete`.
unfoldable pub complete : String → State → State
complete task_id state = record state { active = Map.remove task_id state.active }

-- `ActiveExecution` dropped unresolved.
unfoldable pub drop_active : Settings → ℕ → String → State → State
unfolding activate
drop_active settings now task_id state =
    (activate settings now
      (record {
        task_id = task_id;
        stage = "활성 실행 소유권 종료";
        uncleaned = "실행 lifecycle" ∷ [];
        retry = "소유권이 정리 결과 없이 종료됨";
      })
      state).0

unfoldable pub is_fail_stopping : State → Bool
is_fail_stopping state = not (is_healthy state.phase)

unfoldable pub deadline : State → Option MonotonicDeadline
deadline state = elim state.phase [ healthy ↦ none | fail_stopping d r ↦ some d ]

unfoldable pub first_report : State → Option CleanupFailureReport
first_report state = elim state.phase [ healthy ↦ none | fail_stopping d r ↦ some r ]

unfoldable pub active_count : State → ℕ
active_count state = length state.active
