-- ===== src/FailStop/History.antt =====
-- Every history of the coordinator: fail-stop is final, it closes every start gate, and a gate is
-- tried at most once for each registration.
use taskcage.Prelude.{
  ℕ, ◌+◌, ◌≤◌, String, ◌≡◌, refl, ite, Option, none, some, List, [], ◌∷◌, ◌++◌, arith,
  String_discrete, if◌then◌else◌, length, Result, ok, err,
}
use taskcage.Prelude.Map
use taskcage.Deadline.{MonotonicDeadline}
use taskcage.FailStop.{
  State, Settings, CleanupFailureReport, fail_stopping, StartState, pending, committed, failed,
  activate, register, commit_start, complete, drop_active,
}

-- A call of the coordinator. A commit comes with its gate's answer.
pub data Call : Type 0 where
  activates : ℕ → CleanupFailureReport → Call
  registers : String → Call
  commits : String → Result (Unit {0}) (Unit {0}) → Call
  completes : String → Call
  drops : ℕ → String → Call

-- What a call did: a registration that was accepted, or a gate that was tried.
pub data Note : Type 0 where
  registered tried : String → Note

abbrev pub registered_note : String → Option (Result String (Unit {0})) → List Note
registered_note id (some (ok _)) = registered id ∷ []
registered_note id (some (err _)) = []
registered_note id none = []

module _ (settings : Settings) where
  unfoldable pub step : State → Call → State × List Note
  unfolding activate register commit_start complete drop_active
  step s (activates now report) = ((activate settings now report s).0, [])
  step s (registers id) = let (s', answer) = register id s in (s', registered_note id answer)
  step s (commits id gate) =
      let (s', called, _) = commit_start id gate s in (s', if called then tried id ∷ [] else [])
  step s (completes id) = (complete id s, [])
  step s (drops now id) = (drop_active settings now id s, [])

  unfoldable pub run : State → List Call → State × List Note
  unfolding step
  run s [] = (s, [])
  run s (c ∷ cs) = let (s', notes) = step s c in let (s'', more) = run s' cs in (s'', notes ++ more)

  step_stopping :
      (s : State) (c : Call) (d : MonotonicDeadline) (r : CleanupFailureReport)
      → s.phase ≡ fail_stopping d r
      → ((step s c).0.phase ≡ fail_stopping d r)
        × ((step s c).1 ≡ [])
        × (length (step s c).0.active ≤ length s.active)
  unfolding step
  step_stopping s (activates now report) d r h = ground arith
  step_stopping s (registers id) d r h = ground arith
  step_stopping s (commits id gate) d r h = ground arith
  step_stopping s (completes id) d r h = (h, refl, Map.length-remove-le id s.active)
  step_stopping s (drops now id) d r h = ground arith

  -- Once fail-stop has begun, whatever calls follow in whatever order, its deadline and its first
  -- report stay as they are, no task is registered and no start gate is tried any more, and the
  -- number of active executions never grows.
  pub fail_stop_final :
      (s : State) (cs : List Call) (d : MonotonicDeadline) (r : CleanupFailureReport)
      → s.phase ≡ fail_stopping d r
      → ((run s cs).0.phase ≡ fail_stopping d r)
        × ((run s cs).1 ≡ [])
        × (length (run s cs).0.active ≤ length s.active)
  unfolding run
  fail_stop_final s [] d r h = (h, refl, omega arith)
  fail_stop_final s (c ∷ cs) d r h =
      let (p, n, l) = step_stopping s c d r h in
      let (p', n', l') = fail_stop_final (step s c).0 cs d r p in (p', rw (n, n'), omega arith)

-- How often an id was registered, and how often its gate was tried.
abbrev pub registrations : String → List Note → ℕ
registrations id [] = 0
registrations id (registered k ∷ ns) = ite (String_discrete k id) 1 0 + registrations id ns
registrations id (tried k ∷ ns) = registrations id ns

abbrev pub tries : String → List Note → ℕ
tries id [] = 0
tries id (tried k ∷ ns) = ite (String_discrete k id) 1 0 + tries id ns
tries id (registered k ∷ ns) = tries id ns

abbrev is_pending : Option StartState → ℕ
is_pending (some pending) = 1
is_pending _ = 0

abbrev waiting : String → State → ℕ
waiting id s = is_pending (Map.lookup id s.active)

registrations-append :
    (id : String) (ms ns : List Note)
    → registrations id (ms ++ ns) ≡ registrations id ms + registrations id ns
registrations-append id [] ns = omega arith
registrations-append id (registered k ∷ ms) ns = ground (arith, registrations-append id ms ns)
registrations-append id (tried k ∷ ms) ns = registrations-append id ms ns

tries-append : (id : String) (ms ns : List Note) → tries id (ms ++ ns) ≡ tries id ms + tries id ns
tries-append id [] ns = omega arith
tries-append id (tried k ∷ ms) ns = ground (arith, tries-append id ms ns)
tries-append id (registered k ∷ ms) ns = tries-append id ms ns

module _ (settings : Settings) where
  tries-step :
      (id : String) (s : State) (c : Call)
      → tries id (step settings s c).1 + waiting id (step settings s c).0
        ≤ registrations id (step settings s c).1 + waiting id s
  unfolding step
  tries-step id s (activates now report) = ground arith
  tries-step id s (registers k) = ground (arith, Map.lookup-insert k id pending s.active)
  tries-step id s (commits k (ok u)) = ground (arith, Map.lookup-insert k id committed s.active)
  tries-step id s (commits k (err u)) = ground (arith, Map.lookup-insert k id failed s.active)
  tries-step id s (completes k) = ground (arith, Map.lookup-remove k id s.active)
  tries-step id s (drops now k) = ground arith

  tries-run :
      (id : String) (s : State) (cs : List Call)
      → tries id (run settings s cs).1 ≤ registrations id (run settings s cs).1 + waiting id s
  unfolding run
  tries-run id s [] = omega arith
  tries-run id s (c ∷ cs) = omega (
    arith,
    tries-step id s c,
    tries-run id (step settings s c).0 cs,
    tries-append id (step settings s c).1 (run settings (step settings s c).0 cs).1,
    registrations-append id (step settings s c).1 (run settings (step settings s c).0 cs).1,
  )

  -- In every history that begins with no active execution, the start gate of a task is tried at most
  -- once for each accepted registration of that task.
  pub gate_tried_once :
      (id : String) (s : State) (cs : List Call)
      → s.active ≡ []
      → tries id (run settings s cs).1 ≤ registrations id (run settings s cs).1
  gate_tried_once id s cs h = omega (arith, tries-run id s cs, none_waiting)
    where
      none_waiting : waiting id s ≡ 0
      none_waiting = rw h (unfold Map.lookup in refl)
