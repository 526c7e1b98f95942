-- ===== src/Submit/Stopping.antt =====
-- Once fail-stop is in progress the daemon admits nothing any more.
use taskcage.Prelude.{
  ℕ, zero, suc, ◌+◌, ◌≤◌, String, ◌≡◌, refl, ap, inl, inr, Bool, true, false, ◌&&◌, not, Option,
  none, some, List, [], ◌∷◌, arith, Option-cases, length, Result,
}
use taskcage.Core.Task.{TaskSnapshot}
use taskcage.FailStop.{Settings}
use taskcage.Registry.Types.{SubmitExecutionOwner}
use taskcage.Submit.Types.{
  Daemon, Readings, ExecutionFailure, VerifiedRunningTask, Begun, answered, waits, spawned,
}
use taskcage.Submit.Execution.{Ending, execution_result}
use taskcage.Submit.Owner.{publish_initial, finish_after_running}
use taskcage.Submit.Coordinate.{Admission, refuses, joins, claim, settle}
use taskcage.Submit.Live.{
  activate_stops, healthy_of, Sound, drop_active_stops, finish_without_running-Released,
  complete_running-Released,
}
use taskcage.Submit.Effects.{Entered, Claimed, admit-Entered, claim-Claimed, Began, begin-Began}
use taskcage.Submit.Ends.{
  Announced, publish_initial-Announced, finish_after_running-Released, execution_result-Quiet,
  execution_result-Sound,
}
use taskcage.Submit.History.{
  World, Live, Stage, starting, announced, unpublished, Action, submits, looks_up, admits, claims,
  stops, settles, entered, claimed_by, asks, cancels, announces, ends, ends_announced, get_elem?,
  erase_idx, set, begun, announced_by, finished_by, ended, ended_with, ended_by, ended_announced_by,
  step, run,
}
use taskcage.Submit.Counts.{Stage-cases}

abbrev Later : Daemon → Daemon → Type 0
Later d d' = (healthy_of d' && not (healthy_of d)) ≡ false

Later-trans : (d d' d'' : Daemon) → Later d d' → Later d' d'' → Later d d''
Later-trans d d' d'' p q = ground arith

-- The owners that run or are admitted.
abbrev pub owners : World → ℕ
owners w = length w.admitted + length w.live

-- None was admitted meanwhile, nor started but from those admitted.
abbrev pub Fewer : World → World → Type 0
Fewer w w' = (length w'.admitted ≤ length w.admitted) × (owners w' ≤ owners w)

-- Fail-stop has not ended, and if it was in progress there are not more owners.
abbrev Winds : World → World → Type 0
Winds w w' = Later w.daemon w'.daemon × (healthy_of w.daemon ≡ false → Fewer w w')

length-erase_idx-le {ℓ} : {A : Type ℓ} (os : List A) (n : ℕ) → length (erase_idx os n) ≤ length os
unfolding erase_idx
length-erase_idx-le [] n = omega arith
length-erase_idx-le (o ∷ os) zero = omega arith
length-erase_idx-le (o ∷ os) (suc n) = omega (arith, length-erase_idx-le os n)

length-set : (os : List Live) (n : ℕ) (o : Live) → length (set os n o) ≡ length os
unfolding set
length-set [] n o = refl
length-set (p ∷ os) zero o = refl
length-set (p ∷ os) (suc n) o = ap suc (length-set os n o)

Winds-same : (w : World) (d : Daemon) → Later w.daemon d → Winds w (record w { daemon = d })
Winds-same w d l = (l, λ h. (omega arith, omega arith))

begun-Winds : (w : World) (b : Daemon × Begun) → Began w.daemon b → Winds w (begun w b)
begun-Winds w (d, answered _) q = Winds-same w d q.1
begun-Winds w (d, waits _) q = Winds-same w d q.1
begun-Winds w (d, spawned o cancellation) q =
    (ground (arith, q.0), λ h. absurd (ground (arith, q.0, h)))

entered-Winds :
    (w : World) (request_id : String) (x : Daemon × Admission)
    → Entered w.daemon x
    → Winds w (entered w request_id x)
entered-Winds w request_id (d, refuses _) q = Winds-same w d q.1
entered-Winds w request_id (d, joins _) q = Winds-same w d q.1
entered-Winds w request_id (d, Admission.admitted o) (going, _, p, _, _) =
    (ground (arith, p), λ h. absurd (ground (arith, going, h)))

-- The owner that claims a slot was admitted before.
length-erase_idx :
    (ps : List (String × SubmitExecutionOwner)) (n : ℕ) (p : String × SubmitExecutionOwner)
    → get_elem? ps n ≡ some p
    → length ps ≡ suc (length (erase_idx ps n))
unfolding get_elem? erase_idx
length-erase_idx [] n p h = absurd (ground (arith, h))
length-erase_idx (q ∷ ps) zero p h = refl
length-erase_idx (q ∷ ps) (suc n) p h = ap suc (length-erase_idx ps n p h)

Claimed-Winds :
    (w : World) (n : ℕ) (p : String × SubmitExecutionOwner) (b : Daemon × Begun)
    → get_elem? w.admitted n ≡ some p
    → Claimed p.1 w.daemon b
    → Winds w (begun (record w { admitted = erase_idx w.admitted n }) b)
Claimed-Winds w n p (d, answered _) here (c, later, _) = (
  later,
  λ h. let e = length-erase_idx w.admitted n p here in (omega (arith, e), omega (arith, e)),
)
Claimed-Winds w n p (d, waits _) here never = absurd never
Claimed-Winds w n p (d, spawned o _) here (same, free, c, f) = (
  ground (arith, f),
  λ h. let e = length-erase_idx w.admitted n p here in (omega (arith, e), omega (arith, e)),
)

Announced-Later : (d d' : Daemon) (published : Bool) → Announced d d' published → Later d d'
Announced-Later d d' true (c, f) = ground (arith, f)
Announced-Later d d' false (c, h, a) = ground (arith, h)

module _ (settings : Settings) where
  announced_by-Winds :
      (at : Readings) (n : ℕ) (running_task : VerifiedRunningTask) (w : World) (o : Option Live)
      → Winds w (announced_by settings at n running_task w o)
  announced_by-Winds at n running_task w none = Winds-same w w.daemon (ground arith)
  announced_by-Winds at n running_task w (some l) = elim (Stage-cases l.stage) [
    | inl e ↦
        let (d, _, published) =
          publish_initial settings at l.owner running_task l.cancellation w.daemon in
        rw e (
          Announced-Later w.daemon d published
              (publish_initial-Announced settings at l.owner running_task l.cancellation w.daemon),
          λ h. (omega arith, omega (arith, length-set w.live n)),
        )
    | inr (inl e) ↦ rw e (Winds-same w w.daemon (ground arith))
    | inr (inr e) ↦ rw e (Winds-same w w.daemon (ground arith))
  ]

  abbrev FinishesLater : (Result ExecutionFailure TaskSnapshot → Daemon → Daemon) → Type 0
  FinishesLater finish =
      (completion : Result ExecutionFailure TaskSnapshot) (d : Daemon)
      → Sound completion d
      → Later d (finish completion d)

  finished_by_Later :
      (at : Readings) (o : SubmitExecutionOwner) (stage : Stage)
      → FinishesLater (finished_by settings at o stage)
  finished_by_Later at o starting completion d sound =
      (finish_without_running-Released settings at o completion d sound).1
  finished_by_Later at o announced completion d sound =
      (complete_running-Released settings at o completion d).1
  finished_by_Later at o unpublished completion d sound =
      ground (arith, (drop_active_stops settings at.activated o.task_id d.fail_stop).0)

  ended_with-Winds :
      (w : World) (n : ℕ) (finish : Result ExecutionFailure TaskSnapshot → Daemon → Daemon)
      (d : Daemon) (result : Option (Result ExecutionFailure TaskSnapshot))
      → FinishesLater finish
      → Later w.daemon d
      → ((completion : Result ExecutionFailure TaskSnapshot)
          → result ≡ some completion
          → Sound completion d)
      → Winds w (ended_with w n finish d result)
  ended_with-Winds w n finish d none f l sound = Winds-same w d l
  ended_with-Winds w n finish d (some completion) f l sound = (
    Later-trans w.daemon d (finish completion d) l (f completion d (sound completion refl)),
    λ h. (omega arith, omega (arith, length-erase_idx-le w.live n)),
  )

  ended-Winds :
      (at : Readings) (n : ℕ) (ending : Ending) (w : World)
      (finish : Result ExecutionFailure TaskSnapshot → Daemon → Daemon)
      → FinishesLater finish
      → Winds w (ended settings at n ending w finish)
  ended-Winds at n ending w finish f =
      let (s, result) = execution_result settings at.activated ending w.daemon.fail_stop in
      ended_with-Winds w n finish (record w.daemon { fail_stop = s }) result f
        (execution_result-Quiet settings at.activated ending w.daemon.fail_stop).0
        (execution_result-Sound settings at.activated ending w.daemon)

  ended_by-Winds :
      (at : Readings) (n : ℕ) (ending : Ending) (w : World) (o : Option Live)
      → Winds w (ended_by settings at n ending w o)
  ended_by-Winds at n ending w none = Winds-same w w.daemon (ground arith)
  ended_by-Winds at n ending w (some l) =
      ended-Winds at n ending w (finished_by settings at l.owner l.stage)
        (finished_by_Later at l.owner l.stage)

  ended_announced_by-Winds :
      (at : Readings) (n : ℕ) (running_task : VerifiedRunningTask) (ending : Ending) (w : World)
      (o : Option Live)
      → Winds w (ended_announced_by settings at n running_task ending w o)
  ended_announced_by-Winds at n running_task ending w none = Winds-same w w.daemon (ground arith)
  ended_announced_by-Winds at n running_task ending w (some l) = elim (Stage-cases l.stage) [
    | inl e ↦ rw e (
        ended-Winds at n ending w
          (λ completion d.
            (finish_after_running settings at l.owner running_task l.cancellation completion d).0)
          (λ completion d sound.
            (finish_after_running-Released settings at l.owner running_task l.cancellation
              completion d).1))
    | inr (inl e) ↦ rw e (Winds-same w w.daemon (ground arith))
    | inr (inr e) ↦ rw e (Winds-same w w.daemon (ground arith))
  ]

  claimed_by-Winds :
      (at : Readings) (n : ℕ) (w : World)
      → Winds w (claimed_by settings at n w (get_elem? w.admitted n))
  claimed_by-Winds at n w = elim (Option-cases (get_elem? w.admitted n)) [
    | inl missing ↦ rw missing (Winds-same w w.daemon (ground arith))
    | inr ((request_id, o), here) ↦ rw here (
        Claimed-Winds w n (request_id, o) (claim settings at request_id o w.daemon) here
          (claim-Claimed settings at request_id o w.daemon))
  ]

  step-Winds : (w : World) (a : Action) → Winds w (step settings w a)
  unfolding step settle
  step-Winds w (submits at request_id request candidate) =
      begun-Winds w _ (begin-Began settings at request_id request candidate w.daemon)
  step-Winds w (looks_up at request) =
      Winds-same w (step settings w (looks_up at request)).daemon (ground arith)
  step-Winds w (admits at request_id request candidate) =
      entered-Winds w request_id _
        (admit-Entered settings at request_id request candidate w.daemon w.daemon.registry)
  step-Winds w (claims at n) = claimed_by-Winds at n w
  step-Winds w (stops now report) =
      Winds-same w (step settings w (stops now report)).daemon
        (ground (arith, (activate_stops settings now report w.daemon.fail_stop).0))
  step-Winds w (settles at request_id task_id observation) =
      Winds-same w (settle at request_id task_id observation w.daemon).0 (ground arith)
  step-Winds w (asks now id) = Winds-same w (step settings w (asks now id)).daemon (ground arith)
  step-Winds w (cancels now id) =
      Winds-same w (step settings w (cancels now id)).daemon (ground arith)
  step-Winds w (announces at n running_task) =
      announced_by-Winds at n running_task w (get_elem? w.live n)
  step-Winds w (ends at n ending) = ended_by-Winds at n ending w (get_elem? w.live n)
  step-Winds w (ends_announced at n running_task ending) =
      ended_announced_by-Winds at n running_task ending w (get_elem? w.live n)

  -- Once fail-stop is in progress it stays so, and whatever follows, the owners that are admitted never
  -- become more, and neither do they and the owners that run together: only an owner that was admitted
  -- before may still be spawned.
  pub no_admission_after_fail_stop :
      (w : World) (actions : List Action)
      → healthy_of w.daemon ≡ false
      → let w' = run settings w actions in
        (healthy_of w'.daemon ≡ false)
        × (length w'.admitted ≤ length w.admitted)
        × (length w'.admitted + length w'.live ≤ length w.admitted + length w.live)
  unfolding run
  no_admission_after_fail_stop w [] h = (h, omega arith, omega arith)
  no_admission_after_fail_stop w (a ∷ rest) h =
      let (later, fewer) = step-Winds w a in
      let (h', waiting, all) =
        no_admission_after_fail_stop (step settings w a) rest (ground (arith, later, h)) in
      (h', omega (arith, (fewer h).0, waiting), omega (arith, (fewer h).1, all))
