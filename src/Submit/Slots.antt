-- ===== src/Submit/Slots.antt =====
-- No history of the daemon loses a slot, lends more of them than there are or leaves an execution
-- behind.
use taskcage.Prelude.{
  ℕ, String, ◌≡◌, refl, ap, inl, inr, Option, none, some, List, [], ◌∷◌, arith, Option-cases,
  Result,
}
use taskcage.Core.Task.{TaskSnapshot}
use taskcage.FailStop.{Settings, CleanupFailureReport}
use taskcage.Registry.Methods.{Registry}
use taskcage.Submit.Types.{
  Daemon, Readings, ExecutionFailure, VerifiedRunningTask, Begun, answered, waits, spawned,
}
use taskcage.Submit.Execution.{Ending, execution_result}
use taskcage.Submit.Owner.{publish_initial, finish_after_running}
use taskcage.Submit.Live.{
  activate_stops, Sound, finish_without_running-Released, complete_running-Released,
}
use taskcage.Submit.Effects.{
  Entered, admit-Entered, claim-Claimed, Quiet-registry, Began, begin-Began,
}
use taskcage.Submit.Ends.{
  publish_initial-Announced, finish_after_running-Released, execution_result-Quiet,
  execution_result-Sound,
}
use taskcage.Submit.History.{
  World, Live, starting, Action, submits, looks_up, admits, claims, stops, settles, entered,
  claimed_by, asks, cancels, announces, ends, ends_announced, get_elem?, erase_idx, begun,
  announced_by, finished_by, ended, ended_with, ended_by, ended_announced_by, step, run,
}
use taskcage.Submit.Counts.{holds, Stage-cases}
use taskcage.Submit.Accounting.{Accounted, Quiet-Accounted, Started-Accounted, Released-Accounted}
use taskcage.Submit.Coordinate.{Admission, refuses, joins, claim}
use taskcage.Submit.Admitted.{Registered-Accounted, Claimed-Accounted}
use taskcage.Submit.Stages.{Announced-Accounted, unpublished-Accounted}

module _ (settings : Settings) (maximum : ℕ) where
  -- How an owner's completion is accounted for once its execution has a result.
  abbrev Finishes : World → ℕ → (Result ExecutionFailure TaskSnapshot → Daemon → Daemon) → Type 0
  Finishes w n finish =
      (completion : Result ExecutionFailure TaskSnapshot) (d : Daemon)
      → Accounted maximum (record w { daemon = d })
      → Sound completion d
      → Accounted maximum (record w { daemon = finish completion d; live = erase_idx w.live n })

  ended_with-Accounted :
      (w : World) (n : ℕ) (finish : Result ExecutionFailure TaskSnapshot → Daemon → Daemon)
      (d : Daemon) (result : Option (Result ExecutionFailure TaskSnapshot))
      → Finishes w n finish
      → Accounted maximum (record w { daemon = d })
      → ((completion : Result ExecutionFailure TaskSnapshot)
          → result ≡ some completion
          → Sound completion d)
      → Accounted maximum (ended_with w n finish d result)
  ended_with-Accounted w n finish d none f v sound = v
  ended_with-Accounted w n finish d (some completion) f v sound =
      f completion d v (sound completion refl)

  ended-Accounted :
      (at : Readings) (n : ℕ) (ending : Ending) (w : World)
      (finish : Result ExecutionFailure TaskSnapshot → Daemon → Daemon)
      → Finishes w n finish
      → Accounted maximum w
      → Accounted maximum (ended settings at n ending w finish)
  ended-Accounted at n ending w finish f v =
      let (s, result) = execution_result settings at.activated ending w.daemon.fail_stop in
      let d = record w.daemon { fail_stop = s } in
      let (later, same) = execution_result-Quiet settings at.activated ending w.daemon.fail_stop in
      ended_with-Accounted w n finish d result f
        (Quiet-Accounted maximum w v d
          (refl, later, λ id. rw same (omega arith), λ id h. rw same refl))
        (execution_result-Sound settings at.activated ending w.daemon)

  begun-Accounted :
      (w : World) (b : Daemon × Begun)
      → Accounted maximum w
      → Began w.daemon b
      → Accounted maximum (begun w b)
  begun-Accounted w (d, answered _) v q = Quiet-Accounted maximum w v d q
  begun-Accounted w (d, waits _) v q = Quiet-Accounted maximum w v d q
  begun-Accounted w (d, spawned o cancellation) v q =
      Started-Accounted maximum w v d
        (record { owner = o; cancellation = cancellation; stage = starting }) refl q

  entered-Accounted :
      (w : World) (request_id : String) (x : Daemon × Admission)
      → Accounted maximum w
      → Entered w.daemon x
      → Accounted maximum (entered w request_id x)
  entered-Accounted w request_id (d, refuses _) v q = Quiet-Accounted maximum w v d q
  entered-Accounted w request_id (d, joins _) v q = Quiet-Accounted maximum w v d q
  entered-Accounted w request_id (d, Admission.admitted o) v q =
      Registered-Accounted maximum w v d request_id o q

  claimed_by-Accounted :
      (at : Readings) (n : ℕ) (w : World)
      → Accounted maximum w
      → Accounted maximum (claimed_by settings at n w (get_elem? w.admitted n))
  claimed_by-Accounted at n w v = elim (Option-cases (get_elem? w.admitted n)) [
    | inl missing ↦ rw missing v
    | inr ((request_id, o), here) ↦ rw here (
        Claimed-Accounted maximum w v n request_id o here (claim settings at request_id o w.daemon)
          (claim-Claimed settings at request_id o w.daemon))
  ]

  -- Fail-stop is activated from anywhere.
  stopped-Accounted :
      (now : ℕ) (report : CleanupFailureReport) (w : World)
      → Accounted maximum w
      → Accounted maximum (step settings w (stops now report))
  unfolding step
  stopped-Accounted now report w v =
      let (stopped, same) = activate_stops settings now report w.daemon.fail_stop in
      Quiet-Accounted maximum w v _ (
        refl,
        ground (arith, stopped),
        λ id. rw same (omega arith),
        λ id h. absurd (ground (arith, stopped, h)),
      )

  registry-Accounted :
      (w : World) (registry : Registry)
      → Accounted maximum w
      → Accounted maximum (record w { daemon = record w.daemon { registry = registry } })
  registry-Accounted w registry v =
      Quiet-Accounted maximum w v (record w.daemon { registry = registry })
        (Quiet-registry w.daemon registry)

  announced_by-Accounted :
      (at : Readings) (n : ℕ) (running_task : VerifiedRunningTask) (w : World)
      → Accounted maximum w
      → Accounted maximum (announced_by settings at n running_task w (get_elem? w.live n))
  announced_by-Accounted at n running_task w v = elim (Option-cases (get_elem? w.live n)) [
    | inl missing ↦ rw missing v
    | inr (l, here) ↦ elim (Stage-cases l.stage) [
      | inl first ↦
          let (d, _, published) =
            publish_initial settings at l.owner running_task l.cancellation w.daemon in
          rw (here, first)
            (Announced-Accounted maximum w v d n l published here first
              (publish_initial-Announced settings at l.owner running_task l.cancellation w.daemon))
      | inr (inl e) ↦ rw (here, e) v
      | inr (inr e) ↦ rw (here, e) v
    ]
  ]

  finished_by-Finishes :
      (at : Readings) (n : ℕ) (w : World) (l : Live)
      → get_elem? w.live n ≡ some l
      → Finishes w n (finished_by settings at l.owner l.stage)
  finished_by-Finishes at n w l here completion d v sound = elim (Stage-cases l.stage) [
    | inl e ↦ rw e (
        Released-Accounted maximum (record w { daemon = d }) v _ n l here (ap holds e)
          (finish_without_running-Released settings at l.owner completion d sound))
    | inr (inl e) ↦ rw e (
        Released-Accounted maximum (record w { daemon = d }) v _ n l here (ap holds e)
          (complete_running-Released settings at l.owner completion d))
    | inr (inr e) ↦
        rw e (unpublished-Accounted maximum (record w { daemon = d }) v settings at n l here e)
  ]

  ended_by-Accounted :
      (at : Readings) (n : ℕ) (ending : Ending) (w : World)
      → Accounted maximum w
      → Accounted maximum (ended_by settings at n ending w (get_elem? w.live n))
  ended_by-Accounted at n ending w v = elim (Option-cases (get_elem? w.live n)) [
    | inl missing ↦ rw missing v
    | inr (l, here) ↦ rw here (
        ended-Accounted at n ending w (finished_by settings at l.owner l.stage)
          (finished_by-Finishes at n w l here) v)
  ]

  ended_announced_by-Accounted :
      (at : Readings) (n : ℕ) (running_task : VerifiedRunningTask) (ending : Ending) (w : World)
      → Accounted maximum w
      → Accounted maximum
          (ended_announced_by settings at n running_task ending w (get_elem? w.live n))
  ended_announced_by-Accounted at n running_task ending w v =
      elim (Option-cases (get_elem? w.live n)) [
        | inl missing ↦ rw missing v
        | inr (l, here) ↦ elim (Stage-cases l.stage) [
          | inl e ↦
              let finish = λ (completion : Result ExecutionFailure TaskSnapshot) (d : Daemon).
                (finish_after_running settings at l.owner running_task l.cancellation completion
                  d).0 in
              rw (here, e)
                (ended-Accounted at n ending w finish
                  (λ completion d v' sound.
                    Released-Accounted maximum (record w { daemon = d }) v' (finish completion d) n
                      l here (ap holds e)
                      (finish_after_running-Released settings at l.owner running_task l.cancellation
                        completion d))
                  v)
          | inr (inl e) ↦ rw (here, e) v
          | inr (inr e) ↦ rw (here, e) v
        ]
      ]

  pub step-Accounted :
      (w : World) (a : Action) → Accounted maximum w → Accounted maximum (step settings w a)
  unfolding step
  step-Accounted w (submits at request_id request candidate) v =
      begun-Accounted w _ v (begin-Began settings at request_id request candidate w.daemon)
  step-Accounted w (looks_up at request) v = registry-Accounted w _ v
  step-Accounted w (admits at request_id request candidate) v =
      entered-Accounted w request_id _ v
        (admit-Entered settings at request_id request candidate w.daemon w.daemon.registry)
  step-Accounted w (claims at n) v = claimed_by-Accounted at n w v
  step-Accounted w (stops now report) v = stopped-Accounted now report w v
  step-Accounted w (settles at request_id task_id observation) v = registry-Accounted w _ v
  step-Accounted w (asks now id) v = registry-Accounted w _ v
  step-Accounted w (cancels now id) v = registry-Accounted w _ v
  step-Accounted w (announces at n running_task) v = announced_by-Accounted at n running_task w v
  step-Accounted w (ends at n ending) v = ended_by-Accounted at n ending w v
  step-Accounted w (ends_announced at n running_task ending) v =
      ended_announced_by-Accounted at n running_task ending w v

  pub run-Accounted :
      (w : World) (actions : List Action)
      → Accounted maximum w
      → Accounted maximum (run settings w actions)
  unfolding run
  run-Accounted w [] v = v
  run-Accounted w (a ∷ rest) v = run-Accounted (step settings w a) rest (step-Accounted w a v)
