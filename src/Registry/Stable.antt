-- ===== src/Registry/Stable.antt =====
-- Properties of the registry's state that every call keeps, and so every history.
use taskcage.Prelude.{
  ℕ, String, ◌≡◌, refl, inl, inr, true, false, Option, none, some, List, [], ◌∷◌, arith,
  if◌then◌else◌, Bool-cases, ok, err, Result-cases,
}
use taskcage.Prelude.Map
use taskcage.Core.Task.{TaskSnapshot, task_id as id_of}
use taskcage.Registry.Types.{
  RegistryState, ValidatedSubmit, SubmitExecutionOwner, VerifiedEffectiveLimits, SubmitFailure,
  SubmitObservation, FinishedTaskPublication, state_unavailable,
}
use taskcage.Registry.State.{
  Answer, purge_expired, verify_task_id, verify_owner, reserve, insert_running, insert_finished,
  release,
}
use taskcage.Registry.Methods.{
  Registry, Call as Outcome, with_lock, owned, store, effective_limits_for, reading,
  cancellation_of, observe_cancel, published_running, publish_running, finish_snapshot,
  release_failed_owner,
}
use taskcage.Registry.Owner.{fail_inner, rolled_back, set_completed, finished_or_failed}
use taskcage.Registry.Invariant.{is_finished}
use taskcage.Registry.History.{
  reserves, observes, asks, asks_request, has_request, cancels, asks_limits, publishes_running,
  finishes, completes, fails, rolls_back, drops, Call, Reads, AllReads, step, run,
}

-- A property of the state that a purge at an allowed reading and every change under the lock keep.
pub record Stable (A : ℕ → Type 0) (P : RegistryState → Type 0) : Type 0 where
  pub purged : (now : ℕ) (s : RegistryState) → A now → P s → P (purge_expired now s)
  pub reserved :
      (request : ValidatedSubmit) (t : String) (signal : ℕ) (s : RegistryState)
      → P s
      → P (reserve request t signal s).0
  pub ran :
      (o : SubmitExecutionOwner) (taken : TaskSnapshot) (limits : VerifiedEffectiveLimits) (c : ℕ)
      (s : RegistryState)
      → P s
      → verify_owner o s ≡ ok tt
      → id_of taken ≡ o.task_id
      → is_finished taken ≡ false
      → P (insert_running o taken limits c s).0
  pub finished :
      (o : SubmitExecutionOwner) (taken : TaskSnapshot) (at : ℕ) (s : RegistryState)
      → P s
      → verify_owner o s ≡ ok tt
      → id_of taken ≡ o.task_id
      → is_finished taken ≡ true
      → P (insert_finished o taken at s).0
  pub released :
      (o : SubmitExecutionOwner) (s : RegistryState)
      → P s
      → verify_owner o s ≡ ok tt
      → P (release o s).0

pub verify_task_id-ok : (t u : String) → verify_task_id t u ≡ ok tt → u ≡ t
unfolding verify_task_id
verify_task_id-ok t u h = ground (arith, h)

-- What is published does not touch the state.
observe_cancel-state : (x : Outcome ℕ) → (observe_cancel x).0.state ≡ x.0.state
observe_cancel-state (r, ok address) = refl
observe_cancel-state (r, err e) = refl

published_running-state :
    (o : SubmitExecutionOwner) (taken : TaskSnapshot) (x : Outcome (Unit {0}))
    → (published_running o taken x).0.state ≡ x.0.state
published_running-state o taken (r, ok _) = refl
published_running-state o taken (r, err e) = refl

rolled_back-state :
    (o : SubmitExecutionOwner) (failure : SubmitFailure) (x : Outcome (Option TaskSnapshot))
    → (rolled_back o failure x).0.state ≡ x.0.state
rolled_back-state o failure (r, ok none) = refl
rolled_back-state o failure (r, ok (some _)) = refl
rolled_back-state o failure (r, err e) = refl

set_completed-state :
    (c : Option ℕ) (taken : TaskSnapshot) (r : Registry) → (set_completed c taken r).state ≡ r.state
set_completed-state none taken r = refl
set_completed-state (some address) taken r = refl

module _ {A : ℕ → Type 0} {P : RegistryState → Type 0} (stable : Stable A P) where
  locked :
      {B : Type 0} (now : ℕ) (r : Registry) (answer : Answer B)
      → P r.state
      → P answer.0
      → P (if r.poisoned then (r, err state_unavailable) else store r answer).0.state
  locked now r answer h h' = elim (Bool-cases r.poisoned) [ inl p ↦ rw p h | inr p ↦ rw p h' ]

  owned-keeps :
      {B : Type 0} (o : SubmitExecutionOwner) (f : RegistryState → Answer B) (s : RegistryState)
      → (verify_owner o s ≡ ok tt → P (f s).0)
      → P s
      → P (owned o f s).0
  owned-keeps o f s h i = elim (Result-cases (verify_owner o s)) [
    | inl (tt, p) ↦ rw p (h p)
    | inr (e, p) ↦ rw p i
  ]

  release-keeps :
      (now : ℕ) (o : SubmitExecutionOwner) (r : Registry)
      → A now
      → P r.state
      → P (release_failed_owner now o r).0.state
  unfolding release_failed_owner
  release-keeps now o r a h =
      let s = purge_expired now r.state in
      let h' = stable.purged now r.state a h in
      locked now r (owned o (release o) s) h
        (owned-keeps o (release o) s (stable.released o s h') h')

  publish_running-keeps :
      (now : ℕ) (o : SubmitExecutionOwner) (taken : TaskSnapshot) (limits : VerifiedEffectiveLimits)
      (c : ℕ) (r : Registry)
      → A now
      → P r.state
      → P (publish_running now o taken limits c r).0.state
  unfolding publish_running
  publish_running-keeps now o (TaskSnapshot.finished _ _ _ _ _ _) limits c r a h = h
  publish_running-keeps now o (TaskSnapshot.running t x y) limits c r a h =
      elim (Result-cases (verify_task_id o.task_id t)) [
        | inr (e, p) ↦ rw p h
        | inl (tt, p) ↦
            let s = purge_expired now r.state in
            let h' = stable.purged now r.state a h in
            let taken = TaskSnapshot.running t x y in
            let f = insert_running o taken limits c in
            rw p (
              rw (published_running-state o taken (with_lock now r (owned o f))) (
                locked now r (owned o f s) h (
                  owned-keeps o f s
                    (λ v. stable.ran o taken limits c s h' v (verify_task_id-ok _ t p) refl) h')))
      ]

  finish_snapshot-keeps :
      (now later : ℕ) (o : SubmitExecutionOwner) (taken : TaskSnapshot) (r : Registry)
      → A now
      → P r.state
      → P (finish_snapshot now later o taken r).0.state
  unfolding finish_snapshot
  finish_snapshot-keeps now later o (TaskSnapshot.running _ _ _) r a h = h
  finish_snapshot-keeps now later o (TaskSnapshot.finished t reason p' timing usage output) r a h =
      elim (Result-cases (verify_task_id o.task_id t)) [
        | inr (e, p) ↦ rw p h
        | inl (tt, p) ↦
            let s = purge_expired now r.state in
            let h' = stable.purged now r.state a h in
            let taken = TaskSnapshot.finished t reason p' timing usage output in
            let f = insert_finished o taken later in
            rw p (
              locked now r (owned o f s) h (
                owned-keeps o f s
                  (λ v. stable.finished o taken later s h' v (verify_task_id-ok _ t p) refl) h'))
      ]

  finished_or_failed-keeps :
      (last : ℕ) (o : SubmitExecutionOwner) (x : Outcome FinishedTaskPublication)
      → A last
      → P x.0.state
      → P (finished_or_failed last o x).0.state
  unfolding fail_inner
  finished_or_failed-keeps last o (r, ok p) a h = h
  finished_or_failed-keeps last o (r, err e) a h = release-keeps last o r a h

  asks_limits-keeps :
      (now : ℕ) (id : String) (observation : SubmitObservation) (r : Registry)
      → A now
      → P r.state
      → P (effective_limits_for now id observation r).0.state
  unfolding effective_limits_for
  asks_limits-keeps now id (SubmitObservation.task (TaskSnapshot.running _ _ _)) r a h =
      locked now r _ h (stable.purged now r.state a h)
  asks_limits-keeps now id (SubmitObservation.task (TaskSnapshot.finished _ _ _ _ _ _)) r a h = h
  asks_limits-keeps now id (SubmitObservation.failed _) r a h = h

  step-keeps : (r : Registry) (c : Call) → Reads A c → P r.state → P (step r c).state
  unfolding step
  step-keeps r (reserves now request candidate) a h =
      locked now r (reserve request candidate r.next_signal (purge_expired now r.state)) h
        (stable.reserved request candidate r.next_signal _ (stable.purged now r.state a h))
  step-keeps r (observes now request) a h = locked now r _ h (stable.purged now r.state a h)
  step-keeps r (asks now id) a h = locked now r _ h (stable.purged now r.state a h)
  step-keeps r (asks_request now id) a h = locked now r _ h (stable.purged now r.state a h)
  step-keeps r (has_request now id) a h = locked now r _ h (stable.purged now r.state a h)
  step-keeps r (cancels now id) a h =
      rw
        (observe_cancel-state
          (with_lock now r (reading λ s. cancellation_of id (Map.lookup id s.tasks))))
        (locked now r _ h (stable.purged now r.state a h))
  step-keeps r (asks_limits now id observation) a h = asks_limits-keeps now id observation r a h
  step-keeps r (publishes_running now o taken limits c) a h =
      publish_running-keeps now o taken limits c r a h
  step-keeps r (finishes now later last o taken) a h =
      finished_or_failed-keeps last o (finish_snapshot now later o taken r) a.1
        (finish_snapshot-keeps now later o taken r a.0 h)
  step-keeps r (completes p) a h = rw (set_completed-state p.cancellation p.snapshot r) h
  step-keeps r (fails now o failure) a h = release-keeps now o r a h
  step-keeps r (rolls_back now o failure) a h =
      rw (rolled_back-state o failure (release_failed_owner now o r)) (release-keeps now o r a h)
  step-keeps r (drops now o) a h = release-keeps now o r a h

  pub run-keeps : (r : Registry) (cs : List Call) → AllReads A cs → P r.state → P (run r cs).state
  unfolding run
  run-keeps r [] a h = h
  run-keeps r (c ∷ cs) a h = run-keeps (step r c) cs a.1 (step-keeps r c a.0 h)
