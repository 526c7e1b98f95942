-- ===== src/Registry/Completed.antt =====
-- A completion that the registry accepts is kept until its retention ends, whatever calls follow.
use taskcage.Prelude.{
  ℕ, ◌+◌, ◌≤◌, String, ◌≡◌, refl, sym, ap, ◌∙◌, inl, inr, ite, true, false, Option, none, some,
  List, arith, Bool-cases, Option-cases, Result, ok, err,
}
use taskcage.Prelude.Map
use taskcage.Core.Task.{TaskSnapshot, task_id as id_of}
use taskcage.Registry.Types.{
  RegistryState, RegistryError, TaskRecord, RequestRecord, ValidatedSubmit, client_request_id,
  SubmitExecutionOwner, VerifiedEffectiveLimits, SubmissionIdentity-discrete, existing,
  idempotency_conflict, SubmitWaiter, FinishedTaskPublication,
}
use taskcage.Registry.State.{
  Answer, purge_expired, min_finished_retention, verify_owner, verify_task_id, insert_finished,
  finished_state,
}
use taskcage.Registry.Methods.{
  Registry, Call as Outcome, with_lock, owned, if_owner, checked, finish_snapshot, snapshot,
  snapshot_by_client_request_id, reserve_submit_with,
}
use taskcage.Registry.Owner.{finish_inner, finished_or_failed}
use taskcage.Registry.Invariant.{Inv, is_finished}
use taskcage.Registry.Purge.{purge_expired-Inv}
use taskcage.Registry.Mutations.{insert_finished-Inv, verify_owner-ok}
use taskcage.Registry.History.{Call, AllReads, run, run-poisoned}
use taskcage.Registry.Stable.{run-keeps, verify_task_id-ok}
use taskcage.Registry.Kept.{Kept, Kept-Stable, snapshot-Kept, by_request-Kept, reserve-Kept}

insert_finished-ok :
    (o : SubmitExecutionOwner) (taken : TaskSnapshot) (at : ℕ) (s : RegistryState)
    (p : FinishedTaskPublication)
    → (insert_finished o taken at s).1 ≡ ok p
    → (limits : Option VerifiedEffectiveLimits) × ((insert_finished o taken at s).0
        ≡ finished_state o taken at limits s)
unfolding insert_finished
insert_finished-ok o taken at s p h = elim (Option-cases (Map.lookup o.task_id s.tasks)) [
  | inl fresh ↦ (none, rw fresh refl)
  | inr (r, here) ↦ elim (Option-cases r.finished_monotonic) [
    | inl unfinished ↦ (r.effective_limits, rw (here, unfinished) refl)
    | inr (_, before) ↦ absurd (ground (arith, h, here, before))
  ]
]

module _ {A : Type 0} (a : A) where
  with_lock-ok :
      (now : ℕ) (r : Registry) (f : RegistryState → Answer A)
      → (with_lock now r f).1 ≡ ok a
      → (r.poisoned ≡ false) × ((f (purge_expired now r.state)).1 ≡ ok a)
  with_lock-ok now r f h = elim (Bool-cases r.poisoned) [
    | inl p ↦ absurd (ground (arith, h, p))
    | inr p ↦ (p, ground (arith, h, p))
  ]

  if_owner-ok :
      (f : RegistryState → Answer A) (s : RegistryState) (v : Result RegistryError (Unit {0}))
      → (if_owner f s v).1 ≡ ok a
      → (v ≡ ok tt) × ((f s).1 ≡ ok a)
  if_owner-ok f s (ok tt) h = (refl, h)
  if_owner-ok f s (err e) h = absurd (ground arith)

  checked-ok :
      (r : Registry) (x : Outcome A) (v : Result RegistryError (Unit {0}))
      → (checked r x v).1 ≡ ok a
      → (v ≡ ok tt) × (x.1 ≡ ok a)
  checked-ok r x (ok tt) h = (refl, h)
  checked-ok r x (err e) h = absurd (ground arith)

-- The state after an accepted completion.
abbrev Completed : SubmitExecutionOwner → TaskSnapshot → ℕ → RegistryState → Type 0
Completed o taken at s =
    (q : RequestRecord) × (r : TaskRecord) × (r.snapshot ≡ taken)
    × (r.finished_monotonic ≡ some at)
    × (q.task_id ≡ o.task_id)
    × (q.reservation ≡ o.signal)
    × Kept at o.client_request_id q r s

insert_finished-Completed :
    (o : SubmitExecutionOwner) (taken : TaskSnapshot) (at : ℕ) (s : RegistryState)
    (p : FinishedTaskPublication)
    → Inv s
    → verify_owner o s ≡ ok tt
    → id_of taken ≡ o.task_id
    → is_finished taken ≡ true
    → (insert_finished o taken at s).1 ≡ ok p
    → Completed o taken at (insert_finished o taken at s).0
insert_finished-Completed o taken at s p i v id fin h =
    let (q, here, same, signal) = verify_owner-ok o s v in
    let (limits, stored) = insert_finished-ok o taken at s p h in
    let r : TaskRecord = record {
      snapshot = taken;
      effective_limits = limits;
      finished_monotonic = some at;
      cancellation = none;
    } in
    (
      q,
      r,
      refl,
      refl,
      same,
      signal,
      (
        insert_finished-Inv o taken at s i v id fin,
        rw stored here,
        rw stored (rw same (Map.lookup-insert_same o.task_id r s.tasks)),
      ),
    )

finish_snapshot-Completed :
    (now later : ℕ) (o : SubmitExecutionOwner) (taken : TaskSnapshot) (r : Registry)
    (p : FinishedTaskPublication)
    → Inv r.state
    → (finish_snapshot now later o taken r).1 ≡ ok p
    → Completed o taken later (finish_snapshot now later o taken r).0.state
      × ((finish_snapshot now later o taken r).0.poisoned ≡ false)
unfolding finish_snapshot
finish_snapshot-Completed now later o (TaskSnapshot.running _ _ _) r p i h =
    absurd (ground (arith, h))
finish_snapshot-Completed now later o (TaskSnapshot.finished t a b c d e) r p i h =
    let taken = TaskSnapshot.finished t a b c d e in
    let s = purge_expired now r.state in
    let f = insert_finished o taken later in
    let (same, h') = checked-ok p r (with_lock now r (owned o f)) (verify_task_id o.task_id t) h in
    let (sound, h'') = with_lock-ok p now r (owned o f) h' in
    let (v, done) = if_owner-ok p f s (verify_owner o s) h'' in
    rw same (
      rw sound (
        rw v (
          insert_finished-Completed o taken later s p (purge_expired-Inv now r.state i) v
              (verify_task_id-ok o.task_id t same) refl done,
          refl,
        )))

finished_or_failed-ok :
    (last : ℕ) (o : SubmitExecutionOwner) (x : Outcome FinishedTaskPublication)
    (p : FinishedTaskPublication)
    → (finished_or_failed last o x).1 ≡ ok p
    → (x.1 ≡ ok p) × ((finished_or_failed last o x).0 ≡ x.0)
finished_or_failed-ok last o (r, ok q) p h = (h, refl)
finished_or_failed-ok last o (r, err e) p h = absurd (ground arith)

abbrev waiter : String → ℕ → SubmitWaiter
waiter t a = record { task_id = t; signal = a }

waiter-eq : (t u : String) (a b : ℕ) → t ≡ u → a ≡ b → waiter t a ≡ waiter u b
waiter-eq t u a b p q = cc

-- Once an owner's completion of a task was accepted at some time, then after whatever calls follow
-- whose clock readings are at most ten minutes later, a status query by the task's id and one by its
-- request's id, at most ten minutes later too, both answer the FINISHED snapshot; and a submission
-- with that request's id is answered with the same task if its contents are those of the
-- reservation, and is refused as a conflict if they are not.
pub completion_retained :
    (r : Registry) (now later last : ℕ) (o : SubmitExecutionOwner) (taken : TaskSnapshot)
    (p : FinishedTaskPublication) (cs : List Call) (asked : ℕ) (request : ValidatedSubmit)
    (candidate : String)
    → Inv r.state
    → (finish_inner now later last o taken r).1 ≡ ok p
    → AllReads (λ t. t ≤ later + min_finished_retention) cs
    → asked ≤ later + min_finished_retention
    → client_request_id request ≡ o.client_request_id
    → let s = run (finish_inner now later last o taken r).0 cs in
      ((snapshot asked o.task_id s).1 ≡ ok (some taken))
      × ((snapshot_by_client_request_id asked o.client_request_id s).1 ≡ ok (some taken))
      × ((q : RequestRecord) × (Map.lookup o.client_request_id
              (finish_inner now later last o taken r).0.state.requests
            ≡ some q)
          × ((reserve_submit_with asked request candidate s).1
              ≡ ite
                  (SubmissionIdentity-discrete q.identity request.identity)
                  (ok (existing (record { task_id = o.task_id; signal = o.signal })))
                  (err (idempotency_conflict o.client_request_id))))
unfolding finish_inner
completion_retained r now later last o taken p cs asked request candidate i h reads late same =
    let x = finish_snapshot now later o taken r in
    let (h', state) = finished_or_failed-ok last o x p h in
    let ((q, w, snap, fin, id, signal, kept), sound) =
      finish_snapshot-Completed now later o taken r p i h' in
    let stable = Kept-Stable later o.client_request_id q w fin in
    let kept' = run-keeps stable x.0 cs reads kept in
    let sound' = run-poisoned x.0 cs ∙ sound in
    let s = run x.0 cs in
    rw state (
      ap (λ z. (snapshot asked z s).1) (sym id)
          ∙ (snapshot-Kept later o.client_request_id q w fin asked s late sound' kept'
              ∙ ap (λ z. ok (some z)) snap),
      by_request-Kept later o.client_request_id q w fin asked s late sound' kept'
          ∙ ap (λ z. ok (some z)) snap,
      (
        q,
        kept.1,
        reserve-Kept later o.client_request_id q w fin asked s request candidate late sound' kept'
              same
            ∙ ap
                (λ z.
                  ite (SubmissionIdentity-discrete q.identity request.identity) (ok (existing z))
                    (err (idempotency_conflict o.client_request_id)))
                (waiter-eq q.task_id o.task_id q.reservation o.signal id signal),
      ),
    )
