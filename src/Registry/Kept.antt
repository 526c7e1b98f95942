-- ===== src/Registry/Kept.antt =====
-- A completed task's reservation and its FINISHED record, in every history until its retention ends.
use taskcage.Prelude.{
  ℕ, ◌+◌, ◌≤◌, String, ◌≡◌, refl, ap, ◌∙◌, inl, inr, ite, false, some, arith, ok, err,
}
use taskcage.Prelude.Map
use taskcage.Registry.Types.{
  RegistryState, TaskRecord, RequestRecord, ValidatedSubmit, client_request_id,
  SubmissionIdentity-discrete, SubmitReservation, existing, idempotency_conflict,
}
use taskcage.Registry.State.{purge_expired, min_finished_retention, Answer, reserve}
use taskcage.Registry.Methods.{
  Registry, snapshot, snapshot_by_client_request_id, reserve_submit_with,
}
use taskcage.Registry.Invariant.{Inv}
use taskcage.Registry.Purge.{purge_expired-Inv, purge_expired-kept, Fresh}
use taskcage.Registry.Cases.{
  reserve-cases, insert_running-cases, insert_finished-cases, release-cases,
}
use taskcage.Registry.Mutations.{
  reserve-Inv, insert_running-Inv, insert_finished-Inv, release-Inv, verify_owner-ok,
}
use taskcage.Registry.History.{}
use taskcage.Registry.Stable.{Stable}

reserve-found :
    (k : String) (q : RequestRecord) (request : ValidatedSubmit) (candidate : String) (signal : ℕ)
    (s : RegistryState)
    → Map.lookup k s.requests ≡ some q
    → client_request_id request ≡ k
    → (reserve request candidate signal s).1
      ≡ ite
          (SubmissionIdentity-discrete q.identity request.identity)
          (ok (existing (record { task_id = q.task_id; signal = q.reservation })))
          (err (idempotency_conflict k))
unfolding reserve
reserve-found k q request candidate signal s here same =
    let found : Map.lookup (client_request_id request) s.requests ≡ some q =
      ap (λ x. Map.lookup x s.requests) same ∙ here in
    rw found
      (elim (SubmissionIdentity-discrete q.identity request.identity)
        as (λ d.
          (ite {C = Answer SubmitReservation} d
            (s, ok (existing (record { task_id = q.task_id; signal = q.reservation })))
            (s, err (idempotency_conflict (client_request_id request)))).1
          ≡ ite d (ok (existing (record { task_id = q.task_id; signal = q.reservation })))
              (err (idempotency_conflict k))) [
                | yes p ↦ refl
                | no n ↦ ap (λ x. err (idempotency_conflict x)) same
              ])

-- A completed task's reservation and its FINISHED record.
module _ (at : ℕ) (k : String) (q : RequestRecord) (r : TaskRecord) where
  abbrev pub Kept : RegistryState → Type 0
  Kept s = Inv s × (Map.lookup k s.requests ≡ some q) × (Map.lookup q.task_id s.tasks ≡ some r)

  abbrev pub Retained : ℕ → Type 0
  Retained now = now ≤ at + min_finished_retention

  module _ (finished_at : r.finished_monotonic ≡ some at) where
    Kept-purged : (now : ℕ) (s : RegistryState) → Retained now → Kept s → Kept (purge_expired now s)
    Kept-purged now s a (i, here, task) =
        let (here', same) = purge_expired-kept now s k q i here fresh in
        (purge_expired-Inv now s i, here', same ∙ task)
      where
        fresh : Fresh now (Map.lookup q.task_id s.tasks)
        fresh w t p p' = ground (arith, a, finished_at, task, p, p')

    pub Kept-Stable : Stable Retained Kept
    Kept-Stable = record {
      purged = Kept-purged;
      reserved = λ request t signal s h. elim (reserve-cases request t signal s) [
        | inl p ↦ rw p h
        | inr (p, absent, _, _) ↦ (
          reserve-Inv request t signal s h.0,
          rw p (
              Map.lookup-insert_other (client_request_id request) k _ s.requests
                (λ p'. ground (arith, absent, p', h.1))
              ∙ h.1),
          rw p h.2,
        )
      ];
      ran = λ o taken limits c s h v id fin. elim (insert_running-cases o taken limits c s) [
        | inl p ↦ rw p h
        | inr (p, fresh) ↦ (
          insert_running-Inv o taken limits c s h.0 v id fin,
          rw p h.1,
          rw p (
              Map.lookup-insert_other o.task_id q.task_id _ s.tasks
                (λ p'. ground (arith, fresh, p', h.2))
              ∙ h.2),
        )
      ];
      finished = λ o taken t s h v id fin. elim (insert_finished-cases o taken t s) [
        | inl p ↦ rw p h
        | inr (limits, p, unfinished) ↦ (
          insert_finished-Inv o taken t s h.0 v id fin,
          rw p h.1,
          rw p (
              Map.lookup-insert_other o.task_id q.task_id _ s.tasks
                (λ p'. ground (arith, unfinished r, p', h.2, finished_at))
              ∙ h.2),
        )
      ];
      released = λ o s h v. elim (release-cases o s) [
        | inl p ↦ rw p h
        | inr (p, fresh) ↦ (
          release-Inv o s h.0 v,
          rw p (
              Map.lookup-remove_other o.client_request_id k s.requests
                (λ p'. ground (arith, fresh, p', h.1, h.2, verify_owner-ok o s v))
              ∙ h.1),
          rw p h.2,
        )
      ];
    }

    -- What is answered about a kept task.
    pub snapshot-Kept :
        (now : ℕ) (s : Registry)
        → Retained now
        → s.poisoned ≡ false
        → Kept s.state
        → (snapshot now q.task_id s).1 ≡ ok (some r.snapshot)
    unfolding snapshot
    snapshot-Kept now s a p h = rw p (rw (Kept-purged now s.state a h).2 refl)

    pub by_request-Kept :
        (now : ℕ) (s : Registry)
        → Retained now
        → s.poisoned ≡ false
        → Kept s.state
        → (snapshot_by_client_request_id now k s).1 ≡ ok (some r.snapshot)
    unfolding snapshot_by_client_request_id
    by_request-Kept now s a p h =
        let h' = Kept-purged now s.state a h in rw p (rw (h'.1) (rw (h'.2) refl))

    pub reserve-Kept :
        (now : ℕ) (s : Registry) (request : ValidatedSubmit) (candidate : String)
        → Retained now
        → s.poisoned ≡ false
        → Kept s.state
        → client_request_id request ≡ k
        → (reserve_submit_with now request candidate s).1
          ≡ ite
              (SubmissionIdentity-discrete q.identity request.identity)
              (ok (existing (record { task_id = q.task_id; signal = q.reservation })))
              (err (idempotency_conflict k))
    unfolding reserve_submit_with
    reserve-Kept now s request candidate a p h same = rw p (
        reserve-found k q request candidate s.next_signal (purge_expired now s.state)
          (Kept-purged now s.state a h).1 same)
