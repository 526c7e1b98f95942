-- ===== src/Registry/Mutations.antt =====
-- Each change that the methods make to the state keeps the invariant.
use taskcage.Prelude.{
  ℕ, ◌<◌, String, ◌≡◌, refl, sym, ap, ◌∙◌, inl, inr, true, false, Option, none, some, [], ◌∷◌, ◌++◌,
  arith, Option-cases, length, ok,
}
use taskcage.Prelude.Map
use taskcage.Core.Task.{TaskSnapshot, task_id as id_of}
use taskcage.Registry.Types.{
  RegistryState, TaskRecord, RequestRecord, ValidatedSubmit, client_request_id,
  SubmitExecutionOwner, VerifiedEffectiveLimits,
}
use taskcage.Registry.Purge.{other_request}
use taskcage.Registry.Cases.{reserve-cases}
use taskcage.Registry.State.{
  inserted, reserve, verify_owner, finished_state, insert_running, insert_finished, release,
}
use taskcage.Registry.Invariant.{
  Inv, Queued-frame, Queued-append, Absent, Absent-unfinished, Shaped, is_finished,
}

is_some-none : {A : Type 0} (o : Option A) → Map.is_some o ≡ false → o ≡ none
is_some-none none h = refl
is_some-none (some a) h = ground arith

pub inserted-Inv :
    (request : ValidatedSubmit) (t : String) (signal : ℕ) (s : RegistryState)
    → Inv s
    → Map.lookup (client_request_id request) s.requests ≡ none
    → length s.requests < s.max_tasks
    → Map.contains_key t s.task_requests ≡ false
    → Inv (inserted request t signal s)
inserted-Inv request t signal s i absent room unused = record {
  forward = λ j q h. elim (Map.lookup-insert_cases k j added q s.requests h) [
    | inl (p, v) ↦ ground (arith, Map.lookup-insert t q.task_id k s.task_requests, p, v)
    | inr (n, old) ↦
        ground (arith, Map.lookup-insert t q.task_id k s.task_requests, i.forward j q old, unused)
  ];
  backward = λ u j h. elim (Map.lookup-insert_cases t u k j s.task_requests h) [
    | inl (p, v) ↦ (added, ground (arith, Map.lookup-insert k j added s.requests, v), p)
    | inr (n, old) ↦
        let (q, here, same) = i.backward u j old in
        (q, ground (arith, Map.lookup-insert k j added s.requests, here, absent), same)
  ];
  known = λ u r h.
      let (j, here) = i.known u r h in
      (j, ground (arith, Map.lookup-insert t u k s.task_requests, here, unused));
  shaped = i.shaped;
  queued = i.queued;
  bounded = omega (arith, room, Map.length-insert-le k added s.requests);
}
  where
    k : String
    k = client_request_id request

    added : RequestRecord
    added = record { task_id = t; identity = request.identity; reservation = signal }

-- The record that replaces a task's, when the task has no entry in the queue.
module _ (t k : String) (r : TaskRecord) (s : RegistryState) where
  abbrev pub with_task : RegistryState
  with_task = record s { tasks = Map.insert t r s.tasks }

  with_task-Inv :
      Inv s
      → Map.lookup t s.task_requests ≡ some k
      → Shaped t r
      → Absent t s.finished_expirations
      → Inv with_task
  with_task-Inv i here shape a = record {
    forward = i.forward;
    backward = i.backward;
    known = λ u w h. elim (Map.lookup-insert_cases t u r w s.tasks h) [
      | inl (p, _) ↦ (k, ap (λ x. Map.lookup x s.task_requests) (sym p) ∙ here)
      | inr (_, old) ↦ i.known u w old
    ];
    shaped = λ u w h. elim (Map.lookup-insert_cases t u r w s.tasks h) [
      | inl (p, v) ↦ ground (arith, shape, p, v)
      | inr (_, old) ↦ i.shaped u w old
    ];
    queued =
        Queued-frame s.finished_expirations t s.tasks (Map.insert t r s.tasks) a
          (λ j n. Map.lookup-insert_other t j r s.tasks (λ p. n (sym p))) i.queued;
    bounded = i.bounded;
  }

  -- As above, with an entry for the task at the end of the queue.
  with_entry-Inv :
      (at : ℕ)
      → Inv s
      → Map.lookup t s.task_requests ≡ some k
      → Shaped t r
      → Absent t s.finished_expirations
      → r.finished_monotonic ≡ some at
      → Inv (record with_task {
        finished_expirations =
            s.finished_expirations ++ (record { task_id = t; finished_monotonic = at } ∷ []);
      })
  with_entry-Inv at i here shape a p =
      let j = with_task-Inv i here shape a in
      record {
        forward = j.forward;
        backward = j.backward;
        known = j.known;
        shaped = j.shaped;
        queued =
            Queued-append s.finished_expirations (record { task_id = t; finished_monotonic = at })
              (Map.insert t r s.tasks) a (r, Map.lookup-insert_same t r s.tasks, p) j.queued;
        bounded = j.bounded;
      }

-- What `verify_owner` finds: the owner's own reservation.
pub verify_owner-ok :
    (o : SubmitExecutionOwner) (s : RegistryState)
    → verify_owner o s ≡ ok tt
    → (q : RequestRecord) × (Map.lookup o.client_request_id s.requests ≡ some q)
      × (q.task_id ≡ o.task_id)
      × (q.reservation ≡ o.signal)
unfolding verify_owner
verify_owner-ok o s h = elim (Option-cases (Map.lookup o.client_request_id s.requests)) [
  | inl none_here ↦ absurd (ground (arith, h, none_here))
  | inr (q, here) ↦ (q, here, ground (arith, h, here), ground (arith, h, here))
]

verify_owner-index :
    (o : SubmitExecutionOwner) (s : RegistryState)
    → Inv s
    → verify_owner o s ≡ ok tt
    → Map.lookup o.task_id s.task_requests ≡ some o.client_request_id
verify_owner-index o s i h =
    let (q, here, same, _) = verify_owner-ok o s h in
    ap (λ x. Map.lookup x s.task_requests) (sym same) ∙ i.forward o.client_request_id q here

pub insert_running-Inv :
    (o : SubmitExecutionOwner) (taken : TaskSnapshot) (limits : VerifiedEffectiveLimits) (c : ℕ)
    (s : RegistryState)
    → Inv s
    → verify_owner o s ≡ ok tt
    → id_of taken ≡ o.task_id
    → is_finished taken ≡ false
    → Inv (insert_running o taken limits c s).0
unfolding insert_running
insert_running-Inv o taken limits c s i h id run =
    elim (Option-cases (Map.lookup o.task_id s.tasks)) [
      | inl fresh ↦ rw fresh (
          with_task-Inv o.task_id o.client_request_id _ s i (verify_owner-index o s i h)
            (id, sym run)
            (Absent-unfinished s.finished_expirations o.task_id s.tasks
              (λ r p. absurd (ground (arith, fresh, p))) i.queued))
      | inr (r, here) ↦ rw here i
    ]

pub insert_finished-Inv :
    (o : SubmitExecutionOwner) (taken : TaskSnapshot) (at : ℕ) (s : RegistryState)
    → Inv s
    → verify_owner o s ≡ ok tt
    → id_of taken ≡ o.task_id
    → is_finished taken ≡ true
    → Inv (insert_finished o taken at s).0
unfolding insert_finished
insert_finished-Inv o taken at s i h id fin = elim (Option-cases (Map.lookup o.task_id s.tasks)) [
  | inl fresh ↦ rw fresh (stored none (λ r p. absurd (ground (arith, fresh, p))))
  | inr (r, here) ↦ elim (Option-cases r.finished_monotonic) [
    | inl unfinished ↦
        rw (here, unfinished)
          (stored r.effective_limits (λ w p. ground (arith, unfinished, here, p)))
    | inr (_, before) ↦ rw (here, before) i
  ]
]
  where
    stored :
        (limits : Option VerifiedEffectiveLimits)
        → ((r : TaskRecord) → Map.lookup o.task_id s.tasks ≡ some r → r.finished_monotonic ≡ none)
        → Inv (finished_state o taken at limits s)
    stored limits unfinished =
        with_entry-Inv o.task_id o.client_request_id _ s at i (verify_owner-index o s i h)
          (id, sym fin)
          (Absent-unfinished s.finished_expirations o.task_id s.tasks unfinished i.queued) refl

pub release-Inv :
    (o : SubmitExecutionOwner) (s : RegistryState)
    → Inv s
    → verify_owner o s ≡ ok tt
    → Inv (release o s).0
unfolding release
release-Inv o s i h = elim (Option-cases (Map.lookup o.task_id s.tasks)) [
  | inr (r, here) ↦ rw here i
  | inl fresh ↦ rw fresh (released fresh)
]
  where
    released :
        Map.lookup o.task_id s.tasks ≡ none
        → Inv (record s {
          requests = Map.remove o.client_request_id s.requests;
          task_requests = Map.remove o.task_id s.task_requests;
        })
    released fresh =
        let t = o.task_id in
        let k = o.client_request_id in
        let found = verify_owner-index o s i h in
        record {
          forward = λ j q p. ground (
            arith,
            Map.lookup-remove k j s.requests,
            Map.lookup-remove t q.task_id s.task_requests,
            i.forward j q,
            p,
            found,
            i.backward t k found,
          );
          backward = λ u j p.
              let (n, old) = Map.lookup-remove-some t u j s.task_requests p in
              let (q, here, same) = i.backward u j old in
              (
                q,
                Map.lookup-remove_other k j s.requests
                      (other_request t k s.finished_expirations s u j i found old n)
                    ∙ here,
                same,
              );
          known = λ u r p.
              let (j, here) = i.known u r p in
              (j, ground (arith, Map.lookup-remove t u s.task_requests, here, fresh, p));
          shaped = i.shaped;
          queued = i.queued;
          bounded = omega (arith, i.bounded, Map.length-remove-le k s.requests);
        }

pub reserve-Inv :
    (request : ValidatedSubmit) (t : String) (signal : ℕ) (s : RegistryState)
    → Inv s
    → Inv (reserve request t signal s).0
reserve-Inv request t signal s i = elim (reserve-cases request t signal s) [
  | inl p ↦ rw p i
  | inr (p, absent, room, unused) ↦ rw p (inserted-Inv request t signal s i absent room unused)
]
