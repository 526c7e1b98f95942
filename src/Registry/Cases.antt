-- ===== src/Registry/Cases.antt =====
-- What each method can do to the state under the lock: nothing, or one change.
use taskcage.Prelude.{
  ℕ, ◌<◌, String, ◌≡◌, refl, ◌⊎◌, inl, inr, ite, false, Option, none, some, arith, leb, Bool-cases,
  Option-cases, length, ok, err,
}
use taskcage.Prelude.Map
use taskcage.Core.Task.{TaskSnapshot}
use taskcage.Registry.Types.{
  RegistryState, TaskRecord, ValidatedSubmit, client_request_id, SubmissionIdentity-discrete,
  SubmitExecutionOwner, VerifiedEffectiveLimits, SubmitReservation, existing, idempotency_conflict,
}
use taskcage.Registry.State.{
  Answer, inserted, reserve, finished_state, insert_running, insert_finished, release,
}

-- A reservation changes nothing, or inserts the request that is new.
pub reserve-cases :
    (request : ValidatedSubmit) (t : String) (signal : ℕ) (s : RegistryState)
    → ((reserve request t signal s).0 ≡ s)
      ⊎ (((reserve request t signal s).0 ≡ inserted request t signal s)
          × (Map.lookup (client_request_id request) s.requests ≡ none)
          × (length s.requests < s.max_tasks)
          × (Map.contains_key t s.task_requests ≡ false))
unfolding reserve
reserve-cases request t signal s =
    elim (Option-cases (Map.lookup (client_request_id request) s.requests)) [
      | inr (q, here) ↦ inl (
          rw here
            (elim (SubmissionIdentity-discrete q.identity request.identity)
              as (λ d.
                (ite {C = Answer SubmitReservation} d
                  (s, ok (existing (record { task_id = q.task_id; signal = q.reservation })))
                  (s, err (idempotency_conflict (client_request_id request)))).0
                ≡ s) [ yes p ↦ refl | no n ↦ refl ]))
      | inl absent ↦ elim (Bool-cases (leb s.max_tasks (length s.requests))) [
        | inl full ↦ inl (rw (absent, full) refl)
        | inr room ↦ elim (Bool-cases (Map.contains_key t s.task_requests)) [
          | inl used ↦ inl (rw (absent, room, used) refl)
          | inr unused ↦ inr (rw (absent, room, unused) refl, absent, ground (arith, room), unused)
        ]
      ]
    ]

-- The RUNNING record of `publish_running`.
abbrev pub running_record : TaskSnapshot → VerifiedEffectiveLimits → ℕ → TaskRecord
running_record taken limits c = record {
  snapshot = taken;
  effective_limits = some limits;
  finished_monotonic = none;
  cancellation = some c;
}

pub insert_running-cases :
    (o : SubmitExecutionOwner) (taken : TaskSnapshot) (limits : VerifiedEffectiveLimits) (c : ℕ)
    (s : RegistryState)
    → ((insert_running o taken limits c s).0 ≡ s)
      ⊎ (((insert_running o taken limits c s).0
            ≡ record s { tasks = Map.insert o.task_id (running_record taken limits c) s.tasks })
          × (Map.lookup o.task_id s.tasks ≡ none))
unfolding insert_running
insert_running-cases o taken limits c s = elim (Option-cases (Map.lookup o.task_id s.tasks)) [
  | inl fresh ↦ inr (rw fresh refl, fresh)
  | inr (r, here) ↦ inl (rw here refl)
]

pub insert_finished-cases :
    (o : SubmitExecutionOwner) (taken : TaskSnapshot) (at : ℕ) (s : RegistryState)
    → ((insert_finished o taken at s).0 ≡ s)
      ⊎ ((limits : Option VerifiedEffectiveLimits) × ((insert_finished o taken at s).0
            ≡ finished_state o taken at limits s)
          × ((r : TaskRecord)
              → Map.lookup o.task_id s.tasks ≡ some r
              → r.finished_monotonic ≡ none))
unfolding insert_finished
insert_finished-cases o taken at s = elim (Option-cases (Map.lookup o.task_id s.tasks)) [
  | inl fresh ↦ inr (none, rw fresh refl, λ r p. absurd (ground (arith, fresh, p)))
  | inr (r, here) ↦ elim (Option-cases r.finished_monotonic) [
    | inr (_, before) ↦ inl (rw (here, before) refl)
    | inl unfinished ↦
        inr (
          r.effective_limits,
          rw (here, unfinished) refl,
          λ w p. ground (arith, unfinished, here, p),
        )
  ]
]

pub release-cases :
    (o : SubmitExecutionOwner) (s : RegistryState)
    → ((release o s).0 ≡ s)
      ⊎ (((release o s).0 ≡ record s {
        requests = Map.remove o.client_request_id s.requests;
        task_requests = Map.remove o.task_id s.task_requests;
      })
          × (Map.lookup o.task_id s.tasks ≡ none))
unfolding release
release-cases o s = elim (Option-cases (Map.lookup o.task_id s.tasks)) [
  | inl fresh ↦ inr (rw fresh refl, fresh)
  | inr (r, here) ↦ inl (rw here refl)
]
