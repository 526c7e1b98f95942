-- ===== src/Registry/Purge.antt =====
-- Dropping expired entries keeps the invariant, and touches no task that is not expired.
use taskcage.Prelude.{
  ℕ, ◌+◌, ◌≤◌, String, ◌≡◌, refl, sym, ap, ◌∙◌, inl, inr, true, false, Option, some, List, [], ◌∷◌,
  arith, Bool-cases,
}
use taskcage.Prelude.Map
use taskcage.Registry.Types.{RegistryState, TaskRecord, RequestRecord, FinishedExpiration}
use taskcage.Registry.State.{
  drop_expired, purge_loop, purge_expired, is_expired, min_finished_retention,
}
use taskcage.Registry.Invariant.{Inv, Queued, Queued-frame, Absent}

-- The state with another queue.
abbrev with_queue : List FinishedExpiration → RegistryState → RegistryState
with_queue es s = record s { finished_expirations = es }

-- A task's records in the three maps, taken out.
abbrev pub forget : String → String → RegistryState → RegistryState
forget t k s = record s {
  tasks = Map.remove t s.tasks;
  task_requests = Map.remove t s.task_requests;
  requests = Map.remove k s.requests;
}

-- A queued task has a record and a reservation, so that none of the loop's assertions fails.
pub drop_expired-eq :
    (e : FinishedExpiration) (es : List FinishedExpiration) (s : RegistryState)
    → Inv (with_queue (e ∷ es) s)
    → (k : String) × (Map.lookup e.task_id s.task_requests ≡ some k)
      × (drop_expired e s ≡ forget e.task_id k s)
unfolding drop_expired
drop_expired-eq e es s i =
    let (k, found) = i.known e.task_id i.queued.0.0 i.queued.0.1 in
    (k, found, rw (i.queued.0.1) (rw found refl))

module _ (t k : String) (es : List FinishedExpiration) (s : RegistryState) where
  -- The reservation of another task is another one.
  pub other_request :
      (u j : String)
      → Inv s
      → Map.lookup t s.task_requests ≡ some k
      → Map.lookup u s.task_requests ≡ some j
      → ¬ (t ≡ u)
      → ¬ (k ≡ j)
  other_request u j i found h n p = ground (arith, i.backward t k found, i.backward u j h, n, p)

  forget-Inv :
      Map.lookup t s.task_requests ≡ some k
      → Inv s
      → Absent t es
      → Queued es s.tasks
      → Inv (with_queue es (forget t k s))
  forget-Inv found i a q = record {
    forward = λ j q h. ground (
      arith,
      Map.lookup-remove k j s.requests,
      Map.lookup-remove t q.task_id s.task_requests,
      i.forward j q,
      h,
      found,
      i.backward t k found,
    );
    backward = λ u j h.
        let (n, old) = Map.lookup-remove-some t u j s.task_requests h in
        let (q, here, same) = i.backward u j old in
        (q, Map.lookup-remove_other k j s.requests (other_request u j i found old n) ∙ here, same);
    known = λ u r h.
        let (n, old) = Map.lookup-remove-some t u r s.tasks h in
        let (j, here) = i.known u r old in
        (j, Map.lookup-remove_other t u s.task_requests n ∙ here);
    shaped = λ u r h. i.shaped u r (Map.lookup-remove-some t u r s.tasks h).1;
    queued =
        Queued-frame es t s.tasks (Map.remove t s.tasks) a
          (λ j n. Map.lookup-remove_other t j s.tasks (λ p. n (sym p))) q;
    bounded = omega (arith, i.bounded, Map.length-remove-le k s.requests);
  }

  forget-kept :
      (j : String) (q : RequestRecord)
      → Map.lookup t s.task_requests ≡ some k
      → Inv s
      → Map.lookup j s.requests ≡ some q
      → ¬ (t ≡ q.task_id)
      → (Map.lookup j (forget t k s).requests ≡ some q)
        × (Map.lookup q.task_id (forget t k s).tasks ≡ Map.lookup q.task_id s.tasks)
  forget-kept j q found i h n = (
    Map.lookup-remove_other k j s.requests (other_request q.task_id j i found (i.forward j q h) n)
        ∙ h,
    Map.lookup-remove_other t q.task_id s.tasks n,
  )

-- The record is not of a task that finished more than the retention ago.
abbrev pub Fresh : ℕ → Option TaskRecord → Type 0
Fresh now found =
    (r : TaskRecord) (at : ℕ)
    → found ≡ some r
    → r.finished_monotonic ≡ some at
    → now ≤ at + min_finished_retention

-- What a purge must leave: the reservation of a task that is not expired, and the task's record.
abbrev pub Same : String → RequestRecord → RegistryState → RegistryState → Type 0
Same k q s s' =
    (Map.lookup k s'.requests ≡ some q)
    × (Map.lookup q.task_id s'.tasks ≡ Map.lookup q.task_id s.tasks)

module _ (now : ℕ) where
  is_expired-Fresh :
      (e : FinishedExpiration) (t : String) (tasks : Map.Map TaskRecord)
      → is_expired now e ≡ true
      → Fresh now (Map.lookup t tasks)
      → ((r : TaskRecord) × (Map.lookup e.task_id tasks ≡ some r)
          × (r.finished_monotonic ≡ some e.finished_monotonic))
      → ¬ (e.task_id ≡ t)
  unfolding is_expired
  is_expired-Fresh e t tasks h fresh (r, found, at) p =
      ground
        (arith, h, fresh r e.finished_monotonic (ap (λ u. Map.lookup u tasks) (sym p) ∙ found) at)

  purge_loop-expired :
      (e : FinishedExpiration) (es : List FinishedExpiration) (s : RegistryState)
      → is_expired now e ≡ true
      → purge_loop now (e ∷ es) s ≡ purge_loop now es (drop_expired e s)
  unfolding purge_loop
  purge_loop-expired e es s h = ground (arith, h)

  purge_loop-stops :
      (e : FinishedExpiration) (es : List FinishedExpiration) (s : RegistryState)
      → is_expired now e ≡ false
      → purge_loop now (e ∷ es) s ≡ with_queue (e ∷ es) s
  unfolding purge_loop
  purge_loop-stops e es s h = ground (arith, h)

  purge_loop-Inv :
      (es : List FinishedExpiration) (s : RegistryState)
      → Inv (with_queue es s)
      → Inv (purge_loop now es s)
  purge_loop-Inv [] s i = unfold purge_loop in i
  purge_loop-Inv (e ∷ es) s i = elim (Bool-cases (is_expired now e)) [
    | inl expired ↦
        let (k, found, dropped) = drop_expired-eq e es s i in
        rw (purge_loop-expired e es s expired) (
          rw dropped (
            purge_loop-Inv es (forget e.task_id k s)
              (forget-Inv e.task_id k es (with_queue (e ∷ es) s) found i i.queued.1 i.queued.2)))
    | inr current ↦ rw (purge_loop-stops e es s current) i
  ]

  purge_loop-kept :
      (es : List FinishedExpiration) (s : RegistryState) (k : String) (q : RequestRecord)
      → Inv (with_queue es s)
      → Map.lookup k s.requests ≡ some q
      → Fresh now (Map.lookup q.task_id s.tasks)
      → Same k q s (purge_loop now es s)
  purge_loop-kept [] s k q i h fresh = unfold purge_loop in (h, refl)
  purge_loop-kept (e ∷ es) s k q i h fresh = elim (Bool-cases (is_expired now e)) [
    | inl expired ↦
        let (j, found, dropped) = drop_expired-eq e es s i in
        let other = is_expired-Fresh e q.task_id s.tasks expired fresh i.queued.0 in
        let before = with_queue (e ∷ es) s in
        let (here, same) = forget-kept e.task_id j es before k q found i h other in
        let next = forget-Inv e.task_id j es before found i i.queued.1 i.queued.2 in
        let (here', same') =
          purge_loop-kept es (forget e.task_id j s) k q next here (subst_fresh same) in
        rw (purge_loop-expired e es s expired) (rw dropped (here', same' ∙ same))
    | inr current ↦ rw (purge_loop-stops e es s current) (h, refl)
  ]
    where
      subst_fresh :
          {found : Option TaskRecord} → found ≡ Map.lookup q.task_id s.tasks → Fresh now found
      subst_fresh p r at p' = fresh r at (sym p ∙ p')

  purge_loop-max_tasks :
      (es : List FinishedExpiration) (s : RegistryState)
      → Inv (with_queue es s)
      → (purge_loop now es s).max_tasks ≡ s.max_tasks
  purge_loop-max_tasks [] s i = unfold purge_loop in refl
  purge_loop-max_tasks (e ∷ es) s i = elim (Bool-cases (is_expired now e)) [
    | inl expired ↦
        let (k, found, dropped) = drop_expired-eq e es s i in
        rw (purge_loop-expired e es s expired) (
          rw dropped (
            purge_loop-max_tasks es (forget e.task_id k s)
              (forget-Inv e.task_id k es (with_queue (e ∷ es) s) found i i.queued.1 i.queued.2)))
    | inr current ↦ rw (purge_loop-stops e es s current) refl
  ]

  pub purge_expired-max_tasks :
      (s : RegistryState) → Inv s → (purge_expired now s).max_tasks ≡ s.max_tasks
  unfolding purge_expired
  purge_expired-max_tasks s i = purge_loop-max_tasks s.finished_expirations s i

  pub purge_expired-Inv : (s : RegistryState) → Inv s → Inv (purge_expired now s)
  unfolding purge_expired
  purge_expired-Inv s i = purge_loop-Inv s.finished_expirations s i

  -- A purge leaves the reservation of a task that is not expired, and the task's record.
  pub purge_expired-kept :
      (s : RegistryState) (k : String) (q : RequestRecord)
      → Inv s
      → Map.lookup k s.requests ≡ some q
      → Fresh now (Map.lookup q.task_id s.tasks)
      → Same k q s (purge_expired now s)
  unfolding purge_expired
  purge_expired-kept s k q i h fresh = purge_loop-kept s.finished_expirations s k q i h fresh
