-- ===== src/Submit/Admitted.antt =====
-- How the executions are accounted for when an owner is admitted and when it claims its slot.
use taskcage.Prelude.{ℕ, ◌+◌, ◌≤◌, String, ◌≡◌, sym, ap, ◌∙◌, inl, inr, true, some, ◌∷◌, arith}
use taskcage.FailStop.{pending, is_healthy}
use taskcage.Registry.Types.{SubmitExecutionOwner}
use taskcage.Submit.Types.{Daemon, Begun, answered, waits, spawned}
use taskcage.Submit.Live.{healthy_of}
use taskcage.Submit.Effects.{
  present, present-insert_new, present-remove, Registered, Claimed, Withdrawn,
}
use taskcage.Submit.History.{World, get_elem?, erase_idx, begun}
use taskcage.Submit.Counts.{wanted, count, wanted-erase_idx}
use taskcage.Submit.Accounting.{Accounted, was_healthy}

module _ (maximum : ℕ) (w : World) (v : Accounted maximum w) where
  pub Registered-Accounted :
      (d : Daemon) (request_id : String) (o : SubmitExecutionOwner)
      → Registered o w.daemon d
      → Accounted maximum (record w { daemon = d; admitted = (request_id, o) ∷ w.admitted })
  Registered-Accounted d request_id o (going, c, p, fresh, a) = record {
    maximum_same = rw c v.maximum_same;
    maximum_u32 = v.maximum_u32;
    in_use_exact = rw c v.in_use_exact;
    in_use_bounded = rw c v.in_use_bounded;
    nothing_retained = λ h. rw c (v.nothing_retained going);
    registered = λ id. rw a (
        omega (
          arith,
          v.registered id,
          present-insert_new o.task_id id pending w.daemon.fail_stop.active fresh,
        ));
    registered_exact = λ id h. rw a (
        omega (
          arith,
          v.registered_exact id going,
          present-insert_new o.task_id id pending w.daemon.fail_stop.active fresh,
        ));
  }

  module _ (n : ℕ) (request_id : String) (o : SubmitExecutionOwner)
      (here : get_elem? w.admitted n ≡ some (request_id, o)) where
    Withdrawn-registered :
        (id : String) (d : Daemon)
        → Withdrawn o w.daemon d
        → wanted id (erase_idx w.admitted n) + count id w.live ≤ present id d.fail_stop.active
    Withdrawn-registered id d (c, later, inl removed) =
        let (p, one) = present-remove o.task_id id w.daemon.fail_stop.active in
        rw removed (
          ground
            (arith, v.registered id, wanted-erase_idx w.admitted n (request_id, o) id here, p, one))
    Withdrawn-registered id d (c, later, inr (stopped, kept)) =
        rw kept
          (omega (arith, v.registered id, wanted-erase_idx w.admitted n (request_id, o) id here))

    Withdrawn-exact :
        (id : String) (d : Daemon)
        → Withdrawn o w.daemon d
        → healthy_of d ≡ true
        → wanted id (erase_idx w.admitted n) + count id w.live ≡ present id d.fail_stop.active
    Withdrawn-exact id d (c, later, inl removed) h =
        let (p, one) = present-remove o.task_id id w.daemon.fail_stop.active in
        let exact = v.registered_exact id (was_healthy _ _ later h) in
        rw removed
          (ground (arith, exact, wanted-erase_idx w.admitted n (request_id, o) id here, p, one))
    Withdrawn-exact id d (c, later, inr (stopped, kept)) h = absurd (ground (arith, stopped, h))

    pub Claimed-Accounted :
        (b : Daemon × Begun)
        → Claimed o w.daemon b
        → Accounted maximum (begun (record w { admitted = erase_idx w.admitted n }) b)
    Claimed-Accounted (d, answered _) q =
        let (c, later, _) = q in
        record {
          maximum_same = rw c v.maximum_same;
          maximum_u32 = v.maximum_u32;
          in_use_exact = rw c v.in_use_exact;
          in_use_bounded = rw c v.in_use_bounded;
          nothing_retained = λ h. rw c (v.nothing_retained (was_healthy _ _ later h));
          registered = λ id. Withdrawn-registered id d q;
          registered_exact = λ id h. Withdrawn-exact id d q h;
        }
    Claimed-Accounted (d, waits _) never = absurd never
    Claimed-Accounted (d, spawned o' cancellation) (same, free, c, f) = record {
      maximum_same = rw c v.maximum_same;
      maximum_u32 = v.maximum_u32;
      in_use_exact = rw c (omega (arith, v.in_use_exact));
      in_use_bounded = rw c (omega (arith, free, v.maximum_same));
      nothing_retained = λ h.
          let (kept, all) = v.nothing_retained (ap (λ z. is_healthy z.phase) (sym f) ∙ h) in
          rw c (kept, omega (arith, all));
      registered = λ id.
          rw (f, same)
            (omega (arith, v.registered id, wanted-erase_idx w.admitted n (request_id, o) id here));
      registered_exact = λ id h.
          rw (f, same)
            (omega (
              arith,
              v.registered_exact id (ap (λ z. is_healthy z.phase) (sym f) ∙ h),
              wanted-erase_idx w.admitted n (request_id, o) id here,
            ));
    }
