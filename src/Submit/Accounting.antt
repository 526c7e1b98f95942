-- ===== src/Submit/Accounting.antt =====
-- The slots are exactly those of the owners that run, and the active executions those of the owners that
-- run or are admitted, in every history.
use taskcage.Prelude.{
  ℕ, ◌+◌, ◌^◌, ◌≤◌, ◌<◌, String, ◌≡◌, refl, sym, ap, ◌∙◌, ◌⊎◌, inl, inr, Bool, true, false, ◌&&◌,
  not, some, ◌∷◌, arith, length,
}
use taskcage.Prelude.Map
use taskcage.Capacity.{TaskCapacity, drop_permit, retain_for_fail_stop}
use taskcage.FailStop.{pending, is_healthy}
use taskcage.Submit.Types.{Daemon}
use taskcage.Submit.Live.{healthy_of, Released, slot_after}
use taskcage.Submit.Effects.{present, present-insert_new, present-remove, Quiet, Started}
use taskcage.Submit.History.{World, Live, starting, get_elem?, erase_idx}
use taskcage.Submit.Counts.{wanted, holds, holders, count, erase_idx_counts}

-- Every slot in use is an owner's or is retained; retained ones, and owners without theirs, exist only
-- once fail-stop is in progress; and the execution of each owner, and of each one admitted, is active,
-- which no other is before that.
pub record Accounted (maximum : ℕ) (w : World) : Type 0 where
  pub maximum_same : w.daemon.capacity.maximum ≡ maximum
  pub maximum_u32 : maximum < 2 ^ 32
  pub in_use_exact :
      w.daemon.capacity.in_use ≡ holders w.live + w.daemon.capacity.retained_for_fail_stop
  pub in_use_bounded : w.daemon.capacity.in_use ≤ maximum
  pub nothing_retained :
      healthy_of w.daemon ≡ true
      → (w.daemon.capacity.retained_for_fail_stop ≡ 0) × (holders w.live ≡ length w.live)
  pub registered :
      (id : String) → wanted id w.admitted + count id w.live ≤ present id w.daemon.fail_stop.active
  pub registered_exact :
      (id : String)
      → healthy_of w.daemon ≡ true
      → wanted id w.admitted + count id w.live ≡ present id w.daemon.fail_stop.active

pub was_healthy : (b b' : Bool) → (b' && not b) ≡ false → b' ≡ true → b ≡ true
was_healthy true b' h e = refl
was_healthy false b' h e = ground arith

slot_after_counts :
    (c : TaskCapacity) (b : Bool) (others : ℕ)
    → c.in_use ≡ 1 + others + c.retained_for_fail_stop
    → c.in_use < 2 ^ 32
    → let c' = slot_after b c in
      (c'.maximum ≡ c.maximum)
      × (c'.in_use ≡ others + c'.retained_for_fail_stop)
      × (c'.in_use ≤ c.in_use)
      × (b ≡ true → c'.retained_for_fail_stop ≡ c.retained_for_fail_stop)
unfolding drop_permit retain_for_fail_stop
slot_after_counts c true others h lt = (refl, omega arith, omega arith, λ e. refl)
slot_after_counts c false others h lt =
    (refl, omega arith, omega arith, λ e. absurd (ground (arith, e)))

module _ (maximum : ℕ) (w : World) (v : Accounted maximum w) (d : Daemon) where
  pub Quiet-Accounted : Quiet w.daemon d → Accounted maximum (record w { daemon = d })
  Quiet-Accounted (c, later, kept, same) = record {
    maximum_same = omega (arith, v.maximum_same, ap (λ z. z.maximum) c);
    maximum_u32 = v.maximum_u32;
    in_use_exact = rw c v.in_use_exact;
    in_use_bounded = rw c v.in_use_bounded;
    nothing_retained = λ h. rw c (v.nothing_retained (was_healthy _ _ later h));
    registered = λ id. omega (arith, v.registered id, kept id);
    registered_exact = λ id h. v.registered_exact id (was_healthy _ _ later h) ∙ sym (same id h);
  }

  pub Started-Accounted :
      (l : Live)
      → l.stage ≡ starting
      → Started l.owner w.daemon d
      → Accounted maximum (record w { daemon = d; live = l ∷ w.live })
  Started-Accounted l first (going, free, c, p, fresh, a) = record {
    maximum_same = rw c v.maximum_same;
    maximum_u32 = v.maximum_u32;
    in_use_exact = rw (c, first) (omega (arith, v.in_use_exact));
    in_use_bounded = rw c (omega (arith, free, v.maximum_same));
    nothing_retained = λ h.
        let (kept, all) = v.nothing_retained (ap is_healthy (sym p) ∙ h) in
        rw (c, first) (kept, omega (arith, all));
    registered = λ id. rw a (
        omega (
          arith,
          v.registered id,
          present-insert_new l.owner.task_id id pending w.daemon.fail_stop.active fresh,
        ));
    registered_exact = λ id h. rw a (
        omega (
          arith,
          v.registered_exact id (ap is_healthy (sym p) ∙ h),
          present-insert_new l.owner.task_id id pending w.daemon.fail_stop.active fresh,
        ));
  }

  gone_registered :
      (id : String) (n : ℕ) (l : Live)
      → get_elem? w.live n ≡ some l
      → (d.fail_stop.active ≡ Map.remove l.owner.task_id w.daemon.fail_stop.active)
        ⊎ ((healthy_of d ≡ false) × (d.fail_stop.active ≡ w.daemon.fail_stop.active))
      → wanted id w.admitted + count id (erase_idx w.live n) ≤ present id d.fail_stop.active
  gone_registered id n l here (inl removed) =
      let (_, cs, _) = erase_idx_counts w.live n l id here in
      let (p, one) = present-remove l.owner.task_id id w.daemon.fail_stop.active in
      rw removed (ground (arith, v.registered id, cs, p, one))
  gone_registered id n l here (inr (h, kept)) =
      let (_, cs, _) = erase_idx_counts w.live n l id here in
      rw kept (omega (arith, v.registered id, cs))

  gone_exact :
      (id : String) (n : ℕ) (l : Live)
      → get_elem? w.live n ≡ some l
      → healthy_of w.daemon ≡ true
      → healthy_of d ≡ true
      → (d.fail_stop.active ≡ Map.remove l.owner.task_id w.daemon.fail_stop.active)
        ⊎ ((healthy_of d ≡ false) × (d.fail_stop.active ≡ w.daemon.fail_stop.active))
      → wanted id w.admitted + count id (erase_idx w.live n) ≡ present id d.fail_stop.active
  gone_exact id n l here h0 h (inl removed) =
      let (_, cs, _) = erase_idx_counts w.live n l id here in
      let (p, one) = present-remove l.owner.task_id id w.daemon.fail_stop.active in
      rw removed (ground (arith, v.registered_exact id h0, cs, p, one))
  gone_exact id n l here h0 h (inr (stopped, kept)) = absurd (ground (arith, stopped, h))

  pub Released-Accounted :
      (n : ℕ) (l : Live)
      → get_elem? w.live n ≡ some l
      → holds l.stage ≡ 1
      → Released l.owner.task_id w.daemon d
      → Accounted maximum (record w { daemon = d; live = erase_idx w.live n })
  Released-Accounted n l here held (c, later, gone) =
      let (hs, _, ls) = erase_idx_counts w.live n l "" here in
      let (m, exact, less, kept) =
        slot_after_counts w.daemon.capacity (healthy_of d) (holders (erase_idx w.live n))
          (omega (arith, v.in_use_exact, hs, held))
          (omega (arith, v.in_use_bounded, v.maximum_u32)) in
      record {
        maximum_same = ap (λ z. z.maximum) c ∙ m ∙ v.maximum_same;
        maximum_u32 = v.maximum_u32;
        in_use_exact = rw c exact;
        in_use_bounded = rw c (omega (arith, less, v.in_use_bounded));
        nothing_retained = λ h.
            let (none_kept, all) = v.nothing_retained (was_healthy _ _ later h) in
            (
              ap (λ z. z.retained_for_fail_stop) c ∙ kept h ∙ none_kept,
              omega (arith, hs, ls, held, all),
            );
        registered = λ id. gone_registered id n l here gone;
        registered_exact = λ id h. gone_exact id n l here (was_healthy _ _ later h) h gone;
      }
