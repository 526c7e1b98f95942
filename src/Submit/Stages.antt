-- ===== src/Submit/Stages.antt =====
-- How the slots and the executions are accounted for when an owner's RUNNING was published or refused.
use taskcage.Prelude.{ℕ, String, ◌≡◌, refl, sym, ap, ◌∙◌, Bool, true, false, some, arith}
use taskcage.Capacity.{retain_for_fail_stop}
use taskcage.FailStop.{Settings, is_healthy}
use taskcage.Submit.Types.{Daemon, Readings}
use taskcage.Submit.Completion.{drop_unresolved}
use taskcage.Submit.Live.{drop_active_stops}
use taskcage.Submit.Ends.{Announced}
use taskcage.Submit.History.{
  World, Live, starting, announced, unpublished, get_elem?, set, erase_idx, stage_after,
}
use taskcage.Submit.Counts.{erase_idx_counts, set_counts}
use taskcage.Submit.Accounting.{Accounted}

module _ (maximum : ℕ) (w : World) (v : Accounted maximum w) where
  -- The stage of an owner is changed, and its slot with it.
  pub Announced-Accounted :
      (d : Daemon) (n : ℕ) (l : Live) (published : Bool)
      → get_elem? w.live n ≡ some l
      → l.stage ≡ starting
      → Announced w.daemon d published
      → Accounted maximum (record w {
        daemon = d;
        live = set w.live n (record l { stage = stage_after published });
      })
  unfolding retain_for_fail_stop
  Announced-Accounted d n l true here first (c, f) =
      let l' = record l { stage = announced } in
      let (hs, _, ls) = set_counts w.live n l l' "" here refl in
      let cs = λ (id : String). (set_counts w.live n l l' id here refl).1 in
      record {
        maximum_same = rw c v.maximum_same;
        maximum_u32 = v.maximum_u32;
        in_use_exact = rw c (ground (arith, v.in_use_exact, hs, first));
        in_use_bounded = rw c v.in_use_bounded;
        nothing_retained = λ h.
            let (none_kept, all) = v.nothing_retained (ap (λ z. is_healthy z.phase) (sym f) ∙ h) in
            (rw c none_kept, ground (arith, hs, ls, all, first));
        registered = λ id. rw (f, cs id) (v.registered id);
        registered_exact = λ id h.
            rw (f, cs id) (v.registered_exact id (ap (λ z. is_healthy z.phase) (sym f) ∙ h));
      }
  Announced-Accounted d n l false here first (c, stopped, a) =
      let l' = record l { stage = unpublished } in
      let (hs, _, ls) = set_counts w.live n l l' "" here refl in
      let cs = λ (id : String). (set_counts w.live n l l' id here refl).1 in
      record {
        maximum_same = rw c v.maximum_same;
        maximum_u32 = v.maximum_u32;
        in_use_exact =
            ground (arith, c, v.in_use_exact, v.in_use_bounded, v.maximum_u32, hs, first);
        in_use_bounded = rw c v.in_use_bounded;
        nothing_retained = λ h. absurd (ground (arith, stopped, h));
        registered = λ id. rw (a, cs id) (v.registered id);
        registered_exact = λ id h. absurd (ground (arith, stopped, h));
      }

  -- An owner whose publication was refused ends: its slot stays retained.
  pub unpublished-Accounted :
      (settings : Settings) (at : Readings) (n : ℕ) (l : Live)
      → get_elem? w.live n ≡ some l
      → l.stage ≡ unpublished
      → Accounted maximum (record w {
        daemon = drop_unresolved settings at.activated l.owner.task_id w.daemon;
        live = erase_idx w.live n;
      })
  unpublished-Accounted settings at n l here last =
      let (stopped, a) =
        drop_active_stops settings at.activated l.owner.task_id w.daemon.fail_stop in
      let (hs, _, ls) = erase_idx_counts w.live n l "" here in
      record {
        maximum_same = v.maximum_same;
        maximum_u32 = v.maximum_u32;
        in_use_exact = ground (arith, v.in_use_exact, hs, last);
        in_use_bounded = v.in_use_bounded;
        nothing_retained = λ h. absurd (ground (arith, stopped, h));
        registered = λ id.
            let (_, cs, _) = erase_idx_counts w.live n l id here in
            rw a (omega (arith, cs, v.registered id));
        registered_exact = λ id h. absurd (ground (arith, stopped, h));
      }
