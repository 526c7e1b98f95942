-- ===== src/Registry/Retention.antt =====
-- The registry's invariant in every history, and what a completed task's clients are told until its
-- retention ends.
use taskcage.Prelude.{ℕ, ◌≤◌, ◌≡◌, refl, ◌∙◌, inl, inr, List, [], ◌∷◌, arith, length}
use taskcage.Prelude.Map
use taskcage.Registry.Types.{RegistryState}
use taskcage.Registry.State.{empty}
use taskcage.Registry.Methods.{initialize}
use taskcage.Registry.Invariant.{Inv}
use taskcage.Registry.Purge.{purge_expired-Inv, purge_expired-max_tasks}
use taskcage.Registry.Cases.{
  reserve-cases, insert_running-cases, insert_finished-cases, release-cases,
}
use taskcage.Registry.Mutations.{reserve-Inv, insert_running-Inv, insert_finished-Inv, release-Inv}
use taskcage.Registry.History.{
  reserves, observes, asks, asks_request, has_request, cancels, asks_limits, publishes_running,
  finishes, completes, fails, rolls_back, drops, Call, Reads, AllReads, run,
}
use taskcage.Registry.Stable.{Stable, run-keeps}

-- No operation changes the settings.
abbrev Bounded : ℕ → RegistryState → Type 0
Bounded max s = Inv s × (s.max_tasks ≡ max)

module _ (max : ℕ) where
  Bounded-Stable : Stable (λ _. Unit {0}) (Bounded max)
  Bounded-Stable = record {
    purged = λ now s _ h. (purge_expired-Inv now s h.0, purge_expired-max_tasks now s h.0 ∙ h.1);
    reserved = λ request t signal s h. (
      reserve-Inv request t signal s h.0,
      elim (reserve-cases request t signal s) [ inl p ↦ rw p h.1 | inr (p, _, _, _) ↦ rw p h.1 ],
    );
    ran = λ o taken limits c s h v id fin. (
      insert_running-Inv o taken limits c s h.0 v id fin,
      elim (insert_running-cases o taken limits c s) [ inl p ↦ rw p h.1 | inr (p, _) ↦ rw p h.1 ],
    );
    finished = λ o taken at s h v id fin. (
      insert_finished-Inv o taken at s h.0 v id fin,
      elim (insert_finished-cases o taken at s) [ inl p ↦ rw p h.1 | inr (_, p, _) ↦ rw p h.1 ],
    );
    released = λ o s h v. (
      release-Inv o s h.0 v,
      elim (release-cases o s) [ inl p ↦ rw p h.1 | inr (p, _) ↦ rw p h.1 ],
    );
  }

empty-Inv : (max : ℕ) → Inv (empty max)
unfolding Map.lookup
empty-Inv max = record {
  forward = λ k q h. absurd (ground arith);
  backward = λ t k h. absurd (ground arith);
  known = λ t w h. absurd (ground arith);
  shaped = λ t w h. absurd (ground arith);
  queued = tt;
  bounded = omega arith;
}

any_read : (c : Call) → Reads (λ _. Unit {0}) c
any_read (reserves _ _ _) = tt
any_read (observes _ _) = tt
any_read (asks _ _) = tt
any_read (asks_request _ _) = tt
any_read (has_request _ _) = tt
any_read (cancels _ _) = tt
any_read (asks_limits _ _ _) = tt
any_read (publishes_running _ _ _ _ _) = tt
any_read (finishes _ _ _ _ _) = (tt, tt)
any_read (completes _) = tt
any_read (fails _ _ _) = tt
any_read (rolls_back _ _ _) = tt
any_read (drops _ _) = tt

any_reads : (cs : List Call) → AllReads (λ _. Unit {0}) cs
any_reads [] = tt
any_reads (c ∷ cs) = (any_read c, any_reads cs)

-- In every history of a new registry the two indexes are inverse to each other, each stored task has
-- its reservation and its own id, the queue has one entry for a finished task at most, and the
-- reservations are never more than the maximum.
pub registry_consistent :
    (max : ℕ) (cs : List Call)
    → Inv (run (initialize max) cs).state × (length (run (initialize max) cs).state.requests ≤ max)
registry_consistent max cs =
    let start : Bounded max (initialize max).state = (empty-Inv max, refl) in
    let h : Bounded max (run (initialize max) cs).state =
      run-keeps (Bounded-Stable max) (initialize max) cs (any_reads cs) start in
    (h.0, omega (arith, h.0.bounded, h.1))
