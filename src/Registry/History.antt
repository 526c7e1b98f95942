-- ===== src/Registry/History.antt =====
-- Every history of the registry keeps its invariant: any methods, in any order, by any owners, with
-- any clock readings.
use taskcage.Prelude.{ℕ, String, ◌≡◌, refl, ◌∙◌, List, [], ◌∷◌, arith}
use taskcage.Core.Task.{TaskSnapshot}
use taskcage.Registry.Types.{
  ValidatedSubmit, SubmitExecutionOwner, VerifiedEffectiveLimits, SubmitFailure, SubmitObservation,
  FinishedTaskPublication,
}
use taskcage.Registry.Methods.{
  Registry, reserve_submit_with, existing_submit, snapshot, snapshot_by_client_request_id,
  has_client_request_id, effective_limits_for, request_cancel, publish_running, finish_snapshot,
  release_failed_owner,
}
use taskcage.Registry.Owner.{
  publish_completion, fail_inner, finish_inner, rollback_before_running, drop_owner,
}

-- A call, with the clock's reading at its purge. `finishes` has the later readings too.
pub data Call : Type 0 where
  reserves : ℕ → ValidatedSubmit → String → Call
  observes : ℕ → ValidatedSubmit → Call
  asks asks_request has_request cancels : ℕ → String → Call
  asks_limits : ℕ → String → SubmitObservation → Call
  publishes_running : ℕ → SubmitExecutionOwner → TaskSnapshot → VerifiedEffectiveLimits → ℕ → Call
  finishes : ℕ → ℕ → ℕ → SubmitExecutionOwner → TaskSnapshot → Call
  completes : FinishedTaskPublication → Call
  fails rolls_back : ℕ → SubmitExecutionOwner → SubmitFailure → Call
  drops : ℕ → SubmitExecutionOwner → Call

unfoldable pub step : Registry → Call → Registry
unfolding reserve_submit_with existing_submit snapshot snapshot_by_client_request_id
    has_client_request_id effective_limits_for request_cancel publish_running finish_inner
    publish_completion fail_inner rollback_before_running drop_owner
step r (reserves now request candidate) = (reserve_submit_with now request candidate r).0
step r (observes now request) = (existing_submit now request r).0
step r (asks now id) = (snapshot now id r).0
step r (asks_request now id) = (snapshot_by_client_request_id now id r).0
step r (has_request now id) = (has_client_request_id now id r).0
step r (cancels now id) = (request_cancel now id r).0
step r (asks_limits now id observation) = (effective_limits_for now id observation r).0
step r (publishes_running now o taken limits c) = (publish_running now o taken limits c r).0
step r (finishes now later last o taken) = (finish_inner now later last o taken r).0
step r (completes p) = (publish_completion p r).0
step r (fails now o failure) = (fail_inner now o failure r).0
step r (rolls_back now o failure) = (rollback_before_running now o failure r).0
step r (drops now o) = drop_owner now o r

unfoldable pub run : Registry → List Call → Registry
unfolding step
run r [] = r
run r (c ∷ cs) = run (step r c) cs

-- The calls whose clock readings at their purges are allowed.
abbrev pub Reads : (ℕ → Type 0) → Call → Type 0
Reads A (reserves now _ _) = A now
Reads A (observes now _) = A now
Reads A (asks now _) = A now
Reads A (asks_request now _) = A now
Reads A (has_request now _) = A now
Reads A (cancels now _) = A now
Reads A (asks_limits now _ _) = A now
Reads A (publishes_running now _ _ _ _) = A now
Reads A (finishes now _ last _ _) = A now × A last
Reads A (completes _) = Unit {0}
Reads A (fails now _ _) = A now
Reads A (rolls_back now _ _) = A now
Reads A (drops now _) = A now

abbrev pub AllReads : (ℕ → Type 0) → List Call → Type 0
AllReads A [] = Unit {0}
AllReads A (c ∷ cs) = Reads A c × AllReads A cs

-- No call poisons the lock.
step-poisoned : (r : Registry) (c : Call) → (step r c).poisoned ≡ r.poisoned
unfolding step release_failed_owner publish_running finish_snapshot effective_limits_for fail_inner
step-poisoned r (reserves now request candidate) = ground arith
step-poisoned r (observes now request) = ground arith
step-poisoned r (asks now id) = ground arith
step-poisoned r (asks_request now id) = ground arith
step-poisoned r (has_request now id) = ground arith
step-poisoned r (cancels now id) = ground arith
step-poisoned r (asks_limits now id observation) = ground arith
step-poisoned r (publishes_running now o taken limits c) = ground arith
step-poisoned r (finishes now later last o taken) = ground arith
step-poisoned r (completes p) = ground arith
step-poisoned r (fails now o failure) = ground arith
step-poisoned r (rolls_back now o failure) = ground arith
step-poisoned r (drops now o) = ground arith

pub run-poisoned : (r : Registry) (cs : List Call) → (run r cs).poisoned ≡ r.poisoned
unfolding run
run-poisoned r [] = refl
run-poisoned r (c ∷ cs) = run-poisoned (step r c) cs ∙ step-poisoned r c
