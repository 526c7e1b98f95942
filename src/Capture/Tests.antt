-- ===== src/Capture/Tests.antt =====
-- Runs of the bounded tail, and its theorem at a concrete stream.
use taskcage.Prelude.{ℕ, ◌≡◌, refl, true, false, List, [], ◌∷◌, arith}
use taskcage.Capture.{new, push, push_all, finish}
use taskcage.Capture.Refine.{stream, last_bytes, finish-push_all}

abbrev chunks : List (List ℕ)
chunks = (1 ∷ 2 ∷ 3 ∷ []) ∷ [] ∷ (4 ∷ 5 ∷ []) ∷ (6 ∷ 7 ∷ 8 ∷ []) ∷ []

wraps_round :
    push_all (new 4) chunks
    ≡ record { buffer = 5 ∷ 6 ∷ 7 ∷ 8 ∷ []; start = 0; len = 4; truncated = true }
unfolding push_all new
wraps_round = refl

keeps_the_last : (finish (push_all (new 4) chunks)).bytes ≡ 5 ∷ 6 ∷ 7 ∷ 8 ∷ []
unfolding finish push_all new
keeps_the_last = refl

exact_fit :
    finish (push (new 3) (1 ∷ 2 ∷ 3 ∷ [])) ≡ record { bytes = 1 ∷ 2 ∷ 3 ∷ []; truncated = false }
unfolding finish push new
exact_fit = refl

finish-push_all_example :
    finish (push_all (new 5) chunks)
    ≡ record { bytes = last_bytes 5 (stream chunks); truncated = true }
finish-push_all_example = finish-push_all 5 chunks (omega arith)
