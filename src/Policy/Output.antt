-- ===== src/Policy/Output.antt =====
-- `OutputPolicy`.
use taskcage.Prelude.{
  ℕ, ◌+◌, ◌≤◌, ◌<◌, Option, none, some, ltb, if◌then◌else◌, Result, ok, err, ◌>>=◌, ◌>>◌, ok_or,
}
use taskcage.Policy.Error.{
  PolicyError, output_total_overflow, output_total_too_large, u32_max, max_output_tail_bytes,
  max_total_output_bytes, require_output_nonzero, output_tail_bytes,
}

pub record OutputPolicy : Type 0 where
  pub stdout_tail_max_bytes : ℕ
  pub stderr_tail_max_bytes : ℕ

pub record IsValid (o : OutputPolicy) : Type 0 where
  pub stdout_pos : 0 < o.stdout_tail_max_bytes
  pub stderr_pos : 0 < o.stderr_tail_max_bytes
  pub stdout_small : o.stdout_tail_max_bytes ≤ max_output_tail_bytes
  pub stderr_small : o.stderr_tail_max_bytes ≤ max_output_tail_bytes

-- `u32::checked_add`.
unfoldable pub checked_add : ℕ → ℕ → Option ℕ
checked_add a b = if ltb u32_max (a + b) then none else some (a + b)

unfoldable pub check_total : ℕ → Result PolicyError (Unit {0})
check_total output_total =
    if ltb max_total_output_bytes output_total
    then err (output_total_too_large output_total max_total_output_bytes)
    else ok tt

unfoldable pub try_new : ℕ → ℕ → Result PolicyError OutputPolicy
unfolding require_output_nonzero output_tail_bytes checked_add check_total
try_new stdout_tail_max_bytes stderr_tail_max_bytes = do
  require_output_nonzero "output.stdoutTailMaxBytes" stdout_tail_max_bytes
  require_output_nonzero "output.stderrTailMaxBytes" stderr_tail_max_bytes
  output_total ←
      ok_or (checked_add stdout_tail_max_bytes stderr_tail_max_bytes)
        (output_total_overflow stdout_tail_max_bytes stderr_tail_max_bytes)
  check_total output_total
  stdout ← output_tail_bytes "output.stdoutTailMaxBytes" stdout_tail_max_bytes
  stderr ← output_tail_bytes "output.stderrTailMaxBytes" stderr_tail_max_bytes
  ok (record { stdout_tail_max_bytes = stdout; stderr_tail_max_bytes = stderr })
