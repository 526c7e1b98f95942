-- ===== src/Policy/Error.antt =====
-- `PolicyError`, and the checks on one field that the constructors share.
use taskcage.Prelude.{
  ℕ, ◌-◌, ◌^◌, String, Option, none, some, ltb, ◌==◌, if◌then◌else◌, Result, ok, err, ◌>>=◌, ok_or,
}

pub data PolicyError : Type 0 where
  zero : String → PolicyError
  output_tail_too_large : String → ℕ → ℕ → PolicyError
  output_total_overflow : ℕ → ℕ → PolicyError
  output_total_too_large : ℕ → ℕ → PolicyError
  not_representable : String → ℕ → PolicyError

abbrev pub max_output_tail_bytes : ℕ
max_output_tail_bytes = 65_536

abbrev pub max_total_output_bytes : ℕ
max_total_output_bytes = 131_072

abbrev pub u32_max : ℕ
u32_max = 2 ^ 32 - 1

-- The daemon's target is 64-bit Linux.
abbrev pub usize_max : ℕ
usize_max = 2 ^ 64 - 1

-- `NonZeroU64::new` and `NonZeroUsize::new`.
unfoldable pub non_zero : ℕ → Option ℕ
non_zero n = if n == 0 then none else some n

unfoldable pub nonzero_u64 : String → ℕ → Result PolicyError ℕ
unfolding non_zero
nonzero_u64 field value = ok_or (non_zero value) (PolicyError.zero field)

unfoldable pub require_output_nonzero : String → ℕ → Result PolicyError (Unit {0})
require_output_nonzero field value = if value == 0 then err (PolicyError.zero field) else ok tt

-- The largest value of the target type stands for the type `T` of the source.
unfoldable pub checked_output_size : ℕ → String → ℕ → Result PolicyError ℕ
checked_output_size maximum field value =
    if ltb maximum value then err (not_representable field value) else ok value

unfoldable pub output_tail_bytes : String → ℕ → Result PolicyError ℕ
unfolding checked_output_size non_zero
output_tail_bytes field value =
    if ltb max_output_tail_bytes value
    then err (output_tail_too_large field value max_output_tail_bytes)
    else (do
      size ← checked_output_size usize_max field value
      ok_or (non_zero size) (PolicyError.zero field))
