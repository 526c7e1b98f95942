-- ===== src/Capture/Write.antt =====
-- Reading the buffer by index after the copies of `push`.
use Prim.Native.Nat.{min}
use native.Mathlib.Nat.{mod-eq_of_lt, mod-eq-sub-mod}
use taskcage.Prelude.{
  ℕ, ◌+◌, ◌-◌, ◌%◌, ◌≤◌, ◌<◌, ◌≡◌, ◌∙◌, List, ◌++◌, arith, dec_lt, ltb, if◌then◌else◌, length, take,
  drop, length-append, length-take, length-drop, byte_at, byte_at-take, byte_at-drop,
  byte_at-append,
}
use taskcage.Capture.{copy_slice, write_around}

pub length-copy_slice :
    (buffer : List ℕ) (k : ℕ) (bytes : List ℕ)
    → k + length bytes ≤ length buffer
    → length (copy_slice buffer k bytes) ≡ length buffer
unfolding copy_slice
length-copy_slice buffer k bytes h = omega (
  arith,
  length-append (take k buffer) (bytes ++ drop (k + length bytes) buffer),
  length-append bytes (drop (k + length bytes) buffer),
  length-take k buffer,
  length-drop (k + length bytes) buffer,
)

pub byte_at-copy_slice :
    (buffer : List ℕ) (k : ℕ) (bytes : List ℕ) (j : ℕ)
    → k + length bytes ≤ length buffer
    → byte_at (copy_slice buffer k bytes) j ≡ (
        if ltb j k
        then byte_at buffer j
        else if ltb j (k + length bytes)
        then byte_at bytes (j - k)
        else byte_at buffer j)
unfolding copy_slice
byte_at-copy_slice buffer k bytes j h = ground (
  arith,
  byte_at-append (take k buffer) (bytes ++ drop (k + length bytes) buffer) j,
  byte_at-append bytes (drop (k + length bytes) buffer) (j - length (take k buffer)),
  byte_at-take k buffer j,
  byte_at-drop (k + length bytes) buffer (j - k - length bytes),
  length-take k buffer,
)

-- The written bytes lie from `w` on, going round at the end; all others stay.
pub byte_at-write_around :
    (buffer : List ℕ) (w : ℕ) (bytes : List ℕ) (j : ℕ)
    → w < length buffer
    → length bytes < length buffer
    → j < length buffer
    → byte_at (write_around buffer w bytes) j ≡ (
        if ltb (j + length buffer) (w + length bytes)
        then byte_at bytes (j + length buffer - w)
        else if ltb j w
        then byte_at buffer j
        else if ltb j (w + length bytes)
        then byte_at bytes (j - w)
        else byte_at buffer j)
unfolding write_around
byte_at-write_around buffer w bytes j hw hb hj =
    let first : ℕ = min (length bytes) (length buffer - w) in
    let lt : length (take first bytes) ≡ min first (length bytes) = length-take first bytes in
    let ld : length (drop first bytes) ≡ length bytes - first = length-drop first bytes in
    let inner : List ℕ = copy_slice buffer w (take first bytes) in
    let li : length inner ≡ length buffer =
      length-copy_slice buffer w (take first bytes) (omega arith) in
    ground (
      arith,
      byte_at-copy_slice inner 0 (drop first bytes) j (omega arith),
      byte_at-copy_slice buffer w (take first bytes) j (omega arith),
      byte_at-take first bytes (j - w),
      byte_at-drop first bytes j,
      byte_at-drop first bytes (j - 0),
    )

pub length-write_around :
    (buffer : List ℕ) (w : ℕ) (bytes : List ℕ)
    → w < length buffer
    → length bytes < length buffer
    → length (write_around buffer w bytes) ≡ length buffer
unfolding write_around
length-write_around buffer w bytes hw hb =
    let first : ℕ = min (length bytes) (length buffer - w) in
    let lt : length (take first bytes) ≡ min first (length bytes) = length-take first bytes in
    let ld : length (drop first bytes) ≡ length bytes - first = length-drop first bytes in
    let inner : List ℕ = copy_slice buffer w (take first bytes) in
    let li : length inner ≡ length buffer =
      length-copy_slice buffer w (take first bytes) (omega arith) in
    length-copy_slice inner 0 (drop first bytes) (omega arith) ∙ li

-- The place of the `i`-th kept byte, if `i` is below the capacity.
abbrev pub wrap : ℕ → ℕ → ℕ
wrap capacity k = if ltb k capacity then k else k - capacity

pub mod-wrap : (capacity k : ℕ) → k < capacity + capacity → k % capacity ≡ wrap capacity k
mod-wrap capacity k h = elim (dec_lt k capacity) [
  | yes p ↦ ground (arith, mod-eq_of_lt p)
  | no p ↦ ground (
    arith,
    mod-eq-sub-mod {n = k} {m = capacity} (omega arith),
    mod-eq_of_lt {n = k - capacity} {m = capacity} (omega arith),
  )
]

-- A window of `len` bytes from `start`, and a write of `bytes` right behind it.
module _ (buffer : List ℕ) (start len : ℕ) (bytes : List ℕ) (i : ℕ)
    (start_in : start < length buffer) (fits : len + length bytes ≤ length buffer)
    (small : length bytes < length buffer) where
  abbrev behind : ℕ
  behind = wrap (length buffer) (start + len)

  abbrev place : ℕ
  place = wrap (length buffer) (start + i)

  kept_at : i < len → byte_at (write_around buffer behind bytes) place ≡ byte_at buffer place
  kept_at old =
      byte_at-write_around buffer behind bytes place (ground arith) small (ground arith)
      ∙ ground arith

  new_at :
      len ≤ i
      → i < len + length bytes
      → byte_at (write_around buffer behind bytes) place ≡ byte_at bytes (i - len)
  new_at fresh lt =
      byte_at-write_around buffer behind bytes place (ground arith) small (ground arith)
      ∙ ground arith

  module _ (limit : ℕ) (whole : length buffer ≡ limit) where
    abbrev pub written : List ℕ
    written = write_around buffer ((start + len) % length buffer) bytes

    pub byte_at-write_kept :
        i < len → byte_at written (wrap limit (start + i)) ≡ byte_at buffer (wrap limit (start + i))
    byte_at-write_kept old =
        rw (← whole, mod-wrap (length buffer) (start + len) (omega arith)) (kept_at old)

    pub byte_at-write_new :
        len ≤ i
        → i < len + length bytes
        → byte_at written (wrap limit (start + i)) ≡ byte_at bytes (i - len)
    byte_at-write_new fresh lt =
        rw (← whole, mod-wrap (length buffer) (start + len) (omega arith)) (new_at fresh lt)
