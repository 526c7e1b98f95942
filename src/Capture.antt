-- ===== src/Capture.antt =====
-- linux-runtime/src/executor/capture.rs: `BoundedTail`, the fixed buffer that keeps the last bytes
-- of one output stream. A byte is its number and the boxed slice is a list. Lengths are those of
-- slices in memory, so the sums of the source do not wrap.
pub mod Write
pub mod Refine
mod Tests
use Prim.Native.Nat.{min}
use taskcage.Prelude.{
  ℕ, ◌+◌, ◌-◌, ◌%◌, Bool, true, false, ◌||◌, List, [], ◌∷◌, ◌++◌, ltb, leb, ◌==◌, if◌then◌else◌,
  length, take, drop, replicate,
}

pub record CapturedTail : Type 0 where
  pub bytes : List ℕ
  pub truncated : Bool

pub record BoundedTail : Type 0 where
  pub buffer : List ℕ
  pub start : ℕ
  pub len : ℕ
  pub truncated : Bool

-- `BoundedTail::new`.
unfoldable pub new : ℕ → BoundedTail
new limit = record { buffer = replicate limit 0; start = 0; len = 0; truncated = false }

-- `buffer[at..at + bytes.len()].copy_from_slice(bytes)`.
unfoldable pub copy_slice : List ℕ → ℕ → List ℕ → List ℕ
copy_slice buffer at bytes = take at buffer ++ (bytes ++ drop (at + length bytes) buffer)

-- The two copies of `push`: up to the end of the buffer, and the rest from its beginning.
unfoldable pub write_around : List ℕ → ℕ → List ℕ → List ℕ
unfolding copy_slice
write_around buffer write_start bytes =
    let first = min (length bytes) (length buffer - write_start) in
    copy_slice (copy_slice buffer write_start (take first bytes)) 0 (drop first bytes)

-- A chunk that fills the buffer by itself.
unfoldable pub replace : BoundedTail → List ℕ → BoundedTail
replace self bytes =
    let capacity = length self.buffer in
    record {
      buffer = drop (length bytes - capacity) bytes;
      start = 0;
      len = capacity;
      truncated = self.truncated || (ltb 0 self.len || ltb capacity (length bytes));
    }

-- The oldest bytes give way if the free space is too small.
unfoldable pub make_room : BoundedTail → ℕ → BoundedTail
make_room self incoming =
    let capacity = length self.buffer in
    let free = capacity - self.len in
    if ltb free incoming
    then record self {
      start = (self.start + (incoming - free)) % capacity;
      len = self.len - (incoming - free);
      truncated = true;
    }
    else self

unfoldable pub append_bytes : BoundedTail → List ℕ → BoundedTail
unfolding write_around
append_bytes self bytes = record self {
  buffer = write_around self.buffer ((self.start + self.len) % length self.buffer) bytes;
  len = self.len + length bytes;
}

unfoldable pub push : BoundedTail → List ℕ → BoundedTail
unfolding replace make_room append_bytes
push self bytes =
    if length bytes == 0
    then self
    else if leb (length self.buffer) (length bytes)
    then replace self bytes
    else append_bytes (make_room self (length bytes)) bytes

-- `rotate_left(start)`, then `truncate(len)`.
unfoldable pub finish : BoundedTail → CapturedTail
finish self = record {
  bytes = take self.len (drop self.start self.buffer ++ take self.start self.buffer);
  truncated = self.truncated;
}

-- The chunks of a stream, in order.
unfoldable pub push_all : BoundedTail → List (List ℕ) → BoundedTail
unfolding push
push_all self [] = self
push_all self (chunk ∷ chunks) = push_all (push self chunk) chunks
