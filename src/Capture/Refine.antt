-- ===== src/Capture/Refine.antt =====
-- The ring of `BoundedTail` keeps exactly the last bytes of its stream.
use Prim.Native.Nat.{min}
use mathlib.Core.List.{append_assoc, append-nil}
use taskcage.Prelude.{
  ℕ, ◌+◌, ◌-◌, ◌≤◌, ◌<◌, ◌≡◌, ◌∙◌, inl, inr, true, false, List, [], ◌∷◌, ◌++◌, arith, dec_lt,
  dec_le, ltb, leb, ◌==◌, Bool-cases, length, take, drop, length-append, length-take, length-drop,
  length-replicate, byte_at, byte_at-take, byte_at-drop, byte_at-append, bytes_ext,
}
use taskcage.Capture.{BoundedTail, new, replace, make_room, append_bytes, push, finish, push_all}
use taskcage.Capture.Write.{
  wrap, mod-wrap, byte_at-write_kept, byte_at-write_new, length-write_around,
}

-- The tail holds the last bytes of the stream `xs`.
pub record Holds (limit : ℕ) (t : BoundedTail) (xs : List ℕ) : Type 0 where
  pub limit_pos : 0 < limit
  pub whole : length t.buffer ≡ limit
  pub start_in : t.start < limit
  pub len_exact : t.len ≡ min limit (length xs)
  pub truncated_exact : t.truncated ≡ ltb limit (length xs)
  pub kept :
      (i : ℕ)
      → i < t.len
      → byte_at t.buffer (wrap limit (t.start + i)) ≡ byte_at xs (length xs - t.len + i)

new-Holds : (limit : ℕ) → 0 < limit → Holds limit (new limit) []
unfolding new
new-Holds limit h = record {
  limit_pos = h;
  whole = length-replicate limit 0;
  start_in = h;
  len_exact = omega arith;
  truncated_exact = ground arith;
  kept = λ i lt. absurd (omega arith);
}

module _ (limit : ℕ) (t : BoundedTail) (xs bytes : List ℕ) (v : Holds limit t xs) where
  replace-Holds : limit ≤ length bytes → Holds limit (replace t bytes) (xs ++ bytes)
  unfolding replace
  replace-Holds full = record {
    limit_pos = v.limit_pos;
    whole = omega (arith, length-drop (length bytes - length t.buffer) bytes, v.whole);
    start_in = v.limit_pos;
    len_exact = omega (arith, length-append xs bytes, v.whole);
    truncated_exact =
        ground (arith, length-append xs bytes, v.whole, v.len_exact, v.truncated_exact);
    kept = λ i lt. ground (
      arith,
      v.whole,
      length-append xs bytes,
      byte_at-drop (length bytes - length t.buffer) bytes i,
      byte_at-append xs bytes (length (xs ++ bytes) - length t.buffer + i),
    );
  }

  -- After making room the tail holds the newest bytes that still fit.
  record Roomy (r : BoundedTail) : Type 0 where
    whole : length r.buffer ≡ limit
    start_in : r.start < limit
    len_exact : r.len ≡ min (length xs) (limit - length bytes)
    truncated_exact : r.truncated ≡ ltb limit (length xs + length bytes)
    kept :
        (i : ℕ)
        → i < r.len
        → byte_at r.buffer (wrap limit (r.start + i)) ≡ byte_at xs (length xs - r.len + i)

  make_room-Roomy : length bytes < limit → Roomy (make_room t (length bytes))
  unfolding make_room
  make_room-Roomy small =
      let d : ℕ = length bytes - (length t.buffer - t.len) in
      let m = mod-wrap limit (t.start + d) (omega (arith, v.whole, v.start_in)) in
      elim (Bool-cases (ltb (length t.buffer - t.len) (length bytes))) [
        | inl tight ↦ rw tight (record {
          whole = v.whole;
          start_in = ground (arith, v.whole, v.start_in);
          len_exact = ground (arith, v.whole, v.len_exact);
          truncated_exact = ground (arith, v.whole, v.len_exact);
          kept =
              λ i lt. ground (arith, v.whole, v.start_in, v.len_exact, v.limit_pos, v.kept (d + i));
        })
        | inr loose ↦ rw loose (record {
          whole = v.whole;
          start_in = v.start_in;
          len_exact = ground (arith, v.whole, v.len_exact);
          truncated_exact = ground (arith, v.whole, v.len_exact, v.truncated_exact);
          kept = v.kept;
        })
      ]

  -- The `i`-th byte of the grown stream's tail.
  stream_old :
      (n i : ℕ)
      → n ≤ length xs
      → i < n
      → byte_at xs (length xs - n + i)
        ≡ byte_at (xs ++ bytes) (length (xs ++ bytes) - (n + length bytes) + i)
  stream_old n i h lt = ground (
    arith,
    length-append xs bytes,
    byte_at-append xs bytes (length (xs ++ bytes) - (n + length bytes) + i),
  )

  stream_new :
      (n i : ℕ)
      → n ≤ length xs
      → n ≤ i
      → byte_at bytes (i - n)
        ≡ byte_at (xs ++ bytes) (length (xs ++ bytes) - (n + length bytes) + i)
  stream_new n i h le = ground (
    arith,
    length-append xs bytes,
    byte_at-append xs bytes (length (xs ++ bytes) - (n + length bytes) + i),
  )

  append-Holds :
      (r : BoundedTail)
      → Roomy r
      → length bytes < limit
      → Holds limit (append_bytes r bytes) (xs ++ bytes)
  unfolding append_bytes
  append-Holds r q small =
      let start_in : r.start < length r.buffer = omega (arith, q.start_in, q.whole) in
      let fits : r.len + length bytes ≤ length r.buffer = omega (arith, q.whole, q.len_exact) in
      let small' : length bytes < length r.buffer = omega (arith, q.whole) in
      let known : r.len ≤ length xs = omega (arith, q.len_exact) in
      record {
        limit_pos = v.limit_pos;
        whole =
            length-write_around r.buffer _ bytes (omega (arith, q.whole, v.limit_pos)) small'
            ∙ q.whole;
        start_in = q.start_in;
        len_exact = omega (arith, q.len_exact, length-append xs bytes);
        truncated_exact = ground (arith, q.truncated_exact, length-append xs bytes);
        kept = λ i lt. elim (dec_lt i r.len) [
          | yes old ↦
              byte_at-write_kept r.buffer r.start r.len bytes i start_in fits small' limit q.whole
                old
              ∙ (q.kept i old ∙ stream_old r.len i known old)
          | no fresh ↦
              byte_at-write_new r.buffer r.start r.len bytes i start_in fits small' limit q.whole
                (omega arith) lt
              ∙ stream_new r.len i known (omega arith)
        ];
      }

push-Holds :
    (limit : ℕ) (t : BoundedTail) (xs bytes : List ℕ)
    → Holds limit t xs
    → Holds limit (push t bytes) (xs ++ bytes)
unfolding push
push-Holds limit t xs [] v = rw (append-nil xs) v
push-Holds limit t xs (b ∷ bs) v = elim (dec_le limit (length (b ∷ bs))) [
  | yes full ↦ rw (nonempty, ltb_or_leb full) (replace-Holds limit t xs (b ∷ bs) v full)
  | no small ↦
      rw (nonempty, leb_false small)
        (append-Holds limit t xs (b ∷ bs) v _ (make_room-Roomy limit t xs (b ∷ bs) v (omega arith))
          (omega arith))
]
  where
    nonempty : (length (b ∷ bs) == 0) ≡ false
    nonempty = ground arith

    ltb_or_leb : limit ≤ length (b ∷ bs) → leb (length t.buffer) (length (b ∷ bs)) ≡ true
    ltb_or_leb h = ground (arith, v.whole)

    leb_false : ¬ (limit ≤ length (b ∷ bs)) → leb (length t.buffer) (length (b ∷ bs)) ≡ false
    leb_false h = ground (arith, v.whole)

-- The bytes of a sequence of chunks.
abbrev pub stream : List (List ℕ) → List ℕ
stream [] = []
stream (chunk ∷ chunks) = chunk ++ stream chunks

-- The last `n` bytes, or all if there are fewer.
abbrev pub last_bytes : ℕ → List ℕ → List ℕ
last_bytes n xs = drop (length xs - n) xs

push_all-Holds :
    (limit : ℕ) (t : BoundedTail) (xs : List ℕ) (chunks : List (List ℕ))
    → Holds limit t xs
    → Holds limit (push_all t chunks) (xs ++ stream chunks)
unfolding push_all
push_all-Holds limit t xs [] v = rw (append-nil xs) v
push_all-Holds limit t xs (chunk ∷ chunks) v =
    rw (← append_assoc xs chunk (stream chunks))
      (push_all-Holds limit (push t chunk) (xs ++ chunk) chunks (push-Holds limit t xs chunk v))

module _ (limit : ℕ) (t : BoundedTail) (xs : List ℕ) (v : Holds limit t xs) where
  rotated-length : length (drop t.start t.buffer ++ take t.start t.buffer) ≡ limit
  rotated-length = omega (
    arith,
    length-append (drop t.start t.buffer) (take t.start t.buffer),
    length-drop t.start t.buffer,
    length-take t.start t.buffer,
    v.whole,
    v.start_in,
  )

  byte_at-rotated :
      (i : ℕ)
      → i < limit
      → byte_at (drop t.start t.buffer ++ take t.start t.buffer) i
        ≡ byte_at t.buffer (wrap limit (t.start + i))
  byte_at-rotated i h = ground (
    arith,
    v.whole,
    v.start_in,
    byte_at-append (drop t.start t.buffer) (take t.start t.buffer) i,
    length-drop t.start t.buffer,
    byte_at-drop t.start t.buffer i,
    byte_at-take t.start t.buffer (i - length (drop t.start t.buffer)),
  )

  finish-Holds : (finish t).bytes ≡ last_bytes limit xs
  unfolding finish
  finish-Holds =
      let rotated : List ℕ = drop t.start t.buffer ++ take t.start t.buffer in
      let lengths : length (take t.len rotated) ≡ t.len =
        omega (arith, length-take t.len rotated, rotated-length, v.len_exact) in
      bytes_ext (take t.len rotated) (last_bytes limit xs)
        (omega (arith, lengths, length-drop (length xs - limit) xs, v.len_exact))
        λ i lt. ground (
          arith,
          lengths,
          v.len_exact,
          byte_at-take t.len rotated i,
          byte_at-rotated i (omega (arith, v.len_exact, lengths)),
          v.kept i (omega (arith, lengths)),
          byte_at-drop (length xs - limit) xs i,
        )

-- Whatever chunks a stream arrives in, a tail with a positive limit finishes with exactly the last
-- `limit` bytes of the stream (all of them if there are fewer), and is marked truncated exactly
-- when the stream is longer than the limit.
pub finish-push_all :
    (limit : ℕ) (chunks : List (List ℕ))
    → 0 < limit
    → finish (push_all (new limit) chunks) ≡ record {
      bytes = last_bytes limit (stream chunks);
      truncated = ltb limit (length (stream chunks));
    }
unfolding finish
finish-push_all limit chunks h =
    let v = push_all-Holds limit (new limit) [] chunks (new-Holds limit h) in
    λ i. record {
      bytes = finish-Holds limit (push_all (new limit) chunks) (stream chunks) v i;
      truncated = v.truncated_exact i;
    }
