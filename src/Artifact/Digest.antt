-- ===== src/Artifact/Digest.antt =====
-- core/src/artifact/digest.rs: the text of a SHA-256 digest. A text is the list of its UTF-8 bytes, and
-- a digest the list of its 32 bytes.
use taskcage.Prelude.{
  ℕ, ◌+◌, ◌-◌, ◌*◌, ◌/◌, ◌%◌, ◌<◌, ◌≡◌, refl, sym, ap, ◌∙◌, subst, inl, inr, Bool, true, ◌&&◌, ◌||◌,
  not, Option, none, some, List, [], ◌∷◌, ◌++◌, arith, ltb, leb, ◌==◌, if◌then◌else◌, Bool-cases,
  length, Result, ok, err, ◌>>=◌, ok_or,
}

pub data DigestParseError : Type 0 where
  digest_parse_error : DigestParseError

-- "sha256:".
abbrev pub prefix : List ℕ
prefix = 115 ∷ 104 ∷ 97 ∷ 50 ∷ 53 ∷ 54 ∷ 58 ∷ []

-- The digit that `{:02x}` writes for a number below 16.
unfoldable pub hex_digit : ℕ → ℕ
hex_digit n = if ltb n 10 then 48 + n else 87 + n

unfoldable pub hex : List ℕ → List ℕ
unfolding hex_digit
hex [] = []
hex (b ∷ bs) = hex_digit (b / 16) ∷ hex_digit (b % 16) ∷ hex bs

-- `Display`.
unfoldable pub to_text : List ℕ → List ℕ
unfolding hex
to_text digest = prefix ++ hex digest

unfoldable pub strip_prefix : List ℕ → List ℕ → Option (List ℕ)
strip_prefix [] text = some text
strip_prefix (p ∷ ps) [] = none
strip_prefix (p ∷ ps) (c ∷ cs) = let rest = strip_prefix ps cs in if p == c then rest else none

unfoldable pub is_hex : ℕ → Bool
is_hex c = (leb 48 c && leb c 57) || (leb 97 c && leb c 102)

unfoldable pub all_hex : List ℕ → Bool
unfolding is_hex
all_hex [] = true
all_hex (c ∷ cs) = is_hex c && all_hex cs

-- `hex_value`, on the digits that the format check lets through.
unfoldable pub hex_value : ℕ → ℕ
hex_value c = if leb c 57 then c - 48 else c - 97 + 10

-- The pairs of digits; the high one is shifted by four bits, so that `|` adds.
unfoldable pub pairs : List ℕ → List ℕ
unfolding hex_value
pairs [] = []
pairs (c ∷ []) = []
pairs (c ∷ d ∷ cs) = (hex_value c * 16 + hex_value d) ∷ pairs cs

abbrev parse_hex : List ℕ → Result DigestParseError (List ℕ)
parse_hex text =
    if not (length text == 64) || not (all_hex text)
    then err digest_parse_error
    else ok (pairs text)

abbrev read_hex : Option (List ℕ) → Result DigestParseError (List ℕ)
read_hex stripped = ok_or stripped digest_parse_error >>= parse_hex

-- `from_str`.
unfoldable pub from_str : List ℕ → Result DigestParseError (List ℕ)
from_str text = read_hex (strip_prefix prefix text)

-- Each is a byte.
abbrev pub Bytes : List ℕ → Type 0
Bytes [] = Unit {0}
Bytes (b ∷ bs) = (b < 256) × Bytes bs

hex_digit-is_hex : (n : ℕ) → n < 16 → (is_hex (hex_digit n) ≡ true) × (hex_value (hex_digit n) ≡ n)
unfolding is_hex hex_digit hex_value
hex_digit-is_hex n h = (ground arith, ground arith)

hex_value-digit : (c : ℕ) → is_hex c ≡ true → (hex_value c < 16) × (hex_digit (hex_value c) ≡ c)
unfolding is_hex hex_digit hex_value
hex_value-digit c h = (ground arith, ground arith)

pairs-hex :
    (bs : List ℕ)
    → Bytes bs
    → (all_hex (hex bs) ≡ true) × (pairs (hex bs) ≡ bs) × (length (hex bs) ≡ 2 * length bs)
unfolding all_hex pairs hex
pairs-hex [] h = (refl, refl, refl)
pairs-hex (b ∷ bs) (p, h) =
    let (hi, hi_value) = hex_digit-is_hex (b / 16) (omega arith) in
    let (lo, lo_value) = hex_digit-is_hex (b % 16) (omega arith) in
    let (all, back, size) = pairs-hex bs h in
    (
      rw (hi, lo) all,
      rw (hi_value, lo_value) (rw back (ap (λ n. n ∷ bs) (omega arith))),
      omega (arith, size),
    )

-- A pair's number has the digits that it was read from.
pair-back :
    {c d : ℕ} {cs ds : List ℕ} (hi lo : ℕ)
    → lo < 16
    → hex_digit hi ≡ c
    → hex_digit lo ≡ d
    → cs ≡ ds
    → (hex_digit ((hi * 16 + lo) / 16) ∷ hex_digit ((hi * 16 + lo) % 16) ∷ cs) ≡ (c ∷ d ∷ ds)
pair-back hi lo h p q r =
    let high : (hi * 16 + lo) / 16 ≡ hi = omega arith in
    let low : (hi * 16 + lo) % 16 ≡ lo = omega arith in rw (high, low) (rw (p, q, r) refl)

hex-pairs :
    (cs : List ℕ) (n : ℕ)
    → all_hex cs ≡ true
    → length cs ≡ 2 * n
    → (hex (pairs cs) ≡ cs) × Bytes (pairs cs) × (length (pairs cs) ≡ n)
unfolding all_hex pairs hex
hex-pairs [] n h p = (refl, tt, omega arith)
hex-pairs (c ∷ []) n h p = absurd (omega arith)
hex-pairs (c ∷ d ∷ cs) n h p =
    let (hi, hi_digit) = hex_value-digit c (ground (arith, h)) in
    let (lo, lo_digit) = hex_value-digit d (ground (arith, h)) in
    let (back, bytes, size) = hex-pairs cs (n - 1) (ground (arith, h)) (omega arith) in
    (
      pair-back (hex_value c) (hex_value d) lo hi_digit lo_digit back,
      (omega (arith, hi, lo), bytes),
      omega (arith, size),
    )

strip_prefix-append : (ps cs : List ℕ) → strip_prefix ps (ps ++ cs) ≡ some cs
unfolding strip_prefix
strip_prefix-append [] cs = refl
strip_prefix-append (p ∷ ps) cs = ground (arith, strip_prefix-append ps cs)

strip_prefix-some : (ps text cs : List ℕ) → strip_prefix ps text ≡ some cs → text ≡ ps ++ cs
unfolding strip_prefix
strip_prefix-some [] text cs h = ground arith
strip_prefix-some (p ∷ ps) [] cs h = absurd (ground arith)
strip_prefix-some (p ∷ ps) (c ∷ text) cs h = ground (arith, strip_prefix-some ps text cs)

-- Every digest of 32 bytes is read back from its text.
pub from_str-to_text :
    (digest : List ℕ) → Bytes digest → length digest ≡ 32 → from_str (to_text digest) ≡ ok digest
unfolding from_str to_text
from_str-to_text digest h size =
    let (all, back, count) = pairs-hex digest h in
    rw (strip_prefix-append prefix (hex digest)) (parsed all back (omega (arith, count, size)))
  where
    parsed :
        all_hex (hex digest) ≡ true
        → pairs (hex digest) ≡ digest
        → length (hex digest) ≡ 64
        → parse_hex (hex digest) ≡ ok digest
    parsed all back count = rw (count, all, back) refl

read_hex-ok :
    (stripped : Option (List ℕ)) (digest : List ℕ)
    → read_hex stripped ≡ ok digest
    → (cs : List ℕ) × (stripped ≡ some cs) × (parse_hex cs ≡ ok digest)
read_hex-ok none digest h = absurd (ground arith)
read_hex-ok (some cs) digest h = (cs, refl, h)

parse_hex-ok :
    (cs digest : List ℕ)
    → parse_hex cs ≡ ok digest
    → (length cs ≡ 64) × (all_hex cs ≡ true) × (pairs cs ≡ digest)
parse_hex-ok cs digest h = elim (Bool-cases (length cs == 64)) [
  | inr other ↦ absurd (ground (arith, h, other))
  | inl sized ↦ elim (Bool-cases (all_hex cs)) [
    | inr other ↦ absurd (ground (arith, h, sized, other))
    | inl all ↦ (ground (arith, sized), all, ground (arith, h, sized, all))
  ]
]

-- A text that is read as a digest is that digest's own text, and the digest has 32 bytes: no two
-- texts stand for one digest.
pub to_text-from_str :
    (text digest : List ℕ)
    → from_str text ≡ ok digest
    → (to_text digest ≡ text) × Bytes digest × (length digest ≡ 32)
unfolding from_str to_text
to_text-from_str text digest h =
    let (cs, p, q) = read_hex-ok (strip_prefix prefix text) digest h in
    let (count, all, same) = parse_hex-ok cs digest q in
    let (back, bytes, size) = hex-pairs cs 32 all (omega (arith, count)) in
    (
      ap (λ ds. prefix ++ hex ds) (sym same)
          ∙ ap (λ ds. prefix ++ ds) back
          ∙ sym (strip_prefix-some prefix text cs p),
      subst Bytes same bytes,
      sym (ap length same) ∙ size,
    )
