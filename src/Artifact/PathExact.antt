-- ===== src/Artifact/PathExact.antt =====
-- Which texts `ArtifactPath::parse` accepts.
use taskcage.Prelude.{
  ℕ, ◌≤◌, ◌<◌, ◌≡◌, refl, sym, ap, ◌∙◌, subst, ◌≢◌, ◌↔◌, inl, inr, true, false, ◌||◌, List, [], ◌∷◌,
  ◌++◌, arith, ℕ_discrete, ltb, ◌==◌, Bool-cases, length, ok, Result-cases,
}
use taskcage.Artifact.LocalPath.{
  max_artifact_path_bytes, reserved, split, same_bytes, is_unsafe, any_unsafe, check_segment,
  check_segments, first_is_reserved, parse,
}

-- A printable byte that is no separator.
abbrev pub Clean : List ℕ → Type 0
Clean [] = Unit {0}
Clean (c ∷ cs) = ((32 ≤ c) × (c ≢ 47) × (c ≢ 92) × (c ≢ 127)) × Clean cs

-- A name that is neither empty nor "." nor "..".
abbrev pub Name : List ℕ → Type 0
Name s = (s ≢ []) × (s ≢ 46 ∷ []) × (s ≢ 46 ∷ 46 ∷ []) × Clean s

abbrev pub Names : List (List ℕ) → Type 0
Names [] = Unit {0}
Names (s ∷ ss) = Name s × Names ss

-- The names with the separator between them.
abbrev pub join : List ℕ → List (List ℕ) → List ℕ
join s [] = s
join s (t ∷ ts) = s ++ (47 ∷ join t ts)

pub same_bytes_iff : (s t : List ℕ) → (same_bytes s t ≡ true) ↔ (s ≡ t)
unfolding same_bytes
same_bytes_iff [] [] = (λ _. refl, λ _. refl)
same_bytes_iff [] (d ∷ ds) = (λ h. absurd (ground (arith, h)), λ h. absurd (ground (arith, h)))
same_bytes_iff (c ∷ cs) [] = (λ h. absurd (ground (arith, h)), λ h. absurd (ground (arith, h)))
same_bytes_iff (c ∷ cs) (d ∷ ds) =
    (λ h. ground (arith, h, same_bytes_iff cs ds), λ h. ground (arith, h, same_bytes_iff cs ds))

split-Clean : (s cs : List ℕ) → Clean s → split (s ++ (47 ∷ cs)) ≡ s ∷ split cs
unfolding split
split-Clean [] cs h = refl
split-Clean (c ∷ s) cs h = rw (split-Clean s cs h.1) (ground (arith, h))

split-last : (s : List ℕ) → Clean s → split s ≡ s ∷ []
unfolding split
split-last [] h = refl
split-last (c ∷ s) h = rw (split-last s h.1) (ground (arith, h))

split-join : (s : List ℕ) (ss : List (List ℕ)) → Name s → Names ss → split (join s ss) ≡ s ∷ ss
split-join s [] n h = split-last s n.3
split-join s (t ∷ ts) n h =
    split-Clean s (join t ts) n.3 ∙ ap (λ x. s ∷ x) (split-join t ts h.0 h.1)

abbrev NoSep : List ℕ → Type 0
NoSep [] = Unit {0}
NoSep (c ∷ cs) = (c ≢ 47) × NoSep cs

abbrev NoSeps : List (List ℕ) → Type 0
NoSeps [] = Unit {0}
NoSeps (s ∷ ss) = NoSep s × NoSeps ss

join-cons : (c : ℕ) (s : List ℕ) (ss : List (List ℕ)) → join (c ∷ s) ss ≡ c ∷ join s ss
join-cons c s [] = refl
join-cons c s (t ∷ ts) = refl

-- Every text is the join of its segments.
split-parts :
    (v : List ℕ)
    → (s : List ℕ) × (ss : List (List ℕ)) × (split v ≡ s ∷ ss)
      × (v ≡ join s ss)
      × NoSep s
      × NoSeps ss
unfolding split
split-parts [] = ([], [], refl, refl, tt, tt)
split-parts (c ∷ cs) =
    let (s, ss, p, q, n, m) = split-parts cs in
    elim (ℕ_discrete c 47) [
      | yes e ↦ (
        [],
        s ∷ ss,
        rw p (ground (arith, e)),
        ap (λ x. c ∷ x) q ∙ ap (λ x. x ∷ join s ss) e,
        tt,
        (n, m),
      )
      | no e ↦ (
        c ∷ s,
        ss,
        rw p (ground (arith, e)),
        ap (λ x. c ∷ x) q ∙ sym (join-cons c s ss),
        (e, n),
        m,
      )
    ]

any_unsafe-Clean : (s : List ℕ) → NoSep s → any_unsafe s ≡ false → Clean s
unfolding any_unsafe is_unsafe
any_unsafe-Clean [] n h = tt
any_unsafe-Clean (c ∷ cs) n h =
    (ground (arith, h, n.0), any_unsafe-Clean cs n.1 (ground (arith, h)))

Clean-any_unsafe : (s : List ℕ) → Clean s → any_unsafe s ≡ false
unfolding any_unsafe is_unsafe
Clean-any_unsafe [] h = refl
Clean-any_unsafe (c ∷ cs) h = ground (arith, h.0, Clean-any_unsafe cs h.1)

check_segment-Name : (s : List ℕ) → Name s → check_segment s ≡ ok tt
check_segment-Name s n = ground (
  arith,
  n,
  same_bytes_iff s [],
  same_bytes_iff s (46 ∷ []),
  same_bytes_iff s (46 ∷ 46 ∷ []),
  Clean-any_unsafe s n.3,
)

check_segment-ok : (s : List ℕ) → NoSep s → check_segment s ≡ ok tt → Name s
check_segment-ok s n h = (
  ground (arith, h, same_bytes_iff s []),
  ground (arith, h, same_bytes_iff s (46 ∷ [])),
  ground (arith, h, same_bytes_iff s (46 ∷ 46 ∷ [])),
  any_unsafe-Clean s n (ground (arith, h)),
)

check_segments-Names : (ss : List (List ℕ)) → Names ss → check_segments ss ≡ ok tt
unfolding check_segments
check_segments-Names [] n = refl
check_segments-Names (s ∷ ss) n = rw (check_segment-Name s n.0) (check_segments-Names ss n.1)

check_segments-ok : (ss : List (List ℕ)) → NoSeps ss → check_segments ss ≡ ok tt → Names ss
unfolding check_segments
check_segments-ok [] n h = tt
check_segments-ok (s ∷ ss) n h = elim (Result-cases (check_segment s)) [
  | inl (tt, p) ↦ (check_segment-ok s n.0 p, check_segments-ok ss n.1 (ground (arith, h, p)))
  | inr (e, p) ↦ absurd (ground (arith, h, p))
]

-- An accepted text is what the steps of `parse` say of it.
parse-ok :
    (v w : List ℕ)
    → parse v ≡ ok w
    → (length v ≤ max_artifact_path_bytes)
      × (check_segments (split v) ≡ ok tt)
      × (first_is_reserved (split v) ≡ false)
      × (v ≡ w)
unfolding parse
parse-ok v w h = elim (Bool-cases (length v == 0 || ltb max_artifact_path_bytes (length v))) [
  | inl p ↦ absurd (ground (arith, h, p))
  | inr p ↦ elim (Result-cases (check_segments (split v))) [
    | inr (e, q) ↦ absurd (ground (arith, h, p, q))
    | inl (tt, q) ↦ elim (Bool-cases (first_is_reserved (split v))) [
      | inl r ↦ absurd (ground (arith, h, p, q, r))
      | inr r ↦ (ground (arith, p), q, r, ground (arith, h, p, q, r))
    ]
  ]
]

join-not_empty : (s : List ℕ) (ss : List (List ℕ)) → s ≢ [] → 0 < length (join s ss)
join-not_empty [] ss n = absurd (n refl)
join-not_empty (c ∷ s) ss n = rw (join-cons c s ss) (omega arith)

-- What the text of a path is: names with single separators between them.
abbrev pub Relative : List ℕ → Type 0
Relative v =
    (s : List ℕ) × (ss : List (List ℕ)) × (v ≡ join s ss)
    × Name s
    × Names ss
    × (s ≢ reserved)
    × (length v ≤ max_artifact_path_bytes)

parse-Relative : (v w : List ℕ) → parse v ≡ ok w → Relative v × (v ≡ w)
parse-Relative v w h =
    let (short, checked, free, same) = parse-ok v w h in
    let (s, ss, p, q, n, m) = split-parts v in
    let names : Names (s ∷ ss) =
      check_segments-ok (s ∷ ss) (n, m) (ap check_segments (sym p) ∙ checked) in
    let free' : same_bytes s reserved ≡ false = ap first_is_reserved (sym p) ∙ free in
    (
      (
        s,
        ss,
        q,
        names.0,
        names.1,
        (λ e. ground (arith, free', e, same_bytes_iff s reserved)),
        short,
      ),
      same,
    )

Relative-parse : (v : List ℕ) → Relative v → parse v ≡ ok v
unfolding parse
Relative-parse v (s, ss, q, n, ns, free, short) =
    let p : split v ≡ s ∷ ss = ap split q ∙ split-join s ss n ns in
    let filled : 0 < length v = subst (λ x. 0 < length x) (sym q) (join-not_empty s ss n.0) in
    let sized : (length v == 0 || ltb max_artifact_path_bytes (length v)) ≡ false =
      ground (arith, filled, short) in
    let other : same_bytes s reserved ≡ false = ground (arith, free, same_bytes_iff s reserved) in
    rw (sized, p, check_segments-Names (s ∷ ss) (n, ns), other) refl

-- A path is made from a text exactly when the text has at most 4096 bytes and consists of names with
-- single slashes between them, where no name is empty, "." or "..", or contains a backslash, a NUL or
-- another ASCII control character, and the first is not ".taskcage"; and the text is kept unchanged.
pub parse_exact : (v w : List ℕ) → (parse v ≡ ok w) ↔ (Relative v × (v ≡ w))
parse_exact v w = (parse-Relative v w, λ (r, e). Relative-parse v r ∙ ap (λ x. ok x) e)
