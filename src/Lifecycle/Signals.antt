-- ===== src/Lifecycle/Signals.antt =====
-- `linux_signal_name`: the public name of a signal number.
use taskcage.Prelude.{
  ℕ, zero, suc, ◌-◌, ◌≤◌, ◌<◌, String, ◌≡◌, refl, sym, ap, ◌∙◌, ◌↔◌, ◌⊎◌, inl, inr, Bool, true,
  false, ◌&&◌, ◌||◌, not, Option, none, some, List, [], ◌∷◌, arith, dec_lt, String_discrete,
  str_append, decimal, leb, ◌==◌, if◌then◌else◌, Option-cases,
}
use taskcage.Prelude.Int.{ℤ, pos, negsuc}

abbrev standard : List (ℕ × String)
standard =
    (1, "SIGHUP")
    ∷ (2, "SIGINT")
    ∷ (3, "SIGQUIT")
    ∷ (4, "SIGILL")
    ∷ (5, "SIGTRAP")
    ∷ (6, "SIGABRT")
    ∷ (7, "SIGBUS")
    ∷ (8, "SIGFPE")
    ∷ (9, "SIGKILL")
    ∷ (10, "SIGUSR1")
    ∷ (11, "SIGSEGV")
    ∷ (12, "SIGUSR2")
    ∷ (13, "SIGPIPE")
    ∷ (14, "SIGALRM")
    ∷ (15, "SIGTERM")
    ∷ (16, "SIGSTKFLT")
    ∷ (17, "SIGCHLD")
    ∷ (18, "SIGCONT")
    ∷ (19, "SIGSTOP")
    ∷ (20, "SIGTSTP")
    ∷ (21, "SIGTTIN")
    ∷ (22, "SIGTTOU")
    ∷ (23, "SIGURG")
    ∷ (24, "SIGXCPU")
    ∷ (25, "SIGXFSZ")
    ∷ (26, "SIGVTALRM")
    ∷ (27, "SIGPROF")
    ∷ (28, "SIGWINCH")
    ∷ (29, "SIGIO")
    ∷ (30, "SIGPWR")
    ∷ (31, "SIGSYS")
    ∷ (34, "SIGRTMIN")
    ∷ []

find : ℕ → List (ℕ × String) → Option String
find n [] = none
find n ((k, name) ∷ rest) = if n == k then some name else find n rest

abbrev real_time : ℕ → Option String
real_time n =
    if leb 35 n && leb n 64 then some (str_append "SIGRTMIN+" (decimal (n - 34))) else none

abbrev or_real_time : ℕ → Option String → Option String
or_real_time n (some name) = some name
or_real_time n none = real_time n

-- A negative `i32` has no name.
unfoldable pub linux_signal_name : ℤ → Option String
unfolding find decimal
linux_signal_name (negsuc n) = none
linux_signal_name (pos n) = or_real_time n (find n standard)

-- The numbers that have a name.
abbrev pub IsNamed : ℤ → Type 0
IsNamed (negsuc n) = ⊥
IsNamed (pos n) = ((1 ≤ n) × (n ≤ 31)) ⊎ ((34 ≤ n) × (n ≤ 64))

abbrev is_named : ℕ → Bool
is_named n = (leb 1 n && leb n 31) || (leb 34 n && leb n 64)

abbrev same_option : Option String → Option String → Bool
same_option none _ = false
same_option (some a) none = false
same_option (some a) (some b) = elim (String_discrete a b) [ yes _ ↦ true | no _ ↦ false ]

abbrev is_some : Option String → Bool
is_some none = false
is_some (some _) = true

holds_under : (ℕ → Bool) → ℕ → Bool
holds_under test zero = true
holds_under test (suc bound) = holds_under test bound && test bound

test_of-holds_under :
    (test : ℕ → Bool) (bound k : ℕ) → k < bound → holds_under test bound ≡ true → test k ≡ true
unfolding holds_under
test_of-holds_under test zero k below table = absurd (omega arith)
test_of-holds_under test (suc bound) k below table =
    ground (arith, test_of-holds_under test bound k)

-- Below 65, two equal names belong to one number, and the named numbers are those of `IsNamed`.
abbrev distinct_pair : ℕ → ℕ → Bool
distinct_pair a b =
    not (same_option (linux_signal_name (pos a)) (linux_signal_name (pos b))) || a == b

abbrev right_domain : ℕ → Bool
right_domain a =
    (is_some (linux_signal_name (pos a)) && is_named a)
    || (not (is_some (linux_signal_name (pos a))) && not (is_named a))

distinct_table : holds_under (λ a. holds_under (λ b. distinct_pair a b) 65) 65 ≡ true
unfolding holds_under linux_signal_name String_discrete
distinct_table = refl

domain_table : holds_under right_domain 65 ≡ true
unfolding holds_under linux_signal_name
domain_table = refl

unnamed_above : (n : ℕ) → 65 ≤ n → linux_signal_name (pos n) ≡ none
unfolding linux_signal_name
unnamed_above n h = ground arith

same_option_self : (s : String) → same_option (some s) (some s) ≡ true
same_option_self s = ground arith

named-lt : (n : ℕ) (s : String) → linux_signal_name (pos n) ≡ some s → n < 65
named-lt n s e = elim (dec_lt n 65) [ yes h ↦ h | no h ↦ absurd (ground (arith, unnamed_above n)) ]

names_below :
    (a b : ℕ) (s : String)
    → linux_signal_name (pos a) ≡ some s
    → linux_signal_name (pos b) ≡ some s
    → a ≡ b
names_below a b s ea eb =
    let row =
      test_of-holds_under (λ c. holds_under (λ d. distinct_pair c d) 65) 65 a (named-lt a s ea)
        distinct_table in
    let cell = test_of-holds_under (λ d. distinct_pair a d) 65 b (named-lt b s eb) row in
    let cell' = rw (ea, eb) at cell in ground arith

names_injective :
    (a b : ℤ) (s : String) → linux_signal_name a ≡ some s → linux_signal_name b ≡ some s → a ≡ b
unfolding linux_signal_name
names_injective (pos a) (pos b) s ea eb = ap pos (names_below a b s ea eb)
names_injective (negsuc a) b s ea eb = cc
names_injective (pos a) (negsuc b) s ea eb = cc

domain : (a : ℤ) → (linux_signal_name a ≡ none) ↔ (¬ IsNamed a)
unfolding linux_signal_name
domain (negsuc n) = (λ e h. h, λ h. refl)
domain (pos n) = elim (dec_lt n 65) [
  | yes h ↦
      let cell = test_of-holds_under right_domain 65 n h domain_table in
      (λ e. ground arith, λ e. ground arith)
  | no h ↦ (λ e. omega arith, λ _. unnamed_above n (omega arith))
]

both_unnamed :
    (a b : ℤ)
    → linux_signal_name a ≡ none
    → linux_signal_name a ≡ linux_signal_name b
    → (¬ IsNamed a) × (¬ IsNamed b)
both_unnamed a b ea e = ((domain a).0 ea, (domain b).0 (sym e ∙ ea))

-- `linux_signal_name` names exactly the signals 1 to 31 and 34 to 64, and no negative number; two
-- numbers have the same answer only if they are one number or neither has a name.
pub signal_names_exact :
    (a b : ℤ)
    → ((linux_signal_name a ≡ none) ↔ (¬ IsNamed a))
      × ((linux_signal_name a ≡ linux_signal_name b) ↔ ((a ≡ b) ⊎ ((¬ IsNamed a) × (¬ IsNamed b))))
signal_names_exact a b = (
  domain a,
  (
    λ e. elim (Option-cases (linux_signal_name a)) [
      | inl none_a ↦ inr (both_unnamed a b none_a e)
      | inr (s, ea) ↦ inl (names_injective a b s ea (sym e ∙ ea))
    ],
    λ h. elim h [
      | inl e ↦ ap linux_signal_name e
      | inr (na, nb) ↦ (domain a).1 na ∙ sym ((domain b).1 nb)
    ],
  ),
)
