-- ===== src/Core/Strings/Laws.antt =====
-- core/base/string.cpp: the comparisons and the searches, against the bytes.
use plexdb.Prelude.{
  ℕ, zero, suc, ◌+◌, ◌-◌, ◌≤◌, ◌≡◌, ◌≢◌, ◌↔◌, refl, sym, ap, true, none, some, [], ◌∷◌, ◌++◌, ◌==◌,
  ltb, length, drop, take, All, arith, Bool-cases, inl, inr, length-append, le→ltb_false, ==_iff,
  ==_refl, ◌∙◌, subst, Option-cases, get_elem?,
}
use plexdb.Core.Text.{Bytes}
use plexdb.Core.Strings.{
  eq_bytes, string_eq, c_str_eq, find_char, matches_here, contains_loop, contains,
}

eq_bytes-same : (a b : Bytes) → length a ≡ length b → eq_bytes a b ≡ true → a ≡ b
unfolding eq_bytes
eq_bytes-same [] [] n h = refl
eq_bytes-same [] (y ∷ b) n h = absurd (omega (arith, n))
eq_bytes-same (x ∷ a) [] n h = absurd (omega (arith, n))
eq_bytes-same (x ∷ a) (y ∷ b) n h = elim (Bool-cases (x == y)) [
  | inl e ↦ rw ((==_iff x y).0 e, eq_bytes-same a b (omega (arith, n)) (rw e at h)) refl
  | inr e ↦ ground (arith, e, h)
]

eq_bytes_refl : (a : Bytes) → eq_bytes a a ≡ true
unfolding eq_bytes
eq_bytes_refl [] = refl
eq_bytes_refl (x ∷ a) = ground (arith, eq_bytes_refl a)

-- operator== on two String8 answers true just when they are the same bytes.
pub string_eq_iff : (a b : Bytes) → (string_eq a b ≡ true) ↔ (a ≡ b)
unfolding string_eq
string_eq_iff a b = (
  λ h. elim (Bool-cases (length a == length b)) [
    | inl e ↦ eq_bytes-same a b ((==_iff (length a) (length b)).0 e) (rw e at h)
    | inr e ↦ ground (arith, e, h)
  ],
  λ e. rw (e, ==_refl (length b)) (eq_bytes_refl b),
)

c_str_eq-matches_here : (a b : Bytes) → c_str_eq a b ≡ matches_here a b
unfolding c_str_eq matches_here
c_str_eq-matches_here a [] = refl
c_str_eq-matches_here [] (y ∷ b) = refl
c_str_eq-matches_here (x ∷ a) (y ∷ b) = rw (c_str_eq-matches_here a b) refl

matches_here-prefix :
    (haystack needle : Bytes)
    → matches_here haystack needle ≡ true
    → (rest : Bytes) × (haystack ≡ needle ++ rest)
unfolding matches_here
matches_here-prefix haystack [] h = (haystack, refl)
matches_here-prefix [] (y ∷ needle) h = cc
matches_here-prefix (x ∷ haystack) (y ∷ needle) h = elim (Bool-cases (x == y)) [
  | inl e ↦
      let (rest, eq) = matches_here-prefix haystack needle (rw e at h) in
      (rest, rw ((==_iff x y).0 e, eq) refl)
  | inr e ↦ ground (arith, e, h)
]

matches_here-append : (needle rest : Bytes) → matches_here (needle ++ rest) needle ≡ true
unfolding matches_here
matches_here-append [] rest = refl
matches_here-append (y ∷ needle) rest = ground (arith, matches_here-append needle rest)

found_later :
    (haystack needle before rest : Bytes)
    → drop 1 haystack ≡ before ++ (needle ++ rest)
    → (before' : Bytes) × (rest' : Bytes) × (haystack ≡ before' ++ (needle ++ rest'))
found_later [] needle before rest e = (before, rest, e)
found_later (x ∷ haystack) needle before rest e = (x ∷ before, rest, ap (λ (xs : Bytes). x ∷ xs) e)

contains_loop-found :
    (places : ℕ) (haystack needle : Bytes)
    → contains_loop places haystack needle ≡ true
    → (before : Bytes) × (rest : Bytes) × (haystack ≡ before ++ (needle ++ rest))
unfolding contains_loop
contains_loop-found zero haystack needle h =
    let (rest, eq) = matches_here-prefix haystack needle h in ([], rest, eq)
contains_loop-found (suc places) haystack needle h =
    elim (Bool-cases (matches_here haystack needle)) [
      | inl e ↦ let (rest, eq) = matches_here-prefix haystack needle e in ([], rest, eq)
      | inr e ↦
          let (before, rest, eq) =
            contains_loop-found places (drop 1 haystack) needle (rw e at h) in
          found_later haystack needle before rest eq
    ]

contains_loop-place :
    (places : ℕ) (before needle rest : Bytes)
    → length before ≤ places
    → contains_loop places (before ++ (needle ++ rest)) needle ≡ true
unfolding contains_loop
contains_loop-place zero [] needle rest h = matches_here-append needle rest
contains_loop-place zero (x ∷ before) needle rest h = absurd (omega (arith, h))
contains_loop-place (suc places) [] needle rest h = rw (matches_here-append needle rest) refl
contains_loop-place (suc places) (x ∷ before) needle rest h =
    ground (arith, contains_loop-place places before needle rest (omega (arith, h)))

-- contains answers true just when the haystack is some bytes, the needle, and some bytes.
pub contains_iff :
    (haystack needle : Bytes)
    → (contains haystack needle ≡ true)
      ↔ ((before : Bytes) × (rest : Bytes) × (haystack ≡ before ++ (needle ++ rest)))
unfolding contains
contains_iff haystack needle = (
  λ h. elim (Bool-cases (ltb (length haystack) (length needle))) [
    | inl e ↦ ground (arith, e, h)
    | inr e ↦ contains_loop-found (length haystack - length needle) haystack needle (rw e at h)
  ],
  λ (before, rest, e).
      let whole : length haystack ≡ length before + (length needle + length rest) =
        ap length e
        ∙ length-append before (needle ++ rest)
        ∙ ap (λ (n : ℕ). length before + n) (length-append needle rest) in
      rw (le→ltb_false (length haystack) (length needle) (omega (arith, whole)), e)
        (contains_loop-place _ before needle rest (omega (arith, whole, ap length e))),
)

-- operator== on a C string and a String8 answers true just when the String8 is a prefix of the C
-- string.
pub c_str_eq_iff : (a b : Bytes) → (c_str_eq a b ≡ true) ↔ ((rest : Bytes) × (a ≡ b ++ rest))
c_str_eq_iff a b = (
  λ h. matches_here-prefix a b (sym (c_str_eq-matches_here a b) ∙ h),
  λ (rest, e). rw (c_str_eq-matches_here a b, e) (matches_here-append b rest),
)

-- The place i holds c, and none before it does.
abbrev pub First : Bytes → ℕ → ℕ → Type 0
First str c i = (get_elem? str i ≡ some c) × All (λ x. x ≢ c) (take i str)

-- When find gives a place, the character stands there and at no place before it.
pub find_char-First : (str : Bytes) (c i : ℕ) → find_char str c ≡ some i → First str c i
unfolding find_char
find_char-First [] c i h = cc
find_char-First (x ∷ str) c i h = elim (Bool-cases (x == c)) [
  | inl e ↦
      let here : 0 ≡ i = ground (arith, e, h) in
      subst (First (x ∷ str) c) here (ap some ((==_iff x c).0 e), tt)
  | inr e ↦ elim (Option-cases (find_char str c)) [
    | inl f ↦ ground (arith, e, f, h)
    | inr (j, f) ↦
        let (at, before) = find_char-First str c j f in
        let there : suc j ≡ i = ground (arith, e, f, h) in
        subst (First (x ∷ str) c) there (at, (ground (arith, e), before))
  ]
]

-- find gives no place just when every character is another one than the one that is looked for.
pub find_char-none : (str : Bytes) (c : ℕ) → (find_char str c ≡ none) ↔ All (λ x. x ≢ c) str
unfolding find_char
find_char-none [] c = (λ h. tt, λ h. refl)
find_char-none (x ∷ str) c = (
  λ h. (ground (arith, h), (find_char-none str c).0 (ground (arith, h))),
  λ (ne, all). ground (arith, ne, (find_char-none str c).1 all),
)
