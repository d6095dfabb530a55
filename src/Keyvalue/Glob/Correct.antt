-- ===== src/Keyvalue/Glob/Correct.antt =====
-- keyvalue/glob/glob.cpp: the matcher, against the meaning of the pattern.
use plexdb.Prelude.{
  ℕ, zero, suc, ◌+◌, ◌*◌, ◌≤◌, ◌<◌, ◌≡◌, ◌≢◌, refl, sym, ◌∙◌, ap, Bool, true, false, ◌||◌, none,
  some, List, [], ◌∷◌, ◌++◌, ◌==◌, length, drop, arith, append_assoc, length-append, Bool-cases,
  inl, inr, ==_iff, subst, All-append, drop-length-append,
}
use plexdb.Keyvalue.Glob.{Star, is_star, all_stars, backtrack, round, loop, match}
use plexdb.Keyvalue.Glob.Spec.{
  any_suffix, matches, NoStar, any_suffix-segment, any_suffix_long, matches-star, drop-drop_one,
}

-- What the star still allows: that a later place of the key fits what follows it.
later : Star → Bool
later none = false
later (some (sp, sk)) = any_suffix (matches sp) (drop 1 sk)

value : List ℕ → List ℕ → Star → Bool
unfolding later
value p k star = matches p k || later star

-- The bytes behind the star were matched against a part of the pattern with no star.
abbrev Behind : ℕ → List ℕ → List ℕ → Star → Type 0
Behind n p k none = Unit {0}
Behind n p k (some (sp, sk)) =
    (w : List ℕ) × (u : List ℕ) × NoStar w
    × NoStar sk
    × (sp ≡ w ++ p)
    × (sk ≡ u ++ k)
    × (length u ≡ length w)
    × (length sp ≤ n)

-- The key bytes from which a later round can start.
abbrev starts : List ℕ → Star → ℕ
starts k none = length k + 1
starts k (some (sp, sk)) = length sk

measure : ℕ → List ℕ → List ℕ → Star → ℕ
measure n p k star = starts k star * (n + 1) + length p

matches-nil : (p : List ℕ) → matches p [] ≡ all_stars p
unfolding matches all_stars
matches-nil [] = refl
matches-nil (x ∷ p) = ground (arith, matches-nil p)

-- At the end of the key no later place is left that could fit more.
later-nil :
    (n : ℕ) (p : List ℕ) (star : Star)
    → Behind n p [] star
    → later star ≡ true
    → matches p [] ≡ true
unfolding later any_suffix
later-nil n p none b h = cc
later-nil n p (some (sp, sk)) ([], [], nw, nk, ep, ek, el, _) h = rw (ek, ep) at h
later-nil n p (some (sp, sk)) (x ∷ w, [], nw, nk, ep, ek, el, _) h = absurd (omega arith)
later-nil n p (some (sp, sk)) ([], c ∷ u, nw, nk, ep, ek, el, _) h = absurd (omega arith)
later-nil n p (some (sp, sk)) (x ∷ w, c ∷ u, nw, nk, ep, ek, el, _) h =
    let long : any_suffix (matches ((x ∷ w) ++ p)) (u ++ []) ≡ true = (rw (ek, ep) at h) in
    absurd (omega (arith, any_suffix_long (x ∷ w) p (u ++ []) nw long, length-append u []))

value-nil : (n : ℕ) (p : List ℕ) (star : Star) → Behind n p [] star → value p [] star ≡ all_stars p
unfolding value
value-nil n p star b = elim (Bool-cases (later star)) [
  | inl e ↦ ground (arith, matches-nil p, later-nil n p star b e)
  | inr e ↦ ground (arith, matches-nil p)
]

NoStar-drop_one : (k : List ℕ) → NoStar k → NoStar (drop 1 k)
NoStar-drop_one [] h = h
NoStar-drop_one (c ∷ k) h = h.1

any_suffix_lem :
    (f : List ℕ → Bool) (k : List ℕ) → (f k || any_suffix f (drop 1 k)) ≡ any_suffix f k
unfolding any_suffix
any_suffix_lem f [] = ground arith
any_suffix_lem f (c ∷ k) = refl

-- One round either returns false, rightly, or keeps the value and comes nearer to the end.
data Progress (n : ℕ) (p : List ℕ) (c : ℕ) (k : List ℕ) (star : Star) : Type 0 where
  stops : round p c k star ≡ none → value p (c ∷ k) star ≡ false → Progress n p c k star
  goes :
      (p' k' : List ℕ) (star' : Star)
      → round p c k star ≡ some (p', k', star')
      → value p (c ∷ k) star ≡ value p' k' star'
      → Behind n p' k' star'
      → NoStar k'
      → length p' ≤ n
      → measure n p' k' star' < measure n p (c ∷ k) star
      → Progress n p c k star

-- Going back gives up one key byte, and regains at most the whole pattern.
measure-backtrack :
    (n a b : ℕ) (p : List ℕ) → suc a ≤ b → length p ≤ n → a * (n + 1) + length p < b * (n + 1)
measure-backtrack n a b p h le = grind arith

drop_one_shorter :
    (u : List ℕ) (c : ℕ) (k : List ℕ) → suc (length (drop 1 (u ++ (c ∷ k)))) ≤ length (u ++ (c ∷ k))
drop_one_shorter [] c k = omega arith
drop_one_shorter (d ∷ u) c k = omega arith

Progress-backtrack :
    (n : ℕ) (p : List ℕ) (c : ℕ) (k : List ℕ) (star : Star)
    → Behind n p (c ∷ k) star
    → round p c k star ≡ backtrack star
    → matches p (c ∷ k) ≡ false
    → Progress n p c k star
unfolding backtrack value measure
Progress-backtrack n p c k none b e m = stops e (rw m)
Progress-backtrack n p c k (some (sp, sk)) (w, u, nw, nk, ep, ek, el, le) e m =
    goes sp (drop 1 sk) (some (sp, drop 1 sk)) e
      (rw m (sym (any_suffix_lem (matches sp) (drop 1 sk))))
      ([], [], tt, NoStar-drop_one sk nk, refl, refl, refl, le) (NoStar-drop_one sk nk) le
      (omega (
        arith,
        measure-backtrack n (length (drop 1 sk)) (length sk) sp (rw ek (drop_one_shorter u c k)) le,
      ))

-- A star makes what an earlier star still allows superfluous.
later-star :
    (n : ℕ) (p k : List ℕ) (c : ℕ) (star : Star)
    → Behind n (b'*' ∷ p) (c ∷ k) star
    → later star ≡ true
    → any_suffix (matches p) k ≡ true
unfolding later
later-star n p k c none b h = cc
later-star n p k c (some (sp, sk)) (w, u, nw, nk, ep, ek, el, le) h =
    let from_star : any_suffix (matches (w ++ (b'*' ∷ p))) (drop 1 (u ++ (c ∷ k))) ≡ true =
      (rw (ek, ep) at h) in
    rw (drop-drop_one, ← el, drop-length-append) at (any_suffix-segment w p _ nw from_star)

starts-star :
    (n : ℕ) (p k : List ℕ) (c : ℕ) (star : Star)
    → Behind n p (c ∷ k) star
    → length (c ∷ k) ≤ starts (c ∷ k) star
starts-star n p k c none b = omega arith
starts-star n p k c (some (sp, sk)) (w, u, nw, nk, ep, ek, el, le) =
    rw ek (omega (arith, length-append u (c ∷ k)))

value-star :
    (n : ℕ) (p k : List ℕ) (c : ℕ) (star : Star)
    → Behind n (b'*' ∷ p) (c ∷ k) star
    → value (b'*' ∷ p) (c ∷ k) star ≡ value p (c ∷ k) (some (p, c ∷ k))
unfolding value any_suffix
value-star n p k c star b = elim (Bool-cases (later star)) [
  | inl e ↦ ground (arith, matches-star p (c ∷ k), later-star n p k c star b e)
  | inr e ↦ ground (arith, matches-star p (c ∷ k))
]

-- A byte of the pattern that is no star and fits the key's byte: both are passed.
Behind-pass :
    (n x c : ℕ) (p k : List ℕ) (star : Star)
    → x ≢ b'*'
    → Behind n (x ∷ p) (c ∷ k) star
    → Behind n p k star
Behind-pass n x c p k none nx b = tt
Behind-pass n x c p k (some (sp, sk)) nx (w, u, nw, nk, ep, ek, el, le) = (
  w ++ (x ∷ []),
  u ++ (c ∷ []),
  All-append (λ y. y ≢ b'*') w (x ∷ []) nw (nx, tt),
  nk,
  rw append_assoc ep,
  rw append_assoc ek,
  omega (arith, length-append u (c ∷ []), length-append w (x ∷ [])),
  le,
)

measure-pass :
    (n x c : ℕ) (p k : List ℕ) (star : Star) → measure n p k star < measure n (x ∷ p) (c ∷ k) star
unfolding measure
measure-pass n x c p k none = grind arith
measure-pass n x c p k (some (sp, sk)) = omega arith

measure-star :
    (n : ℕ) (p k : List ℕ) (c : ℕ) (star : Star)
    → length (c ∷ k) ≤ starts (c ∷ k) star
    → measure n p (c ∷ k) (some (p, c ∷ k)) < measure n (b'*' ∷ p) (c ∷ k) star
unfolding measure
measure-star n p k c star h = grind arith

-- The first branch.
Progress-pass :
    (n x c : ℕ) (p k : List ℕ) (star : Star)
    → NoStar (c ∷ k)
    → length (x ∷ p) ≤ n
    → Behind n (x ∷ p) (c ∷ k) star
    → (x == b'?' || x == c) ≡ true
    → Progress n (x ∷ p) c k star
unfolding round value matches
Progress-pass n x c p k star (nc, nk) le b e =
    let nx : x ≢ b'*' = λ is. ground arith in
    goes p k star (ground arith) (ground arith) (Behind-pass n x c p k star nx b) nk (omega arith)
      (measure-pass n x c p k star)

Progress-star :
    (n c : ℕ) (p k : List ℕ) (star : Star)
    → NoStar (c ∷ k)
    → length (b'*' ∷ p) ≤ n
    → Behind n (b'*' ∷ p) (c ∷ k) star
    → Progress n (b'*' ∷ p) c k star
unfolding round
Progress-star n c p k star nk le b =
    goes p (c ∷ k) (some (p, c ∷ k)) (ground (arith, nk.0)) (value-star n p k c star b)
      ([], [], tt, nk, refl, refl, refl, omega arith) nk (omega arith)
      (measure-star n p k c star (starts-star n (b'*' ∷ p) k c star b))

round-Progress :
    (n : ℕ) (p : List ℕ) (c : ℕ) (k : List ℕ) (star : Star)
    → NoStar (c ∷ k)
    → length p ≤ n
    → Behind n p (c ∷ k) star
    → Progress n p c k star
unfolding round matches
round-Progress n [] c k star nk le b = Progress-backtrack n [] c k star b refl refl
round-Progress n (x ∷ p) c k star nk le b = elim (Bool-cases (x == b'?' || x == c)) [
  | inl e ↦ Progress-pass n x c p k star nk le b e
  | inr e ↦ elim (Bool-cases (x == b'*')) [
    | inl s ↦
        subst
          (λ y. length (y ∷ p) ≤ n → Behind n (y ∷ p) (c ∷ k) star → Progress n (y ∷ p) c k star)
          (sym ((==_iff x b'*').0 s)) (Progress-star n c p k star nk) le b
    | inr s ↦ Progress-backtrack n (x ∷ p) c k star b (ground arith) (ground arith)
  ]
]

loop-value :
    (n fuel : ℕ) (p k : List ℕ) (star : Star)
    → NoStar k
    → length p ≤ n
    → Behind n p k star
    → measure n p k star < fuel
    → loop fuel p k star ≡ some (value p k star)
unfolding loop
loop-value n fuel p [] star nk le b h = rw (value-nil n p star b)
loop-value n zero p (c ∷ k) star nk le b h = absurd (omega arith)
loop-value n (suc fuel) p (c ∷ k) star nk le b h = elim (round-Progress n p c k star nk le b) [
  | stops e v ↦ rw (e, loop, v)
  | goes p' k' star' e v b' nk' le' m ↦
      rw (e, loop, v) (loop-value n fuel p' k' star' nk' le' b' (omega arith))
]

any_suffix_of_nil : (k : List ℕ) → any_suffix (matches []) k ≡ true
unfolding any_suffix matches
any_suffix_of_nil [] = refl
any_suffix_of_nil (c ∷ k) = any_suffix_of_nil k

matches-is_star : (k p : List ℕ) → is_star p ≡ true → matches p k ≡ true
unfolding matches
matches-is_star k [] h = cc
matches-is_star k (x ∷ []) h = ground (arith, any_suffix_of_nil k)
matches-is_star k (x ∷ y ∷ p) h = cc

enough_fuel : (m n : ℕ) → (m + 1) * (n + 1) + n < (m + 2) * (n + 1)
enough_fuel m n = grind arith

-- For a key with no byte `*`, the matcher returns, with the fuel that the lengths give, and its
-- answer is the declarative meaning of the pattern: `*` stands for any bytes, `?` for one, each
-- other byte for itself.
pub match-matches :
    (key pattern : List ℕ) → NoStar key → match key pattern ≡ some (matches pattern key)
unfolding match value measure
match-matches key pattern nk = elim (Bool-cases (is_star pattern)) [
  | inl e ↦ rw (e, matches-is_star key pattern e)
  | inr e ↦ rw e (
      loop-value (length pattern) _ pattern key none nk (omega arith) tt
        (enough_fuel (length key) (length pattern))
      ∙ ap some (ground arith))
]
