-- ===== src/Keyvalue/Glob.antt =====
-- keyvalue/glob/glob.cpp: the matcher of KEYS and SCAN patterns. A byte string is a list of
-- numbers; an index into one is the list of what it has not passed.
pub mod Spec
pub mod Correct
pub mod LiteralStar
mod Runs
use plexdb.Prelude.{
  ℕ, zero, suc, ◌+◌, ◌*◌, Bool, true, false, ◌||◌, Option, none, some, List, [], ◌∷◌, ◌==◌, length,
  drop, if◌then◌else◌,
}

-- `star_pi + 1` in the pattern and `star_ki` in the key; `none` while star_pi is U64(-1).
abbrev pub Star : Type 0
Star = Option (List ℕ × List ℕ)

-- while (pi < pattern.length && pattern[pi] == '*') pi++; return pi == pattern.length;
pub all_stars : List ℕ → Bool
all_stars [] = true
all_stars (x ∷ p) = let rest = all_stars p in if x == b'*' then rest else false

-- The third and the fourth branch: go back behind the last star, which takes one more byte.
pub backtrack : Star → Option (List ℕ × List ℕ × Star)
backtrack none = none
backtrack (some (sp, sk)) = some (sp, drop 1 sk, some (sp, drop 1 sk))

-- One round of the first loop, with `ki < key.length`. `none` is `return false`.
pub round : List ℕ → ℕ → List ℕ → Star → Option (List ℕ × List ℕ × Star)
round [] c k star = backtrack star
round (x ∷ p) c k star =
    if x == b'?' || x == c
    then some (p, k, star)
    else if x == b'*'
    then some (p, c ∷ k, some (p, c ∷ k))
    else backtrack star

-- The two loops, with fuel for the rounds of the first; `none` means that it ran out.
pub loop : ℕ → List ℕ → List ℕ → Star → Option Bool
loop fuel p [] star = some (all_stars p)
loop zero p (c ∷ k) star = none
loop (suc fuel) p (c ∷ k) star = elim (round p c k star) [
  | none ↦ some false
  | some (p', k', star') ↦ loop fuel p' k' star'
]

abbrev pub is_star : List ℕ → Bool
is_star (x ∷ []) = x == b'*'
is_star _ = false

-- Each byte of the key is tried with each place of the pattern at most once, and so is each star.
unfoldable pub match : List ℕ → List ℕ → Option Bool
unfolding loop round backtrack all_stars
match key pattern =
    if is_star pattern
    then some true
    else loop ((length key + 2) * (length pattern + 1)) pattern key none
