-- ===== src/Keyvalue/Glob/LiteralStar.antt =====
-- keyvalue/glob/glob.cpp: a star of the pattern before a byte `*` of the key, which is the first
-- branch of the loop.
use plexdb.Prelude.{
  ℕ, suc, ◌+◌, ◌-◌, ◌*◌, ◌≡◌, ◌≢◌, Bool, true, false, none, some, List, [], ◌∷◌, arith, length,
}
use plexdb.Keyvalue.Glob.{round, loop, match, backtrack}
use plexdb.Keyvalue.Glob.Spec.{any_suffix, matches, matches-star}

loop_literal_star :
    (fuel c y : ℕ) (k p : List ℕ)
    → y ≢ b'?'
    → y ≢ b'*'
    → y ≢ c
    → loop (suc (suc fuel)) (b'*' ∷ y ∷ p) (b'*' ∷ c ∷ k) none ≡ some false
unfolding loop round backtrack
loop_literal_star fuel c y k p nq ns ne = ground arith

any_suffix_self : (f : List ℕ → Bool) (k : List ℕ) → f k ≡ true → any_suffix f k ≡ true
unfolding any_suffix
any_suffix_self f [] h = h
any_suffix_self f (c ∷ k) h = ground arith

any_suffix-later_two :
    (f : List ℕ → Bool) (b c : ℕ) (k : List ℕ) → f k ≡ true → any_suffix f (b ∷ c ∷ k) ≡ true
unfolding any_suffix
any_suffix-later_two f b c k h = ground (arith, any_suffix_self f k h)

two_rounds :
    (m n : ℕ)
    → (suc (suc m) + 2) * (suc (suc n) + 1) ≡ suc (suc ((suc (suc m) + 2) * (suc (suc n) + 1) - 2))
two_rounds m n = omega arith

-- For a key that starts with the bytes `*` and c, and a pattern that starts with `*` and a plain
-- byte other than c, where the rest of the key belongs to the rest of the pattern behind the star,
-- the matcher answers false and the meaning of the pattern says true.
pub match_literal_star :
    (c y : ℕ) (k p : List ℕ)
    → y ≢ b'?'
    → y ≢ b'*'
    → y ≢ c
    → matches (y ∷ p) k ≡ true
    → (match (b'*' ∷ c ∷ k) (b'*' ∷ y ∷ p) ≡ some false)
      × (matches (b'*' ∷ y ∷ p) (b'*' ∷ c ∷ k) ≡ true)
unfolding match
match_literal_star c y k p nq ns ne m = (
  rw (two_rounds (length k) (length p)) (loop_literal_star _ c y k p nq ns ne),
  rw matches-star (any_suffix-later_two (matches (y ∷ p)) b'*' c k m),
)
