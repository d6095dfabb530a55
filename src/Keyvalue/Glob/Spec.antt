-- ===== src/Keyvalue/Glob/Spec.antt =====
-- What a glob pattern means, by recursion on the pattern and with no state: `?` stands for any
-- byte, `*` for any bytes, and any other byte for itself.
use plexdb.Prelude.{
  ℕ, zero, suc, Bool, true, false, ◌||◌, ◌&&◌, List, [], ◌∷◌, ◌++◌, ◌==◌, ◌≤◌, ◌≡◌, refl, length,
  drop, arith, All, ◌≢◌, if◌then◌else◌, inl, inr, Bool-cases,
}

-- Some suffix satisfies the test.
unfoldable pub any_suffix : (List ℕ → Bool) → List ℕ → Bool
any_suffix f [] = f []
any_suffix f (c ∷ k) = f (c ∷ k) || any_suffix f k

unfoldable pub one_byte : ℕ → (List ℕ → Bool) → List ℕ → Bool
one_byte x f [] = false
one_byte x f (c ∷ k) = (x == b'?' || x == c) && f k

unfoldable pub matches : List ℕ → List ℕ → Bool
unfolding any_suffix one_byte
matches [] [] = true
matches [] (c ∷ k) = false
matches (x ∷ p) k = if x == b'*' then any_suffix (matches p) k else one_byte x (matches p) k

abbrev pub NoStar : List ℕ → Type 0
NoStar = All (λ x. x ≢ b'*')

any_suffix-drop_one :
    (f : List ℕ → Bool) (k : List ℕ) → any_suffix f (drop 1 k) ≡ true → any_suffix f k ≡ true
unfolding any_suffix
any_suffix-drop_one f [] h = h
any_suffix-drop_one f (c ∷ k) h = ground arith

-- A part with no star takes one byte for each of its places.
matches_segment :
    (w p s : List ℕ)
    → NoStar w
    → matches (w ++ p) s ≡ true
    → (length w ≤ length s) × (matches p (drop (length w) s) ≡ true)
unfolding matches
matches_segment [] p s h m = (omega arith, m)
matches_segment (x ∷ w) p [] h m = ground (arith, h.0)
matches_segment (x ∷ w) p (c ∷ s) h m = ground (arith, h.0, matches_segment w p s h.1)

pub drop-drop_one : (n : ℕ) (t : List ℕ) → drop n (drop 1 t) ≡ drop 1 (drop n t)
drop-drop_one zero t = refl
drop-drop_one (suc n) [] = refl
drop-drop_one (suc zero) (c ∷ t) = refl
drop-drop_one (suc (suc n)) (c ∷ []) = refl
drop-drop_one (suc (suc n)) (c ∷ d ∷ t) = drop-drop_one (suc n) (d ∷ t)

pub matches-star : (p k : List ℕ) → matches (b'*' ∷ p) k ≡ any_suffix (matches p) k
unfolding matches
matches-star p k = refl

-- Where a later place of the key fits a part with no star and a star behind it, the star alone
-- fits from the present place on.
pub any_suffix-segment :
    (w p t : List ℕ)
    → NoStar w
    → any_suffix (matches (w ++ (b'*' ∷ p))) t ≡ true
    → any_suffix (matches p) (drop (length w) t) ≡ true
unfolding any_suffix
any_suffix-segment w p [] h m = rw (matches-star p _) at ((matches_segment w (b'*' ∷ p) [] h m).1)
any_suffix-segment w p (c ∷ t) h m = elim (Bool-cases (matches (w ++ (b'*' ∷ p)) (c ∷ t))) [
  | inl e ↦ rw (matches-star p _) at ((matches_segment w (b'*' ∷ p) (c ∷ t) h e).1)
  | inr e ↦
      any_suffix-drop_one (matches p) (drop (length w) (c ∷ t))
        (rw (drop-drop_one (length w) (c ∷ t)) at (any_suffix-segment w p t h (rw e at m)))
]

pub any_suffix_long :
    (w p t : List ℕ) → NoStar w → any_suffix (matches (w ++ p)) t ≡ true → length w ≤ length t
unfolding any_suffix
any_suffix_long w p [] h m = (matches_segment w p [] h m).0
any_suffix_long w p (c ∷ t) h m = ground (
  arith,
  any_suffix_long w p t h,
  λ (e : matches (w ++ p) (c ∷ t) ≡ true). matches_segment w p (c ∷ t) h e,
)
