-- ===== src/Cql/Codec/Mask.antt =====
-- cql/engine/io.codec.cpp: the words of a null mask, a bit for each field, 64 bits to a word.
use plexdb.Prelude.{
  ℕ, zero, suc, ◌+◌, ◌/◌, ◌%◌, ◌^◌, ◌≤◌, ◌<◌, ◌≡◌, ◌≢◌, ◌∙◌, refl, sym, ap, max, bit_or, Option,
  some, Bool, true, false, ◌&&◌, not, List, [], ◌∷◌, ◌++◌, ltb, ◌==◌, if◌then◌else◌, length,
  replicate, set, All, length-set, length-replicate, arith, inl, inr, Bool-cases,
}
use native.Mathlib.Nat.{pow-le-pow_right}
use plexdb.Prelude.Words.{
  shr, bit_at, shr-bit_at, bit_at-bit_or, bit_at-power, bit_at-none, bit_or-bound,
}
use plexdb.Prelude.Fallible.{◌>>=◌}
use plexdb.Core.Text.{Bytes}
use plexdb.Cql.Wire.{le, read_uint, read_uint-le}

-- mask[i], for a word that is there.
abbrev pub word_at : List ℕ → ℕ → ℕ
word_at [] i = 0
word_at (w ∷ mask) zero = w
word_at (w ∷ mask) (suc i) = word_at mask i

-- A count of fields is far from where the sum would not fit in a U64.
abbrev pub mask_words : ℕ → ℕ
mask_words count = (count + 63) / 64

pub mask_bit : List ℕ → ℕ → Bool
mask_bit mask i = ltb 0 (length mask) && not (shr (word_at mask (i / 64)) (i % 64) % 2 == 0)

-- mask[i / 64] |= 1_u64 << (i % 64)
pub set_bit : List ℕ → ℕ → List ℕ
set_bit mask i = set mask (i / 64) (bit_or (word_at mask (i / 64)) (2 ^ (i % 64)))

-- for (i = 0; i < mask_words; i++) r(&mask[i], sizeof(U64))
pub read_words : ℕ → Bytes → Option (List ℕ × Bytes)
read_words zero input = some ([], input)
read_words (suc n) input = do
  (word, input') ← read_uint 8 input
  (mask, rest) ← read_words n input'
  some (word ∷ mask, rest)

pub read_mask : Bytes → ℕ → Option (List ℕ × Bytes)
read_mask input count = read_words (mask_words count) input

pub write_words : List ℕ → Bytes
write_words [] = []
write_words (word ∷ mask) = le 8 word ++ write_words mask

pub write_empty_mask : ℕ → Bytes
write_empty_mask count = write_words (replicate (mask_words count) 0)

abbrev IsWord : ℕ → Type 0
IsWord w = w < 2 ^ 64

abbrev pub AreWords : List ℕ → Type 0
AreWords mask = All IsWord mask

pub read_words-write_words :
    (mask : List ℕ) (rest : Bytes)
    → AreWords mask
    → read_words (length mask) (write_words mask ++ rest) ≡ some (mask, rest)
unfolding read_words write_words
read_words-write_words [] rest h = refl
read_words-write_words (word ∷ mask) rest (hw, h) =
    rw (read_uint-le 8 word (write_words mask ++ rest) hw, read_words-write_words mask rest h) refl

pub read_mask-write_words :
    (mask : List ℕ) (rest : Bytes) (count : ℕ)
    → length mask ≡ mask_words count
    → AreWords mask
    → read_mask (write_words mask ++ rest) count ≡ some (mask, rest)
unfolding read_mask
read_mask-write_words mask rest count l h = rw (sym l) (read_words-write_words mask rest h)

-- A word with one more bit, in the list.
word_at-set_same : (mask : List ℕ) (i v : ℕ) → i < length mask → word_at (set mask i v) i ≡ v
word_at-set_same [] i v h = absurd (omega arith)
word_at-set_same (w ∷ mask) zero v h = refl
word_at-set_same (w ∷ mask) (suc i) v h = word_at-set_same mask i v (omega (arith, h))

word_at-set_other : (mask : List ℕ) (i j v : ℕ) → j ≢ i → word_at (set mask i v) j ≡ word_at mask j
word_at-set_other [] i j v h = refl
word_at-set_other (w ∷ mask) zero zero v h = absurd (h refl)
word_at-set_other (w ∷ mask) zero (suc j) v h = refl
word_at-set_other (w ∷ mask) (suc i) zero v h = refl
word_at-set_other (w ∷ mask) (suc i) (suc j) v h = word_at-set_other mask i j v (λ e. h (ap suc e))

pub length-set_bit : (mask : List ℕ) (i : ℕ) → length (set_bit mask i) ≡ length mask
unfolding set_bit
length-set_bit mask i = length-set mask (i / 64) _

word_at-replicate : (n i : ℕ) → word_at (replicate n 0) i ≡ 0
word_at-replicate zero i = refl
word_at-replicate (suc n) zero = refl
word_at-replicate (suc n) (suc i) = word_at-replicate n i

away : (i j : ℕ) → i ≢ j → j / 64 ≡ i / 64 → (j % 64 == i % 64) ≡ false
away i j ne e = elim (Bool-cases (j % 64 == i % 64)) [
  | inl e' ↦ let same : j % 64 ≡ i % 64 = ground (arith, e') in absurd (ne (omega (arith, e, same)))
  | inr e' ↦ e'
]

-- The bit that is set, and every other one.
pub mask_bit-set_bit_same :
    (mask : List ℕ) (i : ℕ) → i / 64 < length mask → mask_bit (set_bit mask i) i ≡ true
unfolding mask_bit set_bit
mask_bit-set_bit_same mask i h =
    let w = word_at mask (i / 64) in
    let k = i % 64 in
    let there : ltb 0 (length mask) ≡ true = ground (arith, h) in
    let bit : bit_at k (bit_or w (2 ^ k)) ≡ max (bit_at k w) 1 =
      bit_at-bit_or k w (2 ^ k) ∙ ap (max (bit_at k w)) (bit_at-power k k ∙ ground arith) in
    rw
      (
        length-set mask (i / 64) (bit_or w (2 ^ k)),
        there,
        word_at-set_same mask (i / 64) (bit_or w (2 ^ k)) h,
        shr-bit_at k (bit_or w (2 ^ k)),
        bit,
      )
      (ground arith)

pub mask_bit-set_bit_other :
    (mask : List ℕ) (i j : ℕ)
    → i / 64 < length mask
    → i ≢ j
    → mask_bit (set_bit mask i) j ≡ mask_bit mask j
unfolding mask_bit set_bit
mask_bit-set_bit_other mask i j h ne =
    let w = word_at mask (i / 64) in
    let k = i % 64 in
    let v = bit_or w (2 ^ k) in
    elim (Bool-cases (i / 64 == j / 64)) [
      | inl e ↦
          let same : j / 64 ≡ i / 64 = ground (arith, e) in
          let apart : (j % 64 == k) ≡ false = away i j ne same in
          let zero_bit : bit_at (j % 64) (2 ^ k) ≡ 0 =
            bit_at-power (j % 64) k ∙ ap (λ b. if b then 1 else 0) apart in
          let bit : bit_at (j % 64) v ≡ bit_at (j % 64) w =
            omega (arith, bit_at-bit_or (j % 64) w (2 ^ k), zero_bit) in
          rw
            (
              length-set mask (i / 64) v,
              same,
              word_at-set_same mask (i / 64) v h,
              shr-bit_at (j % 64) v,
              shr-bit_at (j % 64) w,
              bit,
            )
            refl
      | inr e ↦
          rw
            (
              length-set mask (i / 64) v,
              word_at-set_other mask (i / 64) (j / 64) v (λ e'. absurd (ground (arith, e, e'))),
            )
            refl
    ]

pub mask_bit-replicate : (n j : ℕ) → mask_bit (replicate n 0) j ≡ false
unfolding mask_bit
mask_bit-replicate n j =
    let none : word_at (replicate n 0) (j / 64) ≡ 0 = word_at-replicate n (j / 64) in
    rw (none, shr-bit_at (j % 64) 0, bit_at-none (j % 64)) (ground arith)

pub AreWords-replicate : (n : ℕ) → AreWords (replicate n 0)
AreWords-replicate zero = tt
AreWords-replicate (suc n) = (omega arith, AreWords-replicate n)

AreWords-set : (mask : List ℕ) (i v : ℕ) → AreWords mask → v < 2 ^ 64 → AreWords (set mask i v)
AreWords-set [] i v h k = h
AreWords-set (w ∷ mask) zero v (hw, h) k = (k, h)
AreWords-set (w ∷ mask) (suc i) v (hw, h) k = (hw, AreWords-set mask i v h k)

word_at-bound : (mask : List ℕ) (i : ℕ) → AreWords mask → word_at mask i < 2 ^ 64
word_at-bound [] i h = omega arith
word_at-bound (w ∷ mask) zero (hw, h) = hw
word_at-bound (w ∷ mask) (suc i) (hw, h) = word_at-bound mask i h

power_bound : (k : ℕ) → k < 64 → 2 ^ k < 2 ^ 64
power_bound k h =
    let top : 2 ^ k ≤ 2 ^ 63 =
      pow-le-pow_right {n = 2} (omega arith) {i = k} {j = 63} (omega (arith, h)) in
    omega (arith, top)

pub AreWords-set_bit : (mask : List ℕ) (i : ℕ) → AreWords mask → AreWords (set_bit mask i)
unfolding set_bit
AreWords-set_bit mask i h = AreWords-set mask (i / 64) _ h (
    bit_or-bound 64 (word_at mask (i / 64)) (2 ^ (i % 64)) (word_at-bound mask (i / 64) h)
      (power_bound (i % 64) (omega arith)))

-- The bit, by the digits of the word.
pub mask_bit-bit_at :
    (mask : List ℕ) (i : ℕ) → mask_bit mask i ≡ not (bit_at (i % 64) (word_at mask (i / 64)) == 0)
unfolding mask_bit
mask_bit-bit_at [] i = rw (bit_at-none (i % 64)) refl
mask_bit-bit_at (w ∷ mask) i =
    let there : ltb 0 (suc (length mask)) ≡ true = ground arith in
    rw (there, shr-bit_at (i % 64) (word_at (w ∷ mask) (i / 64))) refl

-- A mask with no bit.
pub read_mask-empty :
    (count : ℕ) (rest : Bytes)
    → read_mask (write_empty_mask count ++ rest) count ≡ some (replicate (mask_words count) 0, rest)
unfolding write_empty_mask
read_mask-empty count rest =
    read_mask-write_words (replicate (mask_words count) 0) rest count
      (length-replicate {A = ℕ} (mask_words count) 0) (AreWords-replicate (mask_words count))
