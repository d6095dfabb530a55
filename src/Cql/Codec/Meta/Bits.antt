-- ===== src/Cql/Codec/Meta/Bits.antt =====
-- The words of write_mask_bits have a bit for each column (cql/engine/io.codec.cpp).
use plexdb.Prelude.{
  ℕ, zero, suc, ◌+◌, ◌-◌, ◌*◌, ◌/◌, ◌%◌, ◌^◌, ◌≤◌, ◌<◌, ◌≡◌, ◌∙◌, refl, sym, ap, ltb→lt, bit_or,
  Bool, true, false, not, ◌∷◌, ◌==◌, ltb, inl, inr, Bool-cases, if◌then◌else◌, arith,
}
use plexdb.Prelude.Words.{bit_at, bit_at-bit_or, bit_at-power, bit_at-none}
use plexdb.Cql.Codec.Mask.{word_at, mask_bit, mask_bit-bit_at}
use plexdb.Cql.Codec.Meta.{mask_words_of}

abbrev digit : Bool → ℕ
digit b = if b then 1 else 0

added_digit : (k i : ℕ) (b : Bool) → bit_at k (digit b * 2 ^ i) ≡ (if k == i then digit b else 0)
added_digit k i true = let same : 1 * 2 ^ i ≡ 2 ^ i = omega arith in rw same (bit_at-power k i)
added_digit k i false =
    let same : 0 * 2 ^ i ≡ 0 = omega arith in rw (same, bit_at-none k) (ground arith)

-- The word with the bit of column i, at that place and at another.
added_same :
    (mask i : ℕ) (b : Bool) → bit_at i mask ≡ 0 → bit_at i (bit_or mask (digit b * 2 ^ i)) ≡ digit b
added_same mask i b h =
    let e : (i == i) ≡ true = ground arith in
    bit_at-bit_or i mask (digit b * 2 ^ i) ∙ rw (h, added_digit i i b, e) (omega arith)

added_other :
    (mask k i : ℕ) (b : Bool)
    → (k == i) ≡ false
    → bit_at k (bit_or mask (digit b * 2 ^ i)) ≡ bit_at k mask
added_other mask k i b e =
    bit_at-bit_or k mask (digit b * 2 ^ i) ∙ rw (added_digit k i b, e) (omega arith)

not_same : {a b : ℕ} → ¬ (a ≡ b) → (a == b) ≡ false
not_same {a} {b} ne = elim (Bool-cases (a == b)) [
  | inl e ↦ absurd (ne (ground (arith, e)))
  | inr e ↦ e
]

-- The word while column idx is added to it, and the two ways of the loop.
abbrev with_column : (ℕ → Bool) → ℕ → ℕ → ℕ
with_column is_set idx mask = bit_or mask (digit (is_set idx) * 2 ^ (idx % 64))

word_full :
    (is_set : ℕ → Bool) (n idx mask : ℕ)
    → (idx % 64 == 63) ≡ true
    → mask_words_of is_set (suc n) idx mask
      ≡ with_column is_set idx mask ∷ mask_words_of is_set n (suc idx) 0
unfolding mask_words_of
word_full is_set n idx mask e = rw e refl

word_part :
    (is_set : ℕ → Bool) (n idx mask : ℕ)
    → (idx % 64 == 63) ≡ false
    → mask_words_of is_set (suc n) idx mask
      ≡ mask_words_of is_set n (suc idx) (with_column is_set idx mask)
unfolding mask_words_of
word_part is_set n idx mask e = rw e refl

-- The digits of the columns of the word up to idx.
with_column-digit :
    (is_set : ℕ → Bool) (idx mask j : ℕ)
    → bit_at (idx % 64) mask ≡ 0
    → idx / 64 * 64 ≤ j
    → j ≤ idx
    → bit_at (j % 64) (with_column is_set idx mask)
      ≡ (if ltb j idx then bit_at (j % 64) mask else digit (is_set j))
with_column-digit is_set idx mask j none low high = elim (Bool-cases (ltb j idx)) [
  | inl e ↦
      let less = ltb→lt j idx e in
      let apart : (j % 64 == idx % 64) ≡ false = not_same (omega (arith, less, low)) in
      rw e (added_other mask (j % 64) (idx % 64) (is_set idx) apart)
  | inr e ↦
      let same : j ≡ idx = ground (arith, e, high) in
      rw (e, same) (added_same mask (idx % 64) (is_set idx) none)
]

below_last : (idx : ℕ) → (idx % 64 == 63) ≡ false → idx % 64 < 63
below_last idx e = elim (Bool-cases (ltb (idx % 64) 63)) [
  | inl e' ↦ ltb→lt (idx % 64) 63 e'
  | inr e' ↦ absurd (false≢true idx (omega arith) e' e)
]
  where
    false≢true :
        (idx : ℕ) → idx % 64 < 64 → ltb (idx % 64) 63 ≡ false → (idx % 64 == 63) ≡ false → ⊥
    false≢true idx b e' e = ground (arith, b, e', e)

mask_words_of-digits :
    (is_set : ℕ → Bool) (n idx mask j : ℕ)
    → ((k : ℕ) → idx % 64 ≤ k → bit_at k mask ≡ 0)
    → idx / 64 * 64 ≤ j
    → j < idx + n
    → bit_at (j % 64) (word_at (mask_words_of is_set n idx mask) (j / 64 - idx / 64))
      ≡ (if ltb j idx then bit_at (j % 64) mask else digit (is_set j))
unfolding mask_words_of
mask_words_of-digits is_set zero idx mask j h le lt =
    let inside : (idx % 64 == 0) ≡ false = not_same (omega (arith, le, lt)) in
    let here : j / 64 - idx / 64 ≡ 0 = omega (arith, le, lt) in
    let before : ltb j idx ≡ true = ground (arith, lt) in rw (inside, here, before) refl
mask_words_of-digits is_set (suc n) idx mask j h le lt = elim (Bool-cases (idx % 64 == 63)) [
  | inl e ↦ elim (Bool-cases (ltb idx j)) [
    | inl e' ↦
        let last : idx % 64 ≡ 63 = ground (arith, e) in
        let after = ltb→lt idx j e' in
        let later : j / 64 - idx / 64 ≡ suc (j / 64 - suc idx / 64) = omega (arith, after, last) in
        let not_before : ltb j idx ≡ false = ground (arith, e') in
        let not_before' : ltb j (suc idx) ≡ false = ground (arith, e') in
        rw
          (
            word_full is_set n idx mask e,
            later,
            not_before,
            sym (ap (λ b. if b then bit_at (j % 64) 0 else digit (is_set j)) not_before'),
          )
          (mask_words_of-digits is_set n (suc idx) 0 j (λ k le'. bit_at-none k)
            (omega (arith, after, last)) (omega (arith, lt)))
    | inr e' ↦
        let high : j ≤ idx = ground (arith, e') in
        let here : j / 64 - idx / 64 ≡ 0 = omega (arith, high) in
        rw (word_full is_set n idx mask e, here)
          (with_column-digit is_set idx mask j (h (idx % 64) (omega arith)) le high)
  ]
  | inr e ↦
      let not_last = below_last idx e in
      let mask' = with_column is_set idx mask in
      let block : suc idx / 64 ≡ idx / 64 = omega (arith, not_last) in
      let rest =
        mask_words_of-digits is_set n (suc idx) mask' j
          (λ k le'.
            added_other mask k (idx % 64) (is_set idx)
              (not_same (λ same. absurd (omega (arith, le', same, not_last))))
            ∙ h k (omega (arith, le', not_last)))
          (omega (arith, le, block)) (omega (arith, lt)) in
      rw (word_part is_set n idx mask e, sym block)
        (rest ∙ elim (Bool-cases (ltb idx j)) [
          | inl e' ↦
              let not_before : ltb j idx ≡ false = ground (arith, e') in
              let not_before' : ltb j (suc idx) ≡ false = ground (arith, e') in
              rw (not_before, not_before') refl
          | inr e' ↦
              let high : j ≤ idx = ground (arith, e') in
              let before' : ltb j (suc idx) ≡ true = ground (arith, e') in
              rw before' (with_column-digit is_set idx mask j (h (idx % 64) (omega arith)) le high)
        ])
]

digit_back : (b : Bool) → not (digit b == 0) ≡ b
digit_back true = refl
digit_back false = refl

-- In the words that write_mask_bits writes for some columns, the bit of each column is what is_set
-- says of it.
pub mask_bit-mask_words_of :
    (is_set : ℕ → Bool) (column_count j : ℕ)
    → j < column_count
    → mask_bit (mask_words_of is_set column_count 0 0) j ≡ is_set j
mask_bit-mask_words_of is_set column_count j lt =
    let from_start : j / 64 ≡ j / 64 - 0 / 64 = omega arith in
    let not_before : ltb j 0 ≡ false = ground arith in
    let digits =
      mask_words_of-digits is_set column_count 0 0 j (λ k le. bit_at-none k) (omega arith)
        (omega (arith, lt)) in
    mask_bit-bit_at (mask_words_of is_set column_count 0 0) j
    ∙ ap (λ d. not (d == 0))
        (ap (λ i. bit_at (j % 64) (word_at (mask_words_of is_set column_count 0 0) i)) from_start
          ∙ digits
          ∙ ap (λ b. if b then bit_at (j % 64) 0 else digit (is_set j)) not_before)
    ∙ digit_back (is_set j)
