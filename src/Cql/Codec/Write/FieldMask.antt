-- ===== src/Cql/Codec/Write/FieldMask.antt =====
-- The mask that write_masked_payloads writes has a bit for each field that is not Null
-- (cql/engine/io.codec.cpp).
use plexdb.Prelude.{
  ℕ, suc, ◌+◌, ◌*◌, ◌≤◌, ◌<◌, ◌≡◌, ◌≢◌, ◌∙◌, refl, Bool, true, false, List, length,
  length-replicate, replicate, if◌then◌else◌, some, ◌++◌, arith,
}
use plexdb.Core.Text.{Bytes}
use plexdb.Cql.Types.{ColumnTypes}
use plexdb.Cql.Value.{ColumnValues, values_length}
use plexdb.Cql.Codec.Mask.{
  AreWords, mask_words, mask_bit, set_bit, read_mask, write_words, read_mask-write_words,
  mask_bit-set_bit_same, mask_bit-set_bit_other, mask_bit-replicate, AreWords-replicate,
  AreWords-set_bit, length-set_bit,
}
use plexdb.Cql.Codec.Nested.{types_length}
use plexdb.Cql.Codec.Write.{is_value, mask_of, field_mask}

-- From field i on, the bits of the mask say which values are not Null.
abbrev pub IsMaskOf : List ℕ → ColumnValues → ℕ → Type 0
IsMaskOf mask ColumnValues.no_values i = Unit
IsMaskOf mask (ColumnValues.a_value v vs) i =
    (mask_bit mask i ≡ is_value v) × IsMaskOf mask vs (suc i)

abbrev one_bit : Bool → List ℕ → ℕ → List ℕ
one_bit bit mask i = if bit then set_bit mask i else mask

length-one_bit : (bit : Bool) (mask : List ℕ) (i : ℕ) → length (one_bit bit mask i) ≡ length mask
length-one_bit true mask i = length-set_bit mask i
length-one_bit false mask i = refl

AreWords-one_bit :
    (bit : Bool) (mask : List ℕ) (i : ℕ) → AreWords mask → AreWords (one_bit bit mask i)
AreWords-one_bit true mask i h = AreWords-set_bit mask i h
AreWords-one_bit false mask i h = h

mask_bit-one_bit_same :
    (bit : Bool) (mask : List ℕ) (i : ℕ)
    → i < 64 * length mask
    → mask_bit mask i ≡ false
    → mask_bit (one_bit bit mask i) i ≡ bit
mask_bit-one_bit_same true mask i h e = mask_bit-set_bit_same mask i (omega (arith, h))
mask_bit-one_bit_same false mask i h e = e

mask_bit-one_bit_other :
    (bit : Bool) (mask : List ℕ) (i j : ℕ)
    → i < 64 * length mask
    → i ≢ j
    → mask_bit (one_bit bit mask i) j ≡ mask_bit mask j
mask_bit-one_bit_other true mask i j h ne = mask_bit-set_bit_other mask i j (omega (arith, h)) ne
mask_bit-one_bit_other false mask i j h ne = refl

length-mask_of :
    (types : ColumnTypes) (vs : ColumnValues) (i : ℕ) (mask : List ℕ)
    → length (mask_of types vs i mask) ≡ length mask
unfolding mask_of
length-mask_of ColumnTypes.no_types vs i mask = refl
length-mask_of (ColumnTypes.a_type t ts) ColumnValues.no_values i mask = refl
length-mask_of (ColumnTypes.a_type t ts) (ColumnValues.a_value v vs) i mask =
    length-mask_of ts vs (suc i) (one_bit (is_value v) mask i) ∙ length-one_bit (is_value v) mask i

AreWords-mask_of :
    (types : ColumnTypes) (vs : ColumnValues) (i : ℕ) (mask : List ℕ)
    → AreWords mask
    → AreWords (mask_of types vs i mask)
unfolding mask_of
AreWords-mask_of ColumnTypes.no_types vs i mask h = h
AreWords-mask_of (ColumnTypes.a_type t ts) ColumnValues.no_values i mask h = h
AreWords-mask_of (ColumnTypes.a_type t ts) (ColumnValues.a_value v vs) i mask h =
    AreWords-mask_of ts vs (suc i) (one_bit (is_value v) mask i)
      (AreWords-one_bit (is_value v) mask i h)

mask_bit-mask_of_before :
    (types : ColumnTypes) (vs : ColumnValues) (i : ℕ) (mask : List ℕ) (j : ℕ)
    → j < i
    → i + types_length types ≤ 64 * length mask
    → mask_bit (mask_of types vs i mask) j ≡ mask_bit mask j
unfolding mask_of
mask_bit-mask_of_before ColumnTypes.no_types vs i mask j h b = refl
mask_bit-mask_of_before (ColumnTypes.a_type t ts) ColumnValues.no_values i mask j h b = refl
mask_bit-mask_of_before (ColumnTypes.a_type t ts) (ColumnValues.a_value v vs) i mask j h b =
    let same = length-one_bit (is_value v) mask i in
    mask_bit-mask_of_before ts vs (suc i) (one_bit (is_value v) mask i) j (omega (arith, h))
      (omega (arith, b, same))
    ∙ mask_bit-one_bit_other (is_value v) mask i j (omega (arith, b))
        (λ e. absurd (omega (arith, h, e)))

mask_of-IsMaskOf :
    (types : ColumnTypes) (vs : ColumnValues) (i : ℕ) (mask : List ℕ)
    → values_length vs ≤ types_length types
    → i + types_length types ≤ 64 * length mask
    → ((j : ℕ) → i ≤ j → mask_bit mask j ≡ false)
    → IsMaskOf (mask_of types vs i mask) vs i
unfolding mask_of
mask_of-IsMaskOf types ColumnValues.no_values i mask l b h = tt
mask_of-IsMaskOf ColumnTypes.no_types (ColumnValues.a_value v vs) i mask l b h =
    absurd (omega (arith, l))
mask_of-IsMaskOf (ColumnTypes.a_type t ts) (ColumnValues.a_value v vs) i mask l b h =
    let mask' = one_bit (is_value v) mask i in
    let same = length-one_bit (is_value v) mask i in
    (
      mask_bit-mask_of_before ts vs (suc i) mask' i (omega arith) (omega (arith, b, same))
          ∙ mask_bit-one_bit_same (is_value v) mask i (omega (arith, b)) (h i (omega arith)),
      mask_of-IsMaskOf ts vs (suc i) mask' (omega (arith, l)) (omega (arith, b, same)) (λ j le.
          mask_bit-one_bit_other (is_value v) mask i j (omega (arith, b))
            (λ e. absurd (omega (arith, le, e)))
          ∙ h j (omega (arith, le))),
    )

pub field_mask-IsMaskOf :
    (types : ColumnTypes) (vs : ColumnValues)
    → values_length vs ≤ types_length types
    → IsMaskOf (field_mask types vs) vs 0
field_mask-IsMaskOf types vs l =
    let words = mask_words (types_length types) in
    mask_of-IsMaskOf types vs 0 (replicate words 0) l
      (omega (arith, length-replicate {A = ℕ} words 0)) (λ j le. mask_bit-replicate words j)

-- The words of the mask are read back.
pub read_mask-field_mask :
    (types : ColumnTypes) (vs : ColumnValues) (rest : Bytes)
    → read_mask (write_words (field_mask types vs) ++ rest) (types_length types)
      ≡ some (field_mask types vs, rest)
read_mask-field_mask types vs rest =
    let words = mask_words (types_length types) in
    read_mask-write_words (field_mask types vs) rest (types_length types)
      (length-mask_of types vs 0 (replicate words 0) ∙ length-replicate words 0)
      (AreWords-mask_of types vs 0 (replicate words 0) (AreWords-replicate words))
