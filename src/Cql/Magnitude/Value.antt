-- ===== src/Cql/Magnitude/Value.antt =====
-- The number that a magnitude stands for (cql/engine/column_value.cpp), and its size by the bytes.
use plexdb.Prelude.{
  ℕ, zero, suc, ◌+◌, ◌*◌, ◌≤◌, ◌<◌, ◌≡◌, inl, inr, sym, refl, Bool-cases, [], ◌∷◌, ◌==◌, ltb,
  lt→ltb, le→ltb_false, if◌then◌else◌, length, All, min, arith,
}
use plexdb.Core.Text.{Bytes}
use plexdb.Cql.Compare.{
  Cmp, less, equal, greater, compare_scalar, memory_compare, compare_bytes, or_next,
}
use plexdb.Cql.Magnitude.{magnitude_bounds, compare_magnitude, magnitude_is_zero}

-- The number behind the bytes read so far.
abbrev pub value : ℕ → Bytes → ℕ
value r [] = r
value r (b ∷ m) = value (r * 256 + b) m

abbrev pub IsByte : ℕ → Type 0
IsByte b = b < 256

abbrev pub AreBytes : Bytes → Type 0
AreBytes m = All IsByte m

value_lt :
    (r s : ℕ) (a b : Bytes) → AreBytes a → length a ≡ length b → r < s → value r a < value s b
value_lt r s [] [] h l lt = lt
value_lt r s [] (y ∷ b) h l lt = absurd (omega (arith, l))
value_lt r s (x ∷ a) [] h l lt = absurd (omega (arith, l))
value_lt r s (x ∷ a) (y ∷ b) (hx, h) l lt =
    value_lt (r * 256 + x) (s * 256 + y) a b h (omega (arith, l)) (omega (arith, lt, hx))

value-magnitude_bounds : (m : Bytes) → value 0 (magnitude_bounds m) ≡ value 0 m
unfolding magnitude_bounds
value-magnitude_bounds [] = refl
value-magnitude_bounds (zero ∷ m) = value-magnitude_bounds m
value-magnitude_bounds (suc b ∷ m) = refl

AreBytes-magnitude_bounds : (m : Bytes) → AreBytes m → AreBytes (magnitude_bounds m)
unfolding magnitude_bounds
AreBytes-magnitude_bounds [] h = h
AreBytes-magnitude_bounds (zero ∷ m) (hx, h) = AreBytes-magnitude_bounds m h
AreBytes-magnitude_bounds (suc b ∷ m) h = h

-- Fewer bytes behind a number that has begun.
value_shorter :
    (s : ℕ) (a b : Bytes) → AreBytes a → length a ≤ length b → 0 < s → value 0 a < value s b
value_shorter s a [] h l p = value_lt 0 s a [] h (omega (arith, l)) p
value_shorter s a (y ∷ b) h l p = elim (Bool-cases (length a == suc (length b))) [
  | inl e ↦ value_lt 0 s a (y ∷ b) h (ground (arith, e)) p
  | inr e ↦ value_shorter (s * 256 + y) a b h (ground (arith, e, l)) (omega (arith, p))
]

value-magnitude_bounds_shorter :
    (a m : Bytes) → AreBytes a → length a < length (magnitude_bounds m) → value 0 a < value 0 m
unfolding magnitude_bounds
value-magnitude_bounds_shorter a [] h l = absurd (omega (arith, l))
value-magnitude_bounds_shorter a (zero ∷ m) h l = value-magnitude_bounds_shorter a m h l
value-magnitude_bounds_shorter a (suc b ∷ m) h l =
    value_shorter (0 * 256 + suc b) a m h (omega (arith, l)) (omega arith)

pub compare_scalar_less : (a b : ℕ) → a < b → compare_scalar a b ≡ less
unfolding compare_scalar
compare_scalar_less a b h = rw (lt→ltb a b h) refl

pub compare_scalar_greater : (a b : ℕ) → b < a → compare_scalar a b ≡ greater
unfolding compare_scalar
compare_scalar_greater a b h = rw (le→ltb_false a b (omega (arith, h)), lt→ltb b a h) refl

pub compare_scalar_same : (a b : ℕ) → a ≡ b → compare_scalar a b ≡ equal
unfolding compare_scalar
compare_scalar_same a b h =
    rw (le→ltb_false a b (omega (arith, h)), le→ltb_false b a (omega (arith, h))) refl

memory_compare-value :
    (r : ℕ) (a b : Bytes)
    → AreBytes a
    → AreBytes b
    → length a ≡ length b
    → memory_compare (length a) a b ≡ compare_scalar (value r a) (value r b)
unfolding memory_compare
memory_compare-value r [] [] h k l = sym (compare_scalar_same r r refl)
memory_compare-value r [] (y ∷ b) h k l = absurd (omega (arith, l))
memory_compare-value r (x ∷ a) [] h k l = absurd (omega (arith, l))
memory_compare-value r (x ∷ a) (y ∷ b) (hx, h) (ky, k) l = elim (Bool-cases (ltb x y)) [
  | inl e ↦ rw e (
      sym (
        compare_scalar_less _ _
          (value_lt (r * 256 + x) (r * 256 + y) a b h (omega (arith, l)) (ground (arith, e)))))
  | inr e ↦ elim (Bool-cases (ltb y x)) [
    | inl e' ↦
        rw (e, e')
          (sym (
            compare_scalar_greater _ _
              (value_lt (r * 256 + y) (r * 256 + x) b a k (omega (arith, l)) (ground (arith, e')))))
    | inr e' ↦
        let same : y ≡ x = ground (arith, e, e') in
        rw (e, e', same) (memory_compare-value (r * 256 + x) a b h k (omega (arith, l)))
  ]
]

memory_compare_none :
    (n : ℕ) (a b : Bytes) → (if n == 0 then equal else memory_compare n a b) ≡ memory_compare n a b
unfolding memory_compare
memory_compare_none zero a b = refl
memory_compare_none (suc n) a b = ground arith

pub compare_magnitude-value :
    (a b : Bytes)
    → AreBytes a
    → AreBytes b
    → compare_magnitude a b ≡ compare_scalar (value 0 a) (value 0 b)
unfolding compare_magnitude
compare_magnitude-value a b h k =
    let x = magnitude_bounds a in
    let y = magnitude_bounds b in
    let h' = AreBytes-magnitude_bounds a h in
    let k' = AreBytes-magnitude_bounds b k in
    let ex = value-magnitude_bounds a in
    let ey = value-magnitude_bounds b in
    elim (Bool-cases (length x == length y)) [
      | inl e ↦
          rw (e, memory_compare_none (length x) x y, sym ex, sym ey)
            (memory_compare-value 0 x y h' k' (ground (arith, e)))
      | inr e ↦ elim (Bool-cases (ltb (length x) (length y))) [
        | inl e' ↦
            rw (e, compare_scalar_less (length x) (length y) (ground (arith, e')), sym ex)
              (sym (
                compare_scalar_less _ _
                  (value-magnitude_bounds_shorter x b h' (ground (arith, e')))))
        | inr e' ↦
            rw (e, compare_scalar_greater (length x) (length y) (ground (arith, e, e')), sym ey)
              (sym (
                compare_scalar_greater _ _
                  (value-magnitude_bounds_shorter y a k' (ground (arith, e, e')))))
      ]
    ]

-- The test for zero.
value_positive : (r : ℕ) (m : Bytes) → 0 < r → 0 < value r m
value_positive r [] h = h
value_positive r (b ∷ m) h = value_positive (r * 256 + b) m (omega (arith, h))

pub magnitude_is_zero-value : (m : Bytes) → magnitude_is_zero m ≡ (value 0 m == 0)
unfolding magnitude_is_zero magnitude_bounds
magnitude_is_zero-value [] = refl
magnitude_is_zero-value (zero ∷ m) = magnitude_is_zero-value m
magnitude_is_zero-value (suc b ∷ m) =
    ground (arith, value_positive (0 * 256 + suc b) m (omega arith))

or_next-equal : (c : Cmp) → or_next c equal ≡ c
or_next-equal less = refl
or_next-equal equal = refl
or_next-equal greater = refl

-- Bytes that are as many compare as the numbers that they stand for.
pub compare_bytes-value :
    (a b : Bytes)
    → AreBytes a
    → AreBytes b
    → length a ≡ length b
    → compare_bytes a b ≡ compare_scalar (value 0 a) (value 0 b)
unfolding compare_bytes
compare_bytes-value a b h k l =
    let shorter : min (length a) (length b) ≡ length a = omega (arith, l) in
    rw (shorter, memory_compare-value 0 a b h k l, compare_scalar_same (length a) (length b) l)
      (or_next-equal (compare_scalar (value 0 a) (value 0 b)))
