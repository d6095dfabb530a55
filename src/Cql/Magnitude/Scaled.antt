-- ===== src/Cql/Magnitude/Scaled.antt =====
-- magnitude_mul_pow10 and compare_decimal (cql/engine/column_value.cpp).
use plexdb.Prelude.{
  ℕ, zero, suc, ◌+◌, ◌*◌, ◌/◌, ◌%◌, ◌^◌, ◌≤◌, ◌≡◌, if◌then◌else◌, none, some, ◌∙◌, sym, refl, ap,
  Bool, true, false, [], ◌∷◌, ◌⊎◌, inl, inr, Bool-cases, ltb, arith,
}
use native.Mathlib.Nat.{mul_assoc}
use plexdb.Prelude.Int.{ℤ, pos, negsuc, neg}
use plexdb.Core.Text.{Bytes}
use plexdb.Cql.Types.{VarInt, Decimal}
use plexdb.Cql.Compare.{Cmp, less, equal, greater, compare_scalar, compare_signed}
use plexdb.Cql.Magnitude.{
  times_ten, grow, magnitude_mul_pow10, overflows, compare_aligned, compare_decimal,
  scale_difference, scaled,
}
use plexdb.Cql.Magnitude.Value.{value, AreBytes}
use plexdb.Cql.Magnitude.Laws.{int_value, signed, compare_varint-int_value}

value-times_ten :
    (r : ℕ) (m : Bytes)
    → (let (carry, rest) = times_ten m in value (r * 10 + carry) rest) ≡ value r m * 10
unfolding times_ten
value-times_ten r [] = omega arith
value-times_ten r (b ∷ m) =
    let (carry, rest) = times_ten m in
    let same : (r * 10 + (b * 10 + carry) / 2 ^ 8) * 256 + (b * 10 + carry) % 256
        ≡ (r * 256 + b) * 10 + carry =
      omega arith in
    ap (λ s. value s rest) same ∙ value-times_ten (r * 256 + b) m

value-grow :
    (fuel carry : ℕ) (m : Bytes) → carry ≤ fuel → value 0 (grow fuel carry m) ≡ value carry m
unfolding grow
value-grow zero carry m h = let none : carry ≡ 0 = omega (arith, h) in rw none refl
value-grow (suc fuel) carry m h = elim (Bool-cases (ltb 0 carry)) [
  | inl e ↦
      let same : carry / 2 ^ 8 * 256 + carry % 256 ≡ carry = omega arith in
      rw e (value-grow fuel (carry / 2 ^ 8) (carry % 256 ∷ m) (ground (arith, e, h)) ∙ rw same)
  | inr e ↦ let none : carry ≡ 0 = ground (arith, e) in rw (e, none) refl
]

value-times_ten_first :
    (m : Bytes) → (let (carry, rest) = times_ten m in value carry rest) ≡ value 0 m * 10
value-times_ten_first m =
    let (carry, rest) = times_ten m in
    let same : carry ≡ 0 * 10 + carry = omega arith in
    ap (λ s. value s rest) same ∙ value-times_ten 0 m

ten_power : (n : ℕ) → 10 * 10 ^ n ≡ 10 ^ suc n
ten_power n = omega arith

pub value-magnitude_mul_pow10 :
    (m : Bytes) (times : ℕ) → value 0 (magnitude_mul_pow10 m times) ≡ value 0 m * 10 ^ times
unfolding magnitude_mul_pow10
value-magnitude_mul_pow10 m zero = omega arith
value-magnitude_mul_pow10 m (suc times) =
    let (carry, rest) = times_ten m in
    value-magnitude_mul_pow10 (grow carry carry rest) times
    ∙ rw
        (
          value-grow carry carry rest (omega arith),
          value-times_ten_first m,
          mul_assoc (value 0 m) 10 (10 ^ times),
          ten_power times,
        )
        refl

AreBytes-times_ten : (m : Bytes) → AreBytes m → AreBytes (times_ten m).1
unfolding times_ten
AreBytes-times_ten [] h = h
AreBytes-times_ten (b ∷ m) (hb, h) = (omega arith, AreBytes-times_ten m h)

AreBytes-grow : (fuel carry : ℕ) (m : Bytes) → AreBytes m → AreBytes (grow fuel carry m)
unfolding grow
AreBytes-grow zero carry m h = h
AreBytes-grow (suc fuel) carry m h = elim (Bool-cases (ltb 0 carry)) [
  | inl e ↦ rw e (AreBytes-grow fuel (carry / 2 ^ 8) (carry % 256 ∷ m) (omega arith, h))
  | inr e ↦ rw e h
]

AreBytes-magnitude_mul_pow10 :
    (times : ℕ) (m : Bytes) → AreBytes m → AreBytes (magnitude_mul_pow10 m times)
unfolding magnitude_mul_pow10
AreBytes-magnitude_mul_pow10 zero m h = h
AreBytes-magnitude_mul_pow10 (suc times) m h =
    let (carry, rest) = times_ten m in
    AreBytes-magnitude_mul_pow10 times (grow carry carry rest)
      (AreBytes-grow carry carry rest (AreBytes-times_ten m h))

-- z * 10 ^ k
abbrev pub times_pow10 : ℤ → ℕ → ℤ
times_pow10 (pos n) k = pos (n * 10 ^ k)
times_pow10 (negsuc n) k = neg ((n + 1) * 10 ^ k)

signed-times_pow10 :
    (negative : Bool) (n k : ℕ) → signed negative (n * 10 ^ k) ≡ times_pow10 (signed negative n) k
signed-times_pow10 false n k = refl
signed-times_pow10 true zero k = let none : 0 * 10 ^ k ≡ 0 = omega arith in rw none refl
signed-times_pow10 true (suc n) k = let next : n + 1 ≡ suc n = omega arith in rw next refl

int_value-scaled : (v : VarInt) (k : ℕ) → int_value (scaled v k) ≡ times_pow10 (int_value v) k
int_value-scaled v k =
    rw (value-magnitude_mul_pow10 v.magnitude k)
      (signed-times_pow10 v.negative (value 0 v.magnitude) k)

times_pow10_none : (z : ℤ) → times_pow10 z 0 ≡ z
times_pow10_none (pos n) = let same : n * 10 ^ 0 ≡ n = omega arith in rw same refl
times_pow10_none (negsuc n) = let same : (n + 1) * 10 ^ 0 ≡ suc n = omega arith in rw same refl

no_difference_less : (s t : ℤ) → compare_signed s t ≡ less → scale_difference s t ≡ 0
unfolding compare_signed compare_scalar
no_difference_less (pos a) (pos b) h = ground (arith, h)
no_difference_less (pos a) (negsuc b) h = ground (arith, h)
no_difference_less (negsuc a) (pos b) h = refl
no_difference_less (negsuc a) (negsuc b) h = ground (arith, h)

no_difference_equal :
    (s t : ℤ) → compare_signed s t ≡ equal → (scale_difference s t ≡ 0) × (scale_difference t s ≡ 0)
unfolding compare_signed compare_scalar
no_difference_equal (pos a) (pos b) h = (ground (arith, h), ground (arith, h))
no_difference_equal (pos a) (negsuc b) h = (ground (arith, h), ground (arith, h))
no_difference_equal (negsuc a) (pos b) h = (ground (arith, h), ground (arith, h))
no_difference_equal (negsuc a) (negsuc b) h = (ground (arith, h), ground (arith, h))

no_difference_greater : (s t : ℤ) → compare_signed s t ≡ greater → scale_difference t s ≡ 0
unfolding compare_signed compare_scalar
no_difference_greater (pos a) (pos b) h = ground (arith, h)
no_difference_greater (pos a) (negsuc b) h = refl
no_difference_greater (negsuc a) (pos b) h = ground (arith, h)
no_difference_greater (negsuc a) (negsuc b) h = ground (arith, h)

Cmp-cases : (c : Cmp) → (c ≡ less) ⊎ (c ≡ equal) ⊎ (c ≡ greater)
Cmp-cases less = inl refl
Cmp-cases equal = inr (inl refl)
Cmp-cases greater = inr (inr refl)

compare_aligned-int_value :
    (a b : Decimal)
    → AreBytes a.unscaled.magnitude
    → AreBytes b.unscaled.magnitude
    → compare_aligned a b
      ≡ compare_signed
          (times_pow10 (int_value a.unscaled) (scale_difference b.scale a.scale))
          (times_pow10 (int_value b.unscaled) (scale_difference a.scale b.scale))
unfolding compare_aligned
compare_aligned-int_value a b h k =
    let up = scale_difference b.scale a.scale in
    let down = scale_difference a.scale b.scale in
    elim (Cmp-cases (compare_signed a.scale b.scale)) [
      | inl e ↦
          rw
            (
              e,
              no_difference_less a.scale b.scale e,
              times_pow10_none (int_value b.unscaled),
              sym (int_value-scaled a.unscaled up),
            )
            (compare_varint-int_value (scaled a.unscaled up) b.unscaled
              (AreBytes-magnitude_mul_pow10 up a.unscaled.magnitude h) k)
      | inr (inl e) ↦
          let (left, right) = no_difference_equal a.scale b.scale e in
          rw
            (
              e,
              left,
              right,
              times_pow10_none (int_value a.unscaled),
              times_pow10_none (int_value b.unscaled),
            )
            (compare_varint-int_value a.unscaled b.unscaled h k)
      | inr (inr e) ↦
          rw
            (
              e,
              no_difference_greater a.scale b.scale e,
              times_pow10_none (int_value a.unscaled),
              sym (int_value-scaled b.unscaled down),
            )
            (compare_varint-int_value a.unscaled (scaled b.unscaled down) h
              (AreBytes-magnitude_mul_pow10 down b.unscaled.magnitude k))
    ]

-- For magnitudes of bytes, compare_decimal gives the order of the two unscaled integers, each
-- times ten to the power by which the scale of the other is above its own; when the difference of
-- the scales is 2^31 or more, the subtraction overflows, which is undefined behaviour.
pub compare_decimal-int_value :
    (a b : Decimal)
    → AreBytes a.unscaled.magnitude
    → AreBytes b.unscaled.magnitude
    → compare_decimal a b ≡ (
        if overflows a.scale b.scale
        then none
        else some (
            compare_signed
              (times_pow10 (int_value a.unscaled) (scale_difference b.scale a.scale))
              (times_pow10 (int_value b.unscaled) (scale_difference a.scale b.scale))))
unfolding compare_decimal
compare_decimal-int_value a b h k = rw (compare_aligned-int_value a b h k) refl
