-- ===== src/Cql/Magnitude.antt =====
-- cql/engine/column_value.cpp: the order of the integers and the decimal numbers of any length.
pub mod Value
pub mod Laws
pub mod Scaled
pub mod Reverse
mod Runs
use plexdb.Prelude.{
  ℕ, zero, suc, ◌+◌, ◌-◌, ◌*◌, ◌/◌, ◌%◌, ◌^◌, Bool, true, false, ◌&&◌, ◌||◌, Option, none, some,
  leb, List, [], ◌∷◌, ◌++◌, ◌==◌, ltb, if◌then◌else◌, length,
}
use plexdb.Prelude.Int.{ℤ, pos, negsuc}
use plexdb.Core.Text.{Bytes}
use plexdb.Cql.Types.{VarInt, Decimal}
use plexdb.Cql.Compare.{
  Cmp, less, equal, greater, reverse, compare_scalar, memory_compare, compare_signed,
}

-- magnitude_bounds: the bytes from the first that is not zero on.
pub magnitude_bounds : Bytes → Bytes
magnitude_bounds [] = []
magnitude_bounds (zero ∷ m) = magnitude_bounds m
magnitude_bounds (suc b ∷ m) = suc b ∷ m

pub compare_magnitude : Bytes → Bytes → Cmp
unfolding magnitude_bounds
compare_magnitude a b =
    let a_len = length (magnitude_bounds a) in
    let b_len = length (magnitude_bounds b) in
    if a_len == b_len
    then if a_len == 0
      then equal
      else memory_compare a_len (magnitude_bounds a) (magnitude_bounds b)
    else compare_scalar a_len b_len

pub magnitude_is_zero : Bytes → Bool
unfolding magnitude_bounds
magnitude_is_zero m = length (magnitude_bounds m) == 0

-- a.negative != b.negative
abbrev pub differs : Bool → Bool → Bool
differs true b = if b then false else true
differs false b = b

pub compare_varint : VarInt → VarInt → Cmp
compare_varint a b =
    let a_zero = magnitude_is_zero a.magnitude in
    let b_zero = magnitude_is_zero b.magnitude in
    let m = compare_magnitude a.magnitude b.magnitude in
    if a_zero && b_zero
    then equal
    else if differs a.negative b.negative
    then if a_zero
      then if b.negative then greater else less
      else if b_zero
      then if a.negative then less else greater
      else if a.negative
      then less
      else greater
    else if a.negative
    then reverse m
    else m

-- The loop over the bytes from the last to the first: the carry, and the bytes.
pub times_ten : Bytes → ℕ × Bytes
times_ten [] = (0, [])
times_ten (b ∷ m) =
    let (carry, rest) = times_ten m in ((b * 10 + carry) / 2 ^ 8, (b * 10 + carry) % 256 ∷ rest)

-- while (carry > 0) { ... }, with fuel for the rounds.
pub grow : ℕ → ℕ → Bytes → Bytes
grow zero carry cur = cur
grow (suc fuel) carry cur =
    let rest = grow fuel (carry / 2 ^ 8) (carry % 256 ∷ cur) in if ltb 0 carry then rest else cur

-- A round makes the carry smaller, so the carry is enough fuel.
pub magnitude_mul_pow10 : Bytes → ℕ → Bytes
magnitude_mul_pow10 m zero = m
magnitude_mul_pow10 m (suc times) =
    let (carry, cur) = times_ten m in magnitude_mul_pow10 (grow carry carry cur) times

-- By how much a scale is above another, without a bound; 0 when it is not.
abbrev pub scale_difference : ℤ → ℤ → ℕ
scale_difference (pos a) (pos b) = a - b
scale_difference (pos a) (negsuc b) = a + b + 1
scale_difference (negsuc a) (pos b) = 0
scale_difference (negsuc a) (negsuc b) = b - a

-- The branches on the order of the scales.
abbrev pub by_scales : Cmp → Cmp → Cmp → Cmp → Cmp
by_scales less up same down = up
by_scales equal up same down = same
by_scales greater up same down = down

-- The VarInt with its magnitude times 10 ^ k.
abbrev pub scaled : VarInt → ℕ → VarInt
scaled v k = record v { magnitude = magnitude_mul_pow10 v.magnitude k }

-- The subtraction of the lower scale from the higher one leaves S32, which is undefined behaviour.
abbrev pub overflows : ℤ → ℤ → Bool
overflows a b = leb (2 ^ 31) (scale_difference a b) || leb (2 ^ 31) (scale_difference b a)

-- compare_decimal, when the difference of the scales is within S32.
pub compare_aligned : Decimal → Decimal → Cmp
compare_aligned a b =
    let av = a.unscaled in
    let bv = b.unscaled in
    by_scales (compare_signed a.scale b.scale)
      (compare_varint (scaled av (scale_difference b.scale a.scale)) bv) (compare_varint av bv)
      (compare_varint av (scaled bv (scale_difference a.scale b.scale)))

-- `none` is the undefined behaviour.
pub compare_decimal : Decimal → Decimal → Option Cmp
compare_decimal a b = if overflows a.scale b.scale then none else some (compare_aligned a b)
