-- ===== src/Cql/Magnitude/Laws.antt =====
-- compare_varint (cql/engine/column_value.cpp) against the order of the integers.
use plexdb.Prelude.{ℕ, zero, suc, ◌≡◌, refl, Bool, true, false, ◌&&◌, ◌==◌, if◌then◌else◌, arith}
use plexdb.Prelude.Int.{ℤ, pos, neg}
use plexdb.Cql.Types.{VarInt}
use plexdb.Cql.Compare.{less, equal, greater, compare_scalar, compare_signed, reverse}
use plexdb.Cql.Magnitude.{compare_varint, differs}
use plexdb.Cql.Magnitude.Value.{value, AreBytes, compare_magnitude-value, magnitude_is_zero-value}

abbrev pub signed : Bool → ℕ → ℤ
signed true n = neg n
signed false n = pos n

-- The integer that a VarInt stands for.
abbrev pub int_value : VarInt → ℤ
int_value v = signed v.negative (value 0 v.magnitude)

by_signs :
    (na nb : Bool) (x y : ℕ)
    → (if (x == 0) && (y == 0)
        then equal
        else if differs na nb
        then if x == 0
          then if nb then greater else less
          else if y == 0
          then if na then less else greater
          else if na
          then less
          else greater
        else if na
        then reverse (compare_scalar x y)
        else compare_scalar x y)
      ≡ compare_signed (signed na x) (signed nb y)
unfolding compare_signed compare_scalar reverse
by_signs true true zero zero = refl
by_signs true true zero (suc y) = ground arith
by_signs true true (suc x) zero = ground arith
by_signs true true (suc x) (suc y) = ground arith
by_signs true false zero zero = refl
by_signs true false zero (suc y) = ground arith
by_signs true false (suc x) zero = ground arith
by_signs true false (suc x) (suc y) = ground arith
by_signs false true zero zero = refl
by_signs false true zero (suc y) = ground arith
by_signs false true (suc x) zero = ground arith
by_signs false true (suc x) (suc y) = ground arith
by_signs false false zero zero = refl
by_signs false false zero (suc y) = ground arith
by_signs false false (suc x) zero = ground arith
by_signs false false (suc x) (suc y) = ground arith

-- For magnitudes of bytes, compare_varint gives the order of the integers that the two values
-- stand for, zeros in front and a negative zero included.
pub compare_varint-int_value :
    (a b : VarInt)
    → AreBytes a.magnitude
    → AreBytes b.magnitude
    → compare_varint a b ≡ compare_signed (int_value a) (int_value b)
unfolding compare_varint
compare_varint-int_value a b h k =
    rw
      (
        magnitude_is_zero-value a.magnitude,
        magnitude_is_zero-value b.magnitude,
        compare_magnitude-value a.magnitude b.magnitude h k,
      )
      (by_signs a.negative b.negative (value 0 a.magnitude) (value 0 b.magnitude))
