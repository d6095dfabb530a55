-- ===== src/Cql/Magnitude/Reverse.antt =====
-- The comparisons of integers and decimal numbers (cql/engine/column_value.cpp) with their two sides
-- exchanged.
use plexdb.Prelude.{
  ◌≡◌, ◌||◌, ◌^◌, leb, ap, some, refl, length, Bool, true, false, ◌&&◌, ◌==◌, if◌then◌else◌, inl,
  inr, Bool-cases, arith,
}
use plexdb.Prelude.Int.{ℤ}
use plexdb.Core.Text.{Bytes}
use plexdb.Cql.Types.{VarInt, Decimal}
use plexdb.Cql.Compare.{Cmp, less, equal, greater, reverse, reversed, compare_signed}
use plexdb.Cql.Compare.Laws.{compare_scalar-reverse, compare_signed-reverse, memory_compare-reverse}
use plexdb.Cql.Magnitude.{
  magnitude_bounds, compare_magnitude, magnitude_is_zero, differs, compare_varint, scale_difference,
  overflows, compare_aligned, compare_decimal, by_scales, scaled,
}

compare_magnitude-reverse : (a b : Bytes) → compare_magnitude b a ≡ reverse (compare_magnitude a b)
unfolding compare_magnitude reverse
compare_magnitude-reverse a b =
    let x = magnitude_bounds a in
    let y = magnitude_bounds b in
    elim (Bool-cases (length x == length y)) [
      | inl e ↦
          let same : length y ≡ length x = ground (arith, e) in
          let e' : (length y == length x) ≡ true = ground (arith, e) in
          rw (e, e', same)
            (elim (Bool-cases (length x == 0)) [
              | inl z ↦ rw z refl
              | inr z ↦ rw z (memory_compare-reverse (length x) x y)
            ])
      | inr e ↦
          let e' : (length y == length x) ≡ false = ground (arith, e) in
          rw (e, e') (compare_scalar-reverse (length x) (length y))
    ]

-- The answer of compare_varint by the signs, the tests for zero and the order of the magnitudes.
abbrev by_signs : Bool → Bool → Bool → Bool → Cmp → Cmp
by_signs na nb za zb m =
    if za && zb
    then equal
    else if differs na nb
    then if za
      then if nb then greater else less
      else if zb
      then if na then less else greater
      else if na
      then less
      else greater
    else if na
    then reverse m
    else m

by_signs-reverse :
    (na nb za zb : Bool) (m : Cmp)
    → by_signs nb na zb za (reverse m) ≡ reverse (by_signs na nb za zb m)
unfolding reverse
by_signs-reverse true true true true m = refl
by_signs-reverse true true true false m = refl
by_signs-reverse true true false true m = refl
by_signs-reverse true true false false m = refl
by_signs-reverse true false true true m = refl
by_signs-reverse true false true false m = refl
by_signs-reverse true false false true m = refl
by_signs-reverse true false false false m = refl
by_signs-reverse false true true true m = refl
by_signs-reverse false true true false m = refl
by_signs-reverse false true false true m = refl
by_signs-reverse false true false false m = refl
by_signs-reverse false false true true m = refl
by_signs-reverse false false true false m = refl
by_signs-reverse false false false true m = refl
by_signs-reverse false false false false m = refl

pub compare_varint-reverse : (a b : VarInt) → compare_varint b a ≡ reverse (compare_varint a b)
unfolding compare_varint
compare_varint-reverse a b = rw (compare_magnitude-reverse a.magnitude b.magnitude) (
    by_signs-reverse a.negative b.negative (magnitude_is_zero a.magnitude)
      (magnitude_is_zero b.magnitude) (compare_magnitude a.magnitude b.magnitude))

by_scales-reverse :
    (c up same down : Cmp)
    → by_scales (reverse c) (reverse down) (reverse same) (reverse up)
      ≡ reverse (by_scales c up same down)
unfolding reverse
by_scales-reverse less up same down = refl
by_scales-reverse equal up same down = refl
by_scales-reverse greater up same down = refl

compare_aligned-reverse : (a b : Decimal) → compare_aligned b a ≡ reverse (compare_aligned a b)
unfolding compare_aligned
compare_aligned-reverse a b =
    let av = a.unscaled in
    let bv = b.unscaled in
    rw
      (
        compare_signed-reverse a.scale b.scale,
        compare_varint-reverse (scaled av (scale_difference b.scale a.scale)) bv,
        compare_varint-reverse av bv,
        compare_varint-reverse av (scaled bv (scale_difference a.scale b.scale)),
      )
      (by_scales-reverse (compare_signed a.scale b.scale) _ _ _)

either_order : (a b : Bool) → (a || b) ≡ (b || a)
either_order true true = refl
either_order true false = refl
either_order false true = refl
either_order false false = refl

overflows_comm : (s t : ℤ) → overflows t s ≡ overflows s t
overflows_comm s t =
    either_order (leb (2 ^ 31) (scale_difference t s)) (leb (2 ^ 31) (scale_difference s t))

pub compare_decimal-reverse : (a b : Decimal) → compare_decimal b a ≡ reversed (compare_decimal a b)
unfolding compare_decimal reversed
compare_decimal-reverse a b = elim (Bool-cases (overflows a.scale b.scale)) [
  | inl e ↦ rw (overflows_comm a.scale b.scale, e) refl
  | inr e ↦ rw (overflows_comm a.scale b.scale, e) (ap some (compare_aligned-reverse a b))
]
