-- ===== src/Cql/Compare/Laws.antt =====
-- The comparisons of cql/engine/column_value.cpp with their two sides exchanged.
use plexdb.Prelude.{
  ℕ, zero, suc, ◌/◌, ◌%◌, ◌^◌, ◌≡◌, refl, min, length, ◌==◌, [], ◌∷◌, inl, inr, Bool-cases, drop,
  arith,
}
use plexdb.Prelude.Int.{ℤ, pos, negsuc}
use plexdb.Core.Text.{Bytes}
use plexdb.Cql.Compare.{
  Cmp, less, equal, greater, reverse, compare_scalar, compare_signed, memory_compare, compare_bytes,
  or_next, timeuuid_timestamp, compare_timeuuid, compare_uuid, byte_at,
}

pub compare_scalar-reverse : (a b : ℕ) → compare_scalar b a ≡ reverse (compare_scalar a b)
unfolding compare_scalar reverse
compare_scalar-reverse a b = ground arith

pub compare_signed-reverse : (a b : ℤ) → compare_signed b a ≡ reverse (compare_signed a b)
unfolding compare_signed reverse
compare_signed-reverse (pos a) (pos b) = compare_scalar-reverse a b
compare_signed-reverse (pos a) (negsuc b) = refl
compare_signed-reverse (negsuc a) (pos b) = refl
compare_signed-reverse (negsuc a) (negsuc b) = compare_scalar-reverse b a

pub memory_compare-reverse :
    (n : ℕ) (a b : Bytes) → memory_compare n b a ≡ reverse (memory_compare n a b)
unfolding memory_compare reverse
memory_compare-reverse zero a b = refl
memory_compare-reverse (suc n) [] [] = refl
memory_compare-reverse (suc n) [] (y ∷ b) = refl
memory_compare-reverse (suc n) (x ∷ a) [] = refl
memory_compare-reverse (suc n) (x ∷ a) (y ∷ b) = ground (arith, memory_compare-reverse n a b)

or_next-reverse : (c d : Cmp) → or_next (reverse c) (reverse d) ≡ reverse (or_next c d)
unfolding reverse
or_next-reverse less d = refl
or_next-reverse equal d = refl
or_next-reverse greater d = refl

pub compare_bytes-reverse : (a b : Bytes) → compare_bytes b a ≡ reverse (compare_bytes a b)
unfolding compare_bytes
compare_bytes-reverse a b =
    let same : min (length b) (length a) ≡ min (length a) (length b) = omega arith in
    rw
      (
        same,
        memory_compare-reverse (min (length a) (length b)) a b,
        compare_scalar-reverse (length a) (length b),
      )
      (or_next-reverse _ _)

==_sym : (a b : ℕ) → (b == a) ≡ (a == b)
==_sym a b = ground arith

pub compare_timeuuid-reverse : (a b : Bytes) → compare_timeuuid b a ≡ reverse (compare_timeuuid a b)
unfolding compare_timeuuid
compare_timeuuid-reverse a b = elim (Bool-cases (timeuuid_timestamp a == timeuuid_timestamp b)) [
  | inl e ↦
      rw (==_sym (timeuuid_timestamp a) (timeuuid_timestamp b), e)
        (compare_bytes-reverse (drop 8 a) (drop 8 b))
  | inr e ↦
      rw (==_sym (timeuuid_timestamp a) (timeuuid_timestamp b), e)
        (compare_scalar-reverse (timeuuid_timestamp a) (timeuuid_timestamp b))
]

pub compare_uuid-reverse : (a b : Bytes) → compare_uuid b a ≡ reverse (compare_uuid a b)
unfolding compare_uuid
compare_uuid-reverse a b =
    let va = byte_at a 6 / 2 ^ 4 % 2 ^ 4 in
    let vb = byte_at b 6 / 2 ^ 4 % 2 ^ 4 in
    elim (Bool-cases (va == vb)) [
      | inl e ↦
          let same : vb ≡ va = ground (arith, e) in
          elim (Bool-cases (va == 1)) [
            | inl e' ↦ rw (==_sym va vb, e, same, e') (compare_timeuuid-reverse a b)
            | inr e' ↦ rw (==_sym va vb, e, same, e') (compare_bytes-reverse a b)
          ]
      | inr e ↦ rw (==_sym va vb, e) (compare_scalar-reverse va vb)
    ]
