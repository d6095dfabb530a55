-- ===== src/Cql/Compare.antt =====
-- cql/engine/column_value.cpp: the comparisons of scalars, of bytes, of floating point keys and of
-- UUIDs. The S32 that a comparison gives is one of three values.
pub mod Laws
pub mod Floats
use plexdb.Prelude.{
  ℕ, zero, suc, ◌+◌, ◌-◌, ◌*◌, ◌/◌, ◌%◌, ◌^◌, bit_or, bit_xor, min, Bool, true, false, ◌&&◌, not,
  Option, none, some, List, [], ◌∷◌, ◌++◌, ◌==◌, ltb, leb, if◌then◌else◌, length, take, drop,
}
use plexdb.Prelude.Int.{ℤ, pos, negsuc, neg}
use plexdb.Core.Text.{Bytes}
use plexdb.Cql.Types.{Basic, VarInt, Decimal, Inet}
use plexdb.Cql.Value.{ColumnValue}

-- What a comparison answers: -1, 0 or 1.
pub data Cmp : Type 0 where
  less equal greater : Cmp

-- -m
unfoldable pub reverse : Cmp → Cmp
reverse less = greater
reverse equal = equal
reverse greater = less

-- The same on what may fail.
unfoldable pub reversed : Option Cmp → Option Cmp
reversed none = none
reversed (some c) = some (reverse c)

-- compare_scalar of unsigned scalars.
unfoldable pub compare_scalar : ℕ → ℕ → Cmp
compare_scalar a b = if ltb a b then less else if ltb b a then greater else equal

-- compare_scalar of signed scalars.
unfoldable pub compare_signed : ℤ → ℤ → Cmp
compare_signed (pos a) (pos b) = compare_scalar a b
compare_signed (pos a) (negsuc b) = greater
compare_signed (negsuc a) (pos b) = less
compare_signed (negsuc a) (negsuc b) = compare_scalar b a

-- clamp_cmp of os::memory_compare of the first `n` bytes: memcmp, of which its documentation says
-- that the first bytes that differ decide, as unsigned numbers.
unfoldable pub memory_compare : ℕ → Bytes → Bytes → Cmp
memory_compare zero a b = equal
memory_compare (suc n) [] b = equal
memory_compare (suc n) (x ∷ a) [] = equal
memory_compare (suc n) (x ∷ a) (y ∷ b) =
    let rest = memory_compare n a b in if ltb x y then less else if ltb y x then greater else rest

-- if (c != 0) return c; return next;
abbrev pub or_next : Cmp → Cmp → Cmp
or_next less next = less
or_next equal next = next
or_next greater next = greater

unfoldable pub compare_bytes : Bytes → Bytes → Cmp
compare_bytes a b =
    or_next (memory_compare (min (length a) (length b)) a b) (compare_scalar (length a) (length b))

-- The test of the sign bit is the one of bits & 0x8000000000000000, and ~bits is 2 ^ 64 - 1 - bits.
pub f64_order_key : ℕ → ℕ
f64_order_key bits = if leb (2 ^ 63) bits then 2 ^ 64 - 1 - bits else bit_xor bits (2 ^ 63)

pub f32_order_key : ℕ → ℕ
f32_order_key bits = if leb (2 ^ 31) bits then 2 ^ 32 - 1 - bits else bit_xor bits (2 ^ 31)

-- u.value[i]
abbrev pub byte_at : Bytes → ℕ → ℕ
byte_at [] i = 0
byte_at (b ∷ bs) zero = b
byte_at (b ∷ bs) (suc i) = byte_at bs i

pub timeuuid_timestamp : Bytes → ℕ
timeuuid_timestamp u =
    let time_low =
      bit_or (bit_or (bit_or (byte_at u 0 * 2 ^ 24) (byte_at u 1 * 2 ^ 16)) (byte_at u 2 * 2 ^ 8))
        (byte_at u 3) in
    let time_mid = bit_or (byte_at u 4 * 2 ^ 8) (byte_at u 5) in
    let time_hi = bit_or (byte_at u 6 * 2 ^ 8) (byte_at u 7) % 2 ^ 12 in
    bit_or (bit_or (time_hi * 2 ^ 48) (time_mid * 2 ^ 32)) time_low

pub compare_timeuuid : Bytes → Bytes → Cmp
compare_timeuuid a b =
    let ta = timeuuid_timestamp a in
    let tb = timeuuid_timestamp b in
    if ta == tb then compare_bytes (drop 8 a) (drop 8 b) else compare_scalar ta tb

pub compare_uuid : Bytes → Bytes → Cmp
compare_uuid a b =
    let va = byte_at a 6 / 2 ^ 4 % 2 ^ 4 in
    let vb = byte_at b 6 / 2 ^ 4 % 2 ^ 4 in
    if va == vb
    then if va == 1 then compare_timeuuid a b else compare_bytes a b
    else compare_scalar va vb
