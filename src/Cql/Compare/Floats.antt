-- ===== src/Cql/Compare/Floats.antt =====
-- The keys of floating point numbers (cql/engine/column_value.cpp), which are given by their bits.
use plexdb.Prelude.{
  ℕ, ◌+◌, ◌-◌, ◌^◌, ◌<◌, ◌≡◌, ltb, leb, if◌then◌else◌, arith, inl, inr, Bool-cases,
}
use plexdb.Prelude.Int.{ℤ, pos, negsuc}
use plexdb.Prelude.Words.{bit_xor-top}
use plexdb.Cql.Compare.{compare_scalar, compare_signed, f64_order_key, f32_order_key}

-- The place of a number of `k + 1` bits by its sign bit and the rest: a number without the bit is
-- at the rest, and one with it as far below -0.
abbrev pub place : ℕ → ℕ → ℤ
place k bits = if ltb bits (2 ^ k) then pos bits else negsuc (bits - 2 ^ k)

-- The key, with the sum in the place of the bit operation.
abbrev key : ℕ → ℕ → ℕ
key k bits = if leb (2 ^ k) bits then 2 ^ k + 2 ^ k - 1 - bits else bits + 2 ^ k

key-place :
    (k a b : ℕ)
    → a < 2 ^ k + 2 ^ k
    → b < 2 ^ k + 2 ^ k
    → compare_scalar (key k a) (key k b) ≡ compare_signed (place k a) (place k b)
unfolding compare_scalar compare_signed
key-place k a b h h' = elim (Bool-cases (ltb a (2 ^ k))) [
  | inl e ↦ elim (Bool-cases (ltb b (2 ^ k))) [
    | inl e' ↦ rw (e, e') (ground (arith, e, e'))
    | inr e' ↦ rw (e, e') (ground (arith, e, e', h'))
  ]
  | inr e ↦ elim (Bool-cases (ltb b (2 ^ k))) [
    | inl e' ↦ rw (e, e') (ground (arith, e, e', h))
    | inr e' ↦ rw (e, e') (ground (arith, e, e', h, h'))
  ]
]

f64_order_key-key : (bits : ℕ) → bits < 2 ^ 64 → f64_order_key bits ≡ key 63 bits
unfolding f64_order_key
f64_order_key-key bits h = rw (bit_xor-top 63 bits h) (ground (arith, h))

f32_order_key-key : (bits : ℕ) → bits < 2 ^ 32 → f32_order_key bits ≡ key 31 bits
unfolding f32_order_key
f32_order_key-key bits h = rw (bit_xor-top 31 bits h) (ground (arith, h))

-- For the bits of two F64, the order of their keys is the order of their places: a number without
-- the sign bit is at its other bits, and one with it as far below -0, which is right below 0.
pub compare_scalar-f64_order_key :
    (a b : ℕ)
    → a < 2 ^ 64
    → b < 2 ^ 64
    → compare_scalar (f64_order_key a) (f64_order_key b) ≡ compare_signed (place 63 a) (place 63 b)
compare_scalar-f64_order_key a b h k =
    rw (f64_order_key-key a h, f64_order_key-key b k) (key-place 63 a b h k)

pub compare_scalar-f32_order_key :
    (a b : ℕ)
    → a < 2 ^ 32
    → b < 2 ^ 32
    → compare_scalar (f32_order_key a) (f32_order_key b) ≡ compare_signed (place 31 a) (place 31 b)
compare_scalar-f32_order_key a b h k =
    rw (f32_order_key-key a h, f32_order_key-key b k) (key-place 31 a b h k)
