-- ===== src/Cql/Token.antt =====
-- cql/engine/token.cpp: Cassandra's Murmur3 of the bytes of a partition key, and the encoding of a
-- token. A U64 is a number below 2 ^ 64; the two words of the state are a pair. The buffer `carry`
-- with `carry_len` is the list of its bytes that are in use.
pub mod Stream
pub mod Encoding
pub mod Sorted
mod Runs
use plexdb.Prelude.{
  ℕ, zero, suc, ◌+◌, ◌-◌, ◌*◌, ◌/◌, ◌%◌, ◌^◌, bit_or, bit_xor, min, Bool, true, false, List, [],
  ◌∷◌, ◌++◌, ◌==◌, ltb, leb, if◌then◌else◌, length, take, drop,
}
use plexdb.Prelude.Int.{ℤ, pos, negsuc}
use plexdb.Prelude.Words.{add64, mul64, shl64, shr}
use plexdb.Core.Text.{Bytes, to_s64}
use plexdb.Core.Le64.{from_le64}

abbrev pub Hashes : Type 0
Hashes = ℕ × ℕ

pub rotl64 : ℕ → ℕ → ℕ
rotl64 x r = bit_or (shl64 x r) (shr x (64 - r))

pub fmix64 : ℕ → ℕ
fmix64 k =
    let k₁ = mul64 (bit_xor k (shr k 33)) 0xff51afd7ed558ccd in
    let k₂ = mul64 (bit_xor k₁ (shr k₁ 33)) 0xc4ceb9fe1a85ec53 in bit_xor k₂ (shr k₂ 33)

abbrev pub load64_le : Bytes → ℕ
load64_le p = from_le64 (take 8 p)

abbrev pub c1 : ℕ
c1 = 0x87c37b91114253d5

abbrev pub c2 : ℕ
c2 = 0x4cf5ad432745937f

pub process_block : Hashes → Bytes → Hashes
unfolding rotl64
process_block (h1, h2) block =
    let k1 = mul64 (rotl64 (mul64 (load64_le block) c1) 31) c2 in
    let h1₁ = add64 (rotl64 (bit_xor h1 k1) 27) h2 in
    let h1₂ = add64 (mul64 h1₁ 5) 0x52dce729 in
    let k2 = mul64 (rotl64 (mul64 (load64_le (drop 8 block)) c2) 33) c1 in
    let h2₁ = add64 (rotl64 (bit_xor h2 k2) 31) h1₂ in (h1₂, add64 (mul64 h2₁ 5) 0x38495ab5)

-- sx: a byte, widened with its sign.
abbrev pub sx : ℕ → ℕ
sx b = if ltb b 128 then b else 2 ^ 64 - 256 + b

-- k ^= sx(tail[i]) << shift, from the last byte to the first.
pub tail_word : Bytes → ℕ → ℕ
tail_word [] shift = 0
tail_word (b ∷ bs) shift = bit_xor (tail_word bs (shift + 8)) (shl64 (sx b) shift)

pub process_tail : Hashes → Bytes → Hashes
unfolding rotl64 tail_word
process_tail (h1, h2) tail =
    let k2 = mul64 (rotl64 (mul64 (tail_word (drop 8 tail) 0) c2) 33) c1 in
    let k1 = mul64 (rotl64 (mul64 (tail_word (take 8 tail) 0) c1) 31) c2 in
    (
      if leb 1 (length tail) then bit_xor h1 k1 else h1,
      if leb 9 (length tail) then bit_xor h2 k2 else h2,
    )

pub finalize_hash : Hashes → ℕ → ℤ
unfolding fmix64
finalize_hash (h1, h2) total_len =
    let a1 = bit_xor h1 total_len in
    let a2 = bit_xor h2 total_len in
    let b1 = add64 a1 a2 in let b2 = add64 a2 b1 in to_s64 (add64 (fmix64 b1) (fmix64 b2))

-- for (i = 0; i < nblocks; i++) process_block(h1, h2, data + i * 16);
pub process_blocks : ℕ → Hashes → Bytes → Hashes
process_blocks zero h input = h
process_blocks (suc n) h input = process_blocks n (process_block h (take 16 input)) (drop 16 input)

pub cassandra_murmur3_x64_128_low : Bytes → ℤ
cassandra_murmur3_x64_128_low input =
    let nblocks = length input / 16 in
    let h = process_blocks nblocks (0, 0) input in
    finalize_hash (process_tail h (take (length input % 16) (drop (nblocks * 16) input)))
      (length input)

abbrev pub max_token : ℤ
max_token = pos (2 ^ 63 - 1)

-- tok == MIN_TOKEN ? MAX_TOKEN : tok
pub remap_min : ℤ → ℤ
remap_min (pos n) = pos n
remap_min (negsuc n) = if n == 2 ^ 63 - 1 then max_token else negsuc n

pub murmur3_token : Bytes → ℤ
unfolding cassandra_murmur3_x64_128_low remap_min
murmur3_token input = remap_min (cassandra_murmur3_x64_128_low input)

pub record Murmur3State : Type 0 where
  pub hashes : Hashes
  pub total_len : ℕ
  pub carry : Bytes

abbrev pub new_state : Murmur3State
new_state = record { hashes = (0, 0); total_len = 0; carry = [] }

-- The first part of update: what fills the carry, and the data behind it.
pub fill_carry : Hashes → Bytes → Bytes → Hashes × Bytes × Bytes
fill_carry h carry input =
    let taken = min (length input) (16 - length carry) in
    let filled = carry ++ take taken input in
    let left = drop taken input in
    if ltb 0 (length carry)
    then if length filled == 16 then (process_block h filled, [], left) else (h, filled, left)
    else (h, carry, input)

-- while (len >= 16) { ... }, with fuel for the rounds.
pub whole_blocks : ℕ → Hashes → Bytes → Hashes × Bytes
whole_blocks zero h input = (h, input)
whole_blocks (suc fuel) h input =
    let rest = whole_blocks fuel (process_block h (take 16 input)) (drop 16 input) in
    if leb 16 (length input) then rest else (h, input)

-- A round takes 16 bytes, so the length of the data is enough fuel.
pub update : Murmur3State → Bytes → Murmur3State
unfolding fill_carry whole_blocks
update state input =
    let (h, carry, left) = fill_carry state.hashes state.carry input in
    let (h', rest) = whole_blocks (length left) h left in
    record { hashes = h'; total_len = add64 state.total_len (length input); carry = carry ++ rest }

pub finalize : Murmur3State → ℤ
unfolding process_tail finalize_hash remap_min
finalize state = remap_min (finalize_hash (process_tail state.hashes state.carry) state.total_len)

-- The bits of an S64.
abbrev pub to_u64 : ℤ → ℕ
to_u64 (pos n) = n
to_u64 (negsuc n) = 2 ^ 64 - 1 - n

pub encode_token_be : ℤ → Bytes
encode_token_be token =
    let bits = bit_xor (to_u64 token) (2 ^ 63) in
    shr bits 56 % 256
    ∷ shr bits 48 % 256
    ∷ shr bits 40 % 256
    ∷ shr bits 32 % 256
    ∷ shr bits 24 % 256
    ∷ shr bits 16 % 256
    ∷ shr bits 8 % 256
    ∷ bits % 256
    ∷ []

-- bits = (bits << 8) | src[i]; the low eight bits are zero before the byte comes in.
pub shift_in : ℕ → Bytes → ℕ
shift_in bits [] = bits
shift_in bits (b ∷ src) = shift_in (bit_or (shl64 bits 8) b) src

pub decode_token_be : Bytes → ℤ
unfolding shift_in
decode_token_be src = to_s64 (bit_xor (shift_in 0 (take 8 src)) (2 ^ 63))
