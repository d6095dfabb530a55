-- ===== src/Cql/Token/Encoding.antt =====
-- encode_token_be and decode_token_be (cql/engine/token.cpp): the token with its sign bit turned,
-- high byte first.
use plexdb.Prelude.{
  ℕ, ◌-◌, ◌*◌, ◌/◌, ◌%◌, ◌^◌, ◌<◌, ◌≡◌, ◌∙◌, refl, arith, false, inl, inr, Bool-cases, ◌==◌, ◌≢◌,
  bit_or, bit_xor, [], ◌∷◌, length, ltb,
}
use plexdb.Prelude.Int.{ℤ, pos, negsuc}
use plexdb.Prelude.Words.{shl64, shr, bit_or-shift, bit_xor-top, flip}
use plexdb.Core.Text.{Bytes, to_s64}
use plexdb.Cql.Token.{
  to_u64, encode_token_be, decode_token_be, shift_in, remap_min, murmur3_token, finalize_hash,
  cassandra_murmur3_x64_128_low, Hashes,
}

-- A value of S64.
unfoldable pub IsS64 : ℤ → Type 0
IsS64 (pos n) = n < 2 ^ 63
IsS64 (negsuc n) = n < 2 ^ 63

pub to_u64-bound : (token : ℤ) → IsS64 token → to_u64 token < 2 ^ 64
unfolding IsS64
to_u64-bound (pos n) h = omega (arith, h)
to_u64-bound (negsuc n) h = omega (arith, h)

to_s64-to_u64 : (token : ℤ) → IsS64 token → to_s64 (to_u64 token) ≡ token
unfolding IsS64
to_s64-to_u64 (pos n) h = ground (arith, h)
to_s64-to_u64 (negsuc n) h =
    let high : ltb (2 ^ 64 - 1 - n) (2 ^ 63) ≡ false = ground (arith, h) in
    let back : 2 ^ 64 - 1 - (2 ^ 64 - 1 - n) ≡ n = omega (arith, h) in rw (high, back) refl

-- A byte that comes in below 2 ^ 56.
shift_in_byte :
    (m high low : ℕ) → m < 2 ^ 64 → high ≡ m / 256 → low ≡ m % 256 → bit_or (shl64 high 8) low ≡ m
shift_in_byte m high low h eh el =
    let small : shl64 high 8 ≡ high * 2 ^ 8 = omega (arith, h, eh) in
    rw small (bit_or-shift 8 high low (omega (arith, el)) ∙ omega (arith, eh, el))

shift_in_bytes :
    (n : ℕ)
    → n < 2 ^ 64
    → shift_in 0 (
        shr n 56 % 256
        ∷ shr n 48 % 256
        ∷ shr n 40 % 256
        ∷ shr n 32 % 256
        ∷ shr n 24 % 256
        ∷ shr n 16 % 256
        ∷ shr n 8 % 256
        ∷ n % 256
        ∷ [])
      ≡ n
unfolding shift_in
shift_in_bytes n h =
    rw
      (
        shift_in_byte (shr n 56) 0 (shr n 56 % 256) (omega arith) (omega arith) refl,
        shift_in_byte (shr n 48) (shr n 56) (shr n 48 % 256) (omega arith) (omega arith) refl,
        shift_in_byte (shr n 40) (shr n 48) (shr n 40 % 256) (omega arith) (omega arith) refl,
        shift_in_byte (shr n 32) (shr n 40) (shr n 32 % 256) (omega arith) (omega arith) refl,
        shift_in_byte (shr n 24) (shr n 32) (shr n 24 % 256) (omega arith) (omega arith) refl,
        shift_in_byte (shr n 16) (shr n 24) (shr n 16 % 256) (omega arith) (omega arith) refl,
        shift_in_byte (shr n 8) (shr n 16) (shr n 8 % 256) (omega arith) (omega arith) refl,
        shift_in_byte n (shr n 8) (n % 256) h (omega arith) refl,
      )
      refl

-- The word that is written.
unfoldable pub order_bits : ℤ → ℕ
order_bits token = flip (2 ^ 63) (to_u64 token)

bit_xor-order_bits : (token : ℤ) → IsS64 token → bit_xor (to_u64 token) (2 ^ 63) ≡ order_bits token
unfolding order_bits
bit_xor-order_bits token h = bit_xor-top 63 (to_u64 token) (to_u64-bound token h)

pub flip-bound : (n : ℕ) → n < 2 ^ 64 → flip (2 ^ 63) n < 2 ^ 64
flip-bound n h = ground (arith, h)

flip-flip : (n : ℕ) → n < 2 ^ 64 → flip (2 ^ 63) (flip (2 ^ 63) n) ≡ n
flip-flip n h = ground (arith, h)

-- decode_token_be gives back a token of type S64 from its encoding.
pub decode_token_be-encode_token_be :
    (token : ℤ) → IsS64 token → decode_token_be (encode_token_be token) ≡ token
unfolding decode_token_be encode_token_be
decode_token_be-encode_token_be token h =
    let b = to_u64-bound token h in
    let flipped : flip (2 ^ 63) (to_u64 token) < 2 ^ 64 = flip-bound (to_u64 token) b in
    rw
      (
        bit_xor-top 63 (to_u64 token) b,
        shift_in_bytes (flip (2 ^ 63) (to_u64 token)) flipped,
        bit_xor-top 63 (flip (2 ^ 63) (to_u64 token)) flipped,
        flip-flip (to_u64 token) b,
      )
      (to_s64-to_u64 token h)

to_s64-IsS64 : (n : ℕ) → n < 2 ^ 64 → IsS64 (to_s64 n)
unfolding IsS64
to_s64-IsS64 n h = elim (Bool-cases (ltb n (2 ^ 63))) [
  | inl e ↦ rw e (ground (arith, e))
  | inr e ↦ rw e (ground (arith, e, h))
]

-- A token that a key gets.
pub record IsToken (token : ℤ) : Type 0 where
  pub is_s64 : IsS64 token
  pub not_min : token ≢ negsuc (2 ^ 63 - 1)

remap_min-IsToken : (token : ℤ) → IsS64 token → IsToken (remap_min token)
unfolding remap_min IsS64
remap_min-IsToken (pos n) h = record { is_s64 = h; not_min = λ e. absurd (ground (arith, e)) }
remap_min-IsToken (negsuc n) h = elim (Bool-cases (n == 2 ^ 63 - 1)) [
  | inl e ↦ rw e (record { is_s64 = omega arith; not_min = λ e. absurd (ground (arith, e)) })
  | inr e ↦ rw e (record { is_s64 = h; not_min = λ e'. absurd (ground (arith, e, e')) })
]

word-IsS64 : (n : ℕ) → IsS64 (to_s64 (n % 2 ^ 64))
word-IsS64 n = to_s64-IsS64 (n % 2 ^ 64) (omega arith)

finalize_hash-IsS64 : (h : Hashes) (n : ℕ) → IsS64 (finalize_hash h n)
unfolding finalize_hash
finalize_hash-IsS64 h n = word-IsS64 _

-- The token of any bytes is an S64, and not the least one.
pub murmur3_token-IsToken : (input : Bytes) → IsToken (murmur3_token input)
unfolding murmur3_token cassandra_murmur3_x64_128_low
murmur3_token-IsToken input = remap_min-IsToken _ (finalize_hash-IsS64 _ (length input))
