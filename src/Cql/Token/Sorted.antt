-- ===== src/Cql/Token/Sorted.antt =====
-- encode_token_be (cql/engine/token.cpp): the bytes of two tokens are in the order of the tokens.
use plexdb.Prelude.{◌^◌, ◌<◌, ◌≡◌, ◌∙◌, refl, sym, arith, length}
use plexdb.Prelude.Int.{ℤ, pos, negsuc}
use plexdb.Prelude.Words.{bit_xor-top, flip}
use plexdb.Cql.Token.{to_u64, encode_token_be}
use plexdb.Cql.Token.Encoding.{IsS64, order_bits, to_u64-bound, flip-bound}
use plexdb.Cql.Compare.{compare_scalar, compare_signed, compare_bytes}
use plexdb.Cql.Magnitude.Value.{value, AreBytes, compare_bytes-value}

-- The bytes of the encoding stand for the word with its sign bit turned.
value-encode_token_be :
    (token : ℤ) → IsS64 token → value 0 (encode_token_be token) ≡ order_bits token
unfolding encode_token_be order_bits
value-encode_token_be token h =
    let b = to_u64-bound token h in
    let flipped : flip (2 ^ 63) (to_u64 token) < 2 ^ 64 = flip-bound (to_u64 token) b in
    rw (bit_xor-top 63 (to_u64 token) b) (omega (arith, flipped))

order_bits-signed :
    (s t : ℤ)
    → IsS64 s
    → IsS64 t
    → compare_scalar (order_bits s) (order_bits t) ≡ compare_signed s t
unfolding order_bits IsS64 compare_scalar compare_signed
order_bits-signed (pos a) (pos b) h k = ground (arith, h, k)
order_bits-signed (pos a) (negsuc b) h k = ground (arith, h, k)
order_bits-signed (negsuc a) (pos b) h k = ground (arith, h, k)
order_bits-signed (negsuc a) (negsuc b) h k = ground (arith, h, k)

AreBytes-encode_token_be : (token : ℤ) → AreBytes (encode_token_be token)
unfolding encode_token_be
AreBytes-encode_token_be token = (
  omega arith,
  (
    omega arith,
    (omega arith, (omega arith, (omega arith, (omega arith, (omega arith, (omega arith, tt)))))),
  ),
)

length-encode_token_be : (token : ℤ) → length (encode_token_be token) ≡ 8
unfolding encode_token_be
length-encode_token_be token = refl

-- For two tokens of type S64, compare_bytes of their encodings gives the order of the tokens.
pub compare_bytes-encode_token_be :
    (s t : ℤ)
    → IsS64 s
    → IsS64 t
    → compare_bytes (encode_token_be s) (encode_token_be t) ≡ compare_signed s t
compare_bytes-encode_token_be s t h k =
    compare_bytes-value (encode_token_be s) (encode_token_be t) (AreBytes-encode_token_be s)
      (AreBytes-encode_token_be t) (length-encode_token_be s ∙ sym (length-encode_token_be t))
    ∙ rw (value-encode_token_be s h, value-encode_token_be t k) (order_bits-signed s t h k)
