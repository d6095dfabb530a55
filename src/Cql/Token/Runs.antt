-- ===== src/Cql/Token/Runs.antt =====
-- Tokens and their encoding (cql/engine/token.cpp) on concrete bytes.
use plexdb.Prelude.{◌≡◌, refl, arith, List, [], ◌∷◌, replicate}
use plexdb.Prelude.Int.{pos, negsuc}
use plexdb.Core.Text.{Bytes}
use plexdb.Cql.Compare.{compare_bytes, compare_signed}
use plexdb.Cql.Token.{
  encode_token_be, decode_token_be, murmur3_token, finalize, new_state, process_tail, finalize_hash,
  fmix64, rotl64, tail_word, process_blocks, remap_min,
}
use plexdb.Cql.Token.Stream.{feed, concat, finalize-feed}
use plexdb.Cql.Token.Encoding.{
  IsS64, IsToken, decode_token_be-encode_token_be, murmur3_token-IsToken,
}
use plexdb.Cql.Token.Sorted.{compare_bytes-encode_token_be}

-- Chunks that end inside a block, and one that fills more than a block.
abbrev chunks : List Bytes
chunks = (1 ∷ 2 ∷ 3 ∷ []) ∷ replicate 20 7 ∷ (200 ∷ []) ∷ []

finalize-feed_example : finalize (feed new_state chunks) ≡ murmur3_token (concat chunks)
finalize-feed_example = finalize-feed chunks (omega arith)

decode_token_be-encode_token_be_example : decode_token_be (encode_token_be (negsuc 41)) ≡ negsuc 41
unfolding IsS64
decode_token_be-encode_token_be_example = decode_token_be-encode_token_be (negsuc 41) (omega arith)

murmur3_token-IsToken_example : IsToken (murmur3_token (1 ∷ 2 ∷ []))
murmur3_token-IsToken_example = murmur3_token-IsToken (1 ∷ 2 ∷ [])

compare_bytes-encode_token_be_example :
    compare_bytes (encode_token_be (negsuc 0)) (encode_token_be (pos 3))
    ≡ compare_signed (negsuc 0) (pos 3)
unfolding IsS64
compare_bytes-encode_token_be_example =
    compare_bytes-encode_token_be (negsuc 0) (pos 3) (omega arith) (omega arith)

-- Tokens of the server that this one is compatible with, for the integers 1 and 3.
token_of_1 : murmur3_token (0 ∷ 0 ∷ 0 ∷ 1 ∷ []) ≡ negsuc 4069959284402364208
unfolding murmur3_token process_tail finalize_hash fmix64 rotl64 tail_word process_blocks remap_min
token_of_1 = refl

token_of_3 : murmur3_token (0 ∷ 0 ∷ 0 ∷ 3 ∷ []) ≡ pos 9010454139840013625
unfolding murmur3_token process_tail finalize_hash fmix64 rotl64 tail_word process_blocks remap_min
token_of_3 = refl
