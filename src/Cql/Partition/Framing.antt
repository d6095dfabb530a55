-- ===== src/Cql/Partition/Framing.antt =====
-- The token of a partition key is the hash of its bytes, and the bytes of a key of several columns
-- say where each column ends (cql/engine/generated/token_wire.cpp, cql/engine/key.cpp).
use plexdb.Prelude.{
  ℕ, ◌+◌, ◌*◌, ◌^◌, ◌<◌, ◌≡◌, ◌∙◌, refl, sym, ap, Bool, true, false, some, ◌/◌, ◌%◌, append-nil,
  List, [], ◌∷◌, ◌++◌, append_assoc, length, take, drop, All, ltb, take-length-append,
  drop-length-append, arith,
}
use plexdb.Core.Text.{Bytes}
use plexdb.Cql.Types.{Basic, ColumnType}
use plexdb.Cql.Value.{ColumnValue}
use plexdb.Cql.Token.{murmur3_token}
use plexdb.Cql.Token.Stream.{concat, finalize-feed}
use plexdb.Cql.Codec.Write.{can_write_column_value}
use plexdb.Cql.Partition.{
  payload, framed, write_component, write_components, compute_partition_token,
}

-- Each column can be written, and these are the payloads, of fewer than 2^16 bytes.
unfoldable pub HavePayloads : List (ColumnValue × Basic) → List Bytes → Type 0
HavePayloads [] [] = Unit
HavePayloads ((cv, dtype) ∷ columns) (p ∷ ps) =
    (can_write_column_value cv (ColumnType.basic dtype) ≡ true)
    × (payload cv ≡ some p)
    × (length p < 2 ^ 16)
    × HavePayloads columns ps
HavePayloads _ _ = ⊥

-- Every payload between its length, high byte first, and a zero.
unfoldable pub delimited : List Bytes → Bytes
delimited [] = []
delimited (p ∷ ps) = length p / 256 ∷ length p % 256 ∷ p ++ 0 ∷ delimited ps

-- The bytes of a key: of one column, its payload.
unfoldable pub partition_bytes : List Bytes → Bytes
partition_bytes (p ∷ []) = p
partition_bytes ps = delimited ps

concat-append : (xs ys : List Bytes) → concat (xs ++ ys) ≡ concat xs ++ concat ys
concat-append [] ys = refl
concat-append (x ∷ xs) ys = ap (λ z. x ++ z) (concat-append xs ys) ∙ sym (append_assoc x _ _)

concat-framed :
    (p : Bytes) (rest : Bytes)
    → length p < 2 ^ 16
    → concat (framed true p) ++ rest ≡ length p / 256 ∷ length p % 256 ∷ p ++ 0 ∷ rest
unfolding framed
concat-framed p rest h =
    let high : length p % 2 ^ 16 / 2 ^ 8 % 256 ≡ length p / 256 = omega (arith, h) in
    let low : length p % 2 ^ 16 % 256 ≡ length p % 256 = omega (arith, h) in
    rw (high, low) (ap (λ z. length p / 256 ∷ length p % 256 ∷ z) (append_assoc p (0 ∷ []) rest))

write_component-payload :
    (cv : ColumnValue) (dtype : Basic) (composite : Bool) (p : Bytes)
    → can_write_column_value cv (ColumnType.basic dtype) ≡ true
    → payload cv ≡ some p
    → write_component cv dtype composite ≡ some (framed composite p)
unfolding write_component
write_component-payload cv dtype composite p can e = rw (can, e) refl

write_components-delimited :
    (columns : List (ColumnValue × Basic)) (ps : List Bytes)
    → HavePayloads columns ps
    → (pieces : List Bytes) × (write_components true columns ≡ some pieces)
      × (concat pieces ≡ delimited ps)
unfolding write_components HavePayloads delimited
write_components-delimited [] [] h = ([], refl, refl)
write_components-delimited [] (p ∷ ps) h = absurd h
write_components-delimited ((cv, dtype) ∷ columns) [] h = absurd h
write_components-delimited ((cv, dtype) ∷ columns) (p ∷ ps) (can, e, short, h) =
    let (pieces, written, same) = write_components-delimited columns ps h in
    (
      framed true p ++ pieces,
      rw (write_component-payload cv dtype true p can e, written) refl,
      concat-append (framed true p) pieces
          ∙ ap (λ z. concat (framed true p) ++ z) same
          ∙ concat-framed p (delimited ps) short,
    )

-- The pieces are those of a key.
abbrev Written : List (ColumnValue × Basic) → List Bytes → Type 0
Written columns ps =
    (pieces : List Bytes) × (write_components (ltb 1 (length columns)) columns ≡ some pieces)
    × (concat pieces ≡ partition_bytes ps)

write_components-partition_bytes :
    (columns : List (ColumnValue × Basic)) (ps : List Bytes)
    → HavePayloads columns ps
    → Written columns ps
unfolding write_components HavePayloads delimited partition_bytes framed
write_components-partition_bytes [] [] h = ([], refl, refl)
write_components-partition_bytes [] (p ∷ ps) h = absurd h
write_components-partition_bytes ((cv, dtype) ∷ columns) [] h = absurd h
write_components-partition_bytes ((cv, dtype) ∷ []) (p ∷ []) (can, e, short, h) =
    (p ∷ [], rw (write_component-payload cv dtype false p can e) refl, append-nil p)
write_components-partition_bytes ((cv, dtype) ∷ []) (p ∷ q ∷ ps) (can, e, short, h) = absurd h
write_components-partition_bytes (c ∷ d ∷ columns) (p ∷ []) (can, e, short, h) = absurd h
write_components-partition_bytes (c ∷ d ∷ columns) (p ∷ q ∷ ps) h =
    let several : ltb 1 (length (c ∷ d ∷ columns)) ≡ true = ground arith in
    let (pieces, written, same) = write_components-delimited (c ∷ d ∷ columns) (p ∷ q ∷ ps) h in
    (pieces, ap (λ b. write_components b (c ∷ d ∷ columns)) several ∙ written, same)

-- For columns that can be written, with payloads of fewer than 2^16 bytes each and fewer than 2^64
-- bytes in all, compute_partition_token gives the token that murmur3_token gives for the bytes of
-- the key: the payload of a single column; of several, each payload between its length, high byte
-- first, and a zero.
pub compute_partition_token-partition_bytes :
    (columns : List (ColumnValue × Basic)) (ps : List Bytes)
    → HavePayloads columns ps
    → length (partition_bytes ps) < 2 ^ 64
    → compute_partition_token columns ≡ some (murmur3_token (partition_bytes ps))
unfolding compute_partition_token
compute_partition_token-partition_bytes columns ps h b =
    let (pieces, written, same) = write_components-partition_bytes columns ps h in
    rw (written, finalize-feed pieces (omega (arith, ap length same, b)))
      (ap (λ z. some (murmur3_token z)) same)

-- The bytes of the payloads of a key of several columns.
pub composite_bytes : List Bytes → Bytes
composite_bytes [] = []
composite_bytes (p ∷ ps) = concat (framed true p) ++ composite_bytes ps

unfoldable pub IsShort : Bytes → Type 0
IsShort p = length p < 2 ^ 16

-- The length in front of a payload.
abbrev front : Bytes → ℕ
front (hi ∷ lo ∷ rest) = hi * 256 + lo
front rest = 0

-- Two lists of payloads of fewer than 2^16 bytes each, framed as the components of a composite key
-- and put one behind the other, are the same bytes only when they are the same payloads.
pub composite_bytes-injective :
    (ps qs : List Bytes)
    → All IsShort ps
    → All IsShort qs
    → composite_bytes ps ≡ composite_bytes qs
    → ps ≡ qs
unfolding composite_bytes framed IsShort
composite_bytes-injective [] [] h k e = refl
composite_bytes-injective [] (q ∷ qs) h k e = absurd (ground (arith, ap length e))
composite_bytes-injective (p ∷ ps) [] h k e = absurd (ground (arith, ap length e))
composite_bytes-injective (p ∷ ps) (q ∷ qs) (hp, h) (hq, k) e =
    let same_front = ap front e in
    let same : length p ≡ length q = omega (arith, same_front, hp, hq) in
    let behind : p ++ 0 ∷ composite_bytes ps ≡ q ++ 0 ∷ composite_bytes qs =
      sym (append_assoc p (0 ∷ []) (composite_bytes ps))
      ∙ ap (drop 2) e
      ∙ append_assoc q (0 ∷ []) (composite_bytes qs) in
    let first : p ≡ q =
      sym (take-length-append p (0 ∷ composite_bytes ps))
      ∙ ap (take (length p)) behind
      ∙ ap (λ n. take n (q ++ 0 ∷ composite_bytes qs)) same
      ∙ take-length-append q (0 ∷ composite_bytes qs) in
    let others : 0 ∷ composite_bytes ps ≡ 0 ∷ composite_bytes qs =
      sym (drop-length-append p (0 ∷ composite_bytes ps))
      ∙ ap (drop (length p)) behind
      ∙ ap (λ n. drop n (q ++ 0 ∷ composite_bytes qs)) same
      ∙ drop-length-append q (0 ∷ composite_bytes qs) in
    ap (λ x. x ∷ ps) first
    ∙ ap (λ xs. q ∷ xs) (composite_bytes-injective ps qs h k (ap (drop 1) others))
