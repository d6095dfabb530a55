-- ===== src/Cql/Partition.antt =====
-- cql/engine/generated/token_wire.cpp and cql/engine/key.cpp: the bytes of a partition key, which its
-- token is the hash of. A Writer is the list of the pieces that are written to it, each of which is
-- one call of update. A failed assertion and what is not implemented are `none`.
pub mod Framing
mod Runs
use plexdb.Prelude.{
  ℕ, zero, suc, ◌/◌, ◌%◌, ◌^◌, Bool, true, false, Option, none, some, List, [], ◌∷◌, ◌++◌, ltb,
  if◌then◌else◌, length,
}
use plexdb.Prelude.Int.{ℤ}
use plexdb.Prelude.Words.{shr}
use plexdb.Prelude.Fallible.{◌>>=◌}
use plexdb.Core.Text.{Bytes}
use plexdb.Cql.Types.{Basic, ColumnType}
use plexdb.Cql.Value.{ColumnValue}
use plexdb.Cql.Wire.{to_bits}
use plexdb.Cql.Codec.Write.{can_write_column_value}
use plexdb.Cql.Token.{new_state, finalize}
use plexdb.Cql.Token.Stream.{feed}

-- The low bytes of a number, high byte first: buf[i] = U8((bits >> shift) & 0xFF).
abbrev pub be16 : ℕ → Bytes
be16 bits = shr bits 8 % 256 ∷ bits % 256 ∷ []

abbrev pub be32 : ℕ → Bytes
be32 bits = shr bits 24 % 256 ∷ shr bits 16 % 256 ∷ shr bits 8 % 256 ∷ bits % 256 ∷ []

abbrev pub be64 : ℕ → Bytes
be64 bits = be32 (shr bits 32) ++ be32 bits

-- What the visit of write_component writes between its prefix and its trailer, in one piece; the
-- prefix has the same length, which a U16 holds the low bits of.
pub payload : ColumnValue → Option Bytes
payload (ColumnValue.s16 v) = some (be16 (to_bits 15 v))
payload (ColumnValue.s32 v) = some (be32 (to_bits 31 v))
payload (ColumnValue.s64 v) = some (be64 (to_bits 63 v))
payload (ColumnValue.u8 v) = some (v ∷ [])
payload (ColumnValue.f32 bits) = some (be32 bits)
payload (ColumnValue.f64 bits) = some (be64 bits)
payload (ColumnValue.str v) = some v
payload (ColumnValue.blob v) = some v
payload (ColumnValue.uuid v) = some v
payload _ = none

-- emit_prefix, the payload, emit_trailer.
pub framed : Bool → Bytes → List Bytes
framed false bytes = bytes ∷ []
framed true bytes = be16 (length bytes % 2 ^ 16) ∷ bytes ∷ (0 ∷ []) ∷ []

pub write_component : ColumnValue → Basic → Bool → Option (List Bytes)
write_component cv dtype is_composite = do
  bytes ← if can_write_column_value cv (ColumnType.basic dtype) then payload cv else none
  some (framed is_composite bytes)

-- The loop of compute_partition_token over the partition columns.
pub write_components : Bool → List (ColumnValue × Basic) → Option (List Bytes)
write_components composite [] = some []
write_components composite ((cv, dtype) ∷ columns) = do
  pieces ← write_component cv dtype composite
  rest ← write_components composite columns
  some (pieces ++ rest)

-- The sink calls update for each piece.
pub compute_partition_token : List (ColumnValue × Basic) → Option ℤ
compute_partition_token columns = do
  pieces ← write_components (ltb 1 (length columns)) columns
  some (finalize (feed new_state pieces))
