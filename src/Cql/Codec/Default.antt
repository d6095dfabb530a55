-- ===== src/Cql/Codec/Default.antt =====
-- The default that is written for a column is read as the default value of its type
-- (cql/engine/io.codec.cpp, cql/engine/generated/io_codec_wire.cpp).
use plexdb.Prelude.{
  ℕ, suc, ◌-◌, ◌<◌, ◌^◌, ◌≡◌, ◌≢◌, refl, some, false, List, [], ◌++◌, replicate, le→leb, arith,
}
use plexdb.Prelude.Int.{pos}
use plexdb.Core.Text.{Bytes}
use plexdb.Cql.Types.{Basic, ColumnType, ColumnTypes, VarInt}
use plexdb.Cql.Value.{ColumnValue, ColumnValues}
use plexdb.Cql.Wire.{read_uint-le, IsSigned}
use plexdb.Cql.Codec.{write_default_basic, write_typed_basic}
use plexdb.Cql.Codec.Fits.{
  Fits, FitsS16, FitsS32, FitsS64, FitsU8, FitsF32, FitsF64, FitsStr, FitsBlob, FitsUuid, FitsInet,
  FitsVarint, FitsDecimal, FitsDuration,
}
use plexdb.Cql.Codec.RoundTrip.{read_basic-write_typed_basic}
use plexdb.Cql.Codec.Mask.{
  mask_bit, mask_words, write_empty_mask, mask_bit-replicate, read_mask-empty,
}
use plexdb.Cql.Codec.Nested.{
  read_column_value, read_many, read_masked_payloads, read_udt_fields, write_default_column_value,
  types_length, nulls, append_values_none,
}

zero_varint : VarInt
zero_varint = record { negative = false; magnitude = [] }

pub default_basic : Basic → ColumnValue
default_basic Basic.smallint = ColumnValue.s16 (pos 0)
default_basic Basic.int_ = ColumnValue.s32 (pos 0)
default_basic Basic.date = ColumnValue.s32 (pos 0)
default_basic Basic.bigint = ColumnValue.s64 (pos 0)
default_basic Basic.timestamp = ColumnValue.s64 (pos 0)
default_basic Basic.counter = ColumnValue.s64 (pos 0)
default_basic Basic.time = ColumnValue.s64 (pos 0)
default_basic Basic.tinyint = ColumnValue.u8 0
default_basic Basic.boolean = ColumnValue.u8 0
default_basic Basic.float_ = ColumnValue.f32 0
default_basic Basic.double_ = ColumnValue.f64 0
default_basic Basic.text = ColumnValue.str []
default_basic Basic.varchar = ColumnValue.str []
default_basic Basic.ascii = ColumnValue.str []
default_basic Basic.blob = ColumnValue.blob []
default_basic Basic.hex = ColumnValue.blob []
default_basic Basic.uuid = ColumnValue.uuid (replicate 16 0)
default_basic Basic.timeuuid = ColumnValue.uuid (replicate 16 0)
default_basic Basic.inet = ColumnValue.inet (record { is_v6 = false; address = replicate 4 0 })
default_basic Basic.varint = ColumnValue.varint zero_varint
default_basic Basic.decimal = ColumnValue.decimal (record { scale = pos 0; unscaled = zero_varint })
default_basic Basic.duration =
    ColumnValue.duration (record { months = pos 0; days = pos 0; nanoseconds = pos 0 })
default_basic Basic.count = ColumnValue.null

default_basic-Fits : (dtype : Basic) → dtype ≢ Basic.count → Fits dtype (default_basic dtype)
unfolding default_basic zero_varint IsSigned Fits FitsS16 FitsS32 FitsS64 FitsU8 FitsF32 FitsF64
    FitsStr FitsBlob FitsUuid FitsInet FitsVarint FitsDecimal FitsDuration
default_basic-Fits Basic.smallint ne = omega arith
default_basic-Fits Basic.int_ ne = omega arith
default_basic-Fits Basic.date ne = omega arith
default_basic-Fits Basic.bigint ne = omega arith
default_basic-Fits Basic.timestamp ne = omega arith
default_basic-Fits Basic.counter ne = omega arith
default_basic-Fits Basic.time ne = omega arith
default_basic-Fits Basic.tinyint ne = omega arith
default_basic-Fits Basic.boolean ne = omega arith
default_basic-Fits Basic.float_ ne = omega arith
default_basic-Fits Basic.double_ ne = omega arith
default_basic-Fits Basic.text ne = omega arith
default_basic-Fits Basic.varchar ne = omega arith
default_basic-Fits Basic.ascii ne = omega arith
default_basic-Fits Basic.blob ne = omega arith
default_basic-Fits Basic.hex ne = omega arith
default_basic-Fits Basic.uuid ne = refl
default_basic-Fits Basic.timeuuid ne = refl
default_basic-Fits Basic.inet ne = refl
default_basic-Fits Basic.varint ne = omega arith
default_basic-Fits Basic.decimal ne = (omega arith, omega arith)
default_basic-Fits Basic.duration ne = (omega arith, omega arith, omega arith)
default_basic-Fits Basic.count ne = absurd (ne refl)

write_default_basic-default_basic :
    (dtype : Basic) → write_default_basic dtype ≡ write_typed_basic (default_basic dtype)
unfolding write_default_basic write_typed_basic default_basic zero_varint
write_default_basic-default_basic Basic.smallint = refl
write_default_basic-default_basic Basic.int_ = refl
write_default_basic-default_basic Basic.date = refl
write_default_basic-default_basic Basic.bigint = refl
write_default_basic-default_basic Basic.timestamp = refl
write_default_basic-default_basic Basic.counter = refl
write_default_basic-default_basic Basic.time = refl
write_default_basic-default_basic Basic.tinyint = refl
write_default_basic-default_basic Basic.boolean = refl
write_default_basic-default_basic Basic.float_ = refl
write_default_basic-default_basic Basic.double_ = refl
write_default_basic-default_basic Basic.text = refl
write_default_basic-default_basic Basic.varchar = refl
write_default_basic-default_basic Basic.ascii = refl
write_default_basic-default_basic Basic.blob = refl
write_default_basic-default_basic Basic.hex = refl
write_default_basic-default_basic Basic.uuid = refl
write_default_basic-default_basic Basic.timeuuid = refl
write_default_basic-default_basic Basic.inet = refl
write_default_basic-default_basic Basic.varint = refl
write_default_basic-default_basic Basic.decimal = refl
write_default_basic-default_basic Basic.duration = refl
write_default_basic-default_basic Basic.count = refl

-- A vector is not written as it is read; COUNT is no type; and an arity is a U64.
unfoldable pub HasDefault : ColumnType → Type 0
HasDefault (ColumnType.basic dtype) = dtype ≢ Basic.count
HasDefault (ColumnType.list element frozen) = Unit
HasDefault (ColumnType.vector element n frozen) = ⊥
HasDefault (ColumnType.tuple elements frozen) = Unit
HasDefault (ColumnType.udt keyspace name names types) = types_length types < 2 ^ 64

pub default_value : ColumnType → ColumnValue
default_value (ColumnType.basic dtype) = default_basic dtype
default_value (ColumnType.list element frozen) = ColumnValue.array ColumnValues.no_values
default_value (ColumnType.vector element n frozen) = ColumnValue.null
default_value (ColumnType.tuple elements frozen) = ColumnValue.array (nulls (types_length elements))
default_value (ColumnType.udt keyspace name names types) =
    ColumnValue.array (nulls (types_length types))

read_no_payloads :
    (types : ColumnTypes) (mask : List ℕ) (i : ℕ) (input : Bytes)
    → ((j : ℕ) → mask_bit mask j ≡ false)
    → read_masked_payloads types (types_length types) mask i input
      ≡ some (nulls (types_length types), input)
unfolding read_masked_payloads
read_no_payloads ColumnTypes.no_types mask i input h = refl
read_no_payloads (ColumnTypes.a_type t ts) mask i input h =
    rw (h i, read_no_payloads ts mask (suc i) input h) refl

-- For every basic type but COUNT, a list, a tuple, and a UDT with fewer than 2^64 fields,
-- read_column_value reads from what write_default_column_value writes the default of the type:
-- zeros, an empty text or list, or a Null for each field.
pub read_column_value-write_default :
    (cdtype : ColumnType) (rest : Bytes)
    → HasDefault cdtype
    → read_column_value cdtype (write_default_column_value cdtype ++ rest)
      ≡ some (default_value cdtype, rest)
unfolding read_column_value write_default_column_value HasDefault default_value read_udt_fields
    read_many
read_column_value-write_default (ColumnType.basic dtype) rest h =
    rw (write_default_basic-default_basic dtype)
      (read_basic-write_typed_basic dtype (default_basic dtype) rest (default_basic-Fits dtype h))
read_column_value-write_default (ColumnType.list element frozen) rest h =
    rw (read_uint-le 8 0 rest (omega arith)) refl
read_column_value-write_default (ColumnType.vector element n frozen) rest h = absurd h
read_column_value-write_default (ColumnType.tuple elements frozen) rest h =
    rw
      (
        read_mask-empty (types_length elements) rest,
        read_no_payloads elements (replicate (mask_words (types_length elements)) 0) 0 rest
            (mask_bit-replicate (mask_words (types_length elements))),
      )
      refl
read_column_value-write_default (ColumnType.udt keyspace name names types) rest h =
    let n = types_length types in
    let all : n - n ≡ 0 = omega arith in
    rw
      (
        read_uint-le 8 n (write_empty_mask n ++ rest) h,
        le→leb n n (omega arith),
        read_mask-empty n rest,
        read_no_payloads types (replicate (mask_words n) 0) 0 rest
            (mask_bit-replicate (mask_words n)),
        all,
        append_values_none (nulls n),
      )
      refl
