-- ===== src/Cql/Codec/Write.antt =====
-- cql/engine/io.codec.cpp and cql/engine/generated/io_codec_wire.cppm: which values may be written as
-- a type, and the bytes that are written. A failed assertion is `none`.
pub mod FieldMask
pub mod Accepts
pub mod Sound
use plexdb.Prelude.{
  ℕ, zero, suc, ◌+◌, Bool, true, false, Option, none, some, List, [], ◌∷◌, ◌++◌, if◌then◌else◌,
  replicate, length,
}
use plexdb.Prelude.Fallible.{◌>>=◌}
use plexdb.Core.Text.{Bytes}
use plexdb.Cql.Types.{Basic, ColumnType, ColumnTypes}
use plexdb.Cql.Value.{ColumnValue, ColumnValues, values_length}
use plexdb.Cql.Wire.{le}
use plexdb.Cql.Codec.{write_typed_basic}
use plexdb.Cql.Codec.Mask.{mask_words, mask_bit, set_bit, write_words}
use plexdb.Cql.Codec.Nested.{types_length}

pub is_literal_integer_family : Basic → Bool
is_literal_integer_family Basic.smallint = true
is_literal_integer_family Basic.int_ = true
is_literal_integer_family Basic.date = true
is_literal_integer_family Basic.bigint = true
is_literal_integer_family Basic.timestamp = true
is_literal_integer_family Basic.counter = true
is_literal_integer_family Basic.time = true
is_literal_integer_family Basic.tinyint = true
is_literal_integer_family _ = false

pub is_literal_float_family : Basic → Bool
is_literal_float_family Basic.float_ = true
is_literal_float_family Basic.double_ = true
is_literal_float_family _ = false

-- can_write_typed_basic_as_column_value<T>, T the alternative of the value.
unfoldable pub can_write_typed_basic : ColumnValue → Basic → Bool
can_write_typed_basic (ColumnValue.s64 v) dtype = is_literal_integer_family dtype
can_write_typed_basic (ColumnValue.f64 v) dtype = is_literal_float_family dtype
can_write_typed_basic (ColumnValue.s16 v) Basic.smallint = true
can_write_typed_basic (ColumnValue.s32 v) Basic.int_ = true
can_write_typed_basic (ColumnValue.s32 v) Basic.date = true
can_write_typed_basic (ColumnValue.u8 v) Basic.tinyint = true
can_write_typed_basic (ColumnValue.u8 v) Basic.boolean = true
can_write_typed_basic (ColumnValue.f32 v) Basic.float_ = true
can_write_typed_basic (ColumnValue.str v) Basic.text = true
can_write_typed_basic (ColumnValue.str v) Basic.varchar = true
can_write_typed_basic (ColumnValue.str v) Basic.ascii = true
can_write_typed_basic (ColumnValue.blob v) Basic.blob = true
can_write_typed_basic (ColumnValue.blob v) Basic.hex = true
can_write_typed_basic (ColumnValue.uuid v) Basic.uuid = true
can_write_typed_basic (ColumnValue.uuid v) Basic.timeuuid = true
can_write_typed_basic (ColumnValue.inet v) Basic.inet = true
can_write_typed_basic (ColumnValue.varint v) Basic.varint = true
can_write_typed_basic (ColumnValue.decimal v) Basic.decimal = true
can_write_typed_basic (ColumnValue.duration v) Basic.duration = true
can_write_typed_basic _ _ = false

unfoldable pub can_write_column_value : ColumnValue → ColumnType → Bool
can_write_column_value ColumnValue.null cdtype = true
can_write_column_value (ColumnValue.array vs) (ColumnType.basic dtype) = false
can_write_column_value (ColumnValue.array vs) _ = true
can_write_column_value v (ColumnType.basic dtype) = can_write_typed_basic v dtype
can_write_column_value _ _ = false

-- !type_matches_tag<Null>(value)
abbrev pub is_value : ColumnValue → Bool
is_value ColumnValue.null = false
is_value _ = true

-- The loop of write_masked_payloads that sets the bits, from field i on; `types` are the types of
-- the fields that are left.
pub mask_of : ColumnTypes → ColumnValues → ℕ → List ℕ → List ℕ
mask_of ColumnTypes.no_types vs i mask = mask
mask_of (ColumnTypes.a_type t ts) ColumnValues.no_values i mask = mask
mask_of (ColumnTypes.a_type t ts) (ColumnValues.a_value v vs) i mask =
    mask_of ts vs (suc i) (if is_value v then set_bit mask i else mask)

-- for (const auto& el : v) write_column_value(w, el.value, elem)
pub write_many : (ColumnValue → Option Bytes) → ColumnValues → Option Bytes
write_many writer ColumnValues.no_values = some []
write_many writer (ColumnValues.a_value v vs) = do
  bytes ← writer v
  rest ← write_many writer vs
  some (bytes ++ rest)

abbrev pub field_mask : ColumnTypes → ColumnValues → List ℕ
field_mask types vs = mask_of types vs 0 (replicate (mask_words (types_length types)) 0)

-- The bytes behind some that are written in any case.
abbrev behind : Bytes → Option Bytes → Option Bytes
behind first written = do bytes ← written; some (first ++ bytes)

-- assert_true(can_write_column_value(value, cdtype)), and what is done behind it.
abbrev asserted : ColumnValue → ColumnType → Option Bytes → Option Bytes
asserted v cdtype written = if can_write_column_value v cdtype then written else none

mutual
  -- A Null writes nothing, and neither does write_typed_basic for it.
  pub write_column_value : ColumnType → ColumnValue → Option Bytes
  write_column_value (ColumnType.list element frozen) (ColumnValue.array vs) =
      asserted (ColumnValue.array vs) (ColumnType.list element frozen)
        (behind (le 8 (values_length vs)) (write_many (write_column_value element) vs))
  write_column_value (ColumnType.vector element n frozen) (ColumnValue.array vs) =
      asserted (ColumnValue.array vs) (ColumnType.vector element n frozen)
        (write_many (write_column_value element) vs)
  write_column_value (ColumnType.tuple elements frozen) (ColumnValue.array vs) =
      asserted (ColumnValue.array vs) (ColumnType.tuple elements frozen) (
        behind (write_words (field_mask elements vs))
          (write_payloads elements vs (field_mask elements vs) 0))
  write_column_value (ColumnType.udt keyspace name names types) (ColumnValue.array vs) =
      asserted (ColumnValue.array vs) (ColumnType.udt keyspace name names types) (
        behind (le 8 (types_length types) ++ write_words (field_mask types vs))
          (write_payloads types vs (field_mask types vs) 0))
  write_column_value cdtype v = asserted v cdtype (some (write_typed_basic v))

  -- The loop of write_masked_payloads over the payloads, from field i on.
  pub write_payloads : ColumnTypes → ColumnValues → List ℕ → ℕ → Option Bytes
  write_payloads ColumnTypes.no_types vs mask i = some []
  write_payloads (ColumnTypes.a_type t ts) ColumnValues.no_values mask i = some []
  write_payloads (ColumnTypes.a_type t ts) (ColumnValues.a_value v vs) mask i = do
    bytes ← if mask_bit mask i then write_column_value t v else some []
    rest ← write_payloads ts vs mask (suc i)
    some (bytes ++ rest)
