-- ===== src/Cql/Codec.antt =====
-- cql/engine/generated/io_codec_wire.cpp and io_codec_wire.cppm: the bytes of a value of a basic type.
-- A failed assertion and a Reader without enough bytes are `none`.
pub mod Fits
pub mod RoundTrip
pub mod Skip
pub mod Sync
pub mod Mask
pub mod Nested
pub mod Write
pub mod Meta
pub mod Default
mod Runs
use plexdb.Prelude.{
  ℕ, zero, suc, ◌+◌, ◌≤◌, ◌<◌, Option, none, some, Bool, true, false, not, List, [], ◌∷◌, ◌++◌,
  ◌==◌, if◌then◌else◌, length, replicate,
}
use plexdb.Prelude.Int.{ℤ, pos, negsuc}
use plexdb.Prelude.Fallible.{◌>>=◌}
use plexdb.Core.Text.{Bytes}
use plexdb.Cql.Types.{Basic, VarInt, Decimal, Duration, Inet}
use plexdb.Cql.Value.{ColumnValue}
use plexdb.Cql.Wire.{le, to_bits, of_bits, read, read_uint, skip}

-- The value that a reader found, and the bytes behind it.
abbrev pub Read : Type 0
Read = Option (ColumnValue × Bytes)

read_s16 : Bytes → Read
read_s16 input = do (bits, rest) ← read_uint 2 input; some (ColumnValue.s16 (of_bits 15 bits), rest)

read_s32 : Bytes → Read
read_s32 input = do (bits, rest) ← read_uint 4 input; some (ColumnValue.s32 (of_bits 31 bits), rest)

read_s64 : Bytes → Read
read_s64 input = do (bits, rest) ← read_uint 8 input; some (ColumnValue.s64 (of_bits 63 bits), rest)

read_u8 : Bytes → Read
read_u8 input = do (bits, rest) ← read_uint 1 input; some (ColumnValue.u8 bits, rest)

read_f32 : Bytes → Read
read_f32 input = do (bits, rest) ← read_uint 4 input; some (ColumnValue.f32 bits, rest)

read_f64 : Bytes → Read
read_f64 input = do (bits, rest) ← read_uint 8 input; some (ColumnValue.f64 bits, rest)

-- A U64 length, and as many bytes.
abbrev pub read_sized : Bytes → Option (Bytes × Bytes)
read_sized input = do (length, rest) ← read_uint 8 input; read length rest

read_str : Bytes → Read
read_str input = do (value, rest) ← read_sized input; some (ColumnValue.str value, rest)

read_blob : Bytes → Read
read_blob input = do (value, rest) ← read_sized input; some (ColumnValue.blob value, rest)

read_uuid : Bytes → Read
read_uuid input = do (value, rest) ← read 16 input; some (ColumnValue.uuid value, rest)

-- static_cast<bool>(raw)
abbrev pub to_bool : ℕ → Bool
to_bool raw = not (raw == 0)

-- The bytes of an address.
abbrev pub address_bytes : Bool → ℕ
address_bytes is_v6 = if is_v6 then 16 else 4

read_inet : Bytes → Read
read_inet input = do
  (is_v6_raw, input') ← read_uint 1 input
  (address, rest) ← read (address_bytes (to_bool is_v6_raw)) input'
  some (ColumnValue.inet (record { is_v6 = to_bool is_v6_raw; address = address }), rest)

abbrev pub read_sign_magnitude : Bytes → Option (VarInt × Bytes)
read_sign_magnitude input = do
  (negative_raw, input') ← read_uint 1 input
  (magnitude, rest) ← read_sized input'
  some (record { negative = to_bool negative_raw; magnitude = magnitude }, rest)

read_varint : Bytes → Read
read_varint input = do
  (value, rest) ← read_sign_magnitude input
  some (ColumnValue.varint value, rest)

read_decimal : Bytes → Read
read_decimal input = do
  (scale, input') ← read_uint 4 input
  (unscaled, rest) ← read_sign_magnitude input'
  some (ColumnValue.decimal (record { scale = of_bits 31 scale; unscaled = unscaled }), rest)

read_duration : Bytes → Read
read_duration input = do
  (months, input') ← read_uint 4 input
  (days, input'') ← read_uint 4 input'
  (nanoseconds, rest) ← read_uint 8 input''
  some (
    ColumnValue.duration (record {
      months = of_bits 31 months;
      days = of_bits 31 days;
      nanoseconds = of_bits 63 nanoseconds;
    }),
    rest,
  )

-- read_column_value(Reader, type::Basic)
pub read_basic : Basic → Bytes → Read
read_basic Basic.smallint input = read_s16 input
read_basic Basic.int_ input = read_s32 input
read_basic Basic.date input = read_s32 input
read_basic Basic.bigint input = read_s64 input
read_basic Basic.timestamp input = read_s64 input
read_basic Basic.counter input = read_s64 input
read_basic Basic.time input = read_s64 input
read_basic Basic.tinyint input = read_u8 input
read_basic Basic.boolean input = read_u8 input
read_basic Basic.float_ input = read_f32 input
read_basic Basic.double_ input = read_f64 input
read_basic Basic.text input = read_str input
read_basic Basic.varchar input = read_str input
read_basic Basic.ascii input = read_str input
read_basic Basic.blob input = read_blob input
read_basic Basic.hex input = read_blob input
read_basic Basic.uuid input = read_uuid input
read_basic Basic.timeuuid input = read_uuid input
read_basic Basic.inet input = read_inet input
read_basic Basic.varint input = read_varint input
read_basic Basic.decimal input = read_decimal input
read_basic Basic.duration input = read_duration input
read_basic Basic.count input = none

abbrev pub skip_sized : Bytes → Option Bytes
skip_sized input = do (length, rest) ← read_uint 8 input; skip length rest

skip_inet : Bytes → Option Bytes
skip_inet input = do
  (is_v6_raw, rest) ← read_uint 1 input
  skip (address_bytes (to_bool is_v6_raw)) rest

abbrev pub skip_sign_magnitude : Bytes → Option Bytes
skip_sign_magnitude input = do rest ← skip 1 input; skip_sized rest

skip_decimal : Bytes → Option Bytes
skip_decimal input = do rest ← skip 4 input; skip_sign_magnitude rest

skip_duration : Bytes → Option Bytes
skip_duration input = do input' ← skip 4 input; input'' ← skip 4 input'; skip 8 input''

-- skip_column_value(Reader, type::Basic)
pub skip_basic : Basic → Bytes → Option Bytes
skip_basic Basic.smallint input = skip 2 input
skip_basic Basic.int_ input = skip 4 input
skip_basic Basic.date input = skip 4 input
skip_basic Basic.bigint input = skip 8 input
skip_basic Basic.timestamp input = skip 8 input
skip_basic Basic.counter input = skip 8 input
skip_basic Basic.time input = skip 8 input
skip_basic Basic.tinyint input = skip 1 input
skip_basic Basic.boolean input = skip 1 input
skip_basic Basic.float_ input = skip 4 input
skip_basic Basic.double_ input = skip 8 input
skip_basic Basic.text input = skip_sized input
skip_basic Basic.varchar input = skip_sized input
skip_basic Basic.ascii input = skip_sized input
skip_basic Basic.blob input = skip_sized input
skip_basic Basic.hex input = skip_sized input
skip_basic Basic.uuid input = skip 16 input
skip_basic Basic.timeuuid input = skip 16 input
skip_basic Basic.inet input = skip_inet input
skip_basic Basic.varint input = skip_sign_magnitude input
skip_basic Basic.decimal input = skip_decimal input
skip_basic Basic.duration input = skip_duration input
skip_basic Basic.count input = none

-- write_default_column_value(Writer, type::Basic)
pub write_default_basic : Basic → Bytes
write_default_basic Basic.smallint = replicate 2 0
write_default_basic Basic.int_ = replicate 4 0
write_default_basic Basic.date = replicate 4 0
write_default_basic Basic.bigint = replicate 8 0
write_default_basic Basic.timestamp = replicate 8 0
write_default_basic Basic.counter = replicate 8 0
write_default_basic Basic.time = replicate 8 0
write_default_basic Basic.tinyint = replicate 1 0
write_default_basic Basic.boolean = replicate 1 0
write_default_basic Basic.float_ = replicate 4 0
write_default_basic Basic.double_ = replicate 8 0
write_default_basic Basic.text = replicate 8 0
write_default_basic Basic.varchar = replicate 8 0
write_default_basic Basic.ascii = replicate 8 0
write_default_basic Basic.blob = replicate 8 0
write_default_basic Basic.hex = replicate 8 0
write_default_basic Basic.uuid = replicate 16 0
write_default_basic Basic.timeuuid = replicate 16 0
write_default_basic Basic.inet = replicate 1 0 ++ replicate 4 0
write_default_basic Basic.varint = replicate 1 0 ++ replicate 8 0
write_default_basic Basic.decimal = replicate 4 0 ++ replicate 1 0 ++ replicate 8 0
write_default_basic Basic.duration = replicate 4 0 ++ replicate 4 0 ++ replicate 8 0
write_default_basic Basic.count = []

-- flag ? 1 : 0
abbrev pub of_bool : Bool → ℕ
of_bool flag = if flag then 1 else 0

abbrev write_sized : Bytes → Bytes
write_sized value = le 8 (length value) ++ value

abbrev write_sign_magnitude : VarInt → Bytes
write_sign_magnitude v = le 1 (of_bool v.negative) ++ write_sized v.magnitude

-- write_typed_basic, which no array and no Null comes to.
unfoldable pub write_typed_basic : ColumnValue → Bytes
write_typed_basic (ColumnValue.s16 v) = le 2 (to_bits 15 v)
write_typed_basic (ColumnValue.s32 v) = le 4 (to_bits 31 v)
write_typed_basic (ColumnValue.s64 v) = le 8 (to_bits 63 v)
write_typed_basic (ColumnValue.u8 v) = le 1 v
write_typed_basic (ColumnValue.f32 v) = le 4 v
write_typed_basic (ColumnValue.f64 v) = le 8 v
write_typed_basic (ColumnValue.str v) = write_sized v
write_typed_basic (ColumnValue.blob v) = write_sized v
write_typed_basic (ColumnValue.uuid v) = v
write_typed_basic (ColumnValue.inet v) = le 1 (of_bool v.is_v6) ++ v.address
write_typed_basic (ColumnValue.varint v) = write_sign_magnitude v
write_typed_basic (ColumnValue.decimal v) =
    le 4 (to_bits 31 v.scale) ++ write_sign_magnitude v.unscaled
write_typed_basic (ColumnValue.duration v) =
    le 4 (to_bits 31 v.months) ++ le 4 (to_bits 31 v.days) ++ le 8 (to_bits 63 v.nanoseconds)
write_typed_basic (ColumnValue.array v) = []
write_typed_basic ColumnValue.null = []
