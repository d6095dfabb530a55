-- ===== src/Cql/Codec/Sync.antt =====
-- cql/engine/generated/io_codec_sync.cpp: the reader of a value from a buffer in memory. `src` is the
-- buffer, of as many bytes as `len` says, and the place in it is handed on.
pub mod Agrees
use plexdb.Prelude.{ℕ, ◌+◌, ◌%◌, ◌^◌, List, leb, if◌then◌else◌, length, take, drop}
use plexdb.Core.Text.{Bytes}
use plexdb.Cql.Types.{Basic, VarInt, Decimal, Duration, Inet}
use plexdb.Cql.Value.{ColumnValue}
use plexdb.Cql.Wire.{from_le, of_bits}
use plexdb.Cql.Codec.{to_bool, address_bytes}

-- What was read and the new place; a failed assertion; or a copy of bytes behind the buffer.
pub data Outcome {ℓ} (A : Type ℓ) : Type ℓ where
  done : A → ℕ → Outcome A
  failed : Outcome A
  overrun : Outcome A

module _ {ℓ κ} {A : Type ℓ} {B : Type κ} where
  abbrev pub and_then : Outcome A → (A → ℕ → Outcome B) → Outcome B
  and_then (done a pos) next = next a pos
  and_then failed next = failed
  and_then overrun next = overrun

-- The assertion that n bytes are left, whose sum is a U64; the copy; and *pos += n, a U16.
pub field : Bytes → ℕ → ℕ → Outcome Bytes
field src n pos =
    if leb ((pos + n) % 2 ^ 64) (length src)
    then if leb (pos + n) (length src)
      then done (take n (drop pos src)) ((pos + n % 2 ^ 16) % 2 ^ 16)
      else overrun
    else failed

abbrev pub field_uint : Bytes → ℕ → ℕ → Outcome ℕ
field_uint src n pos = and_then (field src n pos) (λ bytes pos'. done (from_le bytes) pos')

abbrev pub field_sized : Bytes → ℕ → Outcome Bytes
field_sized src pos = and_then (field_uint src 8 pos) (λ length pos'. field src length pos')

abbrev pub field_sign_magnitude : Bytes → ℕ → Outcome VarInt
field_sign_magnitude src pos = and_then (field_uint src 1 pos) (λ negative_raw pos'.
    and_then (field_sized src pos') (λ magnitude pos''.
      done (record { negative = to_bool negative_raw; magnitude = magnitude }) pos''))

sync_s16 : Bytes → ℕ → Outcome ColumnValue
sync_s16 src pos =
    and_then (field_uint src 2 pos) (λ bits pos'. done (ColumnValue.s16 (of_bits 15 bits)) pos')

sync_s32 : Bytes → ℕ → Outcome ColumnValue
sync_s32 src pos =
    and_then (field_uint src 4 pos) (λ bits pos'. done (ColumnValue.s32 (of_bits 31 bits)) pos')

sync_s64 : Bytes → ℕ → Outcome ColumnValue
sync_s64 src pos =
    and_then (field_uint src 8 pos) (λ bits pos'. done (ColumnValue.s64 (of_bits 63 bits)) pos')

sync_u8 : Bytes → ℕ → Outcome ColumnValue
sync_u8 src pos = and_then (field_uint src 1 pos) (λ bits pos'. done (ColumnValue.u8 bits) pos')

sync_f32 : Bytes → ℕ → Outcome ColumnValue
sync_f32 src pos = and_then (field_uint src 4 pos) (λ bits pos'. done (ColumnValue.f32 bits) pos')

sync_f64 : Bytes → ℕ → Outcome ColumnValue
sync_f64 src pos = and_then (field_uint src 8 pos) (λ bits pos'. done (ColumnValue.f64 bits) pos')

sync_str : Bytes → ℕ → Outcome ColumnValue
sync_str src pos = and_then (field_sized src pos) (λ value pos'. done (ColumnValue.str value) pos')

sync_blob : Bytes → ℕ → Outcome ColumnValue
sync_blob src pos =
    and_then (field_sized src pos) (λ value pos'. done (ColumnValue.blob value) pos')

sync_uuid : Bytes → ℕ → Outcome ColumnValue
sync_uuid src pos = and_then (field src 16 pos) (λ value pos'. done (ColumnValue.uuid value) pos')

sync_inet : Bytes → ℕ → Outcome ColumnValue
sync_inet src pos = and_then (field_uint src 1 pos) (λ is_v6_raw pos'.
    and_then (field src (address_bytes (to_bool is_v6_raw)) pos') (λ address pos''.
      done (ColumnValue.inet (record { is_v6 = to_bool is_v6_raw; address = address })) pos''))

sync_varint : Bytes → ℕ → Outcome ColumnValue
sync_varint src pos =
    and_then (field_sign_magnitude src pos) (λ value pos'. done (ColumnValue.varint value) pos')

sync_decimal : Bytes → ℕ → Outcome ColumnValue
sync_decimal src pos = and_then (field_uint src 4 pos) (λ scale pos'.
    and_then (field_sign_magnitude src pos') (λ unscaled pos''.
      done (ColumnValue.decimal (record { scale = of_bits 31 scale; unscaled = unscaled })) pos''))

sync_duration : Bytes → ℕ → Outcome ColumnValue
sync_duration src pos = and_then (field_uint src 4 pos) (λ months pos'.
    and_then (field_uint src 4 pos') (λ days pos''.
      and_then (field_uint src 8 pos'') (λ nanoseconds pos3.
        done
          (ColumnValue.duration (record {
            months = of_bits 31 months;
            days = of_bits 31 days;
            nanoseconds = of_bits 63 nanoseconds;
          }))
          pos3)))

pub read_column_value_sync : Bytes → ℕ → Basic → Outcome ColumnValue
read_column_value_sync src pos Basic.smallint = sync_s16 src pos
read_column_value_sync src pos Basic.int_ = sync_s32 src pos
read_column_value_sync src pos Basic.date = sync_s32 src pos
read_column_value_sync src pos Basic.bigint = sync_s64 src pos
read_column_value_sync src pos Basic.timestamp = sync_s64 src pos
read_column_value_sync src pos Basic.counter = sync_s64 src pos
read_column_value_sync src pos Basic.time = sync_s64 src pos
read_column_value_sync src pos Basic.tinyint = sync_u8 src pos
read_column_value_sync src pos Basic.boolean = sync_u8 src pos
read_column_value_sync src pos Basic.float_ = sync_f32 src pos
read_column_value_sync src pos Basic.double_ = sync_f64 src pos
read_column_value_sync src pos Basic.text = sync_str src pos
read_column_value_sync src pos Basic.varchar = sync_str src pos
read_column_value_sync src pos Basic.ascii = sync_str src pos
read_column_value_sync src pos Basic.blob = sync_blob src pos
read_column_value_sync src pos Basic.hex = sync_blob src pos
read_column_value_sync src pos Basic.uuid = sync_uuid src pos
read_column_value_sync src pos Basic.timeuuid = sync_uuid src pos
read_column_value_sync src pos Basic.inet = sync_inet src pos
read_column_value_sync src pos Basic.varint = sync_varint src pos
read_column_value_sync src pos Basic.decimal = sync_decimal src pos
read_column_value_sync src pos Basic.duration = sync_duration src pos
read_column_value_sync src pos Basic.count = failed
