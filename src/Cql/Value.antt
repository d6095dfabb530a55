-- ===== src/Cql/Value.antt =====
-- ColumnValue of cql/engine/column_value.cppm: the tagged union of what a column may hold. An F64
-- and an F32 are their bits. Sets and maps of values are left out, as in the codec.
use plexdb.Prelude.{ℕ, zero, suc, Option, none, some}
use plexdb.Prelude.Int.{ℤ}
use plexdb.Core.Text.{Bytes}
use plexdb.Cql.Types.{VarInt, Decimal, Duration, Inet}

mutual
  pub data ColumnValue : Type 0 where
    str : Bytes → ColumnValue
    s64 : ℤ → ColumnValue
    s32 : ℤ → ColumnValue
    s16 : ℤ → ColumnValue
    u8 : ℕ → ColumnValue
    f64 : ℕ → ColumnValue
    f32 : ℕ → ColumnValue
    blob : Bytes → ColumnValue
    uuid : Bytes → ColumnValue
    inet : Inet → ColumnValue
    varint : VarInt → ColumnValue
    decimal : Decimal → ColumnValue
    duration : Duration → ColumnValue
    array : ColumnValues → ColumnValue
    null : ColumnValue

  -- DynamicArray<NestedColumnValue>
  pub data ColumnValues : Type 0 where
    no_values : ColumnValues
    a_value : ColumnValue → ColumnValues → ColumnValues

-- length(values)
abbrev pub values_length : ColumnValues → ℕ
values_length ColumnValues.no_values = zero
values_length (ColumnValues.a_value v vs) = suc (values_length vs)

-- get<T>(value), with a failed assertion on another alternative.
abbrev pub get_str : ColumnValue → Option Bytes
get_str (ColumnValue.str v) = some v
get_str _ = none

abbrev pub get_s64 : ColumnValue → Option ℤ
get_s64 (ColumnValue.s64 v) = some v
get_s64 _ = none

abbrev pub get_s32 : ColumnValue → Option ℤ
get_s32 (ColumnValue.s32 v) = some v
get_s32 _ = none

abbrev pub get_s16 : ColumnValue → Option ℤ
get_s16 (ColumnValue.s16 v) = some v
get_s16 _ = none

abbrev pub get_u8 : ColumnValue → Option ℕ
get_u8 (ColumnValue.u8 v) = some v
get_u8 _ = none

abbrev pub get_f64 : ColumnValue → Option ℕ
get_f64 (ColumnValue.f64 v) = some v
get_f64 _ = none

abbrev pub get_f32 : ColumnValue → Option ℕ
get_f32 (ColumnValue.f32 v) = some v
get_f32 _ = none

abbrev pub get_blob : ColumnValue → Option Bytes
get_blob (ColumnValue.blob v) = some v
get_blob _ = none

abbrev pub get_uuid : ColumnValue → Option Bytes
get_uuid (ColumnValue.uuid v) = some v
get_uuid _ = none

abbrev pub get_inet : ColumnValue → Option Inet
get_inet (ColumnValue.inet v) = some v
get_inet _ = none

abbrev pub get_varint : ColumnValue → Option VarInt
get_varint (ColumnValue.varint v) = some v
get_varint _ = none

abbrev pub get_decimal : ColumnValue → Option Decimal
get_decimal (ColumnValue.decimal v) = some v
get_decimal _ = none
