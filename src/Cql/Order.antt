-- ===== src/Cql/Order.antt =====
-- cql/engine/column_value.cpp: compare_column_value, the order of the values of a basic type. A
-- failed assertion, which the get of another alternative is too, is `none`.
pub mod Laws
mod Runs
use plexdb.Prelude.{ℕ, ◌-◌, ◌^◌, Option, none, some, ltb, if◌then◌else◌}
use plexdb.Prelude.Int.{ℤ, pos, negsuc}
use plexdb.Core.Text.{Bytes}
use plexdb.Cql.Types.{Basic, Inet}
use plexdb.Cql.Value.{
  ColumnValue, get_blob, get_decimal, get_f32, get_f64, get_inet, get_s16, get_s32, get_s64,
  get_str, get_u8, get_uuid, get_varint,
}
use plexdb.Cql.Compare.{
  Cmp, compare_scalar, compare_signed, compare_bytes, compare_uuid, compare_timeuuid, f64_order_key,
  f32_order_key,
}
use plexdb.Cql.Magnitude.{compare_varint, compare_decimal}

-- static_cast<S8>(v)
abbrev pub to_s8 : ℕ → ℤ
to_s8 n = if ltb n 128 then pos n else negsuc (255 - n)

abbrev pub compare_s8 : ℕ → ℕ → Cmp
compare_s8 a b = compare_signed (to_s8 a) (to_s8 b)

abbrev pub compare_f64 : ℕ → ℕ → Cmp
compare_f64 a b = compare_scalar (f64_order_key a) (f64_order_key b)

abbrev pub compare_f32 : ℕ → ℕ → Cmp
compare_f32 a b = compare_scalar (f32_order_key a) (f32_order_key b)

-- 16 bytes of a v6 and four of a v4.
abbrev pub compare_inet : Inet → Inet → Cmp
compare_inet a b = compare_bytes a.address b.address

module _ {A : Type 0} (compare : A → A → Cmp) where
  -- return compare(get<A>(a), get<A>(b));
  abbrev pub both : Option A → Option A → Option Cmp
  both (some a) (some b) = some (compare a b)
  both _ _ = none

-- The same for a comparison that is not defined everywhere.
module _ {A : Type 0} (compare : A → A → Option Cmp) where
  abbrev pub both_defined : Option A → Option A → Option Cmp
  both_defined (some a) (some b) = compare a b
  both_defined _ _ = none

pub compare_column_value : ColumnValue → ColumnValue → Basic → Option Cmp
compare_column_value a b Basic.bigint = both compare_signed (get_s64 a) (get_s64 b)
compare_column_value a b Basic.timestamp = both compare_signed (get_s64 a) (get_s64 b)
compare_column_value a b Basic.counter = both compare_signed (get_s64 a) (get_s64 b)
compare_column_value a b Basic.time = both compare_signed (get_s64 a) (get_s64 b)
compare_column_value a b Basic.int_ = both compare_signed (get_s32 a) (get_s32 b)
compare_column_value a b Basic.date = both compare_signed (get_s32 a) (get_s32 b)
compare_column_value a b Basic.smallint = both compare_signed (get_s16 a) (get_s16 b)
compare_column_value a b Basic.tinyint = both compare_s8 (get_u8 a) (get_u8 b)
compare_column_value a b Basic.boolean = both compare_scalar (get_u8 a) (get_u8 b)
compare_column_value a b Basic.double_ = both compare_f64 (get_f64 a) (get_f64 b)
compare_column_value a b Basic.float_ = both compare_f32 (get_f32 a) (get_f32 b)
compare_column_value a b Basic.text = both compare_bytes (get_str a) (get_str b)
compare_column_value a b Basic.varchar = both compare_bytes (get_str a) (get_str b)
compare_column_value a b Basic.ascii = both compare_bytes (get_str a) (get_str b)
compare_column_value a b Basic.blob = both compare_bytes (get_blob a) (get_blob b)
compare_column_value a b Basic.hex = both compare_bytes (get_blob a) (get_blob b)
compare_column_value a b Basic.inet = both compare_inet (get_inet a) (get_inet b)
compare_column_value a b Basic.uuid = both compare_uuid (get_uuid a) (get_uuid b)
compare_column_value a b Basic.timeuuid = both compare_timeuuid (get_uuid a) (get_uuid b)
compare_column_value a b Basic.varint = both compare_varint (get_varint a) (get_varint b)
compare_column_value a b Basic.decimal =
    both_defined compare_decimal (get_decimal a) (get_decimal b)
compare_column_value a b Basic.duration = none
compare_column_value a b Basic.count = none
