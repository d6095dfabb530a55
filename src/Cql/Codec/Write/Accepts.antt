-- ===== src/Cql/Codec/Write/Accepts.antt =====
-- The values of a basic type may be written as it (cql/engine/io.codec.cpp).
use plexdb.Prelude.{true, false, ◌≡◌, ◌≢◌, refl, some, arith}
use plexdb.Cql.Types.{Basic, ColumnType}
use plexdb.Cql.Value.{ColumnValue}
use plexdb.Cql.Codec.{write_typed_basic}
use plexdb.Cql.Codec.Fits.{
  Fits, FitsS16, FitsS32, FitsS64, FitsU8, FitsF32, FitsF64, FitsStr, FitsBlob, FitsUuid, FitsInet,
  FitsVarint, FitsDecimal, FitsDuration,
}
use plexdb.Cql.Codec.Write.{
  can_write_typed_basic, can_write_column_value, write_column_value, is_literal_integer_family,
  is_literal_float_family,
}

pub can_write-Fits :
    (dtype : Basic) (v : ColumnValue) → Fits dtype v → can_write_typed_basic v dtype ≡ true
unfolding can_write_typed_basic is_literal_integer_family is_literal_float_family Fits FitsS16
    FitsS32 FitsS64 FitsU8 FitsF32 FitsF64 FitsStr FitsBlob FitsUuid FitsInet FitsVarint FitsDecimal
    FitsDuration
can_write-Fits Basic.smallint (ColumnValue.s16 v) h = refl
can_write-Fits Basic.smallint _ h = absurd h
can_write-Fits Basic.int_ (ColumnValue.s32 v) h = refl
can_write-Fits Basic.int_ _ h = absurd h
can_write-Fits Basic.date (ColumnValue.s32 v) h = refl
can_write-Fits Basic.date _ h = absurd h
can_write-Fits Basic.bigint (ColumnValue.s64 v) h = refl
can_write-Fits Basic.bigint _ h = absurd h
can_write-Fits Basic.timestamp (ColumnValue.s64 v) h = refl
can_write-Fits Basic.timestamp _ h = absurd h
can_write-Fits Basic.counter (ColumnValue.s64 v) h = refl
can_write-Fits Basic.counter _ h = absurd h
can_write-Fits Basic.time (ColumnValue.s64 v) h = refl
can_write-Fits Basic.time _ h = absurd h
can_write-Fits Basic.tinyint (ColumnValue.u8 v) h = refl
can_write-Fits Basic.tinyint _ h = absurd h
can_write-Fits Basic.boolean (ColumnValue.u8 v) h = refl
can_write-Fits Basic.boolean _ h = absurd h
can_write-Fits Basic.float_ (ColumnValue.f32 v) h = refl
can_write-Fits Basic.float_ _ h = absurd h
can_write-Fits Basic.double_ (ColumnValue.f64 v) h = refl
can_write-Fits Basic.double_ _ h = absurd h
can_write-Fits Basic.text (ColumnValue.str v) h = refl
can_write-Fits Basic.text _ h = absurd h
can_write-Fits Basic.varchar (ColumnValue.str v) h = refl
can_write-Fits Basic.varchar _ h = absurd h
can_write-Fits Basic.ascii (ColumnValue.str v) h = refl
can_write-Fits Basic.ascii _ h = absurd h
can_write-Fits Basic.blob (ColumnValue.blob v) h = refl
can_write-Fits Basic.blob _ h = absurd h
can_write-Fits Basic.hex (ColumnValue.blob v) h = refl
can_write-Fits Basic.hex _ h = absurd h
can_write-Fits Basic.uuid (ColumnValue.uuid v) h = refl
can_write-Fits Basic.uuid _ h = absurd h
can_write-Fits Basic.timeuuid (ColumnValue.uuid v) h = refl
can_write-Fits Basic.timeuuid _ h = absurd h
can_write-Fits Basic.inet (ColumnValue.inet v) h = refl
can_write-Fits Basic.inet _ h = absurd h
can_write-Fits Basic.varint (ColumnValue.varint v) h = refl
can_write-Fits Basic.varint _ h = absurd h
can_write-Fits Basic.decimal (ColumnValue.decimal v) h = refl
can_write-Fits Basic.decimal _ h = absurd h
can_write-Fits Basic.duration (ColumnValue.duration v) h = refl
can_write-Fits Basic.duration _ h = absurd h
can_write-Fits Basic.count v h = absurd h

false≢true : false ≢ true
false≢true e = absurd (ground (arith, e))

pub write_column_value-Fits :
    (dtype : Basic) (v : ColumnValue)
    → Fits dtype v
    → write_column_value (ColumnType.basic dtype) v ≡ some (write_typed_basic v)
unfolding write_column_value can_write_column_value can_write_typed_basic
write_column_value-Fits dtype (ColumnValue.str v) h =
    rw (can_write-Fits dtype (ColumnValue.str v) h) refl
write_column_value-Fits dtype (ColumnValue.s64 v) h =
    rw (can_write-Fits dtype (ColumnValue.s64 v) h) refl
write_column_value-Fits dtype (ColumnValue.s32 v) h =
    rw (can_write-Fits dtype (ColumnValue.s32 v) h) refl
write_column_value-Fits dtype (ColumnValue.s16 v) h =
    rw (can_write-Fits dtype (ColumnValue.s16 v) h) refl
write_column_value-Fits dtype (ColumnValue.u8 v) h =
    rw (can_write-Fits dtype (ColumnValue.u8 v) h) refl
write_column_value-Fits dtype (ColumnValue.f64 v) h =
    rw (can_write-Fits dtype (ColumnValue.f64 v) h) refl
write_column_value-Fits dtype (ColumnValue.f32 v) h =
    rw (can_write-Fits dtype (ColumnValue.f32 v) h) refl
write_column_value-Fits dtype (ColumnValue.blob v) h =
    rw (can_write-Fits dtype (ColumnValue.blob v) h) refl
write_column_value-Fits dtype (ColumnValue.uuid v) h =
    rw (can_write-Fits dtype (ColumnValue.uuid v) h) refl
write_column_value-Fits dtype (ColumnValue.inet v) h =
    rw (can_write-Fits dtype (ColumnValue.inet v) h) refl
write_column_value-Fits dtype (ColumnValue.varint v) h =
    rw (can_write-Fits dtype (ColumnValue.varint v) h) refl
write_column_value-Fits dtype (ColumnValue.decimal v) h =
    rw (can_write-Fits dtype (ColumnValue.decimal v) h) refl
write_column_value-Fits dtype (ColumnValue.duration v) h =
    rw (can_write-Fits dtype (ColumnValue.duration v) h) refl
write_column_value-Fits dtype (ColumnValue.array vs) h =
    absurd (false≢true (can_write-Fits dtype (ColumnValue.array vs) h))
write_column_value-Fits dtype ColumnValue.null h =
    absurd (false≢true (can_write-Fits dtype ColumnValue.null h))

pub not_Null-Fits : (dtype : Basic) → ¬ (Fits dtype ColumnValue.null)
unfolding can_write_typed_basic
not_Null-Fits dtype h = false≢true (can_write-Fits dtype ColumnValue.null h)
