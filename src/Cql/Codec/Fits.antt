-- ===== src/Cql/Codec/Fits.antt =====
-- The values of a basic type (cql/engine/types.cppm, cql/engine/column_value.cppm): the alternative
-- that the type stores, within the machine type of each part.
use plexdb.Prelude.{◌<◌, ◌^◌, ◌≡◌, length}
use plexdb.Cql.Types.{Basic}
use plexdb.Cql.Value.{ColumnValue}
use plexdb.Cql.Wire.{IsSigned}
use plexdb.Cql.Codec.{address_bytes}

unfoldable pub FitsS16 : ColumnValue → Type 0
FitsS16 (ColumnValue.s16 v) = IsSigned 15 v
FitsS16 _ = ⊥

unfoldable pub FitsS32 : ColumnValue → Type 0
FitsS32 (ColumnValue.s32 v) = IsSigned 31 v
FitsS32 _ = ⊥

unfoldable pub FitsS64 : ColumnValue → Type 0
FitsS64 (ColumnValue.s64 v) = IsSigned 63 v
FitsS64 _ = ⊥

unfoldable pub FitsU8 : ColumnValue → Type 0
FitsU8 (ColumnValue.u8 v) = v < 256
FitsU8 _ = ⊥

unfoldable pub FitsF32 : ColumnValue → Type 0
FitsF32 (ColumnValue.f32 v) = v < 2 ^ 32
FitsF32 _ = ⊥

unfoldable pub FitsF64 : ColumnValue → Type 0
FitsF64 (ColumnValue.f64 v) = v < 2 ^ 64
FitsF64 _ = ⊥

unfoldable pub FitsStr : ColumnValue → Type 0
FitsStr (ColumnValue.str v) = length v < 2 ^ 64
FitsStr _ = ⊥

unfoldable pub FitsBlob : ColumnValue → Type 0
FitsBlob (ColumnValue.blob v) = length v < 2 ^ 64
FitsBlob _ = ⊥

unfoldable pub FitsUuid : ColumnValue → Type 0
FitsUuid (ColumnValue.uuid v) = length v ≡ 16
FitsUuid _ = ⊥

unfoldable pub FitsInet : ColumnValue → Type 0
FitsInet (ColumnValue.inet v) = length v.address ≡ address_bytes v.is_v6
FitsInet _ = ⊥

unfoldable pub FitsVarint : ColumnValue → Type 0
FitsVarint (ColumnValue.varint v) = length v.magnitude < 2 ^ 64
FitsVarint _ = ⊥

unfoldable pub FitsDecimal : ColumnValue → Type 0
FitsDecimal (ColumnValue.decimal v) = IsSigned 31 v.scale × (length v.unscaled.magnitude < 2 ^ 64)
FitsDecimal _ = ⊥

unfoldable pub FitsDuration : ColumnValue → Type 0
FitsDuration (ColumnValue.duration v) =
    IsSigned 31 v.months × IsSigned 31 v.days × IsSigned 63 v.nanoseconds
FitsDuration _ = ⊥

unfoldable pub Fits : Basic → ColumnValue → Type 0
Fits Basic.smallint v = FitsS16 v
Fits Basic.int_ v = FitsS32 v
Fits Basic.date v = FitsS32 v
Fits Basic.bigint v = FitsS64 v
Fits Basic.timestamp v = FitsS64 v
Fits Basic.counter v = FitsS64 v
Fits Basic.time v = FitsS64 v
Fits Basic.tinyint v = FitsU8 v
Fits Basic.boolean v = FitsU8 v
Fits Basic.float_ v = FitsF32 v
Fits Basic.double_ v = FitsF64 v
Fits Basic.text v = FitsStr v
Fits Basic.varchar v = FitsStr v
Fits Basic.ascii v = FitsStr v
Fits Basic.blob v = FitsBlob v
Fits Basic.hex v = FitsBlob v
Fits Basic.uuid v = FitsUuid v
Fits Basic.timeuuid v = FitsUuid v
Fits Basic.inet v = FitsInet v
Fits Basic.varint v = FitsVarint v
Fits Basic.decimal v = FitsDecimal v
Fits Basic.duration v = FitsDuration v
Fits Basic.count v = ⊥
