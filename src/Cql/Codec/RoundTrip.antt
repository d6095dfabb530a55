-- ===== src/Cql/Codec/RoundTrip.antt =====
-- read_column_value(Reader, type::Basic) reads what write_typed_basic writes
-- (cql/engine/generated/io_codec_wire.cpp, io_codec_wire.cppm).
use plexdb.Prelude.{
  ◌<◌, ◌^◌, ◌≡◌, ◌∙◌, refl, some, none, sym, [], ◌∷◌, Bool, true, false, ◌++◌, length, arith,
}
use plexdb.Core.Text.{Bytes}
use plexdb.Cql.Types.{Basic, VarInt}
use plexdb.Cql.Value.{ColumnValue}
use plexdb.Cql.Wire.{le, to_bits, read_uint-le, read-append, of_bits-to_bits, to_bits-bound}
use plexdb.Cql.Codec.{
  read_basic, write_typed_basic, of_bool, to_bool, address_bytes, read_sized, write_sized,
  read_sign_magnitude, write_sign_magnitude, read_s16, read_s32, read_s64, read_u8, read_f32,
  read_f64, read_str, read_blob, read_uuid, read_inet, read_varint, read_decimal, read_duration,
}
use plexdb.Cql.Codec.Fits.{
  Fits, FitsS16, FitsS32, FitsS64, FitsU8, FitsF32, FitsF64, FitsStr, FitsBlob, FitsUuid, FitsInet,
  FitsVarint, FitsDecimal, FitsDuration,
}

of_bool-bound : (flag : Bool) → of_bool flag < 256
of_bool-bound true = omega arith
of_bool-bound false = omega arith

to_bool-of_bool : (flag : Bool) → to_bool (of_bool flag) ≡ flag
to_bool-of_bool true = refl
to_bool-of_bool false = refl

read_sized-write_sized :
    (value rest : Bytes)
    → length value < 2 ^ 64
    → read_sized (write_sized value ++ rest) ≡ some (value, rest)
read_sized-write_sized value rest h =
    rw (read_uint-le 8 (length value) (value ++ rest) h)
      (read-append value rest (length value) refl)

read_sign_magnitude-write :
    (v : VarInt) (rest : Bytes)
    → length v.magnitude < 2 ^ 64
    → read_sign_magnitude (write_sign_magnitude v ++ rest) ≡ some (v, rest)
read_sign_magnitude-write v rest h =
    rw
      (
        read_uint-le 1 (of_bool v.negative) (write_sized v.magnitude ++ rest)
            (of_bool-bound v.negative),
        to_bool-of_bool v.negative,
        read_sized-write_sized v.magnitude rest h,
      )
      refl

read_s16-write :
    (v : ColumnValue) (rest : Bytes)
    → FitsS16 v
    → read_s16 (write_typed_basic v ++ rest) ≡ some (v, rest)
unfolding read_s16 write_typed_basic FitsS16
read_s16-write (ColumnValue.s16 v) rest h =
    rw (read_uint-le 2 (to_bits 15 v) rest (to_bits-bound 15 v h), of_bits-to_bits 15 v h) refl
read_s16-write _ rest h = absurd h

read_s32-write :
    (v : ColumnValue) (rest : Bytes)
    → FitsS32 v
    → read_s32 (write_typed_basic v ++ rest) ≡ some (v, rest)
unfolding read_s32 write_typed_basic FitsS32
read_s32-write (ColumnValue.s32 v) rest h =
    rw (read_uint-le 4 (to_bits 31 v) rest (to_bits-bound 31 v h), of_bits-to_bits 31 v h) refl
read_s32-write _ rest h = absurd h

read_s64-write :
    (v : ColumnValue) (rest : Bytes)
    → FitsS64 v
    → read_s64 (write_typed_basic v ++ rest) ≡ some (v, rest)
unfolding read_s64 write_typed_basic FitsS64
read_s64-write (ColumnValue.s64 v) rest h =
    rw (read_uint-le 8 (to_bits 63 v) rest (to_bits-bound 63 v h), of_bits-to_bits 63 v h) refl
read_s64-write _ rest h = absurd h

read_u8-write :
    (v : ColumnValue) (rest : Bytes)
    → FitsU8 v
    → read_u8 (write_typed_basic v ++ rest) ≡ some (v, rest)
unfolding read_u8 write_typed_basic FitsU8
read_u8-write (ColumnValue.u8 v) rest h = rw (read_uint-le 1 v rest h) refl
read_u8-write _ rest h = absurd h

read_f32-write :
    (v : ColumnValue) (rest : Bytes)
    → FitsF32 v
    → read_f32 (write_typed_basic v ++ rest) ≡ some (v, rest)
unfolding read_f32 write_typed_basic FitsF32
read_f32-write (ColumnValue.f32 v) rest h = rw (read_uint-le 4 v rest h) refl
read_f32-write _ rest h = absurd h

read_f64-write :
    (v : ColumnValue) (rest : Bytes)
    → FitsF64 v
    → read_f64 (write_typed_basic v ++ rest) ≡ some (v, rest)
unfolding read_f64 write_typed_basic FitsF64
read_f64-write (ColumnValue.f64 v) rest h = rw (read_uint-le 8 v rest h) refl
read_f64-write _ rest h = absurd h

read_str-write :
    (v : ColumnValue) (rest : Bytes)
    → FitsStr v
    → read_str (write_typed_basic v ++ rest) ≡ some (v, rest)
unfolding read_str write_typed_basic FitsStr
read_str-write (ColumnValue.str v) rest h = rw (read_sized-write_sized v rest h) refl
read_str-write _ rest h = absurd h

read_blob-write :
    (v : ColumnValue) (rest : Bytes)
    → FitsBlob v
    → read_blob (write_typed_basic v ++ rest) ≡ some (v, rest)
unfolding read_blob write_typed_basic FitsBlob
read_blob-write (ColumnValue.blob v) rest h = rw (read_sized-write_sized v rest h) refl
read_blob-write _ rest h = absurd h

read_uuid-write :
    (v : ColumnValue) (rest : Bytes)
    → FitsUuid v
    → read_uuid (write_typed_basic v ++ rest) ≡ some (v, rest)
unfolding read_uuid write_typed_basic FitsUuid
read_uuid-write (ColumnValue.uuid v) rest h = rw (read-append v rest 16 h) refl
read_uuid-write _ rest h = absurd h

read_inet-write :
    (v : ColumnValue) (rest : Bytes)
    → FitsInet v
    → read_inet (write_typed_basic v ++ rest) ≡ some (v, rest)
unfolding read_inet write_typed_basic FitsInet
read_inet-write (ColumnValue.inet v) rest h =
    rw
      (
        read_uint-le 1 (of_bool v.is_v6) (v.address ++ rest) (of_bool-bound v.is_v6),
        to_bool-of_bool v.is_v6,
        read-append v.address rest (address_bytes v.is_v6) h,
      )
      refl
read_inet-write _ rest h = absurd h

read_varint-write :
    (v : ColumnValue) (rest : Bytes)
    → FitsVarint v
    → read_varint (write_typed_basic v ++ rest) ≡ some (v, rest)
unfolding read_varint write_typed_basic FitsVarint
read_varint-write (ColumnValue.varint v) rest h = rw (read_sign_magnitude-write v rest h) refl
read_varint-write _ rest h = absurd h

read_decimal-write :
    (v : ColumnValue) (rest : Bytes)
    → FitsDecimal v
    → read_decimal (write_typed_basic v ++ rest) ≡ some (v, rest)
unfolding read_decimal write_typed_basic FitsDecimal
read_decimal-write (ColumnValue.decimal v) rest h =
    let (hs, hu) = h in
    rw
      (
        read_uint-le 4 (to_bits 31 v.scale) (write_sign_magnitude v.unscaled ++ rest)
            (to_bits-bound 31 v.scale hs),
        of_bits-to_bits 31 v.scale hs,
        read_sign_magnitude-write v.unscaled rest hu,
      )
      refl
read_decimal-write _ rest h = absurd h

read_duration-write :
    (v : ColumnValue) (rest : Bytes)
    → FitsDuration v
    → read_duration (write_typed_basic v ++ rest) ≡ some (v, rest)
unfolding read_duration write_typed_basic FitsDuration
read_duration-write (ColumnValue.duration v) rest h =
    let (hm, hd, hn) = h in
    let days = le 4 (to_bits 31 v.days) in
    let nanoseconds = le 8 (to_bits 63 v.nanoseconds) in
    rw
      (
        read_uint-le 4 (to_bits 31 v.months) (days ++ nanoseconds ++ rest)
            (to_bits-bound 31 v.months hm),
        read_uint-le 4 (to_bits 31 v.days) (nanoseconds ++ rest) (to_bits-bound 31 v.days hd),
        read_uint-le 8 (to_bits 63 v.nanoseconds) rest (to_bits-bound 63 v.nanoseconds hn),
        of_bits-to_bits 31 v.months hm,
        of_bits-to_bits 31 v.days hd,
        of_bits-to_bits 63 v.nanoseconds hn,
      )
      refl
read_duration-write _ rest h = absurd h

pub read_basic-write_typed_basic :
    (dtype : Basic) (v : ColumnValue) (rest : Bytes)
    → Fits dtype v
    → read_basic dtype (write_typed_basic v ++ rest) ≡ some (v, rest)
unfolding read_basic Fits
read_basic-write_typed_basic Basic.smallint v rest h = read_s16-write v rest h
read_basic-write_typed_basic Basic.int_ v rest h = read_s32-write v rest h
read_basic-write_typed_basic Basic.date v rest h = read_s32-write v rest h
read_basic-write_typed_basic Basic.bigint v rest h = read_s64-write v rest h
read_basic-write_typed_basic Basic.timestamp v rest h = read_s64-write v rest h
read_basic-write_typed_basic Basic.counter v rest h = read_s64-write v rest h
read_basic-write_typed_basic Basic.time v rest h = read_s64-write v rest h
read_basic-write_typed_basic Basic.tinyint v rest h = read_u8-write v rest h
read_basic-write_typed_basic Basic.boolean v rest h = read_u8-write v rest h
read_basic-write_typed_basic Basic.float_ v rest h = read_f32-write v rest h
read_basic-write_typed_basic Basic.double_ v rest h = read_f64-write v rest h
read_basic-write_typed_basic Basic.text v rest h = read_str-write v rest h
read_basic-write_typed_basic Basic.varchar v rest h = read_str-write v rest h
read_basic-write_typed_basic Basic.ascii v rest h = read_str-write v rest h
read_basic-write_typed_basic Basic.blob v rest h = read_blob-write v rest h
read_basic-write_typed_basic Basic.hex v rest h = read_blob-write v rest h
read_basic-write_typed_basic Basic.uuid v rest h = read_uuid-write v rest h
read_basic-write_typed_basic Basic.timeuuid v rest h = read_uuid-write v rest h
read_basic-write_typed_basic Basic.inet v rest h = read_inet-write v rest h
read_basic-write_typed_basic Basic.varint v rest h = read_varint-write v rest h
read_basic-write_typed_basic Basic.decimal v rest h = read_decimal-write v rest h
read_basic-write_typed_basic Basic.duration v rest h = read_duration-write v rest h
read_basic-write_typed_basic Basic.count v rest h = absurd h

-- No value of a type is written as no bytes.
read_basic-nothing : (dtype : Basic) → read_basic dtype [] ≡ none
unfolding read_basic read_s16 read_s32 read_s64 read_u8 read_f32 read_f64 read_str read_blob
    read_uuid read_inet read_varint read_decimal read_duration
read_basic-nothing Basic.ascii = refl
read_basic-nothing Basic.bigint = refl
read_basic-nothing Basic.blob = refl
read_basic-nothing Basic.boolean = refl
read_basic-nothing Basic.counter = refl
read_basic-nothing Basic.date = refl
read_basic-nothing Basic.decimal = refl
read_basic-nothing Basic.double_ = refl
read_basic-nothing Basic.duration = refl
read_basic-nothing Basic.float_ = refl
read_basic-nothing Basic.inet = refl
read_basic-nothing Basic.int_ = refl
read_basic-nothing Basic.smallint = refl
read_basic-nothing Basic.text = refl
read_basic-nothing Basic.time = refl
read_basic-nothing Basic.timestamp = refl
read_basic-nothing Basic.timeuuid = refl
read_basic-nothing Basic.tinyint = refl
read_basic-nothing Basic.uuid = refl
read_basic-nothing Basic.varchar = refl
read_basic-nothing Basic.varint = refl
read_basic-nothing Basic.hex = refl
read_basic-nothing Basic.count = refl

some_byte :
    (dtype : Basic) (v : ColumnValue) (written : Bytes)
    → read_basic dtype (written ++ []) ≡ some (v, [])
    → 0 < length written
some_byte dtype v [] read = absurd (some≢none (sym read ∙ read_basic-nothing dtype))
  where
    some≢none : {A : Type 0} {a : A} → ¬ (some a ≡ none)
    some≢none e = ground (arith, e)
some_byte dtype v (b ∷ written) read = omega arith

pub length-write_typed_basic :
    (dtype : Basic) (v : ColumnValue) → Fits dtype v → 0 < length (write_typed_basic v)
length-write_typed_basic dtype v fits =
    some_byte dtype v (write_typed_basic v) (read_basic-write_typed_basic dtype v [] fits)
