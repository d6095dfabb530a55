-- ===== src/Cql/Codec/Sync/Agrees.antt =====
-- read_column_value_sync finds in a buffer what read_column_value reads
-- (cql/engine/generated/io_codec_sync.cpp, io_codec_wire.cpp).
use plexdb.Prelude.{
  ℕ, ◌+◌, ◌%◌, ◌^◌, ◌≤◌, ◌<◌, ◌≡◌, refl, sym, Option, none, some, true, false, inl, inr, Bool-cases,
  leb, length, drop, length-drop, drop-drop, arith,
}
use plexdb.Prelude.Fallible.{◌>>=◌}
use plexdb.Core.Text.{Bytes}
use plexdb.Cql.Types.{Basic}
use plexdb.Cql.Value.{ColumnValue}
use plexdb.Cql.Wire.{from_le, of_bits, read, read_uint}
use plexdb.Cql.Codec.{
  read_basic, read_sized, read_sign_magnitude, to_bool, address_bytes, read_s16, read_s32, read_s64,
  read_u8, read_f32, read_f64, read_str, read_blob, read_uuid, read_inet, read_varint, read_decimal,
  read_duration,
}
use plexdb.Cql.Codec.Sync.{
  Outcome, done, failed, overrun, and_then, field, field_uint, field_sized, field_sign_magnitude,
  read_column_value_sync, sync_s16, sync_s32, sync_s64, sync_u8, sync_f32, sync_f64, sync_str,
  sync_blob, sync_uuid, sync_inet, sync_varint, sync_decimal, sync_duration,
}

-- Both found the same, and the place is where the bytes that are left begin; or both stopped.
unfoldable pub Agrees : {A : Type 0} → Bytes → Outcome A → Option (A × Bytes) → Type 0
Agrees src (done a pos) (some (b, rest)) = (a ≡ b) × (pos ≤ length src) × (rest ≡ drop pos src)
Agrees src failed none = Unit
Agrees src overrun none = Unit
Agrees src _ _ = ⊥

module _ {A B : Type 0} (src : Bytes) where
  Agrees-and_then :
      (m : Outcome A) (m' : Option (A × Bytes)) (f : A → ℕ → Outcome B)
      (f' : A × Bytes → Option (B × Bytes))
      → Agrees src m m'
      → ((a : A) (pos : ℕ) → pos ≤ length src → Agrees src (f a pos) (f' (a, drop pos src)))
      → Agrees src (and_then m f) (m' >>= f')
  unfolding Agrees
  Agrees-and_then (done a pos) (some (b, rest)) f f' (same, le, e) h = rw (sym same, e) (h a pos le)
  Agrees-and_then failed none f f' g h = tt
  Agrees-and_then overrun none f f' g h = tt
  Agrees-and_then (done _ _) none f f' g h = absurd g
  Agrees-and_then failed (some _) f f' g h = absurd g
  Agrees-and_then overrun (some _) f f' g h = absurd g

module _ {A : Type 0} (src : Bytes) where
  Agrees-done :
      (b : A) (pos : ℕ) → pos ≤ length src → Agrees src (done b pos) (some (b, drop pos src))
  unfolding Agrees
  Agrees-done b pos le = (refl, le, refl)

module _ (src : Bytes) (short : length src < 2 ^ 16) where
  field-read : (n pos : ℕ) → pos ≤ length src → Agrees src (field src n pos) (read n (drop pos src))
  unfolding Agrees field
  field-read n pos le =
      let left = length-drop pos src in
      elim (Bool-cases (leb (pos + n) (length src))) [
        | inl e ↦
            let small : (pos + n) % 2 ^ 64 ≡ pos + n = ground (arith, e, short) in
            let next : (pos + n % 2 ^ 16) % 2 ^ 16 ≡ pos + n = ground (arith, e, short) in
            let enough : leb n (length (drop pos src)) ≡ true = ground (arith, e, left, le) in
            rw (small, e, enough, next) (refl, ground (arith, e), drop-drop pos n src)
        | inr e ↦
            let few : leb n (length (drop pos src)) ≡ false = ground (arith, e, left, le) in
            elim (Bool-cases (leb ((pos + n) % 2 ^ 64) (length src))) [
              | inl e' ↦ rw (few, e', e) tt
              | inr e' ↦ rw (few, e') tt
            ]
      ]

  -- One step, and what is made of it.
  made :
      {A B : Type 0} (f : A → B) (m : Outcome A) (m' : Option (A × Bytes))
      → Agrees src m m'
      → Agrees src (and_then m (λ a pos. done (f a) pos)) (m' >>= (λ p. some (f p.0, p.1)))
  made f m m' g = Agrees-and_then src m m' _ _ g (λ a pos le. Agrees-done src (f a) pos le)

  field_uint-read_uint :
      (n pos : ℕ)
      → pos ≤ length src
      → Agrees src (field_uint src n pos) (read_uint n (drop pos src))
  field_uint-read_uint n pos le =
      made from_le (field src n pos) (read n (drop pos src)) (field-read n pos le)

  field_sized-read_sized :
      (pos : ℕ) → pos ≤ length src → Agrees src (field_sized src pos) (read_sized (drop pos src))
  field_sized-read_sized pos le =
      Agrees-and_then src (field_uint src 8 pos) (read_uint 8 (drop pos src)) _ _
        (field_uint-read_uint 8 pos le) field-read

  field_sign_magnitude-read :
      (pos : ℕ)
      → pos ≤ length src
      → Agrees src (field_sign_magnitude src pos) (read_sign_magnitude (drop pos src))
  field_sign_magnitude-read pos le =
      Agrees-and_then src (field_uint src 1 pos) (read_uint 1 (drop pos src)) _ _
        (field_uint-read_uint 1 pos le)
        (λ raw pos' le'.
          made (λ m. record { negative = to_bool raw; magnitude = m }) (field_sized src pos')
            (read_sized (drop pos' src)) (field_sized-read_sized pos' le'))

  sync_s16-read :
      (pos : ℕ) → pos ≤ length src → Agrees src (sync_s16 src pos) (read_s16 (drop pos src))
  unfolding sync_s16 read_s16
  sync_s16-read pos le =
      made (λ bits. ColumnValue.s16 (of_bits 15 bits)) (field_uint src 2 pos)
        (read_uint 2 (drop pos src)) (field_uint-read_uint 2 pos le)

  sync_s32-read :
      (pos : ℕ) → pos ≤ length src → Agrees src (sync_s32 src pos) (read_s32 (drop pos src))
  unfolding sync_s32 read_s32
  sync_s32-read pos le =
      made (λ bits. ColumnValue.s32 (of_bits 31 bits)) (field_uint src 4 pos)
        (read_uint 4 (drop pos src)) (field_uint-read_uint 4 pos le)

  sync_s64-read :
      (pos : ℕ) → pos ≤ length src → Agrees src (sync_s64 src pos) (read_s64 (drop pos src))
  unfolding sync_s64 read_s64
  sync_s64-read pos le =
      made (λ bits. ColumnValue.s64 (of_bits 63 bits)) (field_uint src 8 pos)
        (read_uint 8 (drop pos src)) (field_uint-read_uint 8 pos le)

  sync_u8-read :
      (pos : ℕ) → pos ≤ length src → Agrees src (sync_u8 src pos) (read_u8 (drop pos src))
  unfolding sync_u8 read_u8
  sync_u8-read pos le =
      made (λ bits. ColumnValue.u8 (bits)) (field_uint src 1 pos) (read_uint 1 (drop pos src))
        (field_uint-read_uint 1 pos le)

  sync_f32-read :
      (pos : ℕ) → pos ≤ length src → Agrees src (sync_f32 src pos) (read_f32 (drop pos src))
  unfolding sync_f32 read_f32
  sync_f32-read pos le =
      made (λ bits. ColumnValue.f32 (bits)) (field_uint src 4 pos) (read_uint 4 (drop pos src))
        (field_uint-read_uint 4 pos le)

  sync_f64-read :
      (pos : ℕ) → pos ≤ length src → Agrees src (sync_f64 src pos) (read_f64 (drop pos src))
  unfolding sync_f64 read_f64
  sync_f64-read pos le =
      made (λ bits. ColumnValue.f64 (bits)) (field_uint src 8 pos) (read_uint 8 (drop pos src))
        (field_uint-read_uint 8 pos le)

  sync_str-read :
      (pos : ℕ) → pos ≤ length src → Agrees src (sync_str src pos) (read_str (drop pos src))
  unfolding sync_str read_str
  sync_str-read pos le =
      made ColumnValue.str (field_sized src pos) (read_sized (drop pos src))
        (field_sized-read_sized pos le)

  sync_blob-read :
      (pos : ℕ) → pos ≤ length src → Agrees src (sync_blob src pos) (read_blob (drop pos src))
  unfolding sync_blob read_blob
  sync_blob-read pos le =
      made ColumnValue.blob (field_sized src pos) (read_sized (drop pos src))
        (field_sized-read_sized pos le)

  sync_uuid-read :
      (pos : ℕ) → pos ≤ length src → Agrees src (sync_uuid src pos) (read_uuid (drop pos src))
  unfolding sync_uuid read_uuid
  sync_uuid-read pos le =
      made ColumnValue.uuid (field src 16 pos) (read 16 (drop pos src)) (field-read 16 pos le)

  sync_inet-read :
      (pos : ℕ) → pos ≤ length src → Agrees src (sync_inet src pos) (read_inet (drop pos src))
  unfolding sync_inet read_inet
  sync_inet-read pos le =
      Agrees-and_then src (field_uint src 1 pos) (read_uint 1 (drop pos src)) _ _
        (field_uint-read_uint 1 pos le)
        (λ raw pos' le'.
          made (λ a. ColumnValue.inet (record { is_v6 = to_bool raw; address = a }))
            (field src (address_bytes (to_bool raw)) pos')
            (read (address_bytes (to_bool raw)) (drop pos' src))
            (field-read (address_bytes (to_bool raw)) pos' le'))

  sync_varint-read :
      (pos : ℕ) → pos ≤ length src → Agrees src (sync_varint src pos) (read_varint (drop pos src))
  unfolding sync_varint read_varint
  sync_varint-read pos le =
      made ColumnValue.varint (field_sign_magnitude src pos) (read_sign_magnitude (drop pos src))
        (field_sign_magnitude-read pos le)

  sync_decimal-read :
      (pos : ℕ) → pos ≤ length src → Agrees src (sync_decimal src pos) (read_decimal (drop pos src))
  unfolding sync_decimal read_decimal
  sync_decimal-read pos le =
      Agrees-and_then src (field_uint src 4 pos) (read_uint 4 (drop pos src)) _ _
        (field_uint-read_uint 4 pos le)
        (λ scale pos' le'.
          made (λ v. ColumnValue.decimal (record { scale = of_bits 31 scale; unscaled = v }))
            (field_sign_magnitude src pos') (read_sign_magnitude (drop pos' src))
            (field_sign_magnitude-read pos' le'))

  sync_duration-read :
      (pos : ℕ)
      → pos ≤ length src
      → Agrees src (sync_duration src pos) (read_duration (drop pos src))
  unfolding sync_duration read_duration
  sync_duration-read pos le =
      Agrees-and_then src (field_uint src 4 pos) (read_uint 4 (drop pos src)) _ _
        (field_uint-read_uint 4 pos le)
        (λ months pos' le'.
          Agrees-and_then src (field_uint src 4 pos') (read_uint 4 (drop pos' src)) _ _
            (field_uint-read_uint 4 pos' le')
            (λ days pos'' le''.
              made
                (λ n. ColumnValue.duration (record {
                  months = of_bits 31 months;
                  days = of_bits 31 days;
                  nanoseconds = of_bits 63 n;
                }))
                (field_uint src 8 pos'') (read_uint 8 (drop pos'' src))
                (field_uint-read_uint 8 pos'' le'')))

  -- In a buffer of fewer than 2^16 bytes, from a place inside it, read_column_value_sync gives the
  -- value that read_column_value reads from the bytes of that place on, and the place of the bytes
  -- that it leaves; where that one stops, it fails an assertion or copies bytes from behind the
  -- buffer.
  pub read_column_value_sync-Agrees :
      (pos : ℕ) (dtype : Basic)
      → pos ≤ length src
      → Agrees src (read_column_value_sync src pos dtype) (read_basic dtype (drop pos src))
  unfolding read_column_value_sync read_basic Agrees
  read_column_value_sync-Agrees pos Basic.smallint le = sync_s16-read pos le
  read_column_value_sync-Agrees pos Basic.int_ le = sync_s32-read pos le
  read_column_value_sync-Agrees pos Basic.date le = sync_s32-read pos le
  read_column_value_sync-Agrees pos Basic.bigint le = sync_s64-read pos le
  read_column_value_sync-Agrees pos Basic.timestamp le = sync_s64-read pos le
  read_column_value_sync-Agrees pos Basic.counter le = sync_s64-read pos le
  read_column_value_sync-Agrees pos Basic.time le = sync_s64-read pos le
  read_column_value_sync-Agrees pos Basic.tinyint le = sync_u8-read pos le
  read_column_value_sync-Agrees pos Basic.boolean le = sync_u8-read pos le
  read_column_value_sync-Agrees pos Basic.float_ le = sync_f32-read pos le
  read_column_value_sync-Agrees pos Basic.double_ le = sync_f64-read pos le
  read_column_value_sync-Agrees pos Basic.text le = sync_str-read pos le
  read_column_value_sync-Agrees pos Basic.varchar le = sync_str-read pos le
  read_column_value_sync-Agrees pos Basic.ascii le = sync_str-read pos le
  read_column_value_sync-Agrees pos Basic.blob le = sync_blob-read pos le
  read_column_value_sync-Agrees pos Basic.hex le = sync_blob-read pos le
  read_column_value_sync-Agrees pos Basic.uuid le = sync_uuid-read pos le
  read_column_value_sync-Agrees pos Basic.timeuuid le = sync_uuid-read pos le
  read_column_value_sync-Agrees pos Basic.inet le = sync_inet-read pos le
  read_column_value_sync-Agrees pos Basic.varint le = sync_varint-read pos le
  read_column_value_sync-Agrees pos Basic.decimal le = sync_decimal-read pos le
  read_column_value_sync-Agrees pos Basic.duration le = sync_duration-read pos le
  read_column_value_sync-Agrees pos Basic.count le = tt
