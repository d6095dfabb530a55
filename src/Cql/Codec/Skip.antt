-- ===== src/Cql/Codec/Skip.antt =====
-- skip_column_value(Reader, type::Basic) passes what read_column_value reads
-- (cql/engine/generated/io_codec_wire.cpp).
use plexdb.Prelude.{ℕ, ◌≡◌, refl, sym, subst, Option, none, some, leb, length, inl, inr, Bool-cases}
use plexdb.Prelude.Fallible.{◌>>=◌}
use plexdb.Core.Text.{Bytes}
use plexdb.Cql.Types.{Basic}
use plexdb.Cql.Value.{ColumnValue}
use plexdb.Cql.Wire.{read, read_uint, skip, from_le, of_bits}
use plexdb.Cql.Codec.{
  read_basic, skip_basic, read_sized, skip_sized, read_sign_magnitude, skip_sign_magnitude, to_bool,
  address_bytes, skip_inet, skip_decimal, skip_duration, read_s16, read_s32, read_s64, read_u8,
  read_f32, read_f64, read_str, read_blob, read_uuid, read_inet, read_varint, read_decimal,
  read_duration,
}

-- Where something was read, `s` leaves what the reading leaves.
abbrev pub Passes {ℓ} : {A : Type ℓ} → Option (A × Bytes) → Option Bytes → Type 0
Passes none s = Unit
Passes (some (a, rest)) s = s ≡ some rest

module _ {ℓ κ} {A : Type ℓ} {B : Type κ} where
  pub Passes-map :
      (f : A → B) (m : Option (A × Bytes)) (s : Option Bytes)
      → Passes m s
      → Passes (m >>= (λ p. some (f p.0, p.1))) s
  Passes-map f none s h = tt
  Passes-map f (some p) s h = h

  -- A step behind one that is passed, when it does not look at what was read.
  pub Passes-bind :
      (m : Option (A × Bytes)) (f : A × Bytes → Option (B × Bytes)) (s : Option Bytes)
      (g : Bytes → Option Bytes)
      → Passes m s
      → ((p : A × Bytes) → Passes (f p) (g p.1))
      → Passes (m >>= f) (s >>= g)
  Passes-bind none f s g e h = tt
  Passes-bind (some p) f s g e h = subst (λ s'. Passes (f p) (s' >>= g)) (sym e) (h p)

  -- A step that looks at it.
  pub Passes-bind_value :
      (m : Option (A × Bytes)) (f : A × Bytes → Option (B × Bytes)) (g : A × Bytes → Option Bytes)
      → ((p : A × Bytes) → Passes (f p) (g p))
      → Passes (m >>= f) (m >>= g)
  Passes-bind_value none f g h = tt
  Passes-bind_value (some p) f g h = h p

read-Passes : (n : ℕ) (input : Bytes) → Passes (read n input) (skip n input)
read-Passes n input = elim (Bool-cases (leb n (length input))) [
  | inl e ↦ rw e refl
  | inr e ↦ rw e tt
]

pub read_uint-Passes : (n : ℕ) (input : Bytes) → Passes (read_uint n input) (skip n input)
read_uint-Passes n input = Passes-map from_le (read n input) _ (read-Passes n input)

read_sized-Passes : (input : Bytes) → Passes (read_sized input) (skip_sized input)
read_sized-Passes input =
    Passes-bind_value (read_uint 8 input) _ (λ p. skip p.0 p.1) (λ p. read-Passes p.0 p.1)

read_sign_magnitude-Passes :
    (input : Bytes) → Passes (read_sign_magnitude input) (skip_sign_magnitude input)
read_sign_magnitude-Passes input =
    Passes-bind (read_uint 1 input) _ (skip 1 input) skip_sized (read_uint-Passes 1 input) (λ p.
      Passes-map (λ m. record { negative = to_bool p.0; magnitude = m }) (read_sized p.1) _
        (read_sized-Passes p.1))

read_s16-Passes : (input : Bytes) → Passes (read_s16 input) (skip 2 input)
unfolding read_s16
read_s16-Passes input =
    Passes-map (λ bits. ColumnValue.s16 (of_bits 15 bits)) (read_uint 2 input) _
      (read_uint-Passes 2 input)

read_s32-Passes : (input : Bytes) → Passes (read_s32 input) (skip 4 input)
unfolding read_s32
read_s32-Passes input =
    Passes-map (λ bits. ColumnValue.s32 (of_bits 31 bits)) (read_uint 4 input) _
      (read_uint-Passes 4 input)

read_s64-Passes : (input : Bytes) → Passes (read_s64 input) (skip 8 input)
unfolding read_s64
read_s64-Passes input =
    Passes-map (λ bits. ColumnValue.s64 (of_bits 63 bits)) (read_uint 8 input) _
      (read_uint-Passes 8 input)

read_u8-Passes : (input : Bytes) → Passes (read_u8 input) (skip 1 input)
unfolding read_u8
read_u8-Passes input =
    Passes-map (λ bits. ColumnValue.u8 (bits)) (read_uint 1 input) _ (read_uint-Passes 1 input)

read_f32-Passes : (input : Bytes) → Passes (read_f32 input) (skip 4 input)
unfolding read_f32
read_f32-Passes input =
    Passes-map (λ bits. ColumnValue.f32 (bits)) (read_uint 4 input) _ (read_uint-Passes 4 input)

read_f64-Passes : (input : Bytes) → Passes (read_f64 input) (skip 8 input)
unfolding read_f64
read_f64-Passes input =
    Passes-map (λ bits. ColumnValue.f64 (bits)) (read_uint 8 input) _ (read_uint-Passes 8 input)

read_str-Passes : (input : Bytes) → Passes (read_str input) (skip_sized input)
unfolding read_str
read_str-Passes input = Passes-map ColumnValue.str (read_sized input) _ (read_sized-Passes input)

read_blob-Passes : (input : Bytes) → Passes (read_blob input) (skip_sized input)
unfolding read_blob
read_blob-Passes input = Passes-map ColumnValue.blob (read_sized input) _ (read_sized-Passes input)

read_uuid-Passes : (input : Bytes) → Passes (read_uuid input) (skip 16 input)
unfolding read_uuid
read_uuid-Passes input = Passes-map ColumnValue.uuid (read 16 input) _ (read-Passes 16 input)

read_varint-Passes : (input : Bytes) → Passes (read_varint input) (skip_sign_magnitude input)
unfolding read_varint
read_varint-Passes input =
    Passes-map ColumnValue.varint (read_sign_magnitude input) _ (read_sign_magnitude-Passes input)

read_inet-Passes : (input : Bytes) → Passes (read_inet input) (skip_inet input)
unfolding read_inet skip_inet
read_inet-Passes input =
    Passes-bind_value (read_uint 1 input) _ (λ p. skip (address_bytes (to_bool p.0)) p.1)
      (λ p.
        Passes-map (λ a. ColumnValue.inet (record { is_v6 = to_bool p.0; address = a }))
          (read (address_bytes (to_bool p.0)) p.1) _
          (read-Passes (address_bytes (to_bool p.0)) p.1))

read_decimal-Passes : (input : Bytes) → Passes (read_decimal input) (skip_decimal input)
unfolding read_decimal skip_decimal
read_decimal-Passes input =
    Passes-bind (read_uint 4 input) _ (skip 4 input) skip_sign_magnitude (read_uint-Passes 4 input)
      (λ p.
        Passes-map (λ v. ColumnValue.decimal (record { scale = of_bits 31 p.0; unscaled = v }))
          (read_sign_magnitude p.1) _ (read_sign_magnitude-Passes p.1))

read_duration-Passes : (input : Bytes) → Passes (read_duration input) (skip_duration input)
unfolding read_duration skip_duration
read_duration-Passes input =
    Passes-bind (read_uint 4 input) _ (skip 4 input) _ (read_uint-Passes 4 input) (λ p.
      Passes-bind (read_uint 4 p.1) _ (skip 4 p.1) (skip 8) (read_uint-Passes 4 p.1) (λ q.
        Passes-map
          (λ n.
            ColumnValue.duration (record {
              months = of_bits 31 p.0;
              days = of_bits 31 q.0;
              nanoseconds = of_bits 63 n;
            }))
          (read_uint 8 q.1) _ (read_uint-Passes 8 q.1)))

pub read_basic-Passes :
    (dtype : Basic) (input : Bytes) → Passes (read_basic dtype input) (skip_basic dtype input)
unfolding read_basic skip_basic
read_basic-Passes Basic.smallint input = read_s16-Passes input
read_basic-Passes Basic.int_ input = read_s32-Passes input
read_basic-Passes Basic.date input = read_s32-Passes input
read_basic-Passes Basic.bigint input = read_s64-Passes input
read_basic-Passes Basic.timestamp input = read_s64-Passes input
read_basic-Passes Basic.counter input = read_s64-Passes input
read_basic-Passes Basic.time input = read_s64-Passes input
read_basic-Passes Basic.tinyint input = read_u8-Passes input
read_basic-Passes Basic.boolean input = read_u8-Passes input
read_basic-Passes Basic.float_ input = read_f32-Passes input
read_basic-Passes Basic.double_ input = read_f64-Passes input
read_basic-Passes Basic.text input = read_str-Passes input
read_basic-Passes Basic.varchar input = read_str-Passes input
read_basic-Passes Basic.ascii input = read_str-Passes input
read_basic-Passes Basic.blob input = read_blob-Passes input
read_basic-Passes Basic.hex input = read_blob-Passes input
read_basic-Passes Basic.uuid input = read_uuid-Passes input
read_basic-Passes Basic.timeuuid input = read_uuid-Passes input
read_basic-Passes Basic.inet input = read_inet-Passes input
read_basic-Passes Basic.varint input = read_varint-Passes input
read_basic-Passes Basic.decimal input = read_decimal-Passes input
read_basic-Passes Basic.duration input = read_duration-Passes input
read_basic-Passes Basic.count input = tt
