-- ===== src/Cql/Codec/Nested/Passed.antt =====
-- skip_column_value passes what read_column_value reads (cql/engine/io.codec.cpp).
use plexdb.Prelude.{
  ℕ, zero, suc, ◌-◌, refl, Option, none, some, Bool, true, false, List, leb, if◌then◌else◌,
}
use plexdb.Core.Text.{Bytes}
use plexdb.Cql.Types.{ColumnType, ColumnTypes}
use plexdb.Cql.Value.{ColumnValue, ColumnValues}
use plexdb.Cql.Wire.{read_uint}
use plexdb.Cql.Codec.{Read}
use plexdb.Cql.Codec.Mask.{read_mask, mask_bit}
use plexdb.Cql.Codec.Skip.{Passes, Passes-map, Passes-bind, Passes-bind_value, read_basic-Passes}
use plexdb.Cql.Codec.Nested.{
  types_length, read_many, skip_many, read_column_value, skip_column_value, read_masked_payloads,
  skip_masked_payloads, read_udt_fields, skip_udt_fields, nulls, append_values,
}

read_many-Passes :
    (reader : Bytes → Read) (skipper : Bytes → Option Bytes)
    → ((input : Bytes) → Passes (reader input) (skipper input))
    → (n : ℕ) (input : Bytes) → Passes (read_many reader n input) (skip_many skipper n input)
unfolding read_many skip_many
read_many-Passes reader skipper h zero input = refl
read_many-Passes reader skipper h (suc n) input =
    Passes-bind (reader input) _ (skipper input) (skip_many skipper n) (h input) (λ p.
      Passes-map (λ vs. ColumnValues.a_value p.0 vs) (read_many reader n p.1) _
        (read_many-Passes reader skipper h n p.1))

read_udt_fields-Passes :
    (reader : ℕ → List ℕ → ℕ → Bytes → Option (ColumnValues × Bytes))
    (skipper : ℕ → List ℕ → ℕ → Bytes → Option Bytes)
    → ((n : ℕ) (mask : List ℕ) (i : ℕ) (input : Bytes)
        → Passes (reader n mask i input) (skipper n mask i input))
    → (count : ℕ) (input : Bytes)
    → Passes (read_udt_fields reader count input) (skip_udt_fields skipper count input)
unfolding read_udt_fields skip_udt_fields
read_udt_fields-Passes reader skipper h count input =
    Passes-bind_value (read_uint 8 input) _ _ (λ p.
      Passes-bind_value (if leb p.0 count then read_mask p.1 p.0 else none) _ _ (λ q.
        Passes-map (λ vs. append_values vs (nulls (count - p.0))) (reader p.0 q.0 0 q.1) _
          (h p.0 q.0 0 q.1)))

-- A field whose bit is set, and one whose bit is not.
either :
    (bit : Bool) (read : Read) (skipped : Option Bytes) (input : Bytes)
    → Passes read skipped
    → Passes
        (if bit then read else some (ColumnValue.null, input))
        ((if bit then skipped else some input))
either true read skipped input h = h
either false read skipped input h = refl

mutual
  unfolding read_column_value skip_column_value read_masked_payloads skip_masked_payloads

  column_value_passed :
      (cdtype : ColumnType) (input : Bytes)
      → Passes (read_column_value cdtype input) (skip_column_value cdtype input)
  column_value_passed (ColumnType.basic dtype) input = read_basic-Passes dtype input
  column_value_passed (ColumnType.list element frozen) input =
      Passes-bind_value (read_uint 8 input) _ _ (λ p.
        Passes-map ColumnValue.array (read_many (read_column_value element) p.0 p.1) _ (
          read_many-Passes (read_column_value element) (skip_column_value element)
            (column_value_passed element) p.0 p.1))
  column_value_passed (ColumnType.vector element n frozen) input =
      Passes-map ColumnValue.array (read_many (read_column_value element) n input) _ (
        read_many-Passes (read_column_value element) (skip_column_value element)
          (column_value_passed element) n input)
  column_value_passed (ColumnType.tuple elements frozen) input =
      Passes-bind_value (read_mask input (types_length elements)) _ _ (λ p.
        Passes-map ColumnValue.array
          (read_masked_payloads elements (types_length elements) p.0 0 p.1) _
          (payloads_passed elements (types_length elements) p.0 0 p.1))
  column_value_passed (ColumnType.udt keyspace name names types) input =
      Passes-map ColumnValue.array
        (read_udt_fields (read_masked_payloads types) (types_length types) input) _
        (read_udt_fields-Passes (read_masked_payloads types) (skip_masked_payloads types)
          (payloads_passed types) (types_length types) input)

  payloads_passed :
      (types : ColumnTypes) (n : ℕ) (mask : List ℕ) (i : ℕ) (input : Bytes)
      → Passes
          (read_masked_payloads types n mask i input)
          (skip_masked_payloads types n mask i input)
  payloads_passed types zero mask i input = refl
  payloads_passed ColumnTypes.no_types (suc n) mask i input = tt
  payloads_passed (ColumnTypes.a_type t ts) (suc n) mask i input =
      Passes-bind
        (if mask_bit mask i then read_column_value t input else some (ColumnValue.null, input)) _
        (if mask_bit mask i then skip_column_value t input else some input)
        (skip_masked_payloads ts n mask (suc i))
        (either (mask_bit mask i) (read_column_value t input) (skip_column_value t input) input
          (column_value_passed t input))
        (λ p.
          Passes-map (λ vs. ColumnValues.a_value p.0 vs)
            (read_masked_payloads ts n mask (suc i) p.1) _ (payloads_passed ts n mask (suc i) p.1))

-- For a type without sets and maps, and any bytes: where read_column_value reads a value,
-- skip_column_value leaves the bytes that it leaves.
pub read_column_value-Passes :
    (cdtype : ColumnType) (input : Bytes)
    → Passes (read_column_value cdtype input) (skip_column_value cdtype input)
read_column_value-Passes = column_value_passed
