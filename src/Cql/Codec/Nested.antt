-- ===== src/Cql/Codec/Nested.antt =====
-- cql/engine/io.codec.cpp: the bytes of a value of any type but a set and a map. A failed assertion
-- and a Reader without enough bytes are `none`. The array of the types of the fields is walked
-- beside the index of the field, which the bits of the mask are taken by.
pub mod Passed
use plexdb.Prelude.{
  ◌≡◌, refl, ℕ, zero, suc, ◌+◌, ◌-◌, Bool, true, false, ◌||◌, Option, none, some, List, [], ◌∷◌,
  ◌++◌, leb, if◌then◌else◌, replicate, length,
}
use plexdb.Prelude.Fallible.{◌>>=◌}
use plexdb.Core.Text.{Bytes}
use plexdb.Cql.Types.{Basic, ColumnType, ColumnTypes}
use plexdb.Cql.Value.{ColumnValue, ColumnValues, values_length}
use plexdb.Cql.Wire.{le, read_uint}
use plexdb.Cql.Codec.{Read, read_basic, skip_basic, write_default_basic, write_typed_basic}
use plexdb.Cql.Codec.Mask.{mask_words, mask_bit, set_bit, read_mask, write_words, write_empty_mask}

-- field_types.length
abbrev pub types_length : ColumnTypes → ℕ
types_length ColumnTypes.no_types = zero
types_length (ColumnTypes.a_type t ts) = suc (types_length ts)

abbrev pub ReadMany : Type 0
ReadMany = Option (ColumnValues × Bytes)

-- for (i = 0; i < length; i++) push_back(arr, read_column_value(r, element))
unfoldable pub read_many : (Bytes → Read) → ℕ → Bytes → ReadMany
read_many reader zero input = some (ColumnValues.no_values, input)
read_many reader (suc n) input = do
  (value, input') ← reader input
  (values, rest) ← read_many reader n input'
  some (ColumnValues.a_value value values, rest)

-- for (i = written; i < current_field_count; i++) push_back(arr, Null)
abbrev pub nulls : ℕ → ColumnValues
nulls zero = ColumnValues.no_values
nulls (suc n) = ColumnValues.a_value ColumnValue.null (nulls n)

abbrev pub append_values : ColumnValues → ColumnValues → ColumnValues
append_values ColumnValues.no_values ws = ws
append_values (ColumnValues.a_value v vs) ws = ColumnValues.a_value v (append_values vs ws)

abbrev pub to_array : ReadMany → Read
to_array read = do (values, rest) ← read; some (ColumnValue.array values, rest)

-- The count that was written, no more than the type has fields, the fields by `payloads`, and a Null
-- for every field that the type has more.
unfoldable pub read_udt_fields : (ℕ → List ℕ → ℕ → Bytes → ReadMany) → ℕ → Bytes → ReadMany
read_udt_fields payloads current_field_count input = do
  (written, input') ← read_uint 8 input
  (mask, input'') ← if leb written current_field_count then read_mask input' written else none
  (values, rest) ← payloads written mask 0 input''
  some (append_values values (nulls (current_field_count - written)), rest)

-- The branches of read_column_value, over the reader of an element or of the payloads.
abbrev pub read_list : (Bytes → Read) → Bytes → Read
read_list reader input = do
  (length, input') ← read_uint 8 input
  to_array (read_many reader length input')

abbrev pub read_vector : (Bytes → Read) → ℕ → Bytes → Read
read_vector reader n input = to_array (read_many reader n input)

abbrev pub read_tuple : (ℕ → List ℕ → ℕ → Bytes → ReadMany) → ℕ → Bytes → Read
read_tuple payloads n input = do
  (mask, input') ← read_mask input n
  to_array (payloads n mask 0 input')

abbrev pub read_udt : (ℕ → List ℕ → ℕ → Bytes → ReadMany) → ℕ → Bytes → Read
read_udt payloads n input = to_array (read_udt_fields payloads n input)

unfoldable mutual
  pub read_column_value : ColumnType → Bytes → Read
  read_column_value (ColumnType.basic dtype) input = read_basic dtype input
  read_column_value (ColumnType.list element frozen) input =
      read_list (read_column_value element) input
  read_column_value (ColumnType.vector element n frozen) input =
      read_vector (read_column_value element) n input
  read_column_value (ColumnType.tuple elements frozen) input =
      read_tuple (read_masked_payloads elements) (types_length elements) input
  read_column_value (ColumnType.udt keyspace name names types) input =
      read_udt (read_masked_payloads types) (types_length types) input

  -- read_masked_payloads behind the mask, from field i on.
  pub read_masked_payloads : ColumnTypes → ℕ → List ℕ → ℕ → Bytes → ReadMany
  read_masked_payloads types zero mask i input = some (ColumnValues.no_values, input)
  read_masked_payloads ColumnTypes.no_types (suc n) mask i input = none
  read_masked_payloads (ColumnTypes.a_type t ts) (suc n) mask i input = do
    (value, input') ←
        if mask_bit mask i then read_column_value t input else some (ColumnValue.null, input)
    (values, rest) ← read_masked_payloads ts n mask (suc i) input'
    some (ColumnValues.a_value value values, rest)

-- for (i = 0; i < count; i++) skip_column_value(r, element)
pub skip_many : (Bytes → Option Bytes) → ℕ → Bytes → Option Bytes
skip_many skipper zero input = some input
skip_many skipper (suc n) input = do rest ← skipper input; skip_many skipper n rest

pub skip_udt_fields : (ℕ → List ℕ → ℕ → Bytes → Option Bytes) → ℕ → Bytes → Option Bytes
skip_udt_fields payloads current_field_count input = do
  (written, input') ← read_uint 8 input
  (mask, input'') ← if leb written current_field_count then read_mask input' written else none
  payloads written mask 0 input''

-- Two branches of skip_column_value, in the same way.
abbrev pub skip_list : (Bytes → Option Bytes) → Bytes → Option Bytes
skip_list skipper input = do (n, input') ← read_uint 8 input; skip_many skipper n input'

abbrev pub skip_tuple : (ℕ → List ℕ → ℕ → Bytes → Option Bytes) → ℕ → Bytes → Option Bytes
skip_tuple payloads n input = do (mask, input') ← read_mask input n; payloads n mask 0 input'

mutual
  pub skip_column_value : ColumnType → Bytes → Option Bytes
  skip_column_value (ColumnType.basic dtype) input = skip_basic dtype input
  skip_column_value (ColumnType.list element frozen) input =
      skip_list (skip_column_value element) input
  skip_column_value (ColumnType.vector element n frozen) input =
      skip_many (skip_column_value element) n input
  skip_column_value (ColumnType.tuple elements frozen) input =
      skip_tuple (skip_masked_payloads elements) (types_length elements) input
  skip_column_value (ColumnType.udt keyspace name names types) input =
      skip_udt_fields (skip_masked_payloads types) (types_length types) input

  pub skip_masked_payloads : ColumnTypes → ℕ → List ℕ → ℕ → Bytes → Option Bytes
  skip_masked_payloads types zero mask i input = some input
  skip_masked_payloads ColumnTypes.no_types (suc n) mask i input = none
  skip_masked_payloads (ColumnTypes.a_type t ts) (suc n) mask i input = do
    rest ← if mask_bit mask i then skip_column_value t input else some input
    skip_masked_payloads ts n mask (suc i) rest

-- write_default_column_value(Writer, const type::Type&)
unfoldable pub write_default_column_value : ColumnType → Bytes
write_default_column_value (ColumnType.basic dtype) = write_default_basic dtype
write_default_column_value (ColumnType.tuple elements frozen) =
    write_empty_mask (types_length elements)
write_default_column_value (ColumnType.udt keyspace name names types) =
    le 8 (types_length types) ++ write_empty_mask (types_length types)
write_default_column_value (ColumnType.list element frozen) = le 8 0
write_default_column_value (ColumnType.vector element n frozen) = le 8 0

pub append_values_none : (vs : ColumnValues) → append_values vs (nulls 0) ≡ vs
append_values_none ColumnValues.no_values = refl
append_values_none (ColumnValues.a_value v vs) = rw (append_values_none vs)
