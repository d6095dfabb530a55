-- ===== src/Cql/Codec/Runs.antt =====
-- The codec (cql/engine/io.codec.cpp) on concrete values.
use plexdb.Prelude.{
  ℕ, ◌≡◌, refl, arith, [], ◌∷◌, ◌++◌, some, inl, inr, Bool, false, ◌==◌, ◌%◌, drop,
}
use plexdb.Prelude.Int.{pos, negsuc}
use plexdb.Core.Text.{Bytes, bytes}
use plexdb.Cql.Types.{Basic, ColumnType, ColumnTypes}
use plexdb.Cql.Value.{ColumnValue, ColumnValues}
use plexdb.Cql.Wire.{IsSigned, le}
use plexdb.Cql.Codec.{read_basic}
use plexdb.Cql.Codec.Fits.{Fits, FitsS32, FitsStr}
use plexdb.Cql.Codec.Skip.{Passes}
use plexdb.Cql.Codec.Mask.{mask_bit}
use plexdb.Cql.Codec.Nested.{read_column_value, skip_column_value, write_default_column_value}
use plexdb.Cql.Codec.Nested.Passed.{read_column_value-Passes}
use plexdb.Cql.Codec.Write.{write_column_value}
use plexdb.Cql.Codec.Write.Sound.{FitsType, FieldsFit, read_column_value-write_column_value}
use plexdb.Cql.Codec.Default.{HasDefault, default_value, read_column_value-write_default}
use plexdb.Cql.Codec.Sync.{read_column_value_sync}
use plexdb.Cql.Codec.Sync.Agrees.{Agrees, read_column_value_sync-Agrees}
use plexdb.Cql.Codec.Meta.{
  CellMetadata, read_cell_metadata, write_cell_metadata, has_ttl, has_writetime, mask_words_of,
}
use plexdb.Cql.Codec.Meta.Laws.{kept, read_cell_metadata-write_cell_metadata}
use plexdb.Cql.Codec.Meta.Bits.{mask_bit-mask_words_of}

-- A user-defined type with an int, a list of texts, and one more int, and a value with a Null in it.
abbrev int_type : ColumnType
int_type = ColumnType.basic Basic.int_

abbrev address_type : ColumnType
address_type = ColumnType.udt (bytes "ks") (bytes "address") [] (
    ColumnTypes.a_type int_type (
      ColumnTypes.a_type (ColumnType.list (ColumnType.basic Basic.text) false)
        (ColumnTypes.a_type int_type ColumnTypes.no_types)))

abbrev an_address : ColumnValue
an_address = ColumnValue.array (
    ColumnValues.a_value (ColumnValue.s32 (negsuc 6)) (
      ColumnValues.a_value
        (ColumnValue.array
          (ColumnValues.a_value (ColumnValue.str (65 ∷ 66 ∷ [])) ColumnValues.no_values))
        (ColumnValues.a_value ColumnValue.null ColumnValues.no_values)))

an_address-FitsType : FitsType address_type an_address
unfolding FitsType FieldsFit Fits FitsS32 FitsStr IsSigned
an_address-FitsType =
    ((inr (omega arith), (inr ((omega arith, tt), omega arith), (inl refl, tt))), omega arith)

read_column_value-write_column_value_example :
    (written : Bytes) × (write_column_value address_type an_address ≡ some written)
    × (read_column_value address_type (written ++ 9 ∷ []) ≡ some (an_address, 9 ∷ []))
read_column_value-write_column_value_example =
    read_column_value-write_column_value address_type an_address (9 ∷ []) an_address-FitsType

abbrev a_list_of_two : Bytes
a_list_of_two = le 8 2 ++ le 4 7 ++ le 4 8 ++ 5 ∷ []

read_column_value-Passes_example :
    Passes
      (read_column_value (ColumnType.list int_type false) a_list_of_two)
      (skip_column_value (ColumnType.list int_type false) a_list_of_two)
read_column_value-Passes_example =
    read_column_value-Passes (ColumnType.list int_type false) a_list_of_two

read_column_value-write_default_example :
    read_column_value address_type (write_default_column_value address_type ++ [])
    ≡ some (default_value address_type, [])
unfolding HasDefault
read_column_value-write_default_example =
    read_column_value-write_default address_type [] (omega arith)

abbrev a_buffer : Bytes
a_buffer = 1 ∷ 0 ∷ le 8 2 ++ 7 ∷ 8 ∷ []

read_column_value_sync-Agrees_example :
    Agrees a_buffer
      (read_column_value_sync a_buffer 1 Basic.varint)
      (read_basic Basic.varint (drop 1 a_buffer))
read_column_value_sync-Agrees_example =
    read_column_value_sync-Agrees a_buffer (omega arith) 1 Basic.varint (omega arith)

-- A cell with a time to live and no write time.
abbrev a_cell : CellMetadata
a_cell = record { flags = 1; expiry_unix_ms = pos 1000; writetime_us = pos 5 }

read_cell_metadata-write_cell_metadata_example :
    read_cell_metadata (write_cell_metadata a_cell ++ 9 ∷ [])
    ≡ some (
      record {
        flags = 1;
        expiry_unix_ms = kept (has_ttl 1) (pos 1000);
        writetime_us = kept (has_writetime 1) (pos 5);
      },
      9 ∷ [],
    )
unfolding IsSigned
read_cell_metadata-write_cell_metadata_example =
    read_cell_metadata-write_cell_metadata a_cell (9 ∷ []) (omega arith) (omega arith) (omega arith)

abbrev cell_bytes : Bytes
cell_bytes = 1 ∷ le 8 1000 ++ 9 ∷ []

-- Every third of seventy columns.
abbrev third : ℕ → Bool
third column = column % 3 == 0

mask_bit-mask_words_of_example : mask_bit (mask_words_of third 70 0 0) 66 ≡ third 66
mask_bit-mask_words_of_example = mask_bit-mask_words_of third 70 66 (omega arith)
