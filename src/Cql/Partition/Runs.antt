-- ===== src/Cql/Partition/Runs.antt =====
-- Partition keys (cql/engine/key.cpp) on concrete values.
use plexdb.Prelude.{◌≡◌, refl, arith, List, [], ◌∷◌, some}
use plexdb.Prelude.Int.{pos}
use plexdb.Core.Text.{Bytes}
use plexdb.Cql.Types.{Basic}
use plexdb.Cql.Value.{ColumnValue}
use plexdb.Cql.Codec.Write.{can_write_column_value, can_write_typed_basic}
use plexdb.Cql.Token.{murmur3_token}
use plexdb.Cql.Partition.{compute_partition_token, payload}
use plexdb.Cql.Partition.Framing.{
  IsShort, HavePayloads, delimited, partition_bytes, compute_partition_token-partition_bytes,
  composite_bytes-injective,
}

-- An integer and a text.
abbrev columns : List (ColumnValue × Basic)
columns = (ColumnValue.s32 (pos 258), Basic.int_) ∷ (ColumnValue.str (65 ∷ []), Basic.text) ∷ []

abbrev column_payloads : List Bytes
column_payloads = (0 ∷ 0 ∷ 1 ∷ 2 ∷ []) ∷ (65 ∷ []) ∷ []

columns-HavePayloads : HavePayloads columns column_payloads
unfolding HavePayloads payload can_write_column_value can_write_typed_basic
columns-HavePayloads = (refl, refl, omega arith, (refl, refl, omega arith, tt))

compute_partition_token-partition_bytes_example :
    compute_partition_token columns
    ≡ some (murmur3_token (0 ∷ 4 ∷ 0 ∷ 0 ∷ 1 ∷ 2 ∷ 0 ∷ 0 ∷ 1 ∷ 65 ∷ 0 ∷ []))
unfolding partition_bytes delimited
compute_partition_token-partition_bytes_example =
    compute_partition_token-partition_bytes columns column_payloads columns-HavePayloads
      (omega arith)

abbrev payloads : List Bytes
payloads = (1 ∷ 2 ∷ []) ∷ [] ∷ []

composite_bytes-injective_example : payloads ≡ payloads
unfolding IsShort
composite_bytes-injective_example =
    composite_bytes-injective payloads payloads (omega arith, (omega arith, tt))
      (omega arith, (omega arith, tt)) refl
