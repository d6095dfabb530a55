-- ===== src/Cql/Clustering.antt =====
-- cql/engine/clustering_compare.cpp and cql/engine/key.cpp: the bytes of clustering keys and their
-- order. The values of a key are column values already, and the columns their types and directions.
-- A failed assertion and a copy from behind a buffer are `none`.
pub mod Lexicographic
mod Runs
use plexdb.Prelude.{
  ℕ, Bool, true, false, ◌||◌, Option, none, some, List, [], ◌∷◌, ◌++◌, leb, if◌then◌else◌, length,
}
use plexdb.Prelude.Fallible.{◌>>=◌}
use plexdb.Core.Text.{Bytes}
use plexdb.Cql.Types.{Basic, ColumnType}
use plexdb.Cql.Value.{ColumnValue}
use plexdb.Cql.Compare.{Cmp, less, equal, greater, reverse}
use plexdb.Cql.Order.{compare_column_value}
use plexdb.Cql.Codec.Sync.{Outcome, done, failed, overrun, read_column_value_sync}
use plexdb.Cql.Codec.Write.{write_column_value}

pub data Sort : Type 0 where
  asc desc : Sort

pub record ClusteringColumnSpec : Type 0 where
  pub dtype : Basic
  pub direction : Sort

-- The value that was read and the new place.
abbrev pub settled : Outcome ColumnValue → Option (ColumnValue × ℕ)
settled (done value pos) = some (value, pos)
settled failed = none
settled overrun = none

-- if (direction == Sort::DESC) cmp = -cmp;
abbrev pub directed : Sort → Cmp → Cmp
directed asc cmp = cmp
directed desc cmp = reverse cmp

-- Less and Greater end the loop.
abbrev pub or_later : Cmp → Option Cmp → Option Cmp
or_later less later = some less
or_later equal later = later
or_later greater later = some greater

-- ClusteringKeyComparator::operator(), from the places reached on. An Ordering is a Cmp.
pub compare_clustering : List ClusteringColumnSpec → Bytes → Bytes → ℕ → ℕ → Option Cmp
compare_clustering [] a b pos_a pos_b = some equal
compare_clustering (column ∷ columns) a b pos_a pos_b =
    if leb (length a) pos_a || leb (length b) pos_b then some equal else (do
      (va, pos_a') ← settled (read_column_value_sync a pos_a column.dtype)
      (vb, pos_b') ← settled (read_column_value_sync b pos_b column.dtype)
      cmp ← compare_column_value va vb column.dtype
      or_later (directed column.direction cmp) (compare_clustering columns a b pos_a' pos_b'))

-- append_component, as the bytes that it appends.
pub component : ColumnValue → Basic → Option Bytes
component cv Basic.duration = none
component cv dtype = write_column_value (ColumnType.basic dtype) cv

-- encode_clustering_prefix: no more values than columns.
pub encode_clustering_prefix : List ClusteringColumnSpec → List ColumnValue → Option Bytes
encode_clustering_prefix columns [] = some []
encode_clustering_prefix [] (v ∷ vals) = none
encode_clustering_prefix (column ∷ columns) (v ∷ vals) = do
  bytes ← component v column.dtype
  rest ← encode_clustering_prefix columns vals
  some (bytes ++ rest)

-- decode_clustering, from the place reached on.
pub decode_clustering : List ClusteringColumnSpec → Bytes → ℕ → Option (List ColumnValue)
decode_clustering [] key_bytes pos = some []
decode_clustering (column ∷ columns) key_bytes pos =
    if leb (length key_bytes) pos then some [] else (do
      (value, pos') ← settled (read_column_value_sync key_bytes pos column.dtype)
      values ← decode_clustering columns key_bytes pos'
      some (value ∷ values))
