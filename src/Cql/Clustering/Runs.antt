-- ===== src/Cql/Clustering/Runs.antt =====
-- Clustering keys (cql/engine/key.cpp, cql/engine/clustering_compare.cpp) on concrete values.
use plexdb.Prelude.{◌≡◌, ◌≢◌, arith, List, [], ◌∷◌, some}
use plexdb.Prelude.Int.{negsuc}
use plexdb.Cql.Types.{Basic}
use plexdb.Cql.Value.{ColumnValue}
use plexdb.Cql.Wire.{IsSigned}
use plexdb.Cql.Codec.{write_typed_basic}
use plexdb.Cql.Codec.Fits.{Fits, FitsS32, FitsStr}
use plexdb.Cql.Clustering.{ClusteringColumnSpec, Sort, compare_clustering, decode_clustering}
use plexdb.Cql.Clustering.Lexicographic.{
  AreKey, lexicographic, key_bytes, encode_clustering_prefix-AreKey,
  compare_clustering-lexicographic, decode_clustering-encode_clustering_prefix,
}

-- An integer in falling order and a text in rising order.
abbrev columns : List ClusteringColumnSpec
columns =
    record { dtype = Basic.int_; direction = Sort.desc }
    ∷ record { dtype = Basic.text; direction = Sort.asc }
    ∷ []

abbrev key : List ColumnValue
key = ColumnValue.s32 (negsuc 2) ∷ ColumnValue.str (65 ∷ 66 ∷ []) ∷ []

abbrev prefix : List ColumnValue
prefix = ColumnValue.s32 (negsuc 2) ∷ []

int_no_duration : Basic.int_ ≢ Basic.duration
int_no_duration e = ground (arith, e)

text_no_duration : Basic.text ≢ Basic.duration
text_no_duration e = ground (arith, e)

key-AreKey : AreKey columns key
unfolding AreKey Fits FitsS32 FitsStr IsSigned
key-AreKey = (int_no_duration, omega arith, (text_no_duration, omega arith, tt))

prefix-AreKey : AreKey columns prefix
unfolding AreKey Fits FitsS32 IsSigned
prefix-AreKey = (int_no_duration, omega arith, tt)

compare_clustering-lexicographic_example :
    compare_clustering columns (key_bytes key) (key_bytes prefix) 0 0
    ≡ lexicographic columns key prefix
unfolding key_bytes write_typed_basic
compare_clustering-lexicographic_example =
    compare_clustering-lexicographic columns key prefix (key_bytes key) (key_bytes prefix)
      key-AreKey prefix-AreKey (encode_clustering_prefix-AreKey columns key key-AreKey)
      (encode_clustering_prefix-AreKey columns prefix prefix-AreKey) (omega arith) (omega arith)

decode_clustering-encode_clustering_prefix_example :
    decode_clustering columns (key_bytes key) 0 ≡ some key
unfolding key_bytes write_typed_basic
decode_clustering-encode_clustering_prefix_example =
    decode_clustering-encode_clustering_prefix columns key (key_bytes key) key-AreKey
      (encode_clustering_prefix-AreKey columns key key-AreKey) (omega arith)
