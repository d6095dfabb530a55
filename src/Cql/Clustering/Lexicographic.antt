-- ===== src/Cql/Clustering/Lexicographic.antt =====
-- The comparator of clustering keys (cql/engine/clustering_compare.cpp) on the bytes that
-- cql/engine/key.cpp encodes.
use plexdb.Prelude.{
  ℕ, ◌^◌, ◌≤◌, ◌<◌, ◌≡◌, ◌≢◌, ◌∙◌, refl, sym, ap, subst, true, false, Option, none, some, List, [],
  ◌∷◌, ◌++◌, leb, length, length-append, length-drop, drop, le→leb, lt→leb_false, arith,
}
use plexdb.Prelude.Fallible.{◌>>=◌}
use plexdb.Core.Text.{Bytes}
use plexdb.Cql.Types.{Basic}
use plexdb.Cql.Value.{ColumnValue}
use plexdb.Cql.Compare.{Cmp, less, equal, greater, reverse, reversed}
use plexdb.Cql.Order.{compare_column_value}
use plexdb.Cql.Order.Laws.{compare_column_value-reversed}
use plexdb.Cql.Codec.{read_basic, write_typed_basic}
use plexdb.Cql.Codec.Fits.{Fits}
use plexdb.Cql.Codec.RoundTrip.{read_basic-write_typed_basic, length-write_typed_basic}
use plexdb.Cql.Codec.Write.Accepts.{write_column_value-Fits}
use plexdb.Cql.Codec.Sync.{Outcome, done, failed, overrun, read_column_value_sync}
use plexdb.Cql.Codec.Sync.Agrees.{Agrees, read_column_value_sync-Agrees}
use plexdb.Cql.Clustering.{
  ClusteringColumnSpec, Sort, asc, desc, settled, directed, or_later, compare_clustering, component,
  encode_clustering_prefix, decode_clustering,
}

-- The values of a key, as many as there are columns or fewer.
unfoldable pub AreKey : List ClusteringColumnSpec → List ColumnValue → Type 0
AreKey columns [] = Unit
AreKey [] (v ∷ vals) = ⊥
AreKey (column ∷ columns) (v ∷ vals) =
    (column.dtype ≢ Basic.duration) × Fits column.dtype v × AreKey columns vals

-- Two values of a column: in falling order, the sides are exchanged.
unfoldable in_direction : Sort → Basic → ColumnValue → ColumnValue → Option Cmp
in_direction asc dtype v w = compare_column_value v w dtype
in_direction desc dtype v w = compare_column_value w v dtype

-- The first of two answers, unless it is equal.
unfoldable first_difference : Option Cmp → Option Cmp → Option Cmp
first_difference none later = none
first_difference (some less) later = some less
first_difference (some equal) later = later
first_difference (some greater) later = some greater

-- The order of two keys: the first column whose values differ decides, in its direction, and a key
-- that ends before is equal to one that goes on.
pub lexicographic : List ClusteringColumnSpec → List ColumnValue → List ColumnValue → Option Cmp
lexicographic columns [] ws = some equal
lexicographic columns vs [] = some equal
lexicographic [] vs ws = some equal
lexicographic (column ∷ columns) (v ∷ vs) (w ∷ ws) =
    first_difference (in_direction column.direction column.dtype v w) (lexicographic columns vs ws)

rising :
    (c later : Option Cmp)
    → (c >>= λ cmp. or_later (directed asc cmp) later) ≡ first_difference c later
unfolding first_difference
rising none later = refl
rising (some less) later = refl
rising (some equal) later = refl
rising (some greater) later = refl

falling :
    (c later : Option Cmp)
    → (c >>= λ cmp. or_later (directed desc cmp) later) ≡ first_difference (reversed c) later
unfolding first_difference reversed reverse
falling none later = refl
falling (some less) later = refl
falling (some equal) later = refl
falling (some greater) later = refl

or_later-first_difference :
    (direction : Sort) (dtype : Basic) (v w : ColumnValue) (later : Option Cmp)
    → (compare_column_value v w dtype >>= λ cmp. or_later (directed direction cmp) later)
      ≡ first_difference (in_direction direction dtype v w) later
unfolding in_direction
or_later-first_difference asc dtype v w later = rising (compare_column_value v w dtype) later
or_later-first_difference desc dtype v w later =
    falling (compare_column_value v w dtype) later
    ∙ ap (λ c. first_difference c later) (sym (compare_column_value-reversed v w dtype))

-- The bytes of a key.
unfoldable pub key_bytes : List ColumnValue → Bytes
key_bytes [] = []
key_bytes (v ∷ vals) = write_typed_basic v ++ key_bytes vals

component-Fits :
    (v : ColumnValue) (dtype : Basic)
    → dtype ≢ Basic.duration
    → Fits dtype v
    → component v dtype ≡ some (write_typed_basic v)
unfolding component
component-Fits v Basic.duration ne fits = absurd (ne refl)
component-Fits v dtype ne fits = write_column_value-Fits dtype v fits

pub encode_clustering_prefix-AreKey :
    (columns : List ClusteringColumnSpec) (vals : List ColumnValue)
    → AreKey columns vals
    → encode_clustering_prefix columns vals ≡ some (key_bytes vals)
unfolding encode_clustering_prefix AreKey key_bytes
encode_clustering_prefix-AreKey columns [] h = refl
encode_clustering_prefix-AreKey [] (v ∷ vals) h = absurd h
encode_clustering_prefix-AreKey (column ∷ columns) (v ∷ vals) (ne, fits, h) =
    rw (component-Fits v column.dtype ne fits, encode_clustering_prefix-AreKey columns vals h) refl

-- Reading at a place where the bytes of a value stand.
by_outcome :
    (src rest : Bytes) (v : ColumnValue) (o : Outcome ColumnValue)
    → Agrees src o (some (v, rest))
    → (pos' : ℕ) × (settled o ≡ some (v, pos')) × (pos' ≤ length src) × (drop pos' src ≡ rest)
unfolding Agrees
by_outcome src rest v (done a p) (same, le, e) = (p, ap (λ x. some (x, p)) same, le, sym e)
by_outcome src rest v failed h = absurd h
by_outcome src rest v overrun h = absurd h

read_at :
    (src : Bytes) (pos : ℕ) (dtype : Basic) (v : ColumnValue) (rest : Bytes)
    → length src < 2 ^ 16
    → pos ≤ length src
    → Fits dtype v
    → drop pos src ≡ write_typed_basic v ++ rest
    → (pos' : ℕ) × (settled (read_column_value_sync src pos dtype) ≡ some (v, pos'))
      × (pos' ≤ length src)
      × (drop pos' src ≡ rest)
read_at src pos dtype v rest short le fits here =
    by_outcome src rest v (read_column_value_sync src pos dtype) (
      subst (Agrees src (read_column_value_sync src pos dtype))
        (ap (read_basic dtype) here ∙ read_basic-write_typed_basic dtype v rest fits)
        (read_column_value_sync-Agrees src short pos dtype le))

-- The test for the end of the bytes, before a value and behind the last.
not_at_end :
    (src : Bytes) (pos : ℕ) (dtype : Basic) (v : ColumnValue) (rest : Bytes)
    → Fits dtype v
    → drop pos src ≡ write_typed_basic v ++ rest
    → leb (length src) pos ≡ false
not_at_end src pos dtype v rest fits here = lt→leb_false (length src) pos (
    omega (
      arith,
      length-drop pos src,
      ap length here,
      length-append (write_typed_basic v) rest,
      length-write_typed_basic dtype v fits,
    ))

at_end : (src : Bytes) (pos : ℕ) → drop pos src ≡ [] → leb (length src) pos ≡ true
at_end src pos here = le→leb (length src) pos (omega (arith, length-drop pos src, ap length here))

module _ (a b : Bytes) (short_a : length a < 2 ^ 16) (short_b : length b < 2 ^ 16) where
  compare_clustering-at :
      (columns : List ClusteringColumnSpec) (vs ws : List ColumnValue) (pos_a pos_b : ℕ)
      → AreKey columns vs
      → AreKey columns ws
      → pos_a ≤ length a
      → pos_b ≤ length b
      → drop pos_a a ≡ key_bytes vs
      → drop pos_b b ≡ key_bytes ws
      → compare_clustering columns a b pos_a pos_b ≡ lexicographic columns vs ws
  unfolding compare_clustering lexicographic AreKey key_bytes
  compare_clustering-at [] [] ws pa pb h k la lb ea eb = refl
  compare_clustering-at [] (v ∷ vs) ws pa pb h k la lb ea eb = absurd h
  compare_clustering-at (column ∷ columns) [] ws pa pb h k la lb ea eb = rw (at_end a pa ea) refl
  compare_clustering-at (column ∷ columns) (v ∷ vs) [] pa pb (ne, fits, h) k la lb ea eb =
      rw (not_at_end a pa column.dtype v (key_bytes vs) fits ea, at_end b pb eb) refl
  compare_clustering-at (column ∷ columns) (v ∷ vs) (w ∷ ws) pa pb (ne, fits, h) (ne', fits', k) la
        lb ea eb =
      let (pa', found_a, la', ea') =
        read_at a pa column.dtype v (key_bytes vs) short_a la fits ea in
      let (pb', found_b, lb', eb') =
        read_at b pb column.dtype w (key_bytes ws) short_b lb fits' eb in
      rw
        (
          not_at_end a pa column.dtype v (key_bytes vs) fits ea,
          not_at_end b pb column.dtype w (key_bytes ws) fits' eb,
          found_a,
          found_b,
          compare_clustering-at columns vs ws pa' pb' h k la' lb' ea' eb',
        )
        (or_later-first_difference column.direction column.dtype v w (lexicographic columns vs ws))

same_bytes : {a b : Bytes} → some a ≡ some b → a ≡ b
same_bytes {a} e = ap (from_some a) e
  where
    from_some : Bytes → Option Bytes → Bytes
    from_some d none = d
    from_some d (some x) = x

-- On the bytes that encode_clustering_prefix makes of two keys, each of no more values than there
-- are columns and of the types of the columns, with fewer than 2^16 bytes, the comparator gives
-- the lexicographic order of the values: the first column whose values differ by
-- compare_column_value decides, with its sides exchanged in a falling column, and a key that is
-- the beginning of another is equal to it.
pub compare_clustering-lexicographic :
    (columns : List ClusteringColumnSpec) (vs ws : List ColumnValue) (a b : Bytes)
    → AreKey columns vs
    → AreKey columns ws
    → encode_clustering_prefix columns vs ≡ some a
    → encode_clustering_prefix columns ws ≡ some b
    → length a < 2 ^ 16
    → length b < 2 ^ 16
    → compare_clustering columns a b 0 0 ≡ lexicographic columns vs ws
compare_clustering-lexicographic columns vs ws a b h k ea eb short_a short_b =
    compare_clustering-at a b short_a short_b columns vs ws 0 0 h k (omega arith) (omega arith)
      (same_bytes (sym ea ∙ encode_clustering_prefix-AreKey columns vs h))
      (same_bytes (sym eb ∙ encode_clustering_prefix-AreKey columns ws k))

module _ (src : Bytes) (short : length src < 2 ^ 16) where
  decode_clustering-at :
      (columns : List ClusteringColumnSpec) (vals : List ColumnValue) (pos : ℕ)
      → AreKey columns vals
      → pos ≤ length src
      → drop pos src ≡ key_bytes vals
      → decode_clustering columns src pos ≡ some vals
  unfolding decode_clustering AreKey key_bytes
  decode_clustering-at [] [] pos h le e = refl
  decode_clustering-at [] (v ∷ vals) pos h le e = absurd h
  decode_clustering-at (column ∷ columns) [] pos h le e = rw (at_end src pos e) refl
  decode_clustering-at (column ∷ columns) (v ∷ vals) pos (ne, fits, h) le e =
      let (pos', found, le', e') =
        read_at src pos column.dtype v (key_bytes vals) short le fits e in
      rw
        (
          not_at_end src pos column.dtype v (key_bytes vals) fits e,
          found,
          decode_clustering-at columns vals pos' h le' e',
        )
        refl

-- decode_clustering gives back the values of a key, no more than there are columns and of their
-- types, from the bytes that encode_clustering_prefix makes of them, when these are fewer than
-- 2^16.
pub decode_clustering-encode_clustering_prefix :
    (columns : List ClusteringColumnSpec) (vals : List ColumnValue) (src : Bytes)
    → AreKey columns vals
    → encode_clustering_prefix columns vals ≡ some src
    → length src < 2 ^ 16
    → decode_clustering columns src 0 ≡ some vals
decode_clustering-encode_clustering_prefix columns vals src h e short =
    decode_clustering-at src short columns vals 0 h (omega arith)
      (same_bytes (sym e ∙ encode_clustering_prefix-AreKey columns vals h))
