-- ===== src/Cql/Types.antt =====
-- cql/engine/types.cppm and cql/engine/types.cpp: the types of columns, their names, and the
-- values of the basic types. A set and a map type are left out, as in the codec. The definition
-- that a UDT* points to stands in its place, so that the pointer is not null.
use plexdb.Prelude.{ℕ, Bool, List, [], ◌∷◌, ◌++◌}
use plexdb.Prelude.Int.{ℤ}
use plexdb.Core.Text.{Bytes, bytes}

-- `count` is COUNT, the number of the others.
pub data Basic : Type 0 where
  ascii bigint blob boolean counter date decimal double_ duration float_ inet : Basic
  int_ smallint text time timestamp timeuuid tinyint uuid varchar varint hex count : Basic

mutual
  pub data ColumnType : Type 0 where
    basic : Basic → ColumnType
    list : ColumnType → Bool → ColumnType
    vector : ColumnType → ℕ → Bool → ColumnType
    tuple : ColumnTypes → Bool → ColumnType
    udt : Bytes → Bytes → List Bytes → ColumnTypes → ColumnType

  -- An array of types.
  pub data ColumnTypes : Type 0 where
    no_types : ColumnTypes
    a_type : ColumnType → ColumnTypes → ColumnTypes

-- The magnitude has its high byte first.
pub record VarInt : Type 0 where
  pub negative : Bool
  pub magnitude : Bytes

pub record Decimal : Type 0 where
  pub scale : ℤ
  pub unscaled : VarInt

pub record Duration : Type 0 where
  pub months : ℤ
  pub days : ℤ
  pub nanoseconds : ℤ

-- The address has four bytes, or 16 when it is a v6.
pub record Inet : Type 0 where
  pub is_v6 : Bool
  pub address : Bytes

-- to_str(type::Basic)
pub basic_to_str : Basic → Bytes
basic_to_str Basic.text = bytes "text"
basic_to_str Basic.int_ = bytes "int"
basic_to_str Basic.bigint = bytes "bigint"
basic_to_str Basic.smallint = bytes "smallint"
basic_to_str Basic.counter = bytes "counter"
basic_to_str Basic.timestamp = bytes "timestamp"
basic_to_str Basic.boolean = bytes "boolean"
basic_to_str Basic.float_ = bytes "float"
basic_to_str Basic.double_ = bytes "double"
basic_to_str Basic.uuid = bytes "uuid"
basic_to_str Basic.ascii = bytes "ascii"
basic_to_str Basic.blob = bytes "blob"
basic_to_str Basic.date = bytes "date"
basic_to_str Basic.decimal = bytes "decimal"
basic_to_str Basic.duration = bytes "duration"
basic_to_str Basic.inet = bytes "inet"
basic_to_str Basic.time = bytes "time"
basic_to_str Basic.timeuuid = bytes "timeuuid"
basic_to_str Basic.tinyint = bytes "tinyint"
basic_to_str Basic.varchar = bytes "varchar"
basic_to_str Basic.varint = bytes "varint"
basic_to_str Basic.hex = bytes "hex"
basic_to_str Basic.count = bytes "unknown"

mutual
  -- to_str(type::Type)
  pub to_str : ColumnType → Bytes
  to_str (ColumnType.basic v) = basic_to_str v
  to_str (ColumnType.list element frozen) = bytes "list<" ++ to_str element ++ bytes ">"
  to_str (ColumnType.vector element n frozen) = bytes "vector[" ++ to_str element ++ bytes "]"
  to_str (ColumnType.tuple elements frozen) =
      bytes "tuple<" ++ elements_to_str elements ++ bytes ">"
  to_str (ColumnType.udt [] name fields types) = name
  to_str (ColumnType.udt (c ∷ keyspace) name fields types) = (c ∷ keyspace) ++ bytes "." ++ name

  -- The loop over the elements of a tuple.
  elements_to_str : ColumnTypes → Bytes
  elements_to_str ColumnTypes.no_types = []
  elements_to_str (ColumnTypes.a_type t ts) = to_str t ++ more_to_str ts

  more_to_str : ColumnTypes → Bytes
  more_to_str ColumnTypes.no_types = []
  more_to_str (ColumnTypes.a_type t ts) = bytes ", " ++ to_str t ++ more_to_str ts
