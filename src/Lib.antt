-- ===== src/Lib.antt =====
-- plexdb: the server of keys and values, the parts of the core library under it, and the values of
-- the server that speaks the Cassandra protocol.
--
-- A client sends requests in the Redis protocol. keyvalue/parsers reads a statement from the bytes
-- that have arrived; keyvalue/engine executes it on an index, from the hash of a key to the id of a
-- blob, and a table of blobs, each with one entry; keyvalue/resp writes the result as bytes. KEYS
-- and SCAN call the matcher of keyvalue/glob. The table is DynamicMap and the blobs are
-- BlobInMemory, both of the core library.
--
-- Keyvalue/Glob models keyvalue/glob/glob.cpp: match, with its two loops as `loop` and one turn of
-- the first as `round`. Keyvalue/Statement models keyvalue/engine/statements.cppm. Keyvalue/Parser
-- models keyvalue/parsers/parsers.cpp: a pointer into the buffer is the list of the bytes from it
-- to the end, *consumed is a part of the answer, and Keyvalue/Outcome has the three results with
-- two more, for undefined behaviour and for assert_not_implemented; Keyvalue/Parser/Args has arg_eq
-- and build_from_args. Keyvalue/Entry and Keyvalue/Reply model write_blob, blob_read_key,
-- blob_read_value and ExecutionResult of keyvalue/engine/engine.cppm, and Keyvalue/Engine its
-- InMemoryEngine with execute, a function from an engine and a statement to the result and the next
-- engine, or to none, which is a null pointer that is read or a failed assertion. Keyvalue/Protocol
-- models keyvalue/resp/resp.protocol.cpp: a writer gives the longer buffer.
-- Core/DynamicMap models DynamicMap of core/dynamic/containers.cppm, Core/Blob the functions of
-- core/blob/blob.cppm over core/blob/implementations/blob.in_memory.cppm, Core/Le64 a U64 seen as
-- bytes, Core/Text what the server uses of core/base/string.cpp, Core/Strings the comparisons and
-- the searches of that file, and Core/RingFifo and Core/CappedArray two containers of
-- core/base/containers.cppm.
--
-- The server under cql/ keeps rows of typed columns. A partition is found by the token of its key;
-- rows in it are in the order of their clustering columns; and the bytes of a row are those of its
-- metadata, of the mask of its columns and of their values. Cql/Token models cql/engine/token.cpp.
-- Cql/Types and Cql/Value model the types of cql/engine/types.cppm, their names, and ColumnValue of
-- cql/engine/column_value.cppm. Cql/Compare, Cql/Magnitude and Cql/Order model the comparisons of
-- cql/engine/column_value.cpp: of scalars, bytes and UUIDs, of integers and decimals of any length,
-- and compare_column_value over them. Cql/Wire has the bytes that a Reader and a Writer pass, and
-- Cql/Codec models cql/engine/generated/io_codec_wire.cpp: reading, skipping, writing and defaults
-- of the basic types. Its children model cql/engine/generated/io_codec_sync.cpp (Sync), and of
-- cql/engine/io.codec.cpp the null masks (Mask), values with values in them (Nested, Write), and
-- the metadata of rows and cells (Meta). Cql/Clustering models cql/engine/clustering_compare.cpp
-- and, of cql/engine/key.cpp, the bytes of clustering keys; Cql/Partition models
-- cql/engine/generated/token_wire.cpp and the token of a partition key of cql/engine/key.cpp. A
-- coroutine is a function here: a Reader gives the bytes or stops, and skips bytes without a test
-- that they are there. An F32 and an F64 are their bits.
--
-- The code outside of the repository is the record External of Core/Text: the hash, the formatting
-- and the reading of decimals, an argument of what uses it; Core/Text/Sample is a concrete one. What
-- the engine uses of the B-tree of core/btree is the record Index of Core/Index, with its laws.
-- Core/BTree models the tree of btree.algorithm.cppm and btree.node.cppm as long as it is one leaf,
-- and Core/BTree/Laws proves the laws for it. Keyvalue/Engine is over any Index, and
-- Keyvalue/Engine/InMemory takes the leaf for it, with its 32 pairs in a node of 544 bytes.
--
-- Numbers are natural numbers. A U64 that the code adds to wraps at 2 ^ 64 where the model writes
-- `% 2 ^ 64`; sizes of data in memory are taken to be below that. The matcher has fuel (length key
-- + 2) * (length pattern + 1): a place of the pattern meets a byte of the key once. The loops of a
-- blob have one round for each byte and one more. A client of SCAN that follows the cursors has a
-- page for each pair of the index and one more. The walk over the blocks of a hash has a round for
-- each byte, of which it needs one in sixteen, and the bytes that grow in front of a magnitude as
-- many rounds as the carry, which each makes smaller. A binary search has as many rounds as its
-- interval has slots, of which it needs the logarithm.
--
-- Not modelled: PagedEngine with the pager and its log, coroutines, sockets, the log output, the
-- command line, a B-tree of more than one leaf, with its splits, transfers and merges; of cql/, the
-- values that are sets and maps, whose bytes are in the order of a hash table, the text and the
-- hash of values, and the parsers, the planner, the schema, the engine and the native protocol,
-- which are to follow.
pub mod Prelude
pub mod Core
pub mod Keyvalue
pub mod Cql
