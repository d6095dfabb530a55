-- ===== src/Cql.antt =====
-- cql/: the server that speaks the Cassandra protocol.
pub mod Types
pub mod Value
pub mod Compare
pub mod Magnitude
pub mod Order
pub mod Wire
pub mod Codec
pub mod Clustering
pub mod Partition
pub mod Token
