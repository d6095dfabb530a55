-- ===== src/Core.antt =====
-- core/: the storage layer and the containers that both servers share.
pub mod Text
pub mod Strings
pub mod RingFifo
pub mod CappedArray
pub mod DynamicMap
pub mod Blob
pub mod Le64
pub mod Index
pub mod BTree
