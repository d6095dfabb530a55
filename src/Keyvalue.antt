-- ===== src/Keyvalue.antt =====
-- keyvalue/: the server that speaks the Redis protocol.
pub mod Glob
pub mod Statement
pub mod Outcome
pub mod Parser
pub mod Entry
pub mod Reply
pub mod Protocol
pub mod Engine
