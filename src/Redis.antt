-- ===== src/Redis.antt =====
-- src/protocol/redis/proto_redis.c: the parsers of Redis messages.
pub mod Command
pub mod Table
pub mod Names
pub mod Handle
pub mod Data
pub mod Request
pub mod Response
pub mod Encode
pub mod Steps
pub mod Lines
pub mod RoundTrip
pub mod Whole
pub mod Replies
pub mod Protocol
pub mod Bounds
pub mod Kinds
