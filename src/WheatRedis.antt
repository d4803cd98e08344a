-- ===== src/WheatRedis.antt =====
-- src/app/wheatredis: the proxy in front of several Redis servers.
pub mod Hash
pub mod Config
pub mod Counts
pub mod Fair
pub mod Shuffle
pub mod Fill
pub mod Populate
pub mod Init
pub mod Choose
pub mod Best
pub mod Picks
pub mod Requests
pub mod Timeout
