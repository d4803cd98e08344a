-- ===== src/Memcache.antt =====
-- src/protocol/memcache/proto_memcache.c: the parser of Memcache requests.
pub mod Data
pub mod Request
pub mod Loop
pub mod Falls
pub mod Ends
pub mod Gives
pub mod Words
pub mod Numbers
pub mod Values
pub mod Encode
pub mod Lines
pub mod RoundTrip
pub mod Delete
pub mod Arithmetic
pub mod Retrieval
pub mod Protocol
