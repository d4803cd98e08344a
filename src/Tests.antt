-- ===== src/Tests.antt =====
-- Runs at concrete inputs, and each theorem with conditions at an input that meets them.
mod Buffers
mod Arrays
mod Numbers
mod Requests
mod Receiving
mod Memcached
mod Proxy
mod Sending
mod Clients
mod Handling
mod Statistics
mod Replies
