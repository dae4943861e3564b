-- ===== src/Wire/RoundTrip.antt =====
-- Every message that `encode` of engine/src/protocol/protocol.cpp accepts is read back by `decode`.
pub mod Fields
pub mod Repeats
pub mod Sizes
pub mod Entries
pub mod Payload
pub mod Requests
pub mod Responses
pub mod Messages
