-- ===== src/Wire/Decoded.antt =====
-- What the decoders of engine/src/protocol/protocol.cpp promise.
pub mod Identifiers
pub mod Fields
pub mod Bodies
pub mod Messages
