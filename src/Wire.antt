-- ===== src/Wire.antt =====
-- The messages between the input method and the inference service: engine/src/protocol and
-- ime-unix-service/src/pipe/protocol.cpp.
pub mod Messages
pub mod Reading
pub mod Characters
pub mod Fields
pub mod Entries
pub mod Encode
pub mod Decode
pub mod Results
pub mod Decoded
pub mod RoundTrip
