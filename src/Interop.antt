-- ===== src/Interop.antt =====
-- The codecs of the engine, engine/src/protocol/protocol.cpp, and of the inference service,
-- ime-unix-service/src/pipe/protocol.cpp, against each other.
pub mod Characters
pub mod Fields
pub mod Writers
pub mod Readers
pub mod Encode
pub mod Exchange
pub mod Consumption
pub mod Decode
