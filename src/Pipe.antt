-- ===== src/Pipe.antt =====
-- The codec of the inference service, ime-unix-service/src/pipe/protocol.cpp. The messages are those of
-- Wire.Messages, which ime-unix-service/src/pipe/protocol.hpp declares in the same way.
pub mod Characters
pub mod Fields
pub mod Entries
pub mod Encode
pub mod Decode
