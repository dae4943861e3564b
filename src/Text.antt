-- ===== src/Text.antt =====
-- Text encodings and context sampling: engine/src/text/utf.cpp and engine/src/context.
pub mod Utf8
pub mod Utf16
pub mod Sampler
pub mod Adoption
