-- ===== src/Phrases.antt =====
-- The store of phrase overrides: engine/src/phrase_override/phrase_override_store.cpp.
pub mod Dashes
pub mod Lines
pub mod Store
pub mod Reading
pub mod Keys
pub mod Promise
pub mod Refinement
