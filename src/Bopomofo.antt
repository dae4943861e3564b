-- ===== src/Bopomofo.antt =====
-- The bopomofo component, engine/src/bopomofo: syllables, the two keyboard layouts and the
-- key dispatch.
pub mod Symbols
pub mod Syllable
pub mod Standard
pub mod Hsu
pub mod Keymap
