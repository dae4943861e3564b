-- ===== src/Tests.antt =====
-- Runs of the models, and the theorems at concrete inputs.
pub mod Samples
mod Bopomofo
mod Composition
mod Input
mod Text
mod Wire
mod Symbol
mod Phrases
mod Sessions
