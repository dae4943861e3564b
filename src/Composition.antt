-- ===== src/Composition.antt =====
-- The composition buffer, engine/src/buffer/composition_buffer.cpp: the segments being composed, the
-- caret between them, and the operations that type, edit, mark and choose.
pub mod Segment
pub mod Buffer
pub mod Typing
pub mod Editing
pub mod Candidates
pub mod Views
pub mod Validity
pub mod Ahead
pub mod RollBack
pub mod Overrides
pub mod Erasing
pub mod Session
