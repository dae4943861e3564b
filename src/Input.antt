-- ===== src/Input.antt =====
-- The input layer, engine/src/input: the state of the editor, the candidate list, the keypad keys and the
-- bookkeeping of predictions.
pub mod View
pub mod State
pub mod Keypad
pub mod Prediction
