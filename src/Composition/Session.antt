-- ===== src/Composition/Session.antt =====
-- Sessions over class `CompositionBuffer`: its public mutators as actions, and any sequence of them
-- (engine/src/buffer/composition_buffer.hpp).
pub mod Revision
pub mod Staleness
use ime_fcitx.Prelude.{
  ℕ, ◌+◌, ◌≡◌, ◌≤◌, Bool, true, false, not, ◌||◌, ◌==◌, length, if◌then◌else◌, Option, none, some,
  List, [], ◌∷◌, Bool-cases, Option-cases, inl, inr, arith,
}
use ime_fcitx.Bopomofo.Keymap.{KeyboardLayout}
use ime_fcitx.Composition.Buffer.{Buffer, new}
use ime_fcitx.Composition.Typing.{add_bopomofo, add_bopomofo_key, add_bopomofo_keys, add_literal}
use ime_fcitx.Composition.Editing.{
  Delta, backspace, delete_forward, move_cursor_left, move_cursor_right, extend_selection,
  clear_selection, clear, clear_unfinished_reading, remove_segment,
}
use ime_fcitx.Composition.Candidates.{
  set_segment_candidates, refresh_segment_candidates, apply_phrase_override,
  apply_phrase_override_all, clear_phrase_override_choices, select_candidate,
  cancel_candidate_selection,
}
use ime_fcitx.Composition.RollBack.{add_bopomofo_keys-IsValidBuffer}
use ime_fcitx.Composition.Validity.{IsValidBuffer, new-IsValidBuffer}
use ime_fcitx.Composition.Validity.Typing.{
  add_bopomofo-IsValidBuffer, add_bopomofo_key-IsValidBuffer, add_literal-IsValidBuffer,
}
use ime_fcitx.Composition.Validity.Editing.{
  backspace-IsValidBuffer, delete_forward-IsValidBuffer, move_cursor_left-IsValidBuffer,
  move_cursor_right-IsValidBuffer, extend_selection-IsValidBuffer, clear_selection-IsValidBuffer,
  clear-IsValidBuffer, clear_unfinished_reading-IsValidBuffer, remove_segment-IsValidBuffer,
}
use ime_fcitx.Composition.Validity.Choosing.{
  set_segment_candidates-IsValidBuffer, refresh_segment_candidates-IsValidBuffer,
  apply_phrase_override-IsValidBuffer, clear_phrase_override_choices-IsValidBuffer,
  select_candidate-IsValidBuffer, cancel_candidate_selection-IsValidBuffer,
}

pub data Action : Type 0 where
  bopomofo literal : ℕ → Action
  key : ℕ → KeyboardLayout → Bool → Action
  keys : List ℕ → ℕ → KeyboardLayout → Bool → Action
  back forward left right unmark wipe wipe_unfinished : Action
  extend : Delta → Action
  remove cancel : ℕ → Action
  set_candidates : ℕ → List ℕ → Bool → Action
  refresh : ℕ → List ℕ → Action
  override : ℕ → List ℕ → Action
  override_all : List ℕ → Action
  clear_override : ℕ → ℕ → Action
  select : ℕ → ℕ → Bool → Action

unfoldable pub act : Action → Buffer → Buffer
act (bopomofo c) b = (add_bopomofo c b).0
act (literal c) b = (add_literal c b).0
act (key k layout upper) b = (add_bopomofo_key k layout upper b).0
act (keys ks tone layout strict) b = (add_bopomofo_keys ks tone layout strict b).0
act back b = (backspace b).0
act forward b = (delete_forward b).0
act left b = (move_cursor_left b).0
act right b = (move_cursor_right b).0
act unmark b = (clear_selection b).0
act wipe b = clear b
act wipe_unfinished b = (clear_unfinished_reading b).0
act (extend delta) b = (extend_selection delta b).0
act (remove i) b = (remove_segment i b).0
act (cancel i) b = (cancel_candidate_selection i b).0
act (set_candidates i cs keep) b = (set_segment_candidates i cs keep b).0
act (refresh i cs) b = (refresh_segment_candidates i cs b).0
act (override offset phrase) b = (apply_phrase_override offset phrase b).0
act (override_all phrase) b = (apply_phrase_override_all phrase b).0
act (clear_override offset count) b = (clear_phrase_override_choices offset count b).0
act (select i c move) b = (select_candidate i c move b).0

unfoldable pub run : List Action → Buffer → Buffer
run [] b = b
run (a ∷ rest) b = run rest (act a b)

override_all-IsValidBuffer :
    (phrase : List ℕ) {b : Buffer}
    → IsValidBuffer b
    → IsValidBuffer (apply_phrase_override_all phrase b).0
unfolding apply_phrase_override_all
override_all-IsValidBuffer phrase v = ground (arith, apply_phrase_override-IsValidBuffer v 0 phrase)

pub act-IsValidBuffer : (a : Action) {b : Buffer} → IsValidBuffer b → IsValidBuffer (act a b)
unfolding act
act-IsValidBuffer (bopomofo c) v = add_bopomofo-IsValidBuffer c v
act-IsValidBuffer (literal c) v = add_literal-IsValidBuffer c v
act-IsValidBuffer (key k layout upper) v = add_bopomofo_key-IsValidBuffer layout k upper v
act-IsValidBuffer (keys ks tone layout strict) v =
    add_bopomofo_keys-IsValidBuffer ks tone layout strict v
act-IsValidBuffer back v = backspace-IsValidBuffer v
act-IsValidBuffer forward v = delete_forward-IsValidBuffer v
act-IsValidBuffer left v = move_cursor_left-IsValidBuffer v
act-IsValidBuffer right v = move_cursor_right-IsValidBuffer v
act-IsValidBuffer unmark v = clear_selection-IsValidBuffer v
act-IsValidBuffer wipe v = clear-IsValidBuffer v
act-IsValidBuffer wipe_unfinished v = clear_unfinished_reading-IsValidBuffer v
act-IsValidBuffer (extend delta) v = extend_selection-IsValidBuffer v delta
act-IsValidBuffer (remove i) v = remove_segment-IsValidBuffer v i
act-IsValidBuffer (cancel i) v = cancel_candidate_selection-IsValidBuffer v i
act-IsValidBuffer (set_candidates i cs keep) v = set_segment_candidates-IsValidBuffer v i cs keep
act-IsValidBuffer (refresh i cs) v = refresh_segment_candidates-IsValidBuffer v i cs
act-IsValidBuffer (override offset phrase) v = apply_phrase_override-IsValidBuffer v offset phrase
act-IsValidBuffer (override_all phrase) v = override_all-IsValidBuffer phrase v
act-IsValidBuffer (clear_override offset count) v =
    clear_phrase_override_choices-IsValidBuffer v offset count
act-IsValidBuffer (select i c move) v = select_candidate-IsValidBuffer v i c move

-- From a valid buffer, such as the empty one, every sequence of operations, with any arguments, leaves
-- a valid buffer.
pub run-IsValidBuffer :
    (actions : List Action) {b : Buffer} → IsValidBuffer b → IsValidBuffer (run actions b)
unfolding run
run-IsValidBuffer [] v = v
run-IsValidBuffer (a ∷ rest) v = run-IsValidBuffer rest (act-IsValidBuffer a v)
