-- ===== src/Input/State.antt =====
-- The states of the editor and the choice of an escape, engine/src/input/input_state.hpp.
use ime_fcitx.Prelude.{◌≡◌, refl, Bool, true, false, ◌&&◌, List, [], ◌∷◌, if◌then◌else◌, arith}
use mathlib.Core.List.{Memᴰ}

pub data InputStateKind : Type 0 where
  empty inputting choosing_candidate : InputStateKind

abbrev pub same_kind : InputStateKind → InputStateKind → Bool
same_kind empty empty = true
same_kind inputting inputting = true
same_kind choosing_candidate choosing_candidate = true
same_kind _ _ = false

abbrev is_empty : InputStateKind → Bool
is_empty empty = true
is_empty _ = false

abbrev is_inputting : InputStateKind → Bool
is_inputting inputting = true
is_inputting _ = false

unfoldable pub valid_input_state_transition : InputStateKind → InputStateKind → Bool
valid_input_state_transition from to =
    if same_kind from to
    then true
    else if is_empty to
    then true
    else if is_empty from
    then is_inputting to
    else true

-- A state is its kind: the three state structs have no members.
unfoldable pub transition_input_state : InputStateKind → InputStateKind → InputStateKind × Bool
unfolding valid_input_state_transition
transition_input_state current next =
    if valid_input_state_transition current next then (next, true) else (current, false)

-- Any requests, one after the other.
unfoldable pub request_all : InputStateKind → List InputStateKind → InputStateKind
request_all current [] = current
request_all current (next ∷ rest) = request_all (transition_input_state current next).0 rest

pub data EscapeAction : Type 0 where
  keep_buffer clear_buffer close_candidate_list clear_unfinished_reading : EscapeAction
  cancel_candidate_selection : EscapeAction

unfoldable pub escape_action : Bool → InputStateKind → Bool → Bool → Bool → EscapeAction
escape_action clear_entire_buffer state has_candidates has_unfinished_reading has_manual_choice =
    if clear_entire_buffer
    then clear_buffer
    else if same_kind state choosing_candidate && has_candidates
    then close_candidate_list
    else if has_unfinished_reading
    then clear_unfinished_reading
    else if has_manual_choice
    then cancel_candidate_selection
    else keep_buffer

-- A request is refused in one case: to choose from a list while nothing is composed.
transition_refused :
    (current next : InputStateKind)
    → (transition_input_state current next).1 ≡ false
    → (current ≡ empty)
      × (next ≡ choosing_candidate)
      × ((transition_input_state current next).0 ≡ current)
unfolding transition_input_state
transition_refused current next h = ground arith

-- Whatever is requested from the idle state, the list is open only if composing was requested before.
choosing_needs_inputting :
    (requests : List InputStateKind)
    → request_all empty requests ≡ choosing_candidate
    → Memᴰ inputting requests
unfolding request_all transition_input_state
choosing_needs_inputting [] h = cc
choosing_needs_inputting (empty ∷ rest) h = Memᴰ.tail (choosing_needs_inputting rest h)
choosing_needs_inputting (inputting ∷ rest) h = Memᴰ.head refl
choosing_needs_inputting (choosing_candidate ∷ rest) h = Memᴰ.tail (choosing_needs_inputting rest h)
